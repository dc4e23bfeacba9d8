-- ===== src/Coordinator/NymphSet/Laws.antt =====
-- Identifiers are fresh when they are given out, and no two registered nymphs share one.
use konk.Base.{
  ℕ, ◌≡◌, Bool, true, false, Option, none, some, arith, inl, inr, if◌then◌else◌, nat_beq, ◌==◌,
  Option-cases, ◌≢◌, ◌↔◌,
}
use konk.Base.Dict.{
  lookup, insert, NodupKeys, insert-NodupKeys, erase-NodupKeys, lookup-insert, lookup-erase,
}
use konk.Coordinator.LocationDb.{Location, location_eq}
use konk.Coordinator.NymphSet.Bits.{BitSet, IsLawful, count_below_full}
use konk.Coordinator.NymphSet.{NymphSet, new_nymph_set, next_id, add, del}

module _ (B : BitSet) where
  -- The identifier of every registered nymph is in use, and belongs to one nymph only.
  pub record IsValid (n : NymphSet B) : Type 0 where
    pub nodup : NodupKeys n.set
    pub active : (a : Location) (i : ℕ) → lookup a n.set ≡ some i → B.test n.active_ids i ≡ true
    pub distinct :
        (a b : Location) (i : ℕ) → lookup a n.set ≡ some i → lookup b n.set ≡ some i → a ≡ b

-- Whether the identifier on record is `j`.
abbrev pub holds : Option ℕ → ℕ → Bool
holds none j = false
holds (some i) j = nat_beq i j

module _ (B : BitSet) (L : IsLawful B) where
  pub new_nymph_set-IsValid : IsValid B (new_nymph_set B)
  new_nymph_set-IsValid = record { nodup = tt; active = λ a i e. cc; distinct = λ a b i e f. cc }

  count_full : (s : B.Bits) → B.next_clear 0 s ≡ none → B.test s (B.count s) ≡ false
  count_full s e = L.test_above (B.count s) s (
      omega (
        arith,
        L.count_lem s,
        count_below_full (B.test s) (B.len s) (λ j l. L.next_clear_none 0 j s e (omega arith) l),
      ))

  -- An identifier that `Add` picks was not in use.
  pub next_id_free : (s : B.Bits) → B.test s (next_id B s) ≡ false
  next_id_free s = elim (Option-cases (B.next_clear 0 s)) [
    | inl e ↦ rw (e, next_id) (count_full s e)
    | inr (i, e) ↦ rw (e, next_id) (L.next_clear_some 0 i s e)
  ]

  pub add-IsValid : (n : NymphSet B) (a : Location) → IsValid B n → IsValid B (add B n a).0
  unfolding add
  add-IsValid n a v = record {
    nodup = insert-NodupKeys a (next_id B n.active_ids) n.set v.nodup;
    active = λ b i e. ground (
      arith,
      lookup-insert b a (next_id B n.active_ids) n.set,
      L.test-set (next_id B n.active_ids) i n.active_ids,
      v.active b i,
    );
    distinct = λ b c i e f. ground (
      arith,
      lookup-insert b a (next_id B n.active_ids) n.set,
      lookup-insert c a (next_id B n.active_ids) n.set,
      v.active b i,
      v.active c i,
      v.distinct b c i,
      next_id_free n.active_ids,
    );
  }

  pub del-IsValid : (n : NymphSet B) (a : Location) → IsValid B n → IsValid B (del B n a).0
  unfolding del
  del-IsValid n a v = elim (Option-cases (lookup a n.set)) [
    | inl e ↦ rw (e, del) v
    | inr (i, e) ↦
        rw (e, del)
          (record {
            nodup = erase-NodupKeys a n.set v.nodup;
            active = λ b j f. ground (
              arith,
              lookup-erase b a n.set v.nodup,
              L.test-clear i j n.active_ids,
              v.active b j,
              v.distinct a b i,
            );
            distinct = λ b c j f g. ground (
              arith,
              lookup-erase b a n.set v.nodup,
              lookup-erase c a n.set v.nodup,
              v.distinct b c j,
            );
          })
  ]

  -- In a valid set over a lawful bit set, `Add` gives the location an identifier that no registered
  -- nymph holds, and leaves every other registration as it was.
  add_fresh :
      (n : NymphSet B) (a b : Location)
      → IsValid B n
      → let (m, id) = add B n a in
        (lookup b m.set ≡ (if b == a then some id else lookup b n.set)) × (lookup b n.set ≢ some id)
  unfolding add
  add_fresh n a b v = (
    lookup-insert b a (next_id B n.active_ids) n.set,
    λ e. ground (arith, next_id_free n.active_ids, v.active b (next_id B n.active_ids) e),
  )

  -- In a valid set over a lawful bit set, `Del` reports whether the location was registered,
  -- removes that registration and no other, and frees the identifier of the location and no other.
  pub del_lem :
      (n : NymphSet B) (a b : Location) (j : ℕ)
      → IsValid B n
      → let (m, found) = del B n a in
        (found ≡ true ↔ lookup a n.set ≢ none)
        × (lookup b m.set ≡ (if b == a then none else lookup b n.set))
        × (B.test m.active_ids j
            ≡ (if holds (lookup a n.set) j then false else B.test n.active_ids j))
  unfolding del
  del_lem n a b j v = elim (Option-cases (lookup a n.set)) [
    | inl e ↦ ground arith
    | inr (i, e) ↦ ground (arith, lookup-erase b a n.set v.nodup, L.test-clear i j n.active_ids)
  ]

  -- In a valid set over a lawful bit set, when a registered nymph registers again and is then
  -- removed, the set knows it no more, but the bit of its first identifier is still set.
  pub add_again_leaks :
      (n : NymphSet B) (a : Location) (i : ℕ)
      → IsValid B n
      → lookup a n.set ≡ some i
      → let (m, _) = del B (add B n a).0 a in
        (lookup a m.set ≡ none) × (B.test m.active_ids i ≡ true)
  unfolding del add
  add_again_leaks n a i v e = ground (
    arith,
    lookup-insert a a (next_id B n.active_ids) n.set,
    lookup-erase a a (insert a (next_id B n.active_ids) n.set)
        (insert-NodupKeys a (next_id B n.active_ids) n.set v.nodup),
    L.test-clear (next_id B n.active_ids) i (B.set (next_id B n.active_ids) n.active_ids),
    L.test-set (next_id B n.active_ids) i n.active_ids,
    v.active a i e,
    next_id_free n.active_ids,
  )
