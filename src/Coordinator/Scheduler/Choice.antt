-- ===== src/Coordinator/Scheduler/Choice.antt =====
-- What the scheduler decides in a round.
use konk.Base.{
  ◌∙◌, ℕ, ◌+◌, ◌%◌, ◌≤◌, ◌<◌, ◌≡◌, ◌≢◌, refl, ◌⊎◌, Bool, true, none, some, List, [], ◌∷◌, length,
  get_elem?, int_eq, arith, inl, inr, Option-cases, suc, zero, Eq,
}
use konk.Base.Dict.{Dict, keys, insert, lookup, NodupKeys, lookup-insert}
use konk.Container.Types.{Rank, migrate}
use konk.Coordinator.LocationDb.{Location, location_eq, LocationDb, get}
use konk.Coordinator.NymphSet.Bits.{BitSet}
use konk.Coordinator.NymphSet.Laws as NymphLaws
use konk.Coordinator.NymphSet.{NymphSet, get_nymphs}
use konk.Coordinator.Scheduler.{
  get_ranks, remove_location, idle, panic, request, pick, attempt, tick, rank_set,
}

abbrev In : {A : Type 0} → A → List A → Type 0
In x [] = ⊥
In x (y ∷ ys) = (x ≡ y) ⊎ In x ys

get_elem?-In :
    {A : Type 0} (xs : List A) (i : ℕ)
    → i < length xs
    → (x : A) × (get_elem? xs i ≡ some x) × In x xs
get_elem?-In [] i h = absurd (omega arith)
get_elem?-In (x ∷ xs) zero h = (x, refl, inl refl)
get_elem?-In (x ∷ xs) (suc i) h = let (y, e, m) = get_elem?-In xs i (omega arith) in (y, e, inr m)

pick-In :
    {A : Type 0} (r : ℕ) (xs : List A) → 0 < length xs → (x : A) × (pick r xs ≡ some x) × In x xs
unfolding pick
pick-In r xs h =
    let (x, e, m) = get_elem?-In xs (r % length xs) (grind arith) in (x, ground arith, m)

In-keys : {K V : Type 0} ⦃e : Eq K⦄ (q : K) (d : Dict K V) → In q (keys d) → lookup q d ≢ none
In-keys q [] m = absurd m
In-keys q ((k, v) ∷ d) m = ground (arith, In-keys q d)

In-rank_set :
    (q : Rank) (db : Dict Rank Location) (ranks : Dict Rank Bool)
    → In q (keys (rank_set db ranks))
    → (lookup q ranks ≢ none) ⊎ (lookup q db ≢ none)
In-rank_set q [] ranks m = inl (In-keys q ranks m)
In-rank_set q ((k, l) ∷ db) ranks m =
    ground (arith, In-rank_set q db (insert k true ranks) m, lookup-insert q k true ranks)

In-get_ranks :
    (l : LocationDb) (q : Rank) → In q (get_ranks l) → (loc : Location) × (get l q ≡ some loc)
unfolding get_ranks get
In-get_ranks l q m = elim (Option-cases (lookup q l.db)) [
  | inl e ↦ ground (arith, In-rank_set q l.db [] m)
  | inr (loc, e) ↦ (loc, e)
]

length-remove_location :
    (ls : List Location) (src : Location) → length ls ≤ length (remove_location ls src) + 1
unfolding remove_location
length-remove_location [] src = omega arith
length-remove_location (l ∷ ls) src = ground (arith, length-remove_location ls src)

-- A candidate that is left is registered, and is not the source.
In-remove_location :
    (d : Dict Location ℕ) (src x : Location)
    → NodupKeys d
    → In x (remove_location (keys d) src)
    → (lookup x d ≢ none) × (x ≢ src)
unfolding remove_location
In-remove_location [] src x u m = absurd m
In-remove_location ((k, v) ∷ d) src x u m =
    ground (arith, In-remove_location d src x u.1, In-keys x d)

attempt_sound :
    (ranks : List Rank) (l : LocationDb) (d : Dict Location ℕ) (r s : ℕ)
    → ((q : Rank) → In q ranks → (loc : Location) × (get l q ≡ some loc))
    → NodupKeys d
    → 0 < length ranks
    → 2 ≤ length (keys d)
    → (q : Rank) × (src dest : Location) × (attempt ranks (keys d) l r s
        ≡ request q dest.hostname migrate)
      × (get l q ≡ some src)
      × (lookup dest d ≢ none)
      × (dest ≢ src)
unfolding attempt
attempt_sound ranks l d r s known u some_rank two =
    let (q, picked, m) = pick-In r ranks some_rank in
    let (src, at) = known q m in
    let (dest, chosen, k) =
      pick-In s (remove_location (keys d) src)
        (omega (arith, length-remove_location (keys d) src)) in
    let (registered, moves) = In-remove_location d src dest u k in
    (q, src, dest, ground arith, at, registered, moves)

tick_cases :
    (l : LocationDb) (locs : List Location) (last_len r s : ℕ)
    → ((tick l locs l last_len r s).1 ≡ idle)
      ⊎ ((0 < length (get_ranks l))
          × (2 ≤ length locs)
          × ((tick l locs l last_len r s).1 ≡ attempt (get_ranks l) locs l r s))
unfolding tick
tick_cases l locs last_len r s = ground arith

module _ (B : BitSet) where
  -- With a valid set of nymphs and a database that stays as it is during the round, the scheduler
  -- never panics. Either it does nothing, or it asks for the migration of a registered container to
  -- a registered nymph at another host than the one where the container runs.
  pub tick_sound :
      (l : LocationDb) (n : NymphSet B) (last_len r s : ℕ)
      → NymphLaws.IsValid B n
      → let (len, round) = tick l (get_nymphs B n) l last_len r s in
        (round ≡ idle)
        ⊎ ((q : Rank) × (src dest : Location) × (round ≡ request q dest.hostname migrate)
            × (get l q ≡ some src)
            × (lookup dest n.set ≢ none)
            × (dest ≢ src))
  unfolding get_nymphs
  tick_sound l n last_len r s v = elim (tick_cases l (get_nymphs B n) last_len r s) [
    | inl e ↦ inl e
    | inr (some_rank, two, e) ↦
        let (q, src, dest, f, at, registered, moves) =
          attempt_sound (get_ranks l) l n.set r s (In-get_ranks l) v.nodup some_rank two in
        inr (q, src, dest, e ∙ f, at, registered, moves)
  ]

-- If the container that was picked has left the database by the time its location is looked up, the
-- round panics: nothing keeps the control loop from handling a request in between.
attempt_panics :
    (ranks : List Rank) (locs : List Location) (current : LocationDb) (q : Rank) (r s : ℕ)
    → pick r ranks ≡ some q
    → get current q ≡ none
    → attempt ranks locs current r s ≡ panic
unfolding attempt
attempt_panics ranks locs current q r s e f = ground arith
