-- ===== src/Container/Labels/Laws.antt =====
-- Labels are added once and read back with their type.
use konk.Base.{
  ℕ, String, ◌≡◌, ◌≢◌, refl, ◌⊎◌, inl, inr, none, some, ok, err, errorf, string_eq, eq_self,
  eq_of_ne, arith, Option-cases,
}
use konk.Base.Dict.{lookup, lookup-insert}
use konk.Container.Labels.{
  Value, uint_value, string_value, Labels, add_label, get_label_uint, get_label_string,
}

-- A key that is taken is refused and the labels stay as they were, the value on record included. Any
-- other key gets the value, and every other key keeps what it had.
pub add_label_lem :
    (key other : String) (value : Value) (l : Labels)
    → other ≢ key
    → let (r, l') = add_label key value l in
      ((old : Value) × (lookup key l.data' ≡ some old)
        × (r ≡ err (errorf "Duplicate entry: %v"))
        × (l' ≡ l))
      ⊎ ((lookup key l.data' ≡ none)
          × (r ≡ ok tt)
          × (lookup key l'.data' ≡ some value)
          × (lookup other l'.data' ≡ lookup other l.data'))
unfolding add_label
add_label_lem key other value l ne = elim (Option-cases (lookup key l.data')) [
  | inr (old, e) ↦ rw (e, add_label) (inl (old, refl, refl, refl))
  | inl e ↦
      rw (e, add_label)
        (inr (
          refl,
          refl,
          ground (arith, lookup-insert key key value l.data', eq_self key),
          ground (arith, lookup-insert other key value l.data', eq_of_ne ne),
        ))
]

-- A label of a type is read back as that type, and refused as the other one.
pub get_label-add_label :
    (key : String) (n : ℕ) (s : String) (l : Labels)
    → lookup key l.data' ≡ none
    → let u = (add_label key (uint_value n) l).1 in
      let t = (add_label key (string_value s) l).1 in
      (get_label_uint key u ≡ ok n)
      × (get_label_string key t ≡ ok s)
      × (get_label_string key u ≡ err (errorf "Type assertion failed at key %v"))
      × (get_label_uint key t ≡ err (errorf "Type assertion failed at key %v"))
unfolding add_label get_label_uint get_label_string
get_label-add_label key n s l e = ground (
  arith,
  lookup-insert key key (uint_value n) l.data',
  lookup-insert key key (string_value s) l.data',
  eq_self key,
)
