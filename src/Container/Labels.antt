-- ===== src/Container/Labels.antt =====
-- labels.go: the labels of a container, values of several types by their keys.
pub mod Laws
use konk.Base.{
  ℕ, String, ◌<>◌, List, [], ◌∷◌, Option, none, some, Result, ok, err, errorf, Fallible, ◌==◌,
  string_eq,
}
use konk.Base.Dict.{Dict, lookup, insert}
use konk.Container.Types.{Rank}

-- The types of values that the code puts into labels.
pub data Value : Type 0 where
  uint_value : ℕ → Value
  string_value : String → Value
  rank_value : Rank → Value

pub record Labels : Type 0 where
  pub data' : Dict String Value

abbrev pub new_labels : Labels
new_labels = record { data' = [] }

unfoldable pub add_label : String → Value → Labels → Fallible × Labels
add_label key value l = elim (lookup key l.data') [
  | some old ↦ (err (errorf "Duplicate entry: %v"), l)
  | none ↦ (ok tt, record { data' = insert key value l.data' })
]

unfoldable pub get_label_uint : String → Labels → Result ℕ
get_label_uint key l = elim (lookup key l.data') [
  | none ↦ err (errorf "Key %v not found")
  | some (uint_value n) ↦ ok n
  | some (string_value s) ↦ err (errorf "Type assertion failed at key %v")
  | some (rank_value r) ↦ err (errorf "Type assertion failed at key %v")
]

unfoldable pub get_label_string : String → Labels → Result String
get_label_string key l = elim (lookup key l.data') [
  | none ↦ err (errorf "Key %v not found")
  | some (string_value s) ↦ ok s
  | some (uint_value n) ↦ err (errorf "Type assertion failed at key %v")
  | some (rank_value r) ↦ err (errorf "Type assertion failed at key %v")
]

-- `show` is how fmt prints a value; the order is that of the range over the map.
unfoldable pub to_string_slice : (Value → String) → Dict String Value → List String
to_string_slice show [] = []
to_string_slice show ((k, v) ∷ d) = ("konk-" <> k <> "=" <> show v) ∷ to_string_slice show d
