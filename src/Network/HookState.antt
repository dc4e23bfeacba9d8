-- ===== src/Network/HookState.antt =====
-- The state of a container that a hook reads (`specs.State`), its drivers' values in the annotations.
use konk.Base.{ℕ, String, none, some, Result, ok, err, errorf, string_eq}
use konk.Base.Dict.{Dict, lookup}

pub record State : Type 0 where
  pub status : String
  pub pid : ℕ
  pub annotations : Dict String String

-- `v, ok := state.Annotations[key]`, with the error that the caller returns.
unfoldable pub annotation : String → String → State → Result String
annotation key message s = elim (lookup key s.annotations) [
  | none ↦ err (errorf message)
  | some v ↦ ok v
]
