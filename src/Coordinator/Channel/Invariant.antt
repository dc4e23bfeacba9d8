-- ===== src/Coordinator/Channel/Invariant.antt =====
-- What holds of a coordinator at any time, whoever calls it.
use konk.Base.{ℕ, List, [], ◌∷◌, ◌≡◌, some, sym, subst}
use konk.Base.Dict.{lookup}
use konk.Nymph.Client.{Transport}
use konk.Coordinator.LocationDb.{Location, location_eq}
use konk.Coordinator.NymphSet.Bits.{BitSet, IsLawful}
use konk.Coordinator.Control.{Control, new_control}
use konk.Coordinator.Control.Invariant.{IsValid, new_control-IsValid, handle-IsValid}
use konk.Coordinator.Channel.{Request, System, fresh_system, Run, here}
use konk.Coordinator.Channel.Laws.{Log, after, requests-Accounts}

module _ (B : BitSet) (L : IsLawful B) (T : Transport) where
  after-IsValid : (c : Control B) (log : Log B T) → IsValid B c → IsValid B (after B T c log)
  after-IsValid c [] v = v
  after-IsValid c ((w, r) ∷ log) v =
      handle-IsValid B L T (after B T c log) w r.args r.reply (after-IsValid c log v)

  Run-IsValid :
      {w : T.World} {rs : List Request} {s : System B T}
      → Run B T (fresh_system B T (new_control B T) w) rs s
      → IsValid B s.control
  Run-IsValid run =
      let (log, _, v, _) = requests-Accounts B T (new_control B T) run here in
      subst (IsValid B) (sym v.control)
        (after-IsValid (new_control B T) log (new_control-IsValid B L T))

  -- Over a lawful bit set, in every state that a fresh coordinator can reach, whoever calls it and in
  -- whatever order the calls and the loop take their steps, no two registered nymphs have the same
  -- identifier.
  pub distinct_ids :
      {w : T.World} {rs : List Request} {s : System B T}
      → Run B T (fresh_system B T (new_control B T) w) rs s
      → (a b : Location) (i : ℕ) → lookup a s.control.nymph_set.set ≡ some i
      → lookup b s.control.nymph_set.set ≡ some i
      → a ≡ b
  distinct_ids run = (Run-IsValid run).nymphs.distinct
