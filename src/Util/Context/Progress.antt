-- ===== src/Util/Context/Progress.antt =====
-- A process whose context is done can end.
use mathlib.Core.List.Permᴰ
use konk.Base.{List, [], ◌≡◌}
use konk.Util.Context.{gone, Process, Run}

module _ {ℓ} {F : Type ℓ} where
  -- A run without further functions, at whose end `Q` holds.
  abbrev Leads {κ} : Process F → (Process F → Type κ) → Type (ℓ ⊔ κ)
  Leads p Q = (q : Process F) × Run p [] q × Q q

  abbrev pub Ends : Process F → Type ℓ
  Ends p = Leads p (λ q. q.watcher ≡ gone)
