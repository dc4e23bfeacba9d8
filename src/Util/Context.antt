-- ===== src/Util/Context.antt =====
-- context.go: a process with crash functions, which run once its context is cancelled, and the goroutine
-- that ends the process after them. Its goroutines take their steps in any order.

pub mod Laws
pub mod Progress
use konk.Base.{ℕ, zero, suc, ◌+◌, ◌-◌, Bool, true, false, List, [], ◌∷◌, ◌++◌, ◌≡◌, ◌≢◌}
use mathlib.Core.List.{Permᴰ}

-- The goroutine of `NewContext`: at its select, in `wg.Wait`, after it, and after `os.Exit`.
pub data Watcher : Type 0 where
  selecting : Watcher
  waiting : Watcher
  ready : Watcher
  gone : Watcher

-- `wg`, the context, the goroutines that `CrashHandler` has started: those that wait for the context,
-- those that run, and those that have ended.
pub record Process {ℓ} (F : Type ℓ) : Type ℓ where
  pub wg : ℕ
  pub is_done : Bool
  pub blocked : List F
  pub running : List F
  pub ended : List F
  pub watcher : Watcher

module _ {ℓ} {F : Type ℓ} where
  abbrev pub new_context : Process F
  new_context = record {
    wg = 0;
    is_done = false;
    blocked = [];
    running = [];
    ended = [];
    watcher = selecting;
  }

  unfoldable pub crash_handler : F → Process F → Process F
  crash_handler cf p = record p { wg = p.wg + 1; blocked = cf ∷ p.blocked }

  unfoldable pub cancel : Process F → Process F
  cancel p = record p { is_done = true }

  -- A goroutine of `CrashHandler` passes the context, and the others stay blocked.
  unfoldable pub begin : F → List F → Process F → Process F
  begin cf others p = record p { blocked = others; running = cf ∷ p.running }

  -- It has called its function, and `wg.Done`.
  unfoldable pub finish : F → List F → Process F → Process F
  finish cf others p = record p { wg = p.wg - 1; running = others; ended = cf ∷ p.ended }

  unfoldable pub watch : Watcher → Process F → Process F
  watch watcher p = record p { watcher = watcher }

  -- A step of a process; the list has the crash function that it hands over.
  pub data Step (p : Process F) : List F → Process F → Type ℓ where
    hand_over : (cf : F) → Step p (cf ∷ []) (crash_handler cf p)
    -- A call of the cancel function, by the program or by the watcher upon a signal.
    cancelled : Step p [] (cancel p)
    begins :
        (cf : F) (others : List F)
        → p.is_done ≡ true
        → Permᴰ p.blocked (cf ∷ others)
        → Step p [] (begin cf others p)
    finishes :
        (cf : F) (others : List F) → Permᴰ p.running (cf ∷ others) → Step p [] (finish cf others p)
    observes : p.is_done ≡ true → p.watcher ≡ selecting → Step p [] (watch waiting p)
    waits : p.watcher ≡ waiting → p.wg ≡ 0 → Step p [] (watch ready p)
    exits : p.watcher ≡ ready → Step p [] (watch gone p)

  -- A run of a process, with the crash functions that were handed over on the way, the last one first.
  -- After `os.Exit` there is no step.
  pub data Run (p : Process F) : List F → Process F → Type ℓ where
    here : Run p [] p
    later :
        {fs gs : List F} {q r : Process F}
        → Run p fs q
        → q.watcher ≢ gone
        → Step q gs r
        → Run p (gs ++ fs) r
