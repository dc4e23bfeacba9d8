-- ===== src/Util/Serving.antt =====
-- The end of a process that serves: the loop of server.go, under a deferred close of its listener.
use konk.Base.{ℕ, Option, none, some, Error, Option-cases, inl, inr}
use konk.Base.Exec.{Exec, returns, fails, exits, panics}
use konk.Util.Server.{Sockets, server_loop}

-- How a process ends, unless it still runs.
abbrev pub Ending : Type 0 → Type 0
Ending W = Option (Exec W (Unit {0}))

module _ {W : Type 0} where
  -- It returns, if at all, with an error.
  abbrev pub NoSuccess : Ending W → Type 0
  NoSuccess none = Unit
  NoSuccess (some (returns a w)) = ⊥
  NoSuccess (some (fails e w)) = Unit
  NoSuccess (some (exits w)) = Unit
  NoSuccess (some (panics w)) = Unit

  -- `if err := ...; err != nil { return fmt.Errorf("...", err) }`, with `f` for what becomes of the error.
  abbrev pub with_error : (Error → Error) → Ending W → Ending W
  with_error f none = none
  with_error f (some (returns a w)) = some (returns a w)
  with_error f (some (fails e w)) = some (fails (f e) w)
  with_error f (some (exits w)) = some (exits w)
  with_error f (some (panics w)) = some (panics w)

  pub with_error-NoSuccess :
      (f : Error → Error) (o : Ending W) → NoSuccess o → NoSuccess (with_error f o)
  with_error-NoSuccess f none h = h
  with_error-NoSuccess f (some (returns a w)) h = h
  with_error-NoSuccess f (some (fails e w)) h = h
  with_error-NoSuccess f (some (exits w)) h = h
  with_error-NoSuccess f (some (panics w)) h = h

module _ (S : Sockets) where
  -- `defer listener.Close()`
  abbrev pub close_after : S.Listener → Ending S.World → Ending S.World
  close_after l none = none
  close_after l (some (returns a w)) = some (returns a (S.close l w))
  close_after l (some (fails e w)) = some (fails e (S.close l w))
  close_after l (some (exits w)) = some (exits w)
  close_after l (some (panics w)) = some (panics (S.close l w))

  -- The loop ends with an error, if it ends.
  unfoldable pub serve : ℕ → S.Listener → S.World → Ending S.World
  serve fuel l w = elim (server_loop S fuel l w) [ none ↦ none | some (e, w') ↦ some (fails e w') ]

  pub close_after-NoSuccess :
      (l : S.Listener) (o : Ending S.World) → NoSuccess o → NoSuccess (close_after l o)
  close_after-NoSuccess l none h = h
  close_after-NoSuccess l (some (returns a w)) h = h
  close_after-NoSuccess l (some (fails e w)) h = h
  close_after-NoSuccess l (some (exits w)) h = h
  close_after-NoSuccess l (some (panics w)) h = h

  pub serve-NoSuccess : (fuel : ℕ) (l : S.Listener) (w : S.World) → NoSuccess (serve fuel l w)
  unfolding serve
  serve-NoSuccess fuel l w = elim (Option-cases (server_loop S fuel l w)) [
    | inl e ↦ rw (e, serve) tt
    | inr (x, e) ↦ rw (e, serve) tt
  ]
