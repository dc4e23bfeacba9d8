-- ===== src/Coordinator/Process.antt =====
-- coordinator.go: the process of the coordinator. The goroutine of `Start` and those of the calls, with
-- which it shares the control, take the steps of Coordinator/Channel.
use konk.Base.{ℕ, some, wrap, inl, inr}
use konk.Base.Exec.{Cmd, returns, fails, exits, panics, ◌>>=◌, call, wrapped, Exec-cases}
use konk.Config.{Viper, get_int}
use konk.Config.Key
use konk.Util.Server.{Sockets, create_listener}
use konk.Util.Serving.{
  Ending, NoSuccess, with_error, close_after, serve, with_error-NoSuccess, close_after-NoSuccess,
  serve-NoSuccess,
}

module _ (S : Sockets) (V : Viper) where
  abbrev open_port : Cmd S.World S.Listener
  open_port = do
    port ← get_int V Key.coordinator_port
    wrapped "Can't launch coordinator server: %v" (call (create_listener S port))

  -- `Run`, with the fuel of the loop that accepts connections.
  unfoldable pub run : ℕ → S.World → Ending S.World
  run fuel w = elim (open_port w) [
    | returns l w' ↦
        close_after S l (with_error (wrap "Coordinator server failed: %v") (serve S fuel l w'))
    | fails e w' ↦ some (fails e w')
    | exits w' ↦ some (exits w')
    | panics w' ↦ some (panics w')
  ]

  -- The process of the coordinator returns, if at all, with an error.
  pub run-NoSuccess : (fuel : ℕ) (w : S.World) → NoSuccess (run fuel w)
  unfolding run
  run-NoSuccess fuel w = elim (Exec-cases (open_port w)) [
    | inl (l, v, e) ↦
        rw (e, run)
          (close_after-NoSuccess S l
            (with_error (wrap "Coordinator server failed: %v") (serve S fuel l v))
            (with_error-NoSuccess (wrap "Coordinator server failed: %v") (serve S fuel l v)
              (serve-NoSuccess S fuel l v)))
    | inr (inl (x, v, e)) ↦ rw (e, run) tt
    | inr (inr (inl (v, e))) ↦ rw (e, run) tt
    | inr (inr (inr (v, e))) ↦ rw (e, run) tt
  ]
