-- ===== src/Nymph/Process/Start.antt =====
-- How the process of a node daemon comes up, and how it ends by itself.
use mathlib.Core.List.{Perm}
use mathlib.Core.List.Perm
use konk.Base.{
  ℕ, List, Option, none, some, ◌≡◌, sym, subst, inl, inr, Option-cases, Result-cases, Bool-cases,
  String, ◌<>◌, ℤ,
}
use konk.Base.Exec.{Exec, returns, fails, exits, panics, wrapped, Exec-cases}
use konk.Base.Exec.Ensures.{Ensures, Ensures-wrapped}
use konk.Config.{Viper, get_int}
use konk.Config.Key
use konk.Util.Server.{Sockets, create_listener}
use konk.Util.Serving.{NoSuccess, close_after-NoSuccess, serve-NoSuccess}
use konk.Nymph.Daemon.{Node, Nymph, new_nymph}
use konk.Nymph.Daemon.Laws.{IsTracked}
use konk.Nymph.Daemon.Start.{Ready, Base, new_nymph_lem}
use konk.Nymph.Daemon.Registration.{register_nymph}
use konk.Nymph.Process.{Outcome, register_and_serve, run_with, run}

module _ (S : Sockets) (N : Node S.World) (V : Viper) (live : S.World → List N.Network) where
  -- Opening and closing a port makes and destroys no network.
  pub record IsQuiet : Type 0 where
    pub live-listen : (a : String) (w : S.World) → live (S.listen a w).1 ≡ live w
    pub live-close : (l : S.Listener) (w : S.World) → live (S.close l w) ≡ live w

  register_and_serve-NoSuccess :
      (tries rounds : ℕ) (l : S.Listener) (n : Nymph N) (w : S.World)
      → NoSuccess (register_and_serve S N V tries rounds l n w)
  unfolding register_and_serve
  register_and_serve-NoSuccess tries rounds l n w = elim (Option-cases n.client) [
    | inl e ↦ rw (e, register_and_serve) tt
    | inr (c, e) ↦ elim (Option-cases (register_nymph N c tries n w)) [
      | inl f ↦ rw (e, f, register_and_serve) tt
      | inr ((n', w'), f) ↦ rw (e, f, register_and_serve) (serve-NoSuccess S rounds l w')
    ]
  ]

  module _ (L : IsTracked N live) where
    -- What a start leaves of the networks: a daemon that owns those it has made, with the function that
    -- closes it handed over; or none that was not there before, if there is an error.
    abbrev pub Left :
        List N.Network → Option (Nymph N × S.World) → Option (Exec S.World (Unit {0})) → Type 0
    Left base (some (n, v)) result = Ready N live L V base n v
    Left base none none = Unit
    Left base none (some (returns a w)) = Unit
    Left base none (some (fails e w)) = Base N live L V base w
    Left base none (some (exits w)) = Unit
    Left base none (some (panics w)) = Unit

    -- The types above, of an outcome.
    abbrev pub Started : List N.Network → Outcome S N V → Type 0
    Started base o = Left base o.handed o.result × NoSuccess o.result

    module _ (Q : IsQuiet) where
      live-create_listener : (port : ℤ) (w : S.World) → live (create_listener S port w).1 ≡ live w
      unfolding create_listener
      live-create_listener port w =
          let a = ":" <> S.itoa port in
          elim (Result-cases (S.listen a w).0) [
            | inl (l, e) ↦ rw (e, create_listener) (Q.live-listen a w)
            | inr (x, e) ↦ rw (e, create_listener) (Q.live-listen a w)
          ]

      run_with-Started :
          (tries rounds : ℕ) (l : S.Listener) (w : S.World)
          → Started (live w) (run_with S N V tries rounds l w)
      unfolding run_with
      run_with-Started tries rounds l w =
          let made = wrapped "NewNymph: %v" (new_nymph N V) in
          let h =
            Ensures-wrapped (Ready N live L V (live w)) (Base N live L V (live w)) "NewNymph: %v"
              (new_nymph N V) w (new_nymph_lem N live L V w) in
          elim (Exec-cases (made w)) [
            | inl (n, v, e) ↦
                rw (e, run_with)
                  (
                    subst (Ensures (Ready N live L V (live w)) (Base N live L V (live w))) e h,
                    close_after-NoSuccess S l (register_and_serve S N V tries rounds l n v)
                        (register_and_serve-NoSuccess tries rounds l n v),
                  )
            | inr (inl (x, v, e)) ↦
                rw (e, run_with)
                  (
                    subst (λ k. Perm k (live w)) (sym (Q.live-close l v))
                        (subst (Ensures (Ready N live L V (live w)) (Base N live L V (live w))) e
                          h),
                    tt,
                  )
            | inr (inr (inl (v, e))) ↦ rw (e, run_with) (tt, tt)
            | inr (inr (inr (v, e))) ↦ rw (e, run_with) (tt, tt)
          ]

      -- If the networks of the node are tracked, and opening and closing a port does nothing to them, the
      -- process of a daemon returns, if at all, with an error. Either it has handed over the function
      -- that closes the daemon, which then has a client and owns all networks of the node but those of
      -- before the start; or it has not, and if it returns, the networks are those of before.
      pub run-Started :
          (tries rounds : ℕ) (w : S.World) → Started (live w) (run S N V tries rounds w)
      unfolding run get_int
      run-Started tries rounds w = elim (Bool-cases (V.is_set Key.nymph_port)) [
        | inr e ↦ rw (e, run) (tt, tt)
        | inl e ↦
            let port = V.int_at Key.nymph_port in
            let after = (create_listener S port w).1 in
            elim (Result-cases (create_listener S port w).0) [
              | inr (x, f) ↦
                  rw (e, f, run)
                    (subst (λ k. Perm k (live w)) (sym (live-create_listener port w)) Perm.rfl, tt)
              | inl (l, f) ↦
                  rw (e, f, run)
                    (subst (λ k. Started k (run_with S N V tries rounds l after))
                      (live-create_listener port w) (run_with-Started tries rounds l after))
            ]
      ]
