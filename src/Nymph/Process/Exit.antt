-- ===== src/Nymph/Process/Exit.antt =====
-- The end of a node daemon's process upon a signal: the goroutines of pkg/util/context.go, and the
-- networks of the node.
use mathlib.Core.List.{Perm, Permᴰ}
use mathlib.Core.List.Permᴰ
use mathlib.Core.List.Perm
use konk.Base.{
  List, [], ◌∷◌, ◌++◌, length, length-append, All, ◌≡◌, ◌≢◌, ◌⊎◌, refl, sym, subst, arith,
}
use konk.Base.Perms.{length-Perm, All-Perm}
use konk.Util.Context.{
  Process, new_context, selecting, waiting, gone, finish, Run, here, later, finishes,
}
use konk.Util.Context
use konk.Util.Context.Laws.{IsValid, Run-IsValid, new_context-IsValid, exit_lem}
use konk.Nymph.Daemon.{Node, Nymph, close}
use konk.Nymph.Daemon.Laws.{IsTracked, close_lem}

-- The last part of a list.
All-right {ℓ} : {A : Type ℓ} (P : A → Type ℓ) (xs ys : List A) → All P (xs ++ ys) → All P ys
All-right P [] ys h = h
All-right P (x ∷ xs) ys h = All-right P xs ys h.1

module _ {W : Type 0} (N : Node W) (live : W → List N.Network) where
  -- The process, and the node that it runs on.
  pub record Site : Type 0 where
    pub process : Process (Nymph N)
    pub world : W

  -- Calling the function that `Run` hands over closes the daemon. Whatever else the process does, once
  -- the daemon has started, makes and destroys no network.
  pub data Step (s : Site) : List (Nymph N) → Site → Type 0 where
    goroutine :
        {gs : List (Nymph N)} {q : Process (Nymph N)}
        → Context.Step s.process gs q
        → q.ended ≡ s.process.ended
        → Step s gs (record s { process = q })
    closes :
        (n : Nymph N) (others : List (Nymph N))
        → Permᴰ s.process.running (n ∷ others)
        → Step s [] (record { process = finish n others s.process; world = close N n s.world })
    works : (w : W) → live w ≡ live s.world → Step s [] (record s { world = w })

  pub data Steps (s : Site) : Site → Type 0 where
    start : Steps s s
    next : {t u : Site} → Steps s t → t.process.watcher ≢ gone → Step t [] u → Steps s u

  -- The goroutines' part of it.
  Steps-Run : {s t : Site} → Steps s t → Run s.process [] t.process
  Steps-Run start = here
  Steps-Run (next steps alive (goroutine step same)) = later (Steps-Run steps) alive step
  Steps-Run (next steps alive (closes n others d)) =
      later (Steps-Run steps) alive (finishes n others d)
  Steps-Run (next steps alive (works w same)) = Steps-Run steps

  module _ (L : IsTracked N live) (n : Nymph N) (base : List N.Network) where
    -- Before the daemon is closed, and after it.
    abbrev Nodes : List (Nymph N) → W → Type 0
    Nodes [] w = Perm (live w) (n.networks ++ base)
    Nodes (m ∷ ms) w = Perm (live w) base

    Nodes-same : (ms : List (Nymph N)) (w w' : W) → live w' ≡ live w → Nodes ms w → Nodes ms w'
    Nodes-same [] w w' e h = subst (λ l. Perm l (n.networks ++ base)) (sym e) h
    Nodes-same (m ∷ ms) w w' e h = subst (λ l. Perm l base) (sym e) h

    -- The only function is handed over once, so it is called first and last.
    only :
        (m : Nymph N) (others : List (Nymph N)) (p : Process (Nymph N))
        → IsValid (n ∷ []) (finish m others p)
        → (p.ended ≡ []) × (m ≡ n)
    unfolding finish
    only m others p v =
        let all = All-Perm (λ x. x ≡ n) (Permᴰ.symm v.handed) (refl, tt) in
        let here =
          All-right (λ x. x ≡ n) others (m ∷ p.ended) (All-right (λ x. x ≡ n) p.blocked _ all) in
        (
          no_more p.ended (
              omega (
                arith,
                length-Perm v.handed,
                length-append p.blocked (others ++ (m ∷ p.ended)),
                length-append others (m ∷ p.ended),
              )),
          here.0,
        )
      where
        no_more : (ms : List (Nymph N)) → length ms ≡ 0 → ms ≡ []
        no_more [] e = refl
        no_more (x ∷ ms) e = absurd (omega (arith, e))

    closed :
        (m : Nymph N) (ended : List (Nymph N)) (w : W)
        → (ended ≡ []) × (m ≡ n)
        → Nodes ended w
        → Perm (live (close N m w)) base
    closed m ended w (e, f) h =
        subst (λ x. Perm (live (close N x w)) base) (sym f)
          (close_lem N live L n base w (subst (λ ms. Nodes ms w) e h))

    Steps-Nodes :
        {s t : Site}
        → Run new_context (n ∷ []) s.process
        → s.process.ended ≡ []
        → Perm (live s.world) (n.networks ++ base)
        → Steps s t
        → Nodes t.process.ended t.world
    unfolding finish
    Steps-Nodes {s} r e h start = subst (λ ms. Nodes ms s.world) (sym e) h
    Steps-Nodes r e h (next {t = t} steps alive (goroutine step same)) =
        subst (λ ms. Nodes ms t.world) (sym same) (Steps-Nodes r e h steps)
    Steps-Nodes r e h (next {t = t} steps alive (works w same)) =
        Nodes-same t.process.ended t.world w same (Steps-Nodes r e h steps)
    Steps-Nodes r e h (next {t = t} steps alive (closes m others d)) =
        let after = later (Steps-Run steps) alive (finishes m others d) in
        closed m t.process.ended t.world
          (only m others t.process (Run-IsValid after (Run-IsValid r new_context-IsValid)))
          (Steps-Nodes r e h steps)

    -- A daemon has started and handed over its closing, and nothing else; it is not closed yet, and all
    -- networks of the node are its own or those of before. If the process goes on, in whatever order
    -- its goroutines take their steps, until it calls `os.Exit` upon its context, the networks of the
    -- node are those of before.
    pub exit_clean :
        {s t : Site}
        → Run new_context (n ∷ []) s.process
        → (s.process.watcher ≡ selecting) ⊎ (s.process.watcher ≡ waiting)
        → s.process.ended ≡ []
        → Perm (live s.world) (n.networks ++ base)
        → Steps s t
        → t.process.watcher ≡ gone
        → Perm (live t.world) base
    exit_clean {s} {t} r at e h steps g =
        some_ended t.process.ended (exit_lem r at (Steps-Run steps) g) (Steps-Nodes r e h steps)
      where
        some_ended :
            (ms : List (Nymph N)) → Perm ms (n ∷ []) → Nodes ms t.world → Perm (live t.world) base
        some_ended [] p k = absurd (ground (arith, Perm.nil-eq p))
        some_ended (m ∷ ms) p k = k
