-- ===== src/Coordinator/Channel/Progress.antt =====
-- The channel of requests does not block for ever, if the calls of nymphs do not.
use mathlib.Core.List.{Permᴰ}
use mathlib.Core.List.Permᴰ
use konk.Base.{
  ℤ, String, List, [], ◌∷◌, ◌++◌, ◌≡◌, refl, sym, ◌∙◌, ap, subst, Fallible, map, true, arith,
  Option-cases, inl, inr, string_eq,
}
use konk.Container.Types.{Rank}
use konk.Nymph.Client.{Transport, Call, rpc_send, rpc_signal}
use konk.Base.Dict.{Dict}
use konk.Coordinator.LocationDb.{Location, get}
use konk.Coordinator.Migrate
use konk.Coordinator.Control.Ends.{ends, signal_ends}
use konk.Coordinator.NymphSet.Bits.{BitSet}
use konk.Coordinator.Control.{
  Control, Reply, handle, Args, allocate_host_args, register_container_args,
  unregister_container_args, migrate_args, signal_args, register_nymph_args, unregister_nymph_args,
}
use konk.Coordinator.Channel.{
  Request, Loop, idle, handling, answering, System, fresh_system, receive, serve, answer, receives,
  handles, answers, Run, here, later,
}
use konk.Coordinator.Channel.Laws.{
  Log, answers_of, requests_of, in_hand, unhandled, unanswered, Accounts, requests-Accounts,
}

-- Every host is reached and every call is answered.
abbrev pub Answers : Transport → Type 0
Answers T =
    ((host : String) (w : T.World) → T.reached host w ≡ true)
    × ((host : String) (c : Call) (w : T.World) → T.answered host c w ≡ true)

module _ (B : BitSet) (T : Transport) where
  signal_ends-true :
      Answers T → (s : ℤ) (db : Dict Rank Location) (w : T.World) → signal_ends B T s db w ≡ true
  unfolding signal_ends
  signal_ends-true (h, k) s [] w = refl
  signal_ends-true (h, k) s ((rank, loc) ∷ db) w =
      let rest = signal_ends-true (h, k) s db (Migrate.signal T rank loc.hostname s w).1 in
      let reached = h loc.hostname w in
      let answered =
        k loc.hostname (rpc_signal (record { rank = rank; signal = s })) (T.dial loc.hostname w) in
      ground arith

  ends-true : Answers T → (c : Control B) (w : T.World) (args : Args) → ends B T c w args ≡ true
  unfolding ends
  ends-true h c w (migrate_args rank dest kind) = elim (Option-cases (get c.location_db rank)) [
    | inl e ↦ rw (e, ends) refl
    | inr (src, e) ↦
        let reached = h.0 src.hostname w in
        let answered =
          h.1 src.hostname
            (rpc_send (record { container_rank = rank; host = dest; migration_type = kind }))
            (T.dial src.hostname w) in
        rw (e, ends) (ground arith)
  ]
  ends-true h c w (signal_args s) = signal_ends-true h s c.location_db.db w
  ends-true h c w (allocate_host_args rank) = refl
  ends-true h c w (register_container_args rank hostname) = refl
  ends-true h c w (unregister_container_args rank hostname) = refl
  ends-true h c w (register_nymph_args hostname) = refl
  ends-true h c w (unregister_nymph_args hostname) = refl

  -- All callers have returned, and the loop is at its receive.
  abbrev pub IsQuiet : System B T → Type 0
  IsQuiet s = (s.loop ≡ idle) × (s.asking ≡ []) × (s.waiting ≡ [])

  -- A run of the system that adds no request, after which all callers have returned.
  abbrev pub Quiets : System B T → Type 0
  Quiets s = (t : System B T) × Run B T s [] t × IsQuiet t

  module _ (h : Answers T) {s : System B T} where
    -- The loop answers the caller that waits.
    answered :
        (r : Request) (reply : Reply) (e : Fallible) (u : System B T)
        → Run B T s [] u
        → u.loop ≡ answering r reply e
        → u.waiting ≡ r ∷ []
        → Run B T s [] (answer B T r [] reply e u)
    answered r reply e u run l w = later run (
        answers r r [] reply e l (subst (λ k. Permᴰ k (r ∷ [])) (sym w) (Permᴰ.refl (r ∷ []))) refl)

    -- It handles the request in hand, and answers it.
    handled :
        (r : Request) (u : System B T)
        → Run B T s [] u
        → u.loop ≡ handling r
        → u.waiting ≡ r ∷ []
        → (t : System B T) × Run B T s [] t
          × (t.loop ≡ idle)
          × (t.asking ≡ u.asking)
          × (t.waiting ≡ [])
    unfolding serve answer
    handled r u run l w =
        let o = handle B T u.control u.world r.args r.reply in
        let v = serve B T r u in
        (
          answer B T r [] o.reply o.error v,
          answered r o.reply o.error v
              (later run (handles r l (ends-true h u.control u.world r.args))) refl w,
          refl,
          refl,
          refl,
        )

    idle-Quiets :
        (asking : List Request) (u : System B T)
        → Run B T s [] u
        → u.loop ≡ idle
        → u.asking ≡ asking
        → u.waiting ≡ []
        → Quiets s
    unfolding receive
    idle-Quiets [] u run l a w = (u, run, (l, a, w))
    idle-Quiets (r ∷ others) u run l a w =
        let d = subst (λ k. Permᴰ k (r ∷ others)) (sym a) (Permᴰ.refl (r ∷ others)) in
        let (t, go, l', a', w') =
          handled r (receive B T r others u) (later run (receives r others l d)) refl
            (ap (λ k. r ∷ k) w) in
        idle-Quiets others t go l' a' w'

    busy-Quiets : (l : Loop) → s.loop ≡ l → s.waiting ≡ in_hand B T l → Quiets s
    unfolding answer
    busy-Quiets idle e w = idle-Quiets s.asking s here e refl w
    busy-Quiets (handling r) e w =
        let (t, go, l', a', w') = handled r s here e w in idle-Quiets t.asking t go l' refl w'
    busy-Quiets (answering r reply x) e w =
        idle-Quiets s.asking (answer B T r [] reply x s) (answered r reply x s here e w) refl refl
          refl

  -- The answers to a log are to its requests.
  requests_of-answers_of :
      (c : Control B) (log : Log B T)
      → map (λ a. a.request) (answers_of B T c log) ≡ requests_of B T log
  requests_of-answers_of c [] = refl
  requests_of-answers_of c ((w, r) ∷ log) = ap (λ l. r ∷ l) (requests_of-answers_of c log)

  -- A log that accounts for a state in which all callers have returned has the requests that were
  -- called, and the answers are to these.
  quiet-answered :
      {c : Control B} {called : List Request} {log : Log B T} {t : System B T}
      → IsQuiet t
      → Accounts B T c called log t
      → Permᴰ (map (λ a. a.request) t.returned) called
  quiet-answered {c} {called} {log} {t} (l, a, w) v =
      let returned : t.returned ≡ answers_of B T c log =
        subst (λ k. unanswered B T k ++ t.returned ≡ answers_of B T c log) l v.returned in
      let all : Permᴰ (requests_of B T log) called =
        subst (λ k. Permᴰ (k ++ requests_of B T log) called) a
          (subst (λ k. Permᴰ (t.asking ++ (unhandled B T k ++ requests_of B T log)) called) l
            v.all) in
      subst (λ k. Permᴰ k called)
        (sym (requests_of-answers_of c log) ∙ ap (λ k. map (λ x. x.request) k) (sym returned)) all

  -- Where every nymph is reached and every call of one is answered, with or without an error: in every
  -- state that a coordinator's callers and its loop can reach from a fresh start, in whatever order they
  -- take their steps, no more is needed than that the loop and the callers at the channel go on. A run
  -- without a further request then leads to a state in which the loop is at its receive, no caller is
  -- left at a channel, and every request that was called has been answered once. (A nymph that cannot
  -- be reached keeps the loop in its call, and the requests after it are not answered.)
  pub can_answer :
      {c : Control B} {w : T.World} {s : System B T} {rs : List Request}
      → Answers T
      → Run B T (fresh_system B T c w) rs s
      → (t : System B T) × Run B T s [] t × IsQuiet t × Permᴰ (map (λ a. a.request) t.returned) rs
  can_answer {c} {w} {s} {rs} h run =
      let (log, new, v, _) = requests-Accounts B T c run here in
      let (t, go, quiet) = busy-Quiets h s.loop refl v.waiting in
      let (_, _, _, u) = requests-Accounts B T c run go in (t, go, quiet, quiet-answered quiet u)
