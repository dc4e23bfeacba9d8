-- ===== src/Coordinator/Channel/Laws.antt =====
-- The requests are handled one after the other, and every caller gets the answer to its own.
use mathlib.Core.List.{Permᴰ, append_assoc, append-nil}
use konk.Base.{List, [], ◌∷◌, ◌++◌, ◌≡◌, refl, sym, ◌∙◌, ap, subst, map, Fallible}
use konk.Base.Perms.{moved, single}
use konk.Nymph.Client.{Transport}
use konk.Coordinator.NymphSet.Bits.{BitSet}
use konk.Coordinator.Control.{Control, Reply, Outcome, handle, request_failed}
use konk.Coordinator.Channel.{
  Request, Answer, Loop, idle, handling, answering, System, fresh_system, ask, receive, serve,
  answer, Step, calls, receives, handles, answers, world_moves, Run, here, later,
}

module _ (B : BitSet) (T : Transport) where
  -- The requests that have been handled, the last one first, with the worlds that they met.
  abbrev pub Log : Type 0
  Log = List (T.World × Request)

  -- The control after the requests of a log, handled one after the other.
  abbrev pub after : Control B → Log → Control B
  after c [] = c
  after c ((w, r) ∷ log) = (handle B T (after c log) w r.args r.reply).control

  abbrev answer_of : Request → Outcome B T → Answer
  answer_of r o = record { request = r; reply = o.reply; error = request_failed B T o.error }

  -- The answers to the requests of a log.
  abbrev pub answers_of : Control B → Log → List Answer
  answers_of c [] = []
  answers_of c ((w, r) ∷ log) =
      answer_of r (handle B T (after c log) w r.args r.reply) ∷ answers_of c log

  abbrev pub requests_of : Log → List Request
  requests_of log = map (λ x. x.1) log

  -- What the loop has in hand: the request whose caller waits; the same, if it is not handled yet; and
  -- the answer, if it is.
  abbrev pub in_hand : Loop → List Request
  in_hand idle = []
  in_hand (handling r) = r ∷ []
  in_hand (answering r reply e) = r ∷ []

  abbrev pub unhandled : Loop → List Request
  unhandled idle = []
  unhandled (handling r) = r ∷ []
  unhandled (answering r reply e) = []

  abbrev pub unanswered : Loop → List Answer
  unanswered idle = []
  unanswered (handling r) = []
  unanswered (answering r reply e) =
      record { request = r; reply = reply; error = request_failed B T e } ∷ []

  -- A log accounts for the state of a system: the control and the answers are those of its requests,
  -- handled one after the other; only the caller of the request in hand waits for an answer; and the
  -- requests of the log are, with those that are still to be handled, the ones that were called.
  pub record Accounts (c : Control B) (called : List Request) (log : Log) (s : System B T)
      : Type 0 where
    pub control : s.control ≡ after c log
    pub returned : unanswered s.loop ++ s.returned ≡ answers_of c log
    pub waiting : s.waiting ≡ in_hand s.loop
    pub all : Permᴰ (s.asking ++ (unhandled s.loop ++ requests_of log)) called

  module _ (c : Control B) where
    answer-Accounts :
        {called : List Request} {log : Log} {s : System B T} (r q : Request) (others : List Request)
        (reply : Reply) (e : Fallible)
        → s.loop ≡ answering r reply e
        → (q ≡ r) × (others ≡ [])
        → Accounts c called log s
        → Accounts c called log (answer B T q others reply e s)
    unfolding answer
    answer-Accounts {called} {log} {s} r q others reply e f (same, alone) v = record {
      control = v.control;
      returned =
          subst
            (λ x.
              (record { request = x; reply = reply; error = request_failed B T e } ∷ s.returned)
              ≡ answers_of c log)
            (sym same) (subst (λ l. unanswered l ++ s.returned ≡ answers_of c log) f v.returned);
      waiting = alone;
      all = subst (λ l. Permᴰ (s.asking ++ (unhandled l ++ requests_of log)) called) f v.all;
    }

    -- A step adds its request to those that were called, and handles at most one.
    Step-Accounts :
        {called rs : List Request} {log : Log} {s t : System B T}
        → Step B T s rs t
        → Accounts c called log s
        → (new : Log) × Accounts c (rs ++ called) (new ++ log) t
    unfolding ask receive serve
    Step-Accounts (calls args reply) v = (
      [],
      record {
        control = v.control;
        returned = v.returned;
        waiting = v.waiting;
        all = Permᴰ.cons refl v.all;
      },
    )
    Step-Accounts {called} {log = log} {s = s} (receives r others e d) v = (
      [],
      record {
        control = v.control;
        returned = subst (λ l. unanswered l ++ s.returned ≡ answers_of c log) e v.returned;
        waiting = ap (λ l. r ∷ l) (v.waiting ∙ ap in_hand e);
        all =
            Permᴰ.trans (moved r s.asking (requests_of log) others d)
              (subst (λ l. Permᴰ (s.asking ++ (unhandled l ++ requests_of log)) called) e v.all);
      },
    )
    Step-Accounts {called} {log = log} {s = s} (handles r e _) v = (
      (s.world, r) ∷ [],
      record {
        control = ap (λ k. (handle B T k s.world r.args r.reply).control) v.control;
        returned =
            ap (λ k. answer_of r (handle B T k s.world r.args r.reply) ∷ s.returned) v.control
            ∙ ap (λ l. answer_of r (handle B T (after c log) s.world r.args r.reply) ∷ l)
                (subst (λ l. unanswered l ++ s.returned ≡ answers_of c log) e v.returned);
        waiting = v.waiting ∙ ap in_hand e;
        all = subst (λ l. Permᴰ (s.asking ++ (unhandled l ++ requests_of log)) called) e v.all;
      },
    )
    Step-Accounts {s = s} (answers r q others reply x e d same) v = (
      [],
      answer-Accounts r q others reply x e
          (single (subst (λ l. Permᴰ l (q ∷ others)) (v.waiting ∙ ap in_hand e) d)) v,
    )
    Step-Accounts (world_moves w) v = (
      [],
      record { control = v.control; returned = v.returned; waiting = v.waiting; all = v.all },
    )

    Run-Accounts :
        {called : List Request} {log : Log} {s : System B T} {rs : List Request} {t : System B T}
        → Run B T s rs t
        → Accounts c called log s
        → (new : Log) × Accounts c (rs ++ called) (new ++ log) t
    Run-Accounts here v = ([], v)
    Run-Accounts {called} {log = log} {t = end} (later {rs = rs} {qs = qs} run step) v =
        let (new, u) = Run-Accounts run v in
        let (last, x) = Step-Accounts step u in
        (
          last ++ new,
          subst (λ k. Accounts c k ((last ++ new) ++ log) end) (sym (append_assoc qs rs called))
              (subst (λ l. Accounts c (qs ++ (rs ++ called)) l end)
                (sym (append_assoc last new log)) x),
        )

    -- A fresh coordinator is called by any number of goroutines, whose steps and those of its loop come
    -- in any order, while the nymphs go on; `s` is a state on the way, and `t` a later one. The control
    -- and all answers are those of the requests handled one after the other, each caller's answer being
    -- to its own request; none is handled twice or lost; and what was handled up to `s` comes before
    -- what is handled later.
    pub requests-Accounts :
        {w : T.World} {rs qs : List Request} {s t : System B T}
        → Run B T (fresh_system B T c w) rs s
        → Run B T s qs t
        → (log new : Log) × Accounts c rs log s × Accounts c (qs ++ rs) (new ++ log) t
    requests-Accounts {rs = rs} {s = s} before between =
        let start : Accounts c [] [] (fresh_system B T c _) = record {
          control = refl;
          returned = refl;
          waiting = refl;
          all = Permᴰ.nil;
        } in
        let (log, u) = Run-Accounts before start in
        let v =
          subst (λ k. Accounts c k log s) (append-nil rs)
            (subst (λ l. Accounts c (rs ++ []) l s) (append-nil log) u) in
        let (new, x) = Run-Accounts between v in (log, new, v, x)
