-- ===== src/Util/Context/Laws.antt =====
-- The end of a process with crash functions.
use mathlib.Core.List.{Perm, Permᴰ, append_assoc, append-nil}
use mathlib.Core.List.Permᴰ
use konk.Base.{
  ◌+◌, Bool, true, false, List, [], ◌∷◌, ◌++◌, length, ◌≡◌, ◌⊎◌, refl, sym, subst, ap, arith,
}
use konk.Base.Perms.{length-Perm, moved}
use konk.Util.Context.{
  Watcher, selecting, waiting, ready, gone, Process, new_context, crash_handler, cancel, begin,
  finish, watch, Step, hand_over, cancelled, begins, finishes, observes, waits, exits, Run, here,
  later,
}

-- `os.Exit` is next, or has been called.
abbrev past_wait : Watcher → Bool
past_wait selecting = false
past_wait waiting = false
past_wait ready = true
past_wait gone = true

module _ {ℓ} {F : Type ℓ} where
  -- `wg` counts the goroutines that have not ended, and every function is with one goroutine.
  pub record IsValid (fs : List F) (p : Process F) : Type ℓ where
    pub counted : p.wg ≡ length p.blocked + length p.running
    pub handed : Permᴰ (p.blocked ++ (p.running ++ p.ended)) fs

  Step-IsValid :
      {fs gs : List F} {p q : Process F} → Step p gs q → IsValid fs p → IsValid (gs ++ fs) q
  unfolding crash_handler cancel begin finish watch
  Step-IsValid (hand_over cf) v = record {
    counted = omega (arith, v.counted);
    handed = Permᴰ.cons refl v.handed;
  }
  Step-IsValid cancelled v = record { counted = v.counted; handed = v.handed }
  Step-IsValid {p} (begins cf others e d) v = record {
    counted = omega (arith, v.counted, length-Perm d);
    handed = Permᴰ.trans (moved cf p.blocked (p.running ++ p.ended) others d) v.handed;
  }
  Step-IsValid {p} (finishes cf others d) v = record {
    counted = omega (arith, v.counted, length-Perm d);
    handed =
        Permᴰ.trans (Permᴰ.append_left p.blocked (moved cf p.running p.ended others d)) v.handed;
  }
  Step-IsValid (observes e f) v = record { counted = v.counted; handed = v.handed }
  Step-IsValid (waits e f) v = record { counted = v.counted; handed = v.handed }
  Step-IsValid (exits e) v = record { counted = v.counted; handed = v.handed }

  pub Run-IsValid :
      {p : Process F} {fs gs : List F} {q : Process F}
      → Run p gs q
      → IsValid fs p
      → IsValid (gs ++ fs) q
  Run-IsValid here v = v
  Run-IsValid {fs} (later {fs = hs} {gs = gs} {r = r} run alive step) v =
      subst (λ l. IsValid l r) (sym (append_assoc gs hs fs)) (Step-IsValid step (Run-IsValid run v))

  -- Without further functions, nothing is left to do after the wait.
  Step-settled :
      {gs : List F} {p q : Process F}
      → Step p gs q
      → gs ≡ []
      → (past_wait p.watcher ≡ true → p.wg ≡ 0)
      → past_wait q.watcher ≡ true
      → q.wg ≡ 0
  unfolding crash_handler cancel begin finish watch
  Step-settled (hand_over cf) e h k = absurd (ground arith)
  Step-settled cancelled e h k = h k
  Step-settled (begins cf others d m) e h k = h k
  Step-settled (finishes cf others m) e h k = omega (arith, h k)
  Step-settled (observes d w) e h k = absurd (ground arith)
  Step-settled (waits w z) e h k = z
  Step-settled (exits w) e h k = h (ap past_wait w)

  Run-settled :
      {p : Process F} {gs : List F} {q : Process F}
      → Run p gs q
      → gs ≡ []
      → past_wait p.watcher ≡ false
      → past_wait q.watcher ≡ true
      → q.wg ≡ 0
  Run-settled here e h k = absurd (ground arith)
  Run-settled (later {fs = fs} {gs = []} run alive step) e h k =
      Step-settled step refl (Run-settled run e h) k
  Run-settled (later {fs = fs} {gs = g ∷ gs} run alive step) e h k = absurd (ground arith)

  unblocked : (xs ys : List F) → length xs + length ys ≡ 0 → (zs : List F) → xs ++ (ys ++ zs) ≡ zs
  unblocked [] [] e zs = refl
  unblocked [] (y ∷ ys) e zs = absurd (omega (arith, e))
  unblocked (x ∷ xs) ys e zs = absurd (omega (arith, e))

  pub new_context-IsValid : IsValid [] new_context
  new_context-IsValid = record { counted = refl; handed = Permᴰ.nil }

  -- If a process that is not past its wait hands over no further crash function, and later calls
  -- `os.Exit` upon its context, then every function that was handed over has been called to its end, as
  -- often as it was handed over, and no other.
  pub exit_lem :
      {fs : List F} {p q : Process F}
      → Run new_context fs p
      → (p.watcher ≡ selecting) ⊎ (p.watcher ≡ waiting)
      → Run p [] q
      → q.watcher ≡ gone
      → Perm q.ended fs
  exit_lem {fs} {p} {q} before open_ after e =
      let v = Run-IsValid before new_context-IsValid in
      let u = Run-IsValid after v in
      let past : past_wait q.watcher ≡ true = ground arith in
      let no_wait : past_wait p.watcher ≡ false = ground arith in
      let zero_wg = Run-settled after refl no_wait past in
      ∣ subst (λ l. Permᴰ l fs)
        (unblocked q.blocked q.running (omega (arith, zero_wg, u.counted)) q.ended)
        (subst (Permᴰ (q.blocked ++ (q.running ++ q.ended))) (append-nil fs) u.handed) ∣₁
