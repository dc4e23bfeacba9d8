-- ===== src/Base/Exec/Ensures.antt =====
-- What code ensures when it returns a value, and when it returns an error.
use Prim.Native.String.{String}
use mathlib.Core.Path.{◌≡◌, subst}
use mathlib.Core.Logic.{inl, inr}
use konk.Base.Errors.{Result, ok, err, Result-cases}
use konk.Base.Exec.{
  Exec, Cmd, returns, fails, exits, panics, ◌>>=◌, call, check, wrapped, on_error, deferring,
  Exec-cases,
}

module _ {ℓ μ} {W : Type ℓ} where
  -- `Q` of the value and the world that are returned, `R` of the world that an error leaves. Nothing is
  -- said of a process that has ended.
  abbrev pub Ensures {κ} : {A : Type κ} → (A → W → Type μ) → (W → Type μ) → Exec W A → Type μ
  Ensures Q R (returns a w) = Q a w
  Ensures Q R (fails e w) = R w
  Ensures Q R (exits w) = Unit
  Ensures Q R (panics w) = Unit

  module _ {κ} {A : Type κ} (Q : A → W → Type μ) (R : W → Type μ) where
    pub Ensures-bind {ν} :
        {B : Type ν} (S : B → W → Type μ) (m : Cmd W A) (f : A → Cmd W B) (w : W)
        → Ensures Q R (m w)
        → ((a : A) (v : W) → Q a v → Ensures S R (f a v))
        → Ensures S R ((m >>= f) w)
    Ensures-bind S m f w h k = elim (Exec-cases (m w)) [
      | inl (a, v, e) ↦ rw (e, ◌>>=◌) (k a v (subst (Ensures Q R) e h))
      | inr (inl (x, v, e)) ↦ rw (e, ◌>>=◌) (subst (Ensures Q R) e h)
      | inr (inr (inl (v, e))) ↦ rw (e, ◌>>=◌) tt
      | inr (inr (inr (v, e))) ↦ rw (e, ◌>>=◌) tt
    ]

    pub Ensures-wrapped :
        (f : String) (m : Cmd W A) (w : W) → Ensures Q R (m w) → Ensures Q R (wrapped f m w)
    Ensures-wrapped f m w h = elim (Exec-cases (m w)) [
      | inl (a, v, e) ↦ rw (e, wrapped) (subst (Ensures Q R) e h)
      | inr (inl (x, v, e)) ↦ rw (e, wrapped) (subst (Ensures Q R) e h)
      | inr (inr (inl (v, e))) ↦ rw (e, wrapped) tt
      | inr (inr (inr (v, e))) ↦ rw (e, wrapped) tt
    ]

    pub Ensures-on_error :
        (S : W → Type μ) (clean : W → W) (m : Cmd W A) (w : W)
        → Ensures Q S (m w)
        → ((v : W) → S v → R (clean v))
        → Ensures Q R (on_error clean m w)
    Ensures-on_error S clean m w h k = elim (Exec-cases (m w)) [
      | inl (a, v, e) ↦ rw (e, on_error) (subst (Ensures Q S) e h)
      | inr (inl (x, v, e)) ↦ rw (e, on_error) (k v (subst (Ensures Q S) e h))
      | inr (inr (inl (v, e))) ↦ rw (e, on_error) tt
      | inr (inr (inr (v, e))) ↦ rw (e, on_error) tt
    ]

    pub Ensures-call :
        (op : W → Result A × W) (w : W)
        → ((a : A) → (op w).0 ≡ ok a → Q a (op w).1)
        → R (op w).1
        → Ensures Q R (call op w)
    Ensures-call op w h k = elim (Result-cases (op w).0) [
      | inl (a, e) ↦ rw (e, call) (h a e)
      | inr (x, e) ↦ rw (e, call) k
    ]

    pub Ensures-check : (r : Result A) (w : W) → ((a : A) → Q a w) → R w → Ensures Q R (check r w)
    Ensures-check (ok a) w h k = h a
    Ensures-check (err e) w h k = k

    pub Ensures-map :
        (S : A → W → Type μ) (x : Exec W A)
        → Ensures Q R x
        → ((a : A) (v : W) → Q a v → S a v)
        → Ensures S R x
    Ensures-map S (returns a w) h k = k a w h
    Ensures-map S (fails e w) h k = h
    Ensures-map S (exits w) h k = tt
    Ensures-map S (panics w) h k = tt

    pub Ensures-both :
        (S : A → W → Type μ) (x : Exec W A)
        → Ensures Q R x
        → Ensures S R x
        → Ensures (λ a w. Q a w × S a w) R x
    Ensures-both S (returns a w) h k = (h, k)
    Ensures-both S (fails e w) h k = h
    Ensures-both S (exits w) h k = tt
    Ensures-both S (panics w) h k = tt

    pub Ensures-deferring :
        (S : A → W → Type μ) (T : W → Type μ) (last : W → W) (m : Cmd W A) (w : W)
        → Ensures S T (m w)
        → ((a : A) (v : W) → S a v → Q a (last v))
        → ((v : W) → T v → R (last v))
        → Ensures Q R (deferring last m w)
    Ensures-deferring S T last m w h k l = elim (Exec-cases (m w)) [
      | inl (a, v, e) ↦ rw (e, deferring) (k a v (subst (Ensures S T) e h))
      | inr (inl (x, v, e)) ↦ rw (e, deferring) (l v (subst (Ensures S T) e h))
      | inr (inr (inl (v, e))) ↦ rw (e, deferring) tt
      | inr (inr (inr (v, e))) ↦ rw (e, deferring) tt
    ]
