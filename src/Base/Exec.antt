-- ===== src/Base/Exec.antt =====
-- Go code that acts on a world `W`: it returns a value or an error, ends the process by `log.Fatal`,
-- or panics.
pub mod Ensures
use Prim.Native.String.{String}
use mathlib.Core.Path.{◌≡◌, refl}
use mathlib.Core.Logic.{◌⊎◌, inl, inr}
use native.Mathlib.Omega.{arith}
use mathlib.Core.Bool.{Bool, true, false}
use konk.Base.Errors.{Error, wrap, Result, ok, err}

pub data Exec {ℓ κ} (W : Type ℓ) (A : Type κ) : Type (ℓ ⊔ κ) where
  returns : A → W → Exec W A
  fails : Error → W → Exec W A
  exits : W → Exec W A
  panics : W → Exec W A

abbrev pub Cmd {ℓ κ} : Type ℓ → Type κ → Type (ℓ ⊔ κ)
Cmd W A = W → Exec W A

module _ {ℓ} {W : Type ℓ} where
  infixl 5 ◌>>=◌ ◌>>◌
  -- `if err != nil { return err }` between two calls.
  abbrev pub ◌>>=◌ {κ μ} : {A : Type κ} {B : Type μ} → Cmd W A → (A → Cmd W B) → Cmd W B
  ◌>>=◌ m f w = elim (m w) [
    | returns a w' ↦ f a w'
    | fails e w' ↦ fails e w'
    | exits w' ↦ exits w'
    | panics w' ↦ panics w'
  ]

  abbrev pub ◌>>◌ {κ μ} : {A : Type κ} {B : Type μ} → Cmd W A → Cmd W B → Cmd W B
  m >> k = m >>= λ _. k

  abbrev pub pure {κ} : {A : Type κ} → A → Cmd W A
  pure a w = returns a w

  -- A call of a library.
  abbrev pub call {κ} : {A : Type κ} → (W → Result A × W) → Cmd W A
  call op w = let (r, w') = op w in elim r [ ok a ↦ returns a w' | err e ↦ fails e w' ]

  -- A value of a library's function, or its error.
  abbrev pub check {κ} : {A : Type κ} → Result A → Cmd W A
  check r w = elim r [ ok a ↦ returns a w | err e ↦ fails e w ]

  -- `return fmt.Errorf("...", err)`
  abbrev pub wrapped {κ} : {A : Type κ} → String → Cmd W A → Cmd W A
  wrapped f m w = elim (m w) [
    | returns a w' ↦ returns a w'
    | fails e w' ↦ fails (wrap f e) w'
    | exits w' ↦ exits w'
    | panics w' ↦ panics w'
  ]

  -- `if err != nil { log.Fatal(err) }`
  abbrev pub or_exit {κ} : {A : Type κ} → Cmd W A → Cmd W A
  or_exit m w = elim (m w) [
    | returns a w' ↦ returns a w'
    | fails e w' ↦ exits w'
    | exits w' ↦ exits w'
    | panics w' ↦ panics w'
  ]

  -- A deferred call, which runs unless the process exits.
  abbrev pub deferring {κ} : {A : Type κ} → (W → W) → Cmd W A → Cmd W A
  deferring last m w = elim (m w) [
    | returns a w' ↦ returns a (last w')
    | fails e w' ↦ fails e (last w')
    | exits w' ↦ exits w'
    | panics w' ↦ panics (last w')
  ]

  -- A call that runs when an error is returned, and then only.
  abbrev pub on_error {κ} : {A : Type κ} → (W → W) → Cmd W A → Cmd W A
  on_error clean m w = elim (m w) [
    | returns a w' ↦ returns a w'
    | fails e w' ↦ fails e (clean w')
    | exits w' ↦ exits w'
    | panics w' ↦ panics w'
  ]

  -- A type assertion, or an index, that panics when it is wrong.
  abbrev pub assert : Bool → Cmd W (Unit {0})
  assert true w = returns tt w
  assert false w = panics w

  pub Exec-cases {κ} :
      {A : Type κ} (x : Exec W A)
      → ((a : A) × (w : W) × (x ≡ returns a w))
        ⊎ ((e : Error) × (w : W) × (x ≡ fails e w))
        ⊎ ((w : W) × (x ≡ exits w))
        ⊎ ((w : W) × (x ≡ panics w))
  Exec-cases (returns a w) = inl (a, w, refl)
  Exec-cases (fails e w) = inr (inl (e, w, refl))
  Exec-cases (exits w) = inr (inr (inl (w, refl)))
  Exec-cases (panics w) = inr (inr (inr (w, refl)))

  -- The world that is left, whatever happened.
  abbrev pub world_of {κ} : {A : Type κ} → Exec W A → W
  world_of (returns a w) = w
  world_of (fails e w) = w
  world_of (exits w) = w
  world_of (panics w) = w

  -- A chain that returns has a first part that returns.
  pub bind-returns {κ μ} :
      {A : Type κ} {B : Type μ} (m : Cmd W A) (f : A → Cmd W B) {w u : W} {b : B}
      → (m >>= f) w ≡ returns b u
      → (a : A) × (v : W) × (m w ≡ returns a v) × (f a v ≡ returns b u)
  bind-returns m f {w} e = elim (Exec-cases (m w)) [
    | inl (a, v, q) ↦ (a, v, q, ground arith)
    | inr (inl (x, v, q)) ↦ absurd (ground arith)
    | inr (inr (inl (v, q))) ↦ absurd (ground arith)
    | inr (inr (inr (v, q))) ↦ absurd (ground arith)
  ]
