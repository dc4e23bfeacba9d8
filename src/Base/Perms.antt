-- ===== src/Base/Perms.antt =====
-- Lists in another order.
use mathlib.Core.List.{List, [], ◌∷◌, ◌++◌, Permᴰ}
use mathlib.Core.List.Permᴰ
use mathlib.Core.Path.{◌≡◌, refl, subst}
use native.Mathlib.Omega.{arith}
use konk.Base.Lists.{length, All}

pub length-Perm {ℓ} : {A : Type ℓ} {xs ys : List A} → Permᴰ xs ys → length xs ≡ length ys
length-Perm Permᴰ.nil = refl
length-Perm (Permᴰ.cons e d) = omega (arith, length-Perm d)
length-Perm (Permᴰ.swap e f) = refl
length-Perm (Permᴰ.trans d f) = omega (arith, length-Perm d, length-Perm f)

-- All of a list, in another order.
pub All-Perm {ℓ} :
    {A : Type ℓ} (P : A → Type ℓ) {xs ys : List A} → Permᴰ xs ys → All P xs → All P ys
All-Perm P Permᴰ.nil h = h
All-Perm P (Permᴰ.cons e d) (a, h) = (subst P e a, All-Perm P d h)
All-Perm P (Permᴰ.swap e f) (a, (b, h)) = (subst P f b, (subst P e a, h))
All-Perm P (Permᴰ.trans d f) h = All-Perm P f (All-Perm P d h)

-- An element that moves from one list to the next.
pub moved {ℓ} :
    {A : Type ℓ} (x : A) (xs ys zs : List A) → Permᴰ xs (x ∷ zs) → Permᴰ (zs ++ (x ∷ ys)) (xs ++ ys)
moved x xs ys zs d = Permᴰ.trans (Permᴰ.middle x zs ys) (Permᴰ.append_right ys (Permᴰ.symm d))

none_left {ℓ} : {A : Type ℓ} (xs : List A) → length xs ≡ 0 → xs ≡ []
none_left [] e = refl
none_left (x ∷ xs) e = absurd (omega (arith, e))

-- A list of one element in another order.
pub single {ℓ} :
    {A : Type ℓ} {x y : A} {ys : List A} → Permᴰ (x ∷ []) (y ∷ ys) → (y ≡ x) × (ys ≡ [])
single {x = x} {ys = ys} d =
    ((All-Perm (λ y. y ≡ x) d (refl, tt)).0, none_left ys (omega (arith, length-Perm d)))
