-- ===== src/Criu/ProcessTree/Forest.antt =====
-- A finite tree of processes, as the operating system sees it.
use mathlib.Core.List.{append_assoc}
use konk.Base.{ℕ, suc, ◌+◌, List, [], ◌∷◌, ◌++◌, ◌≡◌, refl, ap, sym, ◌∙◌, arith, ◌⊎◌}
use konk.Criu.ProcessTree.{Processes, found, no_children}

mutual
  pub data Tree (P : Type 0) : Type 0 where
    node : P → Forest P → Tree P

  pub data Forest (P : Type 0) : Type 0 where
    nil : Forest P
    cons : Tree P → Forest P → Forest P

module _ {P : Type 0} where
  abbrev pub root : Tree P → P
  root (node p f) = p

  abbrev pub roots : Forest P → List P
  roots nil = []
  roots (cons t f) = root t ∷ roots f

  abbrev pub join : Forest P → Forest P → Forest P
  join nil g = g
  join (cons t f) g = cons t (join f g)

  unfoldable mutual
    pub size : Tree P → ℕ
    size (node p f) = suc (size_all f)

    pub size_all : Forest P → ℕ
    size_all nil = 0
    size_all (cons t f) = size t + size_all f

    -- Every process of the tree, each one before those that it has started.
    pub flatten : Tree P → List P
    flatten (node p f) = p ∷ flatten_all f

    pub flatten_all : Forest P → List P
    flatten_all nil = []
    flatten_all (cons t f) = flatten t ++ flatten_all f

  -- The processes below the roots.
  unfoldable pub below : Forest P → List P
  below nil = []
  below (cons (node p g) f) = flatten_all g ++ below f

  pub roots-join : (f g : Forest P) → roots (join f g) ≡ roots f ++ roots g
  roots-join nil g = refl
  roots-join (cons t f) g = ap (λ l. root t ∷ l) (roots-join f g)

  pub size_all-join : (f g : Forest P) → size_all (join f g) ≡ size_all f + size_all g
  unfolding size
  size_all-join nil g = omega arith
  size_all-join (cons t f) g = omega (arith, size_all-join f g)

  pub below-join : (f g : Forest P) → below (join f g) ≡ below f ++ below g
  unfolding below
  below-join nil g = refl
  below-join (cons (node p h) f) g =
      ap (λ l. flatten_all h ++ l) (below-join f g)
      ∙ sym (append_assoc (flatten_all h) (below f) (below g))

module _ (S : Processes) where
  -- The children that a process is said to have.
  abbrev pub HasChildren : S.Process → List S.Process → Type 0
  HasChildren p ps = (S.children p ≡ found ps) ⊎ ((ps ≡ []) × (S.children p ≡ no_children))

  unfoldable mutual
    -- The operating system shows this tree.
    pub Shows : Tree S.Process → Type 0
    Shows (node p f) = HasChildren p (roots f) × ShowsAll f

    pub ShowsAll : Forest S.Process → Type 0
    ShowsAll nil = Unit
    ShowsAll (cons t f) = Shows t × ShowsAll f

  pub join-ShowsAll : (f g : Forest S.Process) → ShowsAll f → ShowsAll g → ShowsAll (join f g)
  unfolding Shows
  join-ShowsAll nil g hf hg = hg
  join-ShowsAll (cons t f) g (ht, hf) hg = (ht, join-ShowsAll f g hf hg)
