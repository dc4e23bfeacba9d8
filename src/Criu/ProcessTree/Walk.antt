-- ===== src/Criu/ProcessTree/Walk.antt =====
-- process_tree.go: the walk visits every process of a finite tree once.
use mathlib.Core.List.{Perm, append-nil, append_assoc, perm_append_comm}
use mathlib.Core.List.Perm
use konk.Base.{
  ℕ, zero, suc, ◌≤◌, List, [], ◌∷◌, ◌++◌, ◌≡◌, refl, sym, ap, subst, ◌∙◌, arith, some, ok, inl, inr,
}
use konk.Criu.ProcessTree.{Processes, walk, get_process_tree}
use konk.Criu.ProcessTree.Forest.{
  Tree, node, Forest, nil, cons, root, roots, join, size, size_all, flatten, flatten_all, below,
  roots-join, size_all-join, below-join, Shows, ShowsAll, join-ShowsAll, HasChildren,
}

-- The first two of three lists change places.
append-swap {ℓ} : {A : Type ℓ} (a b c : List A) → Perm (a ++ (b ++ c)) (b ++ (a ++ c))
append-swap a b c =
    subst (λ l. Perm l (b ++ (a ++ c))) (append_assoc a b c)
      (subst (Perm ((a ++ b) ++ c)) (append_assoc b a c)
        (Perm.append_right c (perm_append_comm a b)))

module _ {P : Type 0} where
  -- The processes of a forest are its roots and those below them.
  flatten_all-perm : (f : Forest P) → Perm (flatten_all f) (roots f ++ below f)
  unfolding flatten below
  flatten_all-perm nil = Perm.rfl
  flatten_all-perm (cons (node p g) f) = Perm.cons p (
      Perm.trans (Perm.append_left (flatten_all g) (flatten_all-perm f))
        (append-swap (flatten_all g) (roots f) (below f)))

  -- What one step does to the list, up to order.
  step-perm :
      (tree : List P) (g f : Forest P)
      → Perm ((tree ++ roots g) ++ below (join f g)) (tree ++ (flatten_all g ++ below f))
  step-perm tree g f =
      let turned : Perm (roots g ++ (below f ++ below g)) (roots g ++ (below g ++ below f)) =
        Perm.append_left (roots g) (perm_append_comm (below f) (below g)) in
      let whole : Perm ((roots g ++ below g) ++ below f) (flatten_all g ++ below f) =
        Perm.append_right (below f) (Perm.symm (flatten_all-perm g)) in
      rw (below-join f g, append_assoc tree (roots g) (below f ++ below g))
        (Perm.append_left tree (
          Perm.trans turned (
            subst (λ l. Perm l (flatten_all g ++ below f))
              (append_assoc (roots g) (below g) (below f)) whole)))

module _ (S : Processes) where
  -- One step of the loop.
  walk-step :
      (fuel : ℕ) (p : S.Process) (rest tree kids : List S.Process)
      → HasChildren S p kids
      → walk S (suc fuel) (p ∷ rest) tree ≡ walk S fuel (rest ++ kids) (tree ++ kids)
  unfolding walk
  walk-step fuel p rest tree kids (inl e) = rw (e, walk) refl
  walk-step fuel p rest tree kids (inr (none_left, e)) = rw (e, walk, none_left) refl

  walk_lem :
      (fuel : ℕ) (f : Forest S.Process) (tree : List S.Process)
      → ShowsAll S f
      → size_all f ≤ fuel
      → (ps : List S.Process) × (walk S fuel (roots f) tree ≡ some (ok ps))
        × Perm ps (tree ++ below f)
  unfolding walk Shows size below
  walk_lem fuel nil tree h less = (tree, refl, rw (append-nil tree) Perm.rfl)
  walk_lem zero (cons (node p g) f) tree h less = absurd (omega arith)
  walk_lem (suc fuel) (cons (node p g) f) tree ((kids, hg), hf) less =
      let (ps, e, q) =
        walk_lem fuel (join f g) (tree ++ roots g) (join-ShowsAll S f g hf hg)
          (omega (arith, size_all-join f g)) in
      (
        ps,
        walk-step fuel p (roots f) tree (roots g) kids
            ∙ ap (λ l. walk S fuel l (tree ++ roots g)) (sym (roots-join f g))
            ∙ e,
        Perm.trans q (step-perm tree g f),
      )

  -- If the operating system shows a finite tree, the walk from its root ends, for any fuel from the
  -- number of its processes on, and gives these processes, each as often as it is in the tree, in
  -- some order.
  pub get_process_tree_lem :
      (fuel : ℕ) (t : Tree S.Process)
      → Shows S t
      → size t ≤ fuel
      → (ps : List S.Process) × (get_process_tree S fuel (root t) ≡ some (ok ps))
        × Perm ps (flatten t)
  unfolding get_process_tree Shows size flatten below
  get_process_tree_lem fuel (node p f) h less =
      let (ps, e, q) = walk_lem fuel (cons (node p f) nil) (p ∷ []) (h, tt) (omega arith) in
      (ps, e, subst (Perm ps) (ap (λ l. p ∷ l) (append-nil (flatten_all f))) q)
