-- ===== src/Criu/ProcessTree/Files.antt =====
-- process_tree.go: the files that the processes of a tree have open under a prefix.
use mathlib.Core.Logic.{∥∥₁_map}
use mathlib.Core.List.{Perm, append-nil, append_assoc}
use mathlib.Core.List.{Permᴰ}
use mathlib.Core.List.Permᴰ
use konk.Base.{
  ℕ, ℤ, String, ◌≤◌, List, [], ◌∷◌, ◌++◌, ◌≡◌, refl, sym, ap, subst, ◌∙◌, arith, some, ok,
  if◌then◌else◌,
}
use text.Mathlib.Text.{starts_with}
use konk.Criu.ProcessTree.{
  Processes, files_loop, get_open_files, filtered, tree_files, get_open_files_prefix,
}
use konk.Criu.ProcessTree.Forest.{Tree, root, size, flatten, Shows}
use konk.Criu.ProcessTree.Walk.{get_process_tree_lem}

-- The elements that `f` gives for those of a list.
unfoldable pub concat_map {ℓ κ} : {A : Type ℓ} {B : Type κ} → (A → List B) → List A → List B
concat_map f [] = []
concat_map f (x ∷ xs) = f x ++ concat_map f xs

append-first {ℓ} : {A : Type ℓ} (a b c : List A) → Permᴰ (a ++ (b ++ c)) (b ++ (a ++ c))
append-first a b c =
    subst (λ l. Permᴰ l (b ++ (a ++ c))) (append_assoc a b c)
      (subst (Permᴰ ((a ++ b) ++ c)) (append_assoc b a c)
        (Permᴰ.append_right c (Permᴰ.append_comm a b)))

concat_map-perm {ℓ κ} :
    {A : Type ℓ} {B : Type κ} (f : A → List B) {xs ys : List A}
    → Permᴰ xs ys
    → Permᴰ (concat_map f xs) (concat_map f ys)
unfolding concat_map
concat_map-perm f Permᴰ.nil = Permᴰ.nil
concat_map-perm f (Permᴰ.cons {a = a} {l₁ = l₁} {l₂ = l₂} e d) =
    subst (λ b. Permᴰ (f a ++ concat_map f l₁) (f b ++ concat_map f l₂)) e
      (Permᴰ.append_left (f a) (concat_map-perm f d))
concat_map-perm f (Permᴰ.swap {a = a} {b = b} {b' = b'} {l = l} e e') =
    let rest = concat_map f l in
    subst (λ x. Permᴰ (f a ++ (f b ++ rest)) (f x ++ (f b' ++ rest))) e'
      (subst (λ x. Permᴰ (f a ++ (f b ++ rest)) (f b ++ (f x ++ rest))) e
        (append-first (f a) (f b) rest))
concat_map-perm f (Permᴰ.trans d d') = Permᴰ.trans (concat_map-perm f d) (concat_map-perm f d')

-- Filtering is such a map.
filtered-concat_map :
    (prefix : String) (xs : List String)
    → filtered prefix xs ≡ concat_map (λ x. if starts_with x prefix then x ∷ [] else []) xs
unfolding filtered concat_map
filtered-concat_map prefix [] = refl
filtered-concat_map prefix (x ∷ xs) = ground (arith, filtered-concat_map prefix xs)

filtered-perm :
    (prefix : String) {xs ys : List String}
    → Perm xs ys
    → Perm (filtered prefix xs) (filtered prefix ys)
filtered-perm prefix {xs} {ys} p =
    rw (filtered-concat_map prefix xs, filtered-concat_map prefix ys)
      (∥∥₁_map p (concat_map-perm (λ x. if starts_with x prefix then x ∷ [] else [])))

module _ (S : Processes) (opens : S.Process → List String) where
  files_loop_lem :
      ((p : S.Process) → S.open_files p ≡ ok (opens p))
      → (ps : List S.Process) (files : List String)
      → files_loop S ps files ≡ ok (files ++ concat_map opens ps)
  unfolding files_loop concat_map
  files_loop_lem all [] files = ap ok (sym (append-nil files))
  files_loop_lem all (p ∷ ps) files =
      rw (all p, files_loop) (files_loop_lem all ps (files ++ opens p))
      ∙ ap ok (append_assoc files (opens p) (concat_map opens ps))

  -- If the operating system shows a finite tree for a process and tells which files each process has
  -- open, then the call ends, for any fuel from the number of processes on, and gives the paths under
  -- the prefix that the processes of the tree have open, each as often as it is open, in some order.
  pub get_open_files_prefix_lem :
      (fuel : ℕ) (pid : ℤ) (prefix : String) (t : Tree S.Process)
      → ((p : S.Process) → S.open_files p ≡ ok (opens p))
      → S.new_process pid ≡ ok (root t)
      → Shows S t
      → size t ≤ fuel
      → (paths : List String) × (get_open_files_prefix S fuel pid prefix ≡ some (ok paths))
        × Perm paths (filtered prefix (concat_map opens (flatten t)))
  unfolding get_open_files_prefix get_open_files tree_files
  get_open_files_prefix_lem fuel pid prefix t all e shows less =
      let (ps, f, perm) = get_process_tree_lem S fuel t shows less in
      (
        filtered prefix (concat_map opens ps),
        ground (arith, files_loop_lem all ps []),
        filtered-perm prefix (∥∥₁_map perm (concat_map-perm opens)),
      )
