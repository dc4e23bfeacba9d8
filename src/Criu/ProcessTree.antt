-- ===== src/Criu/ProcessTree.antt =====
-- process_tree.go: the files below a directory that the processes of a tree have open. What the
-- operating system says of processes is a parameter, and does not change during the walk.
pub mod Forest
pub mod Walk
pub mod Files
use konk.Base.{
  ℕ, zero, suc, ℤ, String, List, [], ◌∷◌, ◌++◌, Bool, true, false, Option, none, some, Result, ok,
  err, wrap, Error, wrap_err, if◌then◌else◌,
}
use text.Mathlib.Text.{starts_with}

-- `Process.Children`: the children, `ErrorNoChildren`, or another error.
pub data Children (P : Type 0) : Type 0 where
  found : List P → Children P
  no_children : Children P
  failed : Error → Children P

-- What github.com/shirou/gopsutil/process gives.
pub record Processes : Type 1 where
  pub Process : Type 0
  pub new_process : ℤ → Result Process
  pub children : Process → Children Process
  -- The paths of the files that a process has open.
  pub open_files : Process → Result (List String)

-- `strings.HasPrefix`
unfoldable pub filtered : String → List String → List String
filtered prefix [] = []
filtered prefix (f ∷ fs) =
    let rest = filtered prefix fs in if starts_with f prefix then f ∷ rest else rest

module _ (S : Processes) where
  -- The loop, from its two slices. `none` means that the fuel ran out with processes still to visit.
  unfoldable pub walk : ℕ → List S.Process → List S.Process → Option (Result (List S.Process))
  walk fuel [] tree = some (ok tree)
  walk zero (head ∷ rest) tree = none
  walk (suc fuel) (head ∷ rest) tree = elim (S.children head) [
    | failed e ↦ some (err e)
    | no_children ↦ walk fuel (rest ++ []) (tree ++ [])
    | found children ↦ walk fuel (rest ++ children) (tree ++ children)
  ]

  unfoldable pub get_process_tree : ℕ → S.Process → Option (Result (List S.Process))
  get_process_tree fuel p = walk fuel (p ∷ []) (p ∷ [])

  -- The loop, from the files that it has so far.
  unfoldable pub files_loop : List S.Process → List String → Result (List String)
  files_loop [] files = ok files
  files_loop (p ∷ ps) files = elim (S.open_files p) [
    | err e ↦ err e
    | ok open_files ↦ files_loop ps (files ++ open_files)
  ]

  unfoldable pub get_open_files : List S.Process → Result (List String)
  get_open_files ps = files_loop ps []

  -- The files of a tree, once it is known.
  unfoldable pub tree_files : String → Result (List S.Process) → Result (List String)
  tree_files prefix (err e) = err (wrap "Failed to gather process tree: %v" e)
  tree_files prefix (ok tree) = elim (get_open_files tree) [
    | err e ↦ err (wrap "Failed to get open files: %v" e)
    | ok files ↦ ok (filtered prefix files)
  ]

  unfoldable pub get_open_files_prefix : ℕ → ℤ → String → Option (Result (List String))
  get_open_files_prefix fuel pid prefix = elim (S.new_process pid) [
    | err e ↦ some (err (wrap "NewProcess (%v): %v" e))
    | ok root ↦ elim (get_process_tree fuel root) [
      | none ↦ none
      | some tree ↦ some (tree_files prefix tree)
    ]
  ]
