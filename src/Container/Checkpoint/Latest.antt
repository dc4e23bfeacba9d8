-- ===== src/Container/Checkpoint/Latest.antt =====
-- The checkpoint that a container is restored from.
use konk.Base.{
  ◌≡◌, refl, ◌⊎◌, inl, inr, List, [], ◌∷◌, none, some, arith, All, ltb_ℤ, ◌≤ℤ◌, ◌<ℤ◌, ap, ◌++◌,
  if◌then◌else◌,
}
use konk.Container.Checkpoint.{Checkpoint, generation, latest_loop, latest_checkpoint}

abbrev pub Among : Checkpoint → List Checkpoint → Type 0
Among k [] = ⊥
Among k (x ∷ xs) = (k ≡ x) ⊎ Among k xs

latest_loop_lem :
    (k : Checkpoint) (ks : List Checkpoint)
    → let l = latest_loop k ks in
      (generation k ≤ℤ generation l)
      × All (λ x. generation x ≤ℤ generation l) ks
      × ((l ≡ k) ⊎ Among l ks)
unfolding latest_loop
latest_loop_lem k [] = (omega arith, tt, inl refl)
latest_loop_lem k (x ∷ xs) =
    ground (arith, latest_loop_lem (if ltb_ℤ (generation k) (generation x) then x else k) xs)

-- A container without checkpoints has no latest one; with checkpoints, the latest is one of them
-- and none has a higher generation.
latest_checkpoint_lem :
    (ks : List Checkpoint)
    → ((ks ≡ []) × (latest_checkpoint ks ≡ none))
      ⊎ ((l : Checkpoint) × (latest_checkpoint ks ≡ some l)
          × Among l ks
          × All (λ x. generation x ≤ℤ generation l) ks)
unfolding latest_checkpoint
latest_checkpoint_lem [] = inl (refl, refl)
latest_checkpoint_lem (k ∷ ks) =
    let p = latest_loop_lem k (k ∷ ks) in inr (latest_loop k (k ∷ ks), refl, ground (arith, p), p.1)

latest_loop_last :
    (a k : Checkpoint) (xs : List Checkpoint)
    → generation a <ℤ generation k
    → All (λ x. generation x <ℤ generation k) xs
    → latest_loop a (xs ++ (k ∷ [])) ≡ k
unfolding latest_loop
latest_loop_last a k [] h all = ground arith
latest_loop_last a k (x ∷ xs) h all =
    latest_loop_last (if ltb_ℤ (generation a) (generation x) then x else a) k xs (ground arith)
      all.1

pub latest_checkpoint_last :
    (k : Checkpoint) (xs : List Checkpoint)
    → All (λ x. generation x <ℤ generation k) xs
    → latest_checkpoint (xs ++ (k ∷ [])) ≡ some k
unfolding latest_checkpoint latest_loop
latest_checkpoint_last k [] all = ground arith
latest_checkpoint_last k (x ∷ xs) all = ap some (latest_loop_last x k (x ∷ xs) all.0 all)
