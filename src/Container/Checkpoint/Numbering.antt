-- ===== src/Container/Checkpoint/Numbering.antt =====
-- How a container numbers its checkpoints.
use konk.Base.{
  subst, sym, suc, zero, ℤ, pos, negsuc, succ_ℤ, ◌≡◌, refl, ◌⊎◌, List, [], ◌∷◌, ◌++◌, Option, none,
  some, ok, err, Error, arith, All, All-append, ◌<ℤ◌, int_eq, inl, inr, Result-cases, eq_self,
}
use konk.Container.Runtime.{Runtime}
use konk.Container.Checkpoint.{
  Checkpoint, generation, numbered, find_checkpoint, Container, get_checkpoint, new_checkpoint,
  latest_checkpoint, checkpoint_path_abs,
}
use konk.Container.Checkpoint.Latest.{latest_checkpoint_last}

lt_succ : (a b : ℤ) → a <ℤ b → a <ℤ succ_ℤ b
lt_succ a (pos n) h = omega arith
lt_succ a (negsuc zero) h = omega arith
lt_succ a (negsuc (suc n)) h = omega arith

lt_succ_self : (b : ℤ) → b <ℤ succ_ℤ b
lt_succ_self (pos n) = omega arith
lt_succ_self (negsuc zero) = omega arith
lt_succ_self (negsuc (suc n)) = omega arith

All-lt_succ :
    (ks : List Checkpoint) (b : ℤ)
    → All (λ x. generation x <ℤ b) ks
    → All (λ x. generation x <ℤ succ_ℤ b) ks
All-lt_succ [] b h = tt
All-lt_succ (k ∷ ks) b h = (lt_succ (generation k) b h.0, All-lt_succ ks b h.1)

generation-numbered : (p : Option Checkpoint) (g : ℤ) → generation (numbered p g) ≡ g
generation-numbered none g = refl
generation-numbered (some p) g = refl

find_checkpoint_last :
    (k : Checkpoint) (ks : List Checkpoint)
    → All (λ x. generation x <ℤ generation k) ks
    → find_checkpoint (generation k) (ks ++ (k ∷ [])) ≡ ok k
unfolding find_checkpoint
find_checkpoint_last k [] h = ground (arith, eq_self (generation k))
find_checkpoint_last k (x ∷ ks) h = ground (arith, find_checkpoint_last k ks h.1)

module _ (R : Runtime) where
  -- Every checkpoint has a lower number than the next one will have.
  abbrev pub IsNumbered : Container R → Type 0
  IsNumbered c = All (λ k. generation k <ℤ c.next_checkpoint_id) c.checkpoints

  -- A container that numbers its checkpoints keeps doing so. If the directory cannot be made, nothing
  -- changes but the world; otherwise the new checkpoint has the number of the counter, it is found
  -- under that number, and it is the latest.
  pub new_checkpoint_lem :
      (parent : Option Checkpoint) (c : Container R) (w : R.World)
      → IsNumbered c
      → let (r, c', _) = new_checkpoint R parent c w in
        IsNumbered c'
        × (((e : Error) × (r ≡ err e) × (c' ≡ c))
            ⊎ ((k : Checkpoint) × (r ≡ ok k)
                × (generation k ≡ c.next_checkpoint_id)
                × (get_checkpoint R c' (generation k) ≡ ok k)
                × (latest_checkpoint c'.checkpoints ≡ some k)))
  unfolding new_checkpoint get_checkpoint
  new_checkpoint_lem parent c w h =
      let k = numbered parent c.next_checkpoint_id in
      let g = generation-numbered parent c.next_checkpoint_id in
      let below : All (λ (x : Checkpoint). generation x <ℤ generation k) c.checkpoints =
        subst (λ b. All (λ (x : Checkpoint). generation x <ℤ b) c.checkpoints) (sym g) h in
      elim (Result-cases (R.mkdir_all (checkpoint_path_abs R c k) w).0) [
        | inr (e, f) ↦ rw (f, new_checkpoint) (h, inl (e, refl, refl))
        | inl (_, f) ↦
            rw (f, new_checkpoint)
              (
                All-append _ c.checkpoints (k ∷ [])
                    (All-lt_succ c.checkpoints c.next_checkpoint_id h)
                    (
                      subst (λ b. b <ℤ succ_ℤ c.next_checkpoint_id) (sym g)
                          (lt_succ_self c.next_checkpoint_id),
                      tt,
                    ),
                inr (
                  k,
                  refl,
                  g,
                  find_checkpoint_last k c.checkpoints below,
                  latest_checkpoint_last k c.checkpoints below,
                ),
              )
      ]
