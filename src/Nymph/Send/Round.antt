-- ===== src/Nymph/Send/Round.antt =====
-- One checkpoint on its way: what its result says of the register and of the other node.
use konk.Base.{
  ◌≡◌, refl, ◌⊎◌, inl, inr, ℕ, String, Bool, true, false, Option, Result, ok, err, Error, not,
  arith, Result-cases, int_eq,
}
use konk.Container.Types.{Rank, migration_type_eq}
use konk.Container.Runtime.{Runtime}
use konk.Container.Checkpoint.{Checkpoint, Container, new_checkpoint, dump}
use konk.Container.Registry.{put}
use konk.Nymph.MigrationClient.{MigrationClient, new_migration_client, relaunch_msg}
use konk.Nymph.MigrationClient
use konk.Nymph.MigrationDonor
use konk.Nymph.Send.{
  Remote, Nymph, recipient_at, new_migration_donor, view, request_launch, send_checkpoint,
  checkpoint_and_send,
}

module _ (R : Runtime) (N : Remote R) (root_dir : String) where
  -- The recipient at `host` was asked to launch the container, and did so, in the last call to it.
  abbrev pub Launched : String → N.Net → Type 0
  Launched host net =
      (before : N.Net) × (seq : ℕ) × (N.call host relaunch_msg before ≡ (ok seq, net))

  request_launch-Launched :
      (dest : String) (m : MigrationClient (recipient_at R N root_dir dest))
      → (request_launch R N root_dir dest true m).0 ≡ ok tt
      → Launched dest (request_launch R N root_dir dest true m).1
  unfolding request_launch MigrationDonor.relaunch MigrationClient.relaunch
  request_launch-Launched dest m h = elim (Result-cases (N.call dest relaunch_msg m.world).0) [
    | inl (seq, e) ↦ (m.world, seq, ground arith)
    | inr (x, e) ↦ ground arith
  ]

  send_checkpoint-Launched :
      (c : Container R) (k : Checkpoint) (dest : String) (w : R.World) (net : N.Net)
      → (send_checkpoint R N root_dir c k dest true w net).0 ≡ ok tt
      → Launched dest (send_checkpoint R N root_dir c k dest true w net).1
  unfolding send_checkpoint new_migration_donor
  send_checkpoint-Launched c k dest w net h = elim (Result-cases (N.dial dest net).0) [
    | inr (x, e) ↦ ground arith
    | inl (_, e) ↦
        let start = new_migration_client (recipient_at R N root_dir dest) (N.dial dest net).1 in
        let (sent, m) =
          MigrationDonor.send_checkpoint (recipient_at R N root_dir dest) (N.fs w) root_dir
            (view R N root_dir c k) start in
        elim (Result-cases sent) [
          | inr (x, f) ↦ ground arith
          | inl (_, f) ↦
              let l = request_launch-Launched dest m (ground arith) in
              (l.0, l.1, ground (arith, l.2))
        ]
  ]

  -- What the register is afterwards, and what a result says of the other node.
  abbrev pub Made :
      Bool
      → Rank
      → String
      → Nymph R N root_dir
      → Result Checkpoint × Container R × Nymph R N root_dir
      → Type 0
  Made last rank dest n (r, c', n') =
      (n'.containers ≡ put R rank c' n.containers)
      × (((e : Error) × (r ≡ err e))
          ⊎ ((k : Checkpoint) × (r ≡ ok k) × ((last ≡ false) ⊎ Launched dest n'.net)))

  pub checkpoint_and_send-Made :
      (last : Bool) (parent : Option Checkpoint) (rank : Rank) (dest : String) (c : Container R)
      (n : Nymph R N root_dir)
      → Made last rank dest n (checkpoint_and_send R N root_dir last parent rank dest c n)
  unfolding checkpoint_and_send
  checkpoint_and_send-Made last parent rank dest c n =
      let (made, c', w₁) = new_checkpoint R parent c n.world in
      elim (Result-cases made) [
        | inr (x, e) ↦ rw (e, checkpoint_and_send) (refl, inl (x, refl))
        | inl (k, e) ↦
            let (dumped, w₂) = dump R c' k (not last) w₁ in
            elim (Result-cases dumped) [
              | inr (x, f) ↦ rw (e, f, checkpoint_and_send) (refl, inl (x, refl))
              | inl (_, f) ↦
                  elim (Result-cases (send_checkpoint R N root_dir c' k dest last w₂ n.net).0) [
                    | inr (x, g) ↦ rw (e, f, g, checkpoint_and_send) (refl, inl (x, refl))
                    | inl (_, g) ↦
                        rw (e, f, g, checkpoint_and_send)
                          (refl, inr (k, refl, launched last c' k w₂ g))
                  ]
            ]
      ]
    where
      launched :
          (last : Bool) (c' : Container R) (k : Checkpoint) (w : R.World)
          → (send_checkpoint R N root_dir c' k dest last w n.net).0 ≡ ok tt
          → (last ≡ false) ⊎ Launched dest (send_checkpoint R N root_dir c' k dest last w n.net).1
      launched false c' k w g = inl refl
      launched true c' k w g = inr (send_checkpoint-Launched c' k dest w n.net g)
