-- ===== src/Nymph/Send.antt =====
-- srv/nymph/migrate.go: a nymph sends a container of its own to another node, and the connection that
-- srv/nymph/migrate-donor.go opens for it. The other nodes are a parameter.
pub mod Round
pub mod Laws
pub mod Traffic
use konk.Base.{
  ℕ, String, Bool, true, false, Option, none, some, Result, ok, err, wrap, Fallible, ◌==◌, ◌||◌,
  not, if◌then◌else◌,
}
use konk.Container.Types.{Rank, MigrationType, migrate, pre_dump, with_pre_dump, migration_type_eq}
use konk.Container.Runtime.{Runtime}
use konk.Container.Checkpoint.{
  Checkpoint, Container, new_checkpoint, image_info, state_path, checkpoint_path,
  checkpoint_path_abs, dump,
}
use konk.Container.Registry.{ContainerRegister, get_unlocked, put, delete_unlocked}
use konk.Nymph.Client.{SendArgs}
use konk.Nymph.MigrationClient.{Message, Peer, MigrationClient, new_migration_client}
use konk.Nymph.MigrationDonor.{DonorFs, CheckpointView}
use konk.Nymph.MigrationDonor

-- The other nodes: dialling a host (Util/Dial has the loop) and calling the recipient there. `fs` is
-- what the nymph can read of its own node.
pub record Remote (R : Runtime) : Type 1 where
  pub Net : Type 0
  pub dial : String → Net → Fallible × Net
  pub call : String → Message → Net → Result ℕ × Net
  pub fs : R.World → DonorFs

module _ (R : Runtime) (N : Remote R) (root_dir : String) where
  -- The nymph's containers, its node and the other nodes.
  pub record Nymph : Type 0 where
    pub containers : ContainerRegister R
    pub world : R.World
    pub net : N.Net

  abbrev pub recipient_at : String → Peer
  recipient_at host = record { World = N.Net; call = N.call host }

  abbrev pub view : Container R → Checkpoint → CheckpointView
  view c k = record {
    info = image_info R c k;
    state_path = state_path R c;
    path = checkpoint_path R c k;
    path_abs = checkpoint_path_abs R c k;
  }

  unfoldable pub new_migration_donor :
      (recipient : String) → N.Net → Result (MigrationClient (recipient_at recipient)) × N.Net
  new_migration_donor recipient net =
      let (r, net') = N.dial recipient net in
      elim r [
        | err e ↦ (err (wrap "Failed to open a connection to the recipient: %v" e), net')
        | ok _ ↦ (ok (new_migration_client (recipient_at recipient) net'), net')
      ]

  -- `if launch`
  unfoldable pub request_launch :
      (dest : String) → Bool → MigrationClient (recipient_at dest) → Fallible × N.Net
  request_launch dest launch m = elim launch [
    | false ↦ (ok tt, m.world)
    | true ↦ let (r, m') = MigrationDonor.relaunch (recipient_at dest) m in (r, m'.world)
  ]

  unfoldable pub send_checkpoint :
      Container R → Checkpoint → String → Bool → R.World → N.Net → Fallible × N.Net
  send_checkpoint c k dest launch w net =
      let (r, net₁) = new_migration_donor dest net in
      elim r [
        | err e ↦ (err e, net₁)
        | ok m ↦
            let (sent, m₁) =
              MigrationDonor.send_checkpoint (recipient_at dest) (N.fs w) root_dir (view c k) m in
            elim sent [ err e ↦ (err e, m₁.world) | ok _ ↦ request_launch dest launch m₁ ]
      ]

  -- A checkpoint is made, dumped and sent. The last one stops the container and has it launched at
  -- the other node; one before it leaves the container running. The container is shared with the
  -- register, so its new checkpoint is written back.
  unfoldable pub checkpoint_and_send :
      Bool
      → Option Checkpoint
      → Rank
      → String
      → Container R
      → Nymph
      → Result Checkpoint × Container R × Nymph
  checkpoint_and_send last parent rank dest c n =
      let (made, c', w₁) = new_checkpoint R parent c n.world in
      let n₁ = record n { containers = put R rank c' n.containers; world = w₁ } in
      elim made [
        | err e ↦ (err e, c', n₁)
        | ok k ↦
            let (dumped, w₂) = dump R c' k (not last) w₁ in
            elim dumped [
              | err e ↦ (err e, c', record n₁ { world = w₂ })
              | ok _ ↦
                  let (sent, net') = send_checkpoint c' k dest last w₂ n.net in
                  let n₂ = record n₁ { world = w₂; net = net' } in
                  elim sent [ err e ↦ (err e, c', n₂) | ok _ ↦ (ok k, c', n₂) ]
            ]
      ]

  -- The checkpoint without a parent that comes first, if the kind of migration asks for one.
  unfoldable pub send_first :
      SendArgs → Container R → Nymph → Result (Option Checkpoint) × Container R × Nymph
  send_first args c n =
      if (args.migration_type == pre_dump) || (args.migration_type == with_pre_dump)
      then (let (r, c', n') = checkpoint_and_send false none args.container_rank args.host c n in
          elim r [ err e ↦ (err e, c', n') | ok k ↦ (ok (some k), c', n') ])
      else (ok none, c, n)

  -- The last checkpoint, after which the container is deleted here.
  unfoldable pub send_last :
      SendArgs → Option Checkpoint → Container R → Nymph → Option (Fallible × Nymph)
  send_last args parent c n =
      if (args.migration_type == migrate) || (args.migration_type == with_pre_dump)
      then (let (r, _, n') = checkpoint_and_send true parent args.container_rank args.host c n in
          elim r [
            | err e ↦ some (err e, n')
            | ok _ ↦ elim (delete_unlocked R args.container_rank n'.containers n'.world) [
              | none ↦ none
              | some (cs, w) ↦ some (ok tt, record n' { containers = cs; world = w })
            ]
          ])
      else some (ok tt, n)

  -- `Nymph.Send`, which holds the register's mutex; `none` is a panic.
  unfoldable pub send : SendArgs → Nymph → Option (Fallible × Nymph)
  send args n = elim (get_unlocked R n.containers args.container_rank) [
    | err e ↦ some (err e, n)
    | ok c ↦
        let (r, c', n') = send_first args c n in
        elim r [ err e ↦ some (err e, n') | ok parent ↦ send_last args parent c' n' ]
  ]
