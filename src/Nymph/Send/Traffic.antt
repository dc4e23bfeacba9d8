-- ===== src/Nymph/Send/Traffic.antt =====
-- What sending a container does to the other end, whatever that is.
pub mod Rounds
pub mod Ended
use konk.Base.{
  int_eq, wrap, ◌≡◌, ◌≢◌, refl, sym, ◌∙◌, subst, ℕ, String, Bool, true, false, Option, none, some,
  Result, ok, err, Error, Fallible, arith, Result-cases, Bool-cases, Option-cases, not, inl, inr,
  ◌==◌, ◌||◌,
}
use konk.Container.Types.{
  Rank, ImageInfoArgs, MigrationType, migrate, pre_dump, with_pre_dump, migration_type_eq,
}
use konk.Container.Runtime.{Runtime}
use konk.Container.Checkpoint.{Checkpoint, Container, new_checkpoint, image_info, dump}
use konk.Container.Registry.{get_unlocked, delete_unlocked}
use konk.Nymph.Client.{SendArgs}
use konk.Nymph.MigrationClient.{
  MigrationClient, Message, image_info_msg, relaunch_msg, new_migration_client,
}
use konk.Nymph.MigrationClient
use konk.Nymph.MigrationDonor.Traffic.{
  carries_file, send_checkpoint-keeps, send_checkpoint-establishes,
}
use konk.Nymph.MigrationDonor
use konk.Base.Dict.{lookup}
use konk.Nymph.Send.{
  Remote, Nymph, recipient_at, new_migration_donor, view, request_launch, send_checkpoint,
  checkpoint_and_send, send_first, send_last, send,
}

-- Predicates on the other end: `Before` holds until a container is to be launched there, and `After`
-- ever since; `Named` says that the image that was announced last is that of the rank, and `Runs` that
-- its container has been launched.
pub record Protocol {R : Runtime} (N : Remote R) (host : String) (rank : Rank) : Type 1 where
  pub Before : N.Net → Type 0
  pub Named : N.Net → Type 0
  pub After : N.Net → Type 0
  pub Runs : N.Net → Type 0
  pub weaken : (w : N.Net) → Before w → After w
  pub dial_Before : (w : N.Net) → Before w → Before (N.dial host w).1
  pub file_Before :
      (msg : Message) (w : N.Net)
      → carries_file msg ≡ true
      → Before w
      → Before (N.call host msg w).1
  pub file_Named :
      (msg : Message) (w : N.Net) → carries_file msg ≡ true → Named w → Named (N.call host msg w).1
  pub image_Before :
      (info : ImageInfoArgs) (w : N.Net) → Before w → Before (N.call host (image_info_msg info) w).1
  pub image_Named :
      (info : ImageInfoArgs) (w : N.Net) (seq : ℕ)
      → info.rank ≡ rank
      → (N.call host (image_info_msg info) w).0 ≡ ok seq
      → Named (N.call host (image_info_msg info) w).1
  pub launch_After : (w : N.Net) → Before w → Named w → After (N.call host relaunch_msg w).1
  pub launch_Runs :
      (w : N.Net) (seq : ℕ)
      → Before w
      → Named w
      → (N.call host relaunch_msg w).0 ≡ ok seq
      → Runs (N.call host relaunch_msg w).1
