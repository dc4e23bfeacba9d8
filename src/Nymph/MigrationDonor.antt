-- ===== src/Nymph/MigrationDonor.antt =====
-- srv/nymph/migrate-donor.go: the end of a migration that sends a checkpoint.
pub mod Steps
pub mod Traffic
use konk.Base.{
  ℕ, ◌/◌, ◌%◌, ◌^◌, String, List, [], ◌∷◌, ◌++◌, Bool, true, false, Result, ok, err, errorf, wrap,
  wrap_err, Error, Fallible, nat_beq,
}
use konk.Container.Types.{ImageInfoArgs}
use konk.Nymph.MigrationClient.{
  Peer, FileStat, MigrationClient, image_info, link_info, file_info, file_data,
}
use konk.Nymph.MigrationClient

-- How the calls of `File.Read` on an open file end, one after another, with a buffer of 2^21 bytes:
-- each gives some bytes, until one meets the end of the file or fails.
pub data Reads : Type 0 where
  eof : Reads
  failure : Error → Reads
  bytes : List ℕ → Reads → Reads

-- The file system of the donor, which a transfer only reads.
pub record DonorFs : Type 0 where
  pub join : String → String → String
  pub lstat : String → Result FileStat
  pub read_link : String → Result String
  pub open_file : String → Result Reads
  pub open_dir : String → Fallible
  -- The names that `Readdir(0)` gives.
  pub read_dir : String → Result (List String)

-- What the donor asks of a checkpoint.
pub record CheckpointView : Type 0 where
  pub info : ImageInfoArgs
  pub state_path : String
  pub path : String
  pub path_abs : String

-- `fileInfo.Mode() & os.ModeSymlink != 0`, where `os.ModeSymlink` is bit 27.
abbrev pub is_symlink : FileStat → Bool
is_symlink stat = nat_beq (stat.mode / 2 ^ 27 % 2) 1

module _ (P : Peer) where
  -- The loop that reads a chunk and sends it.
  unfoldable pub send_chunks : Reads → MigrationClient P → Fallible × MigrationClient P
  send_chunks eof m = (ok tt, m)
  send_chunks (failure e) m = (err (wrap "Error while reading file: %v" e), m)
  send_chunks (bytes buf rest) m =
      let (r, m') = file_data P buf m in
      elim r [
        | err e ↦ (err (wrap "Error while sending data: %v" e), m')
        | ok _ ↦ send_chunks rest m'
      ]

  unfoldable pub send_regular :
      DonorFs → String → String → FileStat → MigrationClient P → Fallible × MigrationClient P
  send_regular fs fullpath filepath stat m =
      let (r, m') = file_info P filepath stat m in
      elim r [
        | err e ↦ (err (wrap "Failed to send file info %s: %v" e), m')
        | ok _ ↦ elim (fs.open_file fullpath) [
          | err e ↦ (err (wrap "Failed to open file: %v" e), m')
          | ok reads ↦ send_chunks reads m'
        ]
      ]

  unfoldable pub send_file :
      DonorFs → String → String → MigrationClient P → Fallible × MigrationClient P
  send_file fs root_dir filepath m =
      let fullpath = fs.join root_dir filepath in
      elim (fs.lstat fullpath) [
        | err e ↦ (err (wrap "Failed to get file state: %v" e), m)
        | ok stat ↦ elim (is_symlink stat) [
          | true ↦ elim (fs.read_link fullpath) [
            | err e ↦ (err e, m)
            | ok link ↦ link_info P filepath stat link m
          ]
          | false ↦ send_regular fs fullpath filepath stat m
        ]
      ]

  unfoldable pub send_state :
      DonorFs → String → CheckpointView → MigrationClient P → Fallible × MigrationClient P
  send_state fs root_dir c m =
      let (r, m₁) = image_info P c.info m in
      elim r [
        | err e ↦ (err e, m₁)
        | ok _ ↦
            let (sent, m₂) = send_file fs root_dir c.state_path m₁ in
            (wrap_err "Failed to transfer the file %s: %v" sent, m₂)
      ]

  unfoldable pub send_files :
      DonorFs → String → String → List String → MigrationClient P → Fallible × MigrationClient P
  send_files fs root_dir dir [] m = (ok tt, m)
  send_files fs root_dir dir (name ∷ names) m =
      let (r, m') = send_file fs root_dir (fs.join dir name) m in
      elim r [
        | err e ↦ (err (wrap "Failed to transfer the file %s: %v" e), m')
        | ok _ ↦ send_files fs root_dir dir names m'
      ]

  unfoldable pub send_image :
      DonorFs → String → CheckpointView → MigrationClient P → Fallible × MigrationClient P
  send_image fs root_dir c m = elim (fs.open_dir c.path_abs) [
    | err e ↦ (err (wrap "Failed to open checkpoint dir: %v" e), m)
    | ok _ ↦ elim (fs.read_dir c.path_abs) [
      | err e ↦ (err (wrap "Failed to read the contents of checkpoint directory: %v" e), m)
      | ok names ↦ send_files fs root_dir c.path names m
    ]
  ]

  unfoldable pub send_checkpoint :
      DonorFs → String → CheckpointView → MigrationClient P → Fallible × MigrationClient P
  send_checkpoint fs root_dir c m =
      let (r, m') = send_state fs root_dir c m in
      elim r [ err e ↦ (err e, m') | ok _ ↦ send_image fs root_dir c m' ]

  unfoldable pub relaunch : MigrationClient P → Fallible × MigrationClient P
  relaunch m =
      let (r, m') = MigrationClient.relaunch P m in
      (wrap_err "Failed to send launch request: %v" r, m')
