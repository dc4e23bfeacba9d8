-- ===== src/Nymph/MigrationClient.antt =====
-- pkg/nymph/migrate.go: the client end of the connection to a recipient. What answers the calls is a
-- parameter; a call returns an error or the sequence number of the reply.
use konk.Base.{ℕ, ◌+◌, String, List, Result, ok, err, errorf, Fallible, nat_beq, if◌then◌else◌}
use konk.Container.Types.{ImageInfoArgs, LinkInfoArgs, FileInfoArgs, FileDataArgs}

-- "Recipient.ImageInfo" and the other methods, with their arguments.
pub data Message : Type 0 where
  image_info_msg : ImageInfoArgs → Message
  link_info_msg : LinkInfoArgs → Message
  file_info_msg : FileInfoArgs → Message
  file_data_msg : FileDataArgs → Message
  relaunch_msg : Message

pub record Peer : Type 1 where
  pub World : Type 0
  pub call : Message → World → Result ℕ × World

-- What `os.Lstat` reports of a file.
pub record FileStat : Type 0 where
  pub size : ℕ
  pub mode : ℕ
  pub mod_time : ℕ

module _ (P : Peer) where
  -- The client with the world that its calls act on.
  pub record MigrationClient : Type 0 where
    pub seq : ℕ
    pub world : P.World

  abbrev pub new_migration_client : P.World → MigrationClient
  new_migration_client w = record { seq = 0; world = w }

  -- The reply has to carry the number after the last one.
  unfoldable pub checked_call : Message → MigrationClient → Fallible × MigrationClient
  checked_call msg m =
      let (r, w) = P.call msg m.world in
      elim r [
        | err e ↦ (err e, record m { world = w })
        | ok seq ↦
            if nat_beq seq (m.seq + 1)
            then (ok tt, record { seq = seq; world = w })
            else (err (errorf "Unexpected sequence number: %v"), record m { world = w })
      ]

  -- The first call takes the number that the recipient is at.
  unfoldable pub image_info : ImageInfoArgs → MigrationClient → Fallible × MigrationClient
  image_info args m =
      let (r, w) = P.call (image_info_msg args) m.world in
      elim r [
        | err e ↦ (err e, record m { world = w })
        | ok seq ↦ (ok tt, record { seq = seq; world = w })
      ]

  unfoldable pub link_info :
      String → FileStat → String → MigrationClient → Fallible × MigrationClient
  link_info filename stat link = checked_call (
      link_info_msg (record {
        filename = filename;
        link = link;
        size = stat.size;
        mode = stat.mode;
        mod_time = stat.mod_time;
      }))

  unfoldable pub file_info : String → FileStat → MigrationClient → Fallible × MigrationClient
  file_info filename stat = checked_call (
      file_info_msg (record {
        filename = filename;
        size = stat.size;
        mode = stat.mode;
        mod_time = stat.mod_time;
      }))

  unfoldable pub file_data : List ℕ → MigrationClient → Fallible × MigrationClient
  file_data bytes = checked_call (file_data_msg (record { bytes = bytes }))

  -- The number of the reply is not looked at.
  unfoldable pub relaunch : MigrationClient → Fallible × MigrationClient
  relaunch m =
      let (r, w) = P.call relaunch_msg m.world in
      elim r [ err e ↦ (err e, record m { world = w }) | ok _ ↦ (ok tt, record m { world = w }) ]
