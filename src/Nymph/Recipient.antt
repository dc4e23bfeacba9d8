-- ===== src/Nymph/Recipient.antt =====
-- srv/nymph/migrate-recipient.go: the end of a migration that receives files. Restoring the
-- container from them is in Nymph/Relaunch.
use konk.Base.{
  ℕ, ◌+◌, ◌-◌, String, pos, [], Option, none, some, Result, ok, err, errorf, wrap, nat_beq, ltb,
  length, if◌then◌else◌,
}
use konk.Container.Types.{ImageInfoArgs, LinkInfoArgs, FileInfoArgs, FileDataArgs}
use konk.Nymph.Os.{Os}

-- The zero value of the arguments, which a recipient holds until it is told an image.
abbrev pub no_info : ImageInfoArgs
no_info = record { rank = pos 0; id = ""; args = []; generation = pos 0; parent = pos 0 }

module _ (O : Os) where
  pub record Recipient : Type 0 where
    pub info : ImageInfoArgs
    pub seq : ℕ
    pub filename : String
    pub size : ℕ
    pub mode : ℕ
    pub mod_time : ℕ
    pub file : Option O.File
    pub to_write : ℕ

  abbrev pub new_recipient : Recipient
  new_recipient = record {
    info = no_info;
    seq = 4;
    filename = "";
    size = 0;
    mode = 0;
    mod_time = 0;
    file = none;
    to_write = 0;
  }

  -- What a call leaves: its reply or error, the recipient and the disk.
  pub record Handled : Type 0 where
    pub reply : Result ℕ
    pub recipient : Recipient
    pub disk : O.Disk

  -- `*seq = r.seq; r.seq = r.seq + 1; return nil`
  abbrev pub reply_seq : Recipient → O.Disk → Handled
  reply_seq r s = record { reply = ok r.seq; recipient = record r { seq = r.seq + 1 }; disk = s }

  unfoldable pub image_info : ImageInfoArgs → Recipient → O.Disk → Handled
  image_info args r s = reply_seq (record r { info = args }) s

  unfoldable pub link_info : String → LinkInfoArgs → Recipient → O.Disk → Handled
  link_info root args r s = elim r.file [
    | some file ↦ record { reply = err (errorf "Found unfinished file"); recipient = r; disk = s }
    | none ↦
        let fullpath = O.join root args.filename in
        let (made, s₁) = O.mkdir_all (O.dir fullpath) s in
        elim made [
          | err e ↦ record { reply = err e; recipient = r; disk = s₁ }
          | ok _ ↦
              let (linked, s₂) = O.symlink args.link fullpath s₁ in
              elim linked [
                | err e ↦ record {
                  reply = err (wrap "Failed to create symlink (%s) -> (%s): %v" e);
                  recipient = r;
                  disk = s₂;
                }
                | ok _ ↦ reply_seq r s₂
              ]
        ]
  ]

  -- The description of the file is overwritten before the test for an unfinished one.
  abbrev pub describe : FileInfoArgs → Recipient → Recipient
  describe args r = record r {
    filename = args.filename;
    size = args.size;
    mode = args.mode;
    mod_time = args.mod_time;
  }

  unfoldable pub file_info : String → FileInfoArgs → Recipient → O.Disk → Handled
  file_info root args r s =
      let r' = describe args r in
      elim r.file [
        | some file ↦ record {
          reply = err (errorf "Found unfinished file");
          recipient = r';
          disk = s;
        }
        | none ↦
            let fullpath = O.join root args.filename in
            let (made, s₁) = O.mkdir_all (O.dir fullpath) s in
            elim made [
              | err e ↦ record { reply = err e; recipient = r'; disk = s₁ }
              | ok _ ↦
                  let (opened, s₂) = O.open_file fullpath args.mode s₁ in
                  elim opened [
                    | err e ↦ record {
                      reply = err (wrap "Failed to create file (%s): %v" e);
                      recipient = r';
                      disk = s₂;
                    }
                    | ok file ↦ reply_seq (record r' { file = some file; to_write = args.size }) s₂
                  ]
            ]
      ]

  -- Once all announced bytes are there the file is closed.
  abbrev pub finish : O.File → Recipient → O.Disk → Handled
  finish file r s =
      if nat_beq r.to_write 0
      then reply_seq (record r { file = none; filename = "" }) (O.close file s)
      else reply_seq r s

  -- `File.Write` on a nil file returns an error.
  unfoldable pub file_data : FileDataArgs → Recipient → O.Disk → Handled
  file_data args r s =
      let data_len = length args.bytes in
      if ltb r.to_write data_len
      then record { reply = err (errorf "Unexpected buffer size"); recipient = r; disk = s }
      else elim r.file [
        | none ↦ record {
          reply = err (wrap "Failed to write the file: %v" (errorf "invalid argument"));
          recipient = r;
          disk = s;
        }
        | some file ↦
            let (written, result, s₁) = O.write file args.bytes s in
            elim result [
              | err e ↦ record {
                reply = err (wrap "Failed to write the file: %v" e);
                recipient = r;
                disk = s₁;
              }
              | ok _ ↦
                  if nat_beq written data_len
                  then finish file (record r { to_write = r.to_write - data_len }) s₁
                  else record {
                    reply = err (errorf "Not all data has been written");
                    recipient = r;
                    disk = s₁;
                  }
            ]
      ]
