-- ===== src/Nymph/Transfer/Delivery.antt =====
-- A whole checkpoint on its way from the donor to the recipient, where nothing fails.
use konk.Base.{
  ℕ, ◌≡◌, ◌≢◌, refl, sym, subst, ◌∙◌, ap, String, List, [], ◌∷◌, none, some, Result, ok, Fallible,
  arith,
}
use konk.Container.Types.{ImageInfoArgs}
use konk.Nymph.Os.{Os, IsReliable}
use konk.Nymph.MigrationClient.{Peer, MigrationClient, image_info}
use konk.Nymph.Recipient.{Recipient}
use konk.Nymph.Recipient
use konk.Nymph.MigrationDonor.{DonorFs, CheckpointView, send_file, send_files, send_checkpoint}
use konk.Nymph.MigrationDonor.Steps.{send_files_next, send_checkpoint_next}
use konk.Nymph.Transfer.{Receiving, serve}
use konk.Nymph.Transfer.File.{P, InStep}
use konk.Nymph.Transfer.Regular.{Holds, send_file-Finished}

-- The entries of a checkpoint directory: names and contents.
abbrev pub Entries : Type 0
Entries = List (String × List ℕ)

abbrev pub names : Entries → List String
names [] = []
names ((name, _) ∷ es) = name ∷ names es

module _ (O : Os) (R : IsReliable O) (Node : Type 0)
    (launch : Receiving O Node → Result ℕ × Receiving O Node) (root : String) where
  abbrev Q : Peer
  Q = P O R Node launch root

  module _ (fs : DonorFs) (donor_root dir : String) where
    -- Where a file of the checkpoint ends up.
    abbrev pub place : String → String
    place name = O.join root (fs.join dir name)

    -- The files of the checkpoint directory on the donor: regular, not empty, readable.
    abbrev pub AllHeld : Entries → Type 0
    AllHeld [] = Unit {0}
    AllHeld ((name, content) ∷ es) =
        Holds fs (fs.join donor_root (fs.join dir name)) content × (content ≢ []) × AllHeld es

    -- No file of the list ends up at `path`.
    abbrev pub Spares : String → Entries → Type 0
    Spares path [] = Unit {0}
    Spares path ((name, _) ∷ es) = (path ≢ place name) × Spares path es

    -- No two files end up at one place.
    abbrev pub Apart : Entries → Type 0
    Apart [] = Unit {0}
    Apart ((name, _) ∷ es) = Spares (place name) es × Apart es

    -- Every file of the list is on the disk with its content.
    abbrev pub AllThere : O.Disk → Entries → Type 0
    AllThere s [] = Unit {0}
    AllThere s ((name, content) ∷ es) = (O.content s (place name) ≡ some content) × AllThere s es

    -- All files of the list have arrived, and no other file has changed.
    abbrev pub Complete : Entries → O.Disk → Fallible × MigrationClient Q → Type 0
    Complete es before (r, m) =
        (r ≡ ok tt)
        × (m.world.recipient.file ≡ none)
        × AllThere m.world.disk es
        × ((q : String) → Spares q es → O.content m.world.disk q ≡ O.content before q)

    pub send_files-Complete :
        (es : Entries) (m : MigrationClient Q)
        → AllHeld es
        → Apart es
        → InStep O R Node launch root m
        → m.world.recipient.file ≡ none
        → Complete es m.world.disk (send_files Q fs donor_root dir (names es) m)
    send_files-Complete [] m held apart step closed =
        unfold send_files in (refl, closed, tt, λ q _. refl)
    send_files-Complete ((name, content) ∷ es) m held apart step closed =
        let (sent, one) =
          send_file-Finished O R Node launch root fs donor_root (fs.join dir name) content m held.0
            held.1 step closed in
        let (rest, ready, there, others) =
          send_files-Complete es (send_file Q fs donor_root (fs.join dir name) m).1 held.2 apart.1
            one.step one.closed in
        subst (Complete ((name, content) ∷ es) m.world.disk)
          (sym (send_files_next Q m fs donor_root dir name (names es) sent))
          (
            rest,
            ready,
            (others (place name) apart.0 ∙ one.written, there),
            λ q spared. others q spared.1 ∙ one.others q spared.0,
          )

  -- After the description of the image the client and the recipient are in step, whatever numbers
  -- they were at before.
  image_info_lem :
      (info : ImageInfoArgs) (m : MigrationClient Q)
      → let (r, m') = image_info Q info m in
        (r ≡ ok tt)
        × InStep O R Node launch root m'
        × (m'.world.recipient.info ≡ info)
        × (m'.world.recipient.file ≡ m.world.recipient.file)
        × (m'.world.disk ≡ m.world.disk)
  unfolding image_info serve Recipient.image_info
  image_info_lem info m = ground arith

  module _ (fs : DonorFs) (donor_root : String) (c : CheckpointView) (state : List ℕ) (es : Entries)
      (m : MigrationClient Q) (closed : m.world.recipient.file ≡ none)
      (held : Holds fs (fs.join donor_root c.state_path) state) (ne : state ≢ [])
      (opened : fs.open_dir c.path_abs ≡ ok tt) (listed : fs.read_dir c.path_abs ≡ ok (names es))
      (all : AllHeld fs donor_root c.path es) (apart : Apart fs donor_root c.path es)
      (spares : Spares fs donor_root c.path (O.join root c.state_path) es) where
    -- All that a transfer leaves: its result, the recipient, the files sent and all others.
    abbrev Delivered : Fallible × MigrationClient Q → Type 0
    Delivered (r, m') =
        (r ≡ ok tt)
        × (m'.world.recipient.file ≡ none)
        × (O.content m'.world.disk (O.join root c.state_path) ≡ some state)
        × AllThere fs donor_root c.path m'.world.disk es
        × ((q : String)
            → q ≢ O.join root c.state_path
            → Spares fs donor_root c.path q es
            → O.content m'.world.disk q ≡ O.content m.world.disk q)

    send_checkpoint-Delivered : Delivered (send_checkpoint Q fs donor_root c m)
    send_checkpoint-Delivered =
        let (told, step, _, same_file, same_disk) = image_info_lem c.info m in
        let m₁ = (image_info Q c.info m).1 in
        let (sent, one) =
          send_file-Finished O R Node launch root fs donor_root c.state_path state m₁ held ne step
            (same_file ∙ closed) in
        let (done, ready, there, others) =
          send_files-Complete fs donor_root c.path es (send_file Q fs donor_root c.state_path m₁).1
            all apart one.step one.closed in
        subst Delivered
          (sym (send_checkpoint_next Q m fs donor_root c (names es) told sent opened listed))
          (
            done,
            ready,
            others (O.join root c.state_path) spares ∙ one.written,
            there,
            λ q away spared.
                others q spared ∙ one.others q away ∙ ap (λ (s : O.Disk). O.content s q) same_disk,
          )

    -- A checkpoint with its state file arrives at a recipient that has no file open and on whose
    -- disk nothing fails, where the files can be read, are regular, not empty and end up at
    -- different places: the transfer succeeds, the recipient is ready for another, and every file
    -- is on its disk with the donor's content.
    pub send_checkpoint_arrives :
        let (r, m') = send_checkpoint Q fs donor_root c m in
        (r ≡ ok tt)
        × (m'.world.recipient.file ≡ none)
        × (O.content m'.world.disk (O.join root c.state_path) ≡ some state)
        × AllThere fs donor_root c.path m'.world.disk es
    send_checkpoint_arrives =
        let (sent, ready, written, there, _) = send_checkpoint-Delivered in
        (sent, ready, written, there)

    -- A transfer of files that are regular, not empty and readable, over a connection and to a disk where
    -- nothing fails, to different places, changes no file at a place where none of them ends up.
    pub send_checkpoint_others :
        (q : String)
        → q ≢ O.join root c.state_path
        → Spares fs donor_root c.path q es
        → O.content (send_checkpoint Q fs donor_root c m).1.world.disk q ≡ O.content m.world.disk q
    send_checkpoint_others = send_checkpoint-Delivered.4
