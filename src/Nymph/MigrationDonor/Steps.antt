-- ===== src/Nymph/MigrationDonor/Steps.antt =====
-- What the donor does next, once a step has succeeded.
use konk.Base.{ap, Fallible, ℕ, ◌≡◌, ◌∙◌, String, List, ◌∷◌, false, ok}
use konk.Nymph.MigrationClient.{Peer, MigrationClient, FileStat, file_info, file_data, image_info}
use konk.Nymph.MigrationDonor.{
  Reads, bytes, DonorFs, CheckpointView, is_symlink, send_chunks, send_regular, send_file,
  send_files, send_state, send_image, send_checkpoint,
}

module _ (P : Peer) (m : MigrationClient P) where
  pub send_chunks_next :
      (buf : List ℕ) (rest : Reads)
      → (file_data P buf m).0 ≡ ok tt
      → send_chunks P (bytes buf rest) m ≡ send_chunks P rest (file_data P buf m).1
  unfolding send_chunks
  send_chunks_next buf rest e = rw (e, send_chunks)

  module _ (fs : DonorFs) where
    pub send_regular_next :
        (full filename : String) (stat : FileStat) (reads : Reads)
        → (file_info P filename stat m).0 ≡ ok tt
        → fs.open_file full ≡ ok reads
        → send_regular P fs full filename stat m
          ≡ send_chunks P reads (file_info P filename stat m).1
    unfolding send_regular
    send_regular_next full filename stat reads e f = rw (e, f, send_regular)

    pub send_file_next :
        (donor_root filename : String) (stat : FileStat)
        → fs.lstat (fs.join donor_root filename) ≡ ok stat
        → is_symlink stat ≡ false
        → send_file P fs donor_root filename m
          ≡ send_regular P fs (fs.join donor_root filename) filename stat m
    unfolding send_file
    send_file_next donor_root filename stat e f = rw (e, f, send_file)

    pub send_files_next :
        (donor_root dir name : String) (names : List String)
        → (send_file P fs donor_root (fs.join dir name) m).0 ≡ ok tt
        → send_files P fs donor_root dir (name ∷ names) m
          ≡ send_files P fs donor_root dir names (send_file P fs donor_root (fs.join dir name) m).1
    unfolding send_files
    send_files_next donor_root dir name names e = rw (e, send_files)

    send_state_next :
        (donor_root : String) (c : CheckpointView)
        → (image_info P c.info m).0 ≡ ok tt
        → (send_file P fs donor_root c.state_path (image_info P c.info m).1).0 ≡ ok tt
        → send_state P fs donor_root c m
          ≡ (ok tt, (send_file P fs donor_root c.state_path (image_info P c.info m).1).1)
    unfolding send_state
    send_state_next donor_root c e f = rw (e, f, send_state)

    send_image_next :
        (donor_root : String) (c : CheckpointView) (names : List String)
        → fs.open_dir c.path_abs ≡ ok tt
        → fs.read_dir c.path_abs ≡ ok names
        → send_image P fs donor_root c m ≡ send_files P fs donor_root c.path names m
    unfolding send_image
    send_image_next donor_root c names e f = rw (e, f, send_image)

    after_state :
        (donor_root : String) (c : CheckpointView) {m' : MigrationClient P}
        → send_state P fs donor_root c m ≡ (ok tt, m')
        → send_checkpoint P fs donor_root c m ≡ send_image P fs donor_root c m'
    unfolding send_checkpoint
    after_state donor_root c e =
        rw (ap (λ (x : Fallible × MigrationClient P). x.0) e, send_checkpoint)
          (ap (send_image P fs donor_root c) (ap (λ (x : Fallible × MigrationClient P). x.1) e))

module _ (P : Peer) (m : MigrationClient P) (fs : DonorFs) where
  pub send_checkpoint_next :
      (donor_root : String) (c : CheckpointView) (names : List String)
      → (image_info P c.info m).0 ≡ ok tt
      → (send_file P fs donor_root c.state_path (image_info P c.info m).1).0 ≡ ok tt
      → fs.open_dir c.path_abs ≡ ok tt
      → fs.read_dir c.path_abs ≡ ok names
      → send_checkpoint P fs donor_root c m
        ≡ send_files P fs donor_root c.path names
            (send_file P fs donor_root c.state_path (image_info P c.info m).1).1
  send_checkpoint_next donor_root c names e f g h =
      after_state P m fs donor_root c (send_state_next P m fs donor_root c e f)
      ∙ send_image_next P _ fs donor_root c names g h
