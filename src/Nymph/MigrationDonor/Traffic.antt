-- ===== src/Nymph/MigrationDonor/Traffic.antt =====
-- What the calls of a donor preserve of the recipient's end.
use konk.Base.{
  String, List, [], ◌∷◌, Bool, true, false, ok, err, Error, ◌≡◌, ◌≢◌, refl, arith, inl, inr,
  Result-cases, Bool-cases, nat_beq, ◌+◌,
}
use konk.Nymph.MigrationClient.{
  Message, image_info_msg, link_info_msg, file_info_msg, file_data_msg, relaunch_msg, Peer,
  FileStat, MigrationClient, checked_call, image_info, link_info, file_info, file_data,
}
use konk.Nymph.MigrationDonor.{
  Reads, eof, failure, bytes, DonorFs, CheckpointView, is_symlink, send_chunks, send_regular,
  send_file, send_state, send_files, send_image, send_checkpoint,
}

-- A call that only sends a file or a part of one.
abbrev pub carries_file : Message → Bool
carries_file (image_info_msg args) = false
carries_file (link_info_msg args) = true
carries_file (file_info_msg args) = true
carries_file (file_data_msg args) = true
carries_file relaunch_msg = false

-- The calls that carry files preserve `I`.
abbrev pub Stable : (P : Peer) → (P.World → Type 0) → Type 0
Stable P I = (msg : Message) (w : P.World) → carries_file msg ≡ true → I w → I (P.call msg w).1

module _ (P : Peer) (I : P.World → Type 0) (stable : Stable P I) where
  checked_call-keeps :
      (msg : Message) (m : MigrationClient P)
      → carries_file msg ≡ true
      → I m.world
      → I (checked_call P msg m).1.world
  unfolding checked_call
  checked_call-keeps msg m f h =
      let after = stable msg m.world f h in
      elim (Result-cases (P.call msg m.world).0) [
        | inr (x, e) ↦ rw (e, checked_call) after
        | inl (seq, e) ↦ elim (Bool-cases (nat_beq seq (m.seq + 1))) [
          | inl g ↦ rw (e, g, checked_call) after
          | inr g ↦ rw (e, g, checked_call) after
        ]
      ]

  send_chunks-keeps :
      (reads : Reads) (m : MigrationClient P) → I m.world → I (send_chunks P reads m).1.world
  unfolding send_chunks file_data
  send_chunks-keeps eof m h = h
  send_chunks-keeps (failure e) m h = h
  send_chunks-keeps (bytes buf rest) m h =
      let after = checked_call-keeps (file_data_msg (record { bytes = buf })) m refl h in
      elim (Result-cases (file_data P buf m).0) [
        | inr (x, e) ↦ rw (e, send_chunks) after
        | inl (_, e) ↦ rw (e, send_chunks) (send_chunks-keeps rest (file_data P buf m).1 after)
      ]

  send_regular-keeps :
      (fs : DonorFs) (full path : String) (stat : FileStat) (m : MigrationClient P)
      → I m.world
      → I (send_regular P fs full path stat m).1.world
  unfolding send_regular file_info
  send_regular-keeps fs full path stat m h =
      let after : I (file_info P path stat m).1.world = checked_call-keeps _ m refl h in
      elim (Result-cases (file_info P path stat m).0) [
        | inr (x, e) ↦ rw (e, send_regular) after
        | inl (_, e) ↦ elim (Result-cases (fs.open_file full)) [
          | inr (x, f) ↦ rw (e, f, send_regular) after
          | inl (reads, f) ↦
              rw (e, f, send_regular) (send_chunks-keeps reads (file_info P path stat m).1 after)
        ]
      ]

  send_file-keeps :
      (fs : DonorFs) (root path : String) (m : MigrationClient P)
      → I m.world
      → I (send_file P fs root path m).1.world
  unfolding send_file link_info
  send_file-keeps fs root path m h =
      let full = fs.join root path in
      elim (Result-cases (fs.lstat full)) [
        | inr (x, e) ↦ rw (e, send_file) h
        | inl (stat, e) ↦ elim (Bool-cases (is_symlink stat)) [
          | inr f ↦ rw (e, f, send_file) (send_regular-keeps fs full path stat m h)
          | inl f ↦ elim (Result-cases (fs.read_link full)) [
            | inr (x, g) ↦ rw (e, f, g, send_file) h
            | inl (link, g) ↦ rw (e, f, g, send_file) (checked_call-keeps _ m refl h)
          ]
        ]
      ]

  send_files-keeps :
      (fs : DonorFs) (root dir : String) (names : List String) (m : MigrationClient P)
      → I m.world
      → I (send_files P fs root dir names m).1.world
  unfolding send_files
  send_files-keeps fs root dir [] m h = h
  send_files-keeps fs root dir (name ∷ names) m h =
      let after = send_file-keeps fs root (fs.join dir name) m h in
      elim (Result-cases (send_file P fs root (fs.join dir name) m).0) [
        | inr (x, e) ↦ rw (e, send_files) after
        | inl (_, e) ↦
            rw (e, send_files)
              (send_files-keeps fs root dir names (send_file P fs root (fs.join dir name) m).1
                after)
      ]

  send_image-keeps :
      (fs : DonorFs) (root : String) (c : CheckpointView) (m : MigrationClient P)
      → I m.world
      → I (send_image P fs root c m).1.world
  unfolding send_image
  send_image-keeps fs root c m h = elim (Result-cases (fs.open_dir c.path_abs)) [
    | inr (x, e) ↦ rw (e, send_image) h
    | inl (_, e) ↦ elim (Result-cases (fs.read_dir c.path_abs)) [
      | inr (x, f) ↦ rw (e, f, send_image) h
      | inl (names, f) ↦ rw (e, f, send_image) (send_files-keeps fs root c.path names m h)
    ]
  ]

  send_state-keeps :
      (fs : DonorFs) (root : String) (c : CheckpointView) (m : MigrationClient P)
      → I (image_info P c.info m).1.world
      → I (send_state P fs root c m).1.world
  unfolding send_state
  send_state-keeps fs root c m h = elim (Result-cases (image_info P c.info m).0) [
    | inr (x, e) ↦ rw (e, send_state) h
    | inl (_, e) ↦
        rw (e, send_state) (send_file-keeps fs root c.state_path (image_info P c.info m).1 h)
  ]

  -- What holds once the image has been announced holds at the end.
  pub send_checkpoint-keeps :
      (fs : DonorFs) (root : String) (c : CheckpointView) (m : MigrationClient P)
      → I (image_info P c.info m).1.world
      → I (send_checkpoint P fs root c m).1.world
  unfolding send_checkpoint
  send_checkpoint-keeps fs root c m h =
      let after = send_state-keeps fs root c m h in
      elim (Result-cases (send_state P fs root c m).0) [
        | inr (x, e) ↦ rw (e, send_checkpoint) after
        | inl (_, e) ↦
            rw (e, send_checkpoint) (send_image-keeps fs root c (send_state P fs root c m).1 after)
      ]

  unannounced :
      (fs : DonorFs) (root : String) (c : CheckpointView) (m : MigrationClient P) {x : Error}
      → (image_info P c.info m).0 ≡ err x
      → (send_checkpoint P fs root c m).0 ≢ ok tt
  unfolding send_checkpoint send_state
  unannounced fs root c m e r = ground arith

  -- A checkpoint that is sent without an error has been announced.
  pub send_checkpoint-establishes :
      (fs : DonorFs) (root : String) (c : CheckpointView) (m : MigrationClient P)
      → ((image_info P c.info m).0 ≡ ok tt → I (image_info P c.info m).1.world)
      → (send_checkpoint P fs root c m).0 ≡ ok tt
      → I (send_checkpoint P fs root c m).1.world
  send_checkpoint-establishes fs root c m h r = elim (Result-cases (image_info P c.info m).0) [
    | inl (_, e) ↦ send_checkpoint-keeps fs root c m (h e)
    | inr (x, e) ↦ absurd (unannounced fs root c m e r)
  ]
