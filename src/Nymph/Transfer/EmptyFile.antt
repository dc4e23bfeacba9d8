-- ===== src/Nymph/Transfer/EmptyFile.antt =====
-- What an empty file does to a transfer: no chunk follows its announcement, so nothing closes it.
use konk.Base.{
  ℕ, ◌≡◌, refl, sym, subst, ◌∙◌, ap, String, [], ◌∷◌, false, some, none, Result, ok, err, errorf,
  wrap, Fallible, arith,
}
use konk.Nymph.Os.{Os, IsReliable}
use konk.Nymph.MigrationClient.{Peer, MigrationClient, FileStat, file_info, checked_call}
use konk.Nymph.Recipient
use konk.Nymph.MigrationDonor.{
  Reads, eof, failure, bytes, DonorFs, is_symlink, send_chunks, send_regular, send_file,
}
use konk.Nymph.MigrationDonor.Steps.{send_regular_next, send_file_next}
use konk.Nymph.Transfer.{Receiving, serve}
use konk.Nymph.Transfer.File.{contents, Progress, P, InStep, file_info-Opened}
use konk.Nymph.Transfer.Regular.{Holds}

reads_nothing : (r : Reads) → contents r ≡ some [] → Progress r → r ≡ eof
reads_nothing eof e p = refl
reads_nothing (failure x) e p = cc
reads_nothing (bytes [] rest) e p = absurd (omega (arith, p.0))
reads_nothing (bytes (b ∷ buf) rest) e p = ground arith

module _ (O : Os) (R : IsReliable O) (Node : Type 0)
    (launch : Receiving O Node → Result ℕ × Receiving O Node) (root : String) where
  abbrev Q : Peer
  Q = P O R Node launch root

  -- A recipient with an open file refuses every announcement.
  refused :
      (filename : String) (stat : FileStat) (m : MigrationClient Q) {h : O.File}
      → m.world.recipient.file ≡ some h
      → (file_info Q filename stat m).0 ≡ err (errorf "Found unfinished file")
  unfolding file_info checked_call serve Recipient.file_info
  refused filename stat m e = ground arith

  send_file_refused :
      (fs : DonorFs) (donor_root filename : String) (stat : FileStat) (m : MigrationClient Q)
      {h : O.File}
      → fs.lstat (fs.join donor_root filename) ≡ ok stat
      → is_symlink stat ≡ false
      → m.world.recipient.file ≡ some h
      → (send_file Q fs donor_root filename m).0
        ≡ err (wrap "Failed to send file info %s: %v" (errorf "Found unfinished file"))
  unfolding send_regular
  send_file_refused fs donor_root filename stat m e f g =
      rw (send_file_next Q m fs donor_root filename stat e f)
        (rw (refused filename stat m g, send_regular))

  -- Where nothing fails on the recipient's disk and it has no file open, sending an empty file
  -- succeeds and leaves it open there, so that the next regular file, whatever it holds, is refused
  -- if it follows at once.
  pub empty_file_blocks :
      (fs : DonorFs) (donor_root f g : String) (stat : FileStat) (m : MigrationClient Q)
      → Holds fs (fs.join donor_root f) []
      → fs.lstat (fs.join donor_root g) ≡ ok stat
      → is_symlink stat ≡ false
      → InStep O R Node launch root m
      → m.world.recipient.file ≡ none
      → let (r, m') = send_file Q fs donor_root f m in
        (r ≡ ok tt)
        × ((send_file Q fs donor_root g m').0
            ≡ err (wrap "Failed to send file info %s: %v" (errorf "Found unfinished file")))
  empty_file_blocks fs donor_root f g stat m held e regular step closed =
      let (told, o) = file_info-Opened O R Node launch root f held.stat m step closed in
      let sent : send_file Q fs donor_root f m ≡ (ok tt, (file_info Q f held.stat m).1) =
        send_file_next Q m fs donor_root f held.stat held.stated held.regular
        ∙ send_regular_next Q m fs (fs.join donor_root f) f held.stat held.reads told held.opens
        ∙ ap (λ r. send_chunks Q r (file_info Q f held.stat m).1)
            (reads_nothing held.reads held.complete held.progress)
        ∙ (unfold send_chunks in refl) in
      subst
        (λ (x : Fallible × MigrationClient Q).
          (x.0 ≡ ok tt)
          × ((send_file Q fs donor_root g x.1).0
              ≡ err (wrap "Failed to send file info %s: %v" (errorf "Found unfinished file"))))
        (sym sent)
        (
          refl,
          send_file_refused fs donor_root g stat (file_info Q f held.stat m).1 e regular o.opened,
        )
