-- ===== src/Nymph/Transfer/Regular.antt =====
-- A regular file of the donor, announced and sent, where nothing fails.
use konk.Base.{
  ℕ, ◌≡◌, ◌≢◌, sym, ◌∙◌, ap, String, List, [], ◌++◌, false, none, some, Result, ok, length, arith,
  Option-cases, inl, inr,
}
use konk.Nymph.Os.{Os, IsReliable}
use konk.Nymph.MigrationClient.{Peer, MigrationClient, file_info, FileStat}
use konk.Nymph.MigrationDonor.{
  Reads, eof, failure, bytes, DonorFs, is_symlink, send_chunks, send_regular, send_file,
}
use konk.Nymph.MigrationDonor.Steps.{send_regular_next, send_file_next}
use konk.Nymph.Transfer.{Receiving}
use konk.Nymph.Transfer.File.{
  contents, Progress, P, InStep, Finished, send_chunks_arrive, file_info-Opened,
}

-- The donor has a regular file at `path` that holds `content`, and reading it succeeds.
pub record Holds (fs : DonorFs) (path : String) (content : List ℕ) : Type 0 where
  pub stat : FileStat
  pub reads : Reads
  pub stated : fs.lstat path ≡ ok stat
  pub regular : is_symlink stat ≡ false
  pub sized : stat.size ≡ length content
  pub opens : fs.open_file path ≡ ok reads
  pub complete : contents reads ≡ some content
  pub progress : Progress reads

module _ (O : Os) (R : IsReliable O) (Node : Type 0)
    (launch : Receiving O Node → Result ℕ × Receiving O Node) (root : String) where
  abbrev Q : Peer
  Q = P O R Node launch root

  send_regular-Finished :
      (fs : DonorFs) (full filename : String) (stat : FileStat) (reads : Reads) (content : List ℕ)
      (m : MigrationClient Q)
      → fs.open_file full ≡ ok reads
      → contents reads ≡ some content
      → Progress reads
      → stat.size ≡ length content
      → content ≢ []
      → InStep O R Node launch root m
      → m.world.recipient.file ≡ none
      → let (r, m') = send_regular Q fs full filename stat m in
        (r ≡ ok tt) × Finished O R Node launch root content (O.join root filename) m m'
  send_regular-Finished fs full filename stat eof content m opens e p sized ne step closed =
      absurd (ne (ground arith))
  send_regular-Finished fs full filename stat (failure x) content m opens e p sized ne step closed =
      cc
  send_regular-Finished fs full filename stat (bytes buf rest) content m opens e p sized ne step
        closed =
      elim (Option-cases (contents rest)) [
        | inl nothing ↦ ground arith
        | inr (d, f) ↦
            let (r, o) = file_info-Opened O R Node launch root filename stat m step closed in
            let m₁ = (file_info Q filename stat m).1 in
            let whole : content ≡ buf ++ d = ground arith in
            let (sent, done) =
              send_chunks_arrive O R Node launch root buf rest d [] m₁ o.file f p o.step o.opened
                (o.size ∙ sized ∙ ap length whole)
                (ap (O.content m₁.world.disk) o.named ∙ o.empty) in
            rw (send_regular_next Q m fs full filename stat (bytes buf rest) r opens) (
              sent,
              record {
                step = done.step;
                closed = done.closed;
                written =
                    ap (O.content (send_chunks Q (bytes buf rest) m₁).1.world.disk) (sym o.named)
                    ∙ done.written
                    ∙ ap some (sym whole);
                others = λ q ne. done.others q (λ e. ne (e ∙ o.named)) ∙ o.others q ne;
              },
            )
      ]

  -- A regular file that is not empty arrives: the content at its place under the recipient's root
  -- directory is its content, no other file there has changed, and the recipient is ready for the
  -- next file.
  pub send_file-Finished :
      (fs : DonorFs) (donor_root filename : String) (content : List ℕ) (m : MigrationClient Q)
      → Holds fs (fs.join donor_root filename) content
      → content ≢ []
      → InStep O R Node launch root m
      → m.world.recipient.file ≡ none
      → let (r, m') = send_file Q fs donor_root filename m in
        (r ≡ ok tt) × Finished O R Node launch root content (O.join root filename) m m'
  send_file-Finished fs donor_root filename content m h ne step closed =
      rw (send_file_next Q m fs donor_root filename h.stat h.stated h.regular) (
        send_regular-Finished fs (fs.join donor_root filename) filename h.stat h.reads content m
          h.opens h.complete h.progress h.sized ne step closed)
