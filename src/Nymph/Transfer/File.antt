-- ===== src/Nymph/Transfer/File.antt =====
-- One file on its way from the donor to the recipient.
use konk.Base.{
  ℕ, ◌+◌, ◌-◌, ◌≤◌, ◌<◌, ◌≡◌, ◌≢◌, refl, sym, ◌∙◌, ap, String, List, [], ◌++◌, Option, none, some,
  Result, ok, length, arith, nat_beq, if◌then◌else◌, length-append, Option-cases, inl, inr,
}
use mathlib.Core.List.{append-nil, append_assoc}
use konk.Nymph.Os.{Os, IsReliable}
use konk.Nymph.MigrationClient.{Peer, MigrationClient, checked_call, file_data, file_info, FileStat}
use konk.Nymph.Recipient.{Recipient, describe}
use konk.Nymph.Recipient
use konk.Nymph.MigrationDonor.{Reads, eof, failure, bytes, send_chunks}
use konk.Nymph.MigrationDonor.Steps.{send_chunks_next}
use konk.Nymph.Transfer.{Receiving, serve, peer}

-- The bytes that a file holds, if the reads reach its end.
abbrev pub contents : Reads → Option (List ℕ)
contents eof = some []
contents (failure e) = none
contents (bytes buf rest) = elim (contents rest) [ none ↦ none | some d ↦ some (buf ++ d) ]

-- No read that gives bytes gives none, as `File.Read` promises.
abbrev pub Progress : Reads → Type 0
Progress eof = Unit {0}
Progress (failure e) = Unit {0}
Progress (bytes buf rest) = (0 < length buf) × Progress rest

module _ (O : Os) (R : IsReliable O) (Node : Type 0)
    (launch : Receiving O Node → Result ℕ × Receiving O Node) (root : String) where
  abbrev pub P : Peer
  P = peer O Node launch root

  -- The client expects the number that the recipient will send.
  abbrev pub InStep : MigrationClient P → Type 0
  InStep m = m.world.recipient.seq ≡ m.seq + 1

  -- A chunk of an open file arrives: it is behind what was there, and the file is closed once it is
  -- whole.
  pub record Arrived (buf old : List ℕ) (h : O.File) (m m' : MigrationClient P) : Type 0 where
    pub step : InStep m'
    pub left : m'.world.recipient.to_write ≡ m.world.recipient.to_write - length buf
    pub file :
        m'.world.recipient.file
        ≡ (if nat_beq (m.world.recipient.to_write - length buf) 0 then none else some h)
    pub grown : O.content m'.world.disk (O.name h) ≡ some (old ++ buf)
    pub others : (q : String) → q ≢ O.name h → O.content m'.world.disk q ≡ O.content m.world.disk q

  module _ (buf old : List ℕ) (m : MigrationClient P) (h : O.File) (step : InStep m)
      (opened : m.world.recipient.file ≡ some h) (fits : length buf ≤ m.world.recipient.to_write)
      (was : O.content m.world.disk (O.name h) ≡ some old) where
    file_data_ok : (file_data P buf m).0 ≡ ok tt
    unfolding file_data checked_call serve Recipient.file_data
    file_data_ok = ground (arith, R.write_ok h buf old m.world.disk was)

    file_data-Arrived : Arrived buf old h m (file_data P buf m).1
    unfolding file_data checked_call serve Recipient.file_data
    file_data-Arrived = record {
      step = ground (arith, R.write_ok h buf old m.world.disk was);
      left = ground (arith, R.write_ok h buf old m.world.disk was);
      file = ground (arith, R.write_ok h buf old m.world.disk was);
      grown = ground (
        arith,
        R.write_ok h buf old m.world.disk was,
        R.content-close h (O.name h) (O.write h buf m.world.disk).2,
      );
      others = λ q ne. ground (
        arith,
        R.write_ok h buf old m.world.disk was,
        R.content-write h buf q m.world.disk ne,
        R.content-close h q (O.write h buf m.world.disk).2,
      );
    }

  -- What a whole file leaves behind.
  pub record Finished (data' : List ℕ) (path : String) (m m' : MigrationClient P) : Type 0 where
    pub step : InStep m'
    pub closed : m'.world.recipient.file ≡ none
    pub written : O.content m'.world.disk path ≡ some data'
    pub others : (q : String) → q ≢ path → O.content m'.world.disk q ≡ O.content m.world.disk q

  send_last :
      (buf old : List ℕ) (m : MigrationClient P) (h : O.File)
      → 0 < length buf
      → InStep m
      → m.world.recipient.file ≡ some h
      → m.world.recipient.to_write ≡ length buf
      → O.content m.world.disk (O.name h) ≡ some old
      → let (r, m') = send_chunks P (bytes buf eof) m in
        (r ≡ ok tt) × Finished (old ++ buf) (O.name h) m m'
  send_last buf old m h pos step opened size was =
      let fits : length buf ≤ m.world.recipient.to_write = omega arith in
      let a = file_data-Arrived buf old m h step opened fits was in
      rw (send_chunks_next P m buf eof (file_data_ok buf old m h step opened fits was)) (
        unfold send_chunks in
        (
          refl,
          record {
            step = a.step;
            closed = ground (arith, a.file);
            written = a.grown;
            others = a.others;
          },
        ))

  pub send_chunks_arrive :
      (buf : List ℕ) (rest : Reads) (d old : List ℕ) (m : MigrationClient P) (h : O.File)
      → contents rest ≡ some d
      → Progress (bytes buf rest)
      → InStep m
      → m.world.recipient.file ≡ some h
      → m.world.recipient.to_write ≡ length (buf ++ d)
      → O.content m.world.disk (O.name h) ≡ some old
      → let (r, m') = send_chunks P (bytes buf rest) m in
        (r ≡ ok tt) × Finished (old ++ (buf ++ d)) (O.name h) m m'
  send_chunks_arrive buf eof d old m h e p step opened size was =
      let nothing : d ≡ [] = ground arith in
      rw (nothing, append-nil)
        (send_last buf old m h p.0 step opened
          (size ∙ ap length (ap (λ x. buf ++ x) nothing ∙ append-nil buf)) was)
  send_chunks_arrive buf (failure x) d old m h e p step opened size was = cc
  send_chunks_arrive buf (bytes b rest) d old m h e p step opened size was =
      elim (Option-cases (contents rest)) [
        | inl none_left ↦ ground arith
        | inr (d', f) ↦
            let split : d ≡ b ++ d' = ground arith in
            let lengths = length-append buf d in
            let more : length d ≡ length b + length d' = ap length split ∙ length-append b d' in
            let shorter : length buf ≤ m.world.recipient.to_write = omega arith in
            let a = file_data-Arrived buf old m h step opened shorter was in
            let (r, rest_done) =
              send_chunks_arrive b rest d' (old ++ buf) (file_data P buf m).1 h f p.1 a.step
                (ground (arith, a.file)) (omega (arith, a.left, length-append b d')) a.grown in
            let whole : old ++ (buf ++ d) ≡ (old ++ buf) ++ (b ++ d') =
              sym (append_assoc old buf d) ∙ ap (λ x. (old ++ buf) ++ x) split in
            rw
              (send_chunks_next P m buf (bytes b rest)
                (file_data_ok buf old m h step opened shorter was))
              (
                r,
                record {
                  step = rest_done.step;
                  closed = rest_done.closed;
                  written = rest_done.written ∙ ap some (sym whole);
                  others = λ q ne. rest_done.others q ne ∙ a.others q ne;
                },
              )
      ]

  -- The announcement of a file opens it empty at its place under the root directory.
  pub record Opened (path : String) (len : ℕ) (m m' : MigrationClient P) : Type 0 where
    pub file : O.File
    pub step : InStep m'
    pub opened : m'.world.recipient.file ≡ some file
    pub named : O.name file ≡ path
    pub size : m'.world.recipient.to_write ≡ len
    pub empty : O.content m'.world.disk path ≡ some []
    pub others : (q : String) → q ≢ path → O.content m'.world.disk q ≡ O.content m.world.disk q

  pub file_info-Opened :
      (filename : String) (stat : FileStat) (m : MigrationClient P)
      → InStep m
      → m.world.recipient.file ≡ none
      → let (r, m') = file_info P filename stat m in
        (r ≡ ok tt) × Opened (O.join root filename) stat.size m m'
  unfolding file_info checked_call serve Recipient.file_info
  file_info-Opened filename stat m step closed =
      let path = O.join root filename in
      let made = R.mkdir_ok (O.dir path) m.world.disk in
      let (h, e, n, z) = R.open_ok path stat.mode (O.mkdir_all (O.dir path) m.world.disk).1 in
      (
        ground (arith, made, e),
        record {
          file = h;
          step = ground (arith, made, e);
          opened = ground (arith, made, e);
          named = n;
          size = ground (arith, made, e);
          empty = ground (arith, made, e, z);
          others = λ q ne. ground (
            arith,
            made,
            e,
            R.content-open_file path q stat.mode (O.mkdir_all (O.dir path) m.world.disk).1 ne,
            R.content-mkdir_all (O.dir path) q m.world.disk,
          );
        },
      )
