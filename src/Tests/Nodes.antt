-- ===== src/Tests/Nodes.antt =====
-- Two nodes in memory: the disk of a recipient, and the files of a donor.
use konk.Base.{
  ℕ, refl, String, ◌<>◌, none, some, List, [], ◌∷◌, ◌++◌, Result, ok, err, errorf, length, ◌==◌,
  string_eq, if◌then◌else◌, arith,
}
use konk.Base.Dict.{Dict, lookup, insert, lookup-insert}
use konk.Nymph.Os.{Os, IsReliable}
use konk.Nymph.MigrationClient.{FileStat}
use konk.Nymph.MigrationDonor.{Reads, eof, bytes, DonorFs}

abbrev pub Files : Type 0
Files = Dict String (List ℕ)

abbrev pub content_of : Files → String → List ℕ
content_of s path = elim (lookup path s) [ none ↦ [] | some data' ↦ data' ]

abbrev pub memory_os : Os
memory_os = record {
  Disk = Files;
  File = String;
  join = λ a b. a <> "/" <> b;
  dir = λ p. p;
  mkdir_all = λ d s. (ok tt, s);
  symlink = λ target path s. (ok tt, s);
  open_file = λ path mode s. (ok path, insert path [] s);
  write = λ h buf s. (length buf, ok tt, insert h (content_of s h ++ buf) s);
  close = λ h s. s;
  name = λ h. h;
  content = λ s path. lookup path s;
}

pub memory_os-IsReliable : IsReliable memory_os
memory_os-IsReliable = record {
  mkdir_ok = λ d s. refl;
  content-mkdir_all = λ d q s. refl;
  open_ok = λ p mode s. (p, refl, refl, ground (arith, lookup-insert p p [] s));
  content-open_file = λ p q mode s ne. ground (arith, lookup-insert q p [] s);
  write_ok =
      λ h buf old s e. (refl, refl, ground (arith, e, lookup-insert h h (content_of s h ++ buf) s));
  content-write = λ h buf q s ne. ground (arith, lookup-insert q h (content_of s h ++ buf) s);
  content-close = λ h q s. refl;
}

-- A file that is read in one piece.
abbrev pub whole : List ℕ → Reads
whole [] = eof
whole (b ∷ bs) = bytes (b ∷ bs) eof

abbrev pub stat_of : List ℕ → FileStat
stat_of data' = record { size = length data'; mode = 420; mod_time = 0 }

abbrev missing : {A : Type 0} → Result A
missing = err (errorf "no such file")

-- The directory "d/k" has the entries `names`; `files` has what is at each path.
abbrev pub memory_fs : Files → List String → DonorFs
memory_fs files names = record {
  join = λ a b. a <> "/" <> b;
  lstat = λ path. elim (lookup path files) [ none ↦ missing | some data' ↦ ok (stat_of data') ];
  read_link = λ path. missing;
  open_file = λ path. elim (lookup path files) [ none ↦ missing | some data' ↦ ok (whole data') ];
  open_dir = λ path. if path == "d/k" then ok tt else missing;
  read_dir = λ path. if path == "d/k" then ok names else missing;
}
