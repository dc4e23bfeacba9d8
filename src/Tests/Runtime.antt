-- ===== src/Tests/Runtime.antt =====
-- A runtime in memory: its state is the list of directories that exist.
use konk.Base.{
  ℕ, zero, suc, ℤ, pos, negsuc, String, ◌<>◌, Bool, true, false, some, List, [], ◌∷◌, ok, err,
  errorf, if◌then◌else◌, ◌==◌, string_eq,
}
use konk.Container.Runtime.{Runtime}

unfoldable pub exists : String → List String → Bool
exists path [] = false
exists path (d ∷ ds) = if path == d then true else exists path ds

-- A number in tallies.
unfoldable pub tally : ℕ → String
tally zero = ""
tally (suc n) = "I" <> tally n

abbrev itoa : ℤ → String
itoa (pos n) = tally n
itoa (negsuc n) = "-" <> tally (suc n)

abbrev pub memory_runtime : Runtime
memory_runtime = record {
  World = List String;
  Lib = String;
  Config = Unit;
  id = λ lib. lib;
  create = λ name config w. (ok name, w);
  load = λ name w. (ok name, w);
  run = λ lib process w. (ok tt, w);
  checkpoint = λ lib opts w. (ok tt, w);
  restore = λ lib process opts w. (ok tt, w);
  kill = λ lib w. (err (errorf "no such process"), w);
  destroy = λ lib w. (ok tt, w);
  status = λ lib w. ok tt;
  host_root_uid = λ lib. ok tt;
  host_root_gid = λ lib. ok tt;
  setup_io = λ w. (ok tt, w);
  mkdir_all = λ path w. (ok tt, path ∷ w);
  read_dir = λ path w. if exists path w then ok tt else err (errorf "no such directory");
  join = λ a b. a <> "/" <> b;
  itoa = itoa;
  username = some "root";
}
