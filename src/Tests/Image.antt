-- ===== src/Tests/Image.antt =====
-- An image with a directory and a file, on a disk in memory.
use konk.Base.{
  ℕ, pos, String, ◌<>◌, List, [], ◌∷◌, ◌++◌, false, none, some, ok, Fallible, ◌≡◌, ◌≢◌, refl, ◌==◌,
  string_eq, arith, take, eq_of,
}
use konk.Base.Dict.{Dict, lookup, insert, lookup-insert}
use konk.Base.Exec.Ensures.{Ensures}
use konk.Container.Image.{
  ImageOs, Header, Typeflag, type_dir, type_reg, Archive, eof, entry, unpack,
}
use konk.Container.Image.Unpack.{IsDisk, Any}
use konk.Container.Image.Contents.{IsStored, unpack_lem}

abbrev Files : Type 0
Files = Dict String (List ℕ)

abbrev content_of : Files → String → List ℕ
content_of s path = elim (lookup path s) [ none ↦ [] | some data' ↦ data' ]

abbrev done : Files → Fallible × Files
done w = (ok tt, w)

-- A file is its path, and a reader its bytes.
abbrev memory_disk : ImageOs
memory_disk = record {
  World = Files;
  File = String;
  Reader = List ℕ;
  Spec = String;
  join = λ a b. a <> "/" <> b;
  mkdir = λ p mode w. done w;
  mkdir_all = λ p w. done w;
  chmod = λ p mode w. done w;
  lchown = λ p u g w. done w;
  chtimes = λ p a m w. done w;
  symlink = λ target p w. done w;
  link = λ old p w. done w;
  open_read = λ p w. (ok p, w);
  open_file = λ p mode w. (ok p, insert p [] w);
  close = λ f w. w;
  copy_n = λ f r size w. (size, ok tt, insert f (content_of w f ++ take size r) w);
  remove_all = λ p w. w;
  new_reader = λ f w. (ok eof, w);
  decode = λ f w. (ok f, w);
  root_under = λ d s. d;
  digest = λ s. s;
}

disk : IsDisk memory_disk
disk = record {
  content = λ w p. lookup p w;
  path_of = λ f. f;
  bytes = λ r. r;
  open_path = λ p mode f w e. (ground arith, ground (arith, lookup-insert p p [] w));
  content-open_file = λ p q mode w ne. ground (arith, lookup-insert q p [] w);
  content-copy_n =
      λ f r size old w e g. ground (arith, lookup-insert f f (content_of w f ++ take size r) w);
  content-copy_other =
      λ f r size q w ne. ground (arith, lookup-insert q f (content_of w f ++ take size r) w);
  content-mkdir = λ p q mode w. refl;
  content-chmod = λ p q mode w. refl;
  content-lchown = λ p q u g w. refl;
  content-chtimes = λ p q a m w. refl;
  content-close = λ f q w. refl;
}

abbrev header : Typeflag → String → ℕ → Header
header t name size = record {
  typeflag = t;
  name = name;
  linkname = "";
  mode = 493;
  changeable = 493;
  is_symlink = false;
  uid = pos 0;
  gid = pos 0;
  size = size;
  access_time = pos 0;
  mod_time = pos 0;
}

abbrev archive : Archive (List ℕ)
archive =
    entry (header type_dir "." 0) [] (entry (header type_reg "config.json" 2) (123 ∷ 125 ∷ []) eof)

paths_test : ◌==◌ {A = String} "images/a/." "images/a/config.json" ≡ false
unfolding string_eq
paths_test = refl

paths_differ : ◌≢◌ {A = String} "images/a/." "images/a/config.json"
paths_differ e = let same = eq_of {A = String} e in absurd (ground (arith, paths_test))

unpack_lem_example :
    Ensures
      (λ _ v. IsStored memory_disk "images/a" disk archive v)
      (Any memory_disk disk)
      (unpack memory_disk "images/a" archive [])
unpack_lem_example =
    unpack_lem memory_disk "images/a" disk archive [] (refl, (paths_differ, tt), (refl, tt, tt))
