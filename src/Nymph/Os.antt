-- ===== src/Nymph/Os.antt =====
-- The operations of the packages os and path that a recipient uses, as a parameter: what a call does
-- to the file system, and whether it succeeds, is up to the node.
use konk.Base.{ℕ, String, List, [], ◌++◌, ◌≡◌, ◌≢◌, Option, some, Result, ok, Fallible, length}

pub record Os : Type 1 where
  pub Disk : Type 0
  pub File : Type 0
  pub join : String → String → String
  -- The directory that `path.Split` gives.
  pub dir : String → String
  pub mkdir_all : String → Disk → Fallible × Disk
  pub symlink : String → String → Disk → Fallible × Disk
  -- `os.OpenFile` with O_TRUNC, O_CREATE and O_WRONLY.
  pub open_file : String → ℕ → Disk → Result File × Disk
  -- The number of bytes written, and the error.
  pub write : File → List ℕ → Disk → ℕ × Fallible × Disk
  pub close : File → Disk → Disk
  pub name : File → String
  -- The content of the regular file at a path.
  pub content : Disk → String → Option (List ℕ)

-- A node where nothing fails: directories can be made, files opened empty, and every write puts all
-- its bytes behind those that are there. No call touches the content of another file.
pub record IsReliable (O : Os) : Type 0 where
  pub mkdir_ok : (d : String) (s : O.Disk) → (O.mkdir_all d s).0 ≡ ok tt
  pub content-mkdir_all :
      (d q : String) (s : O.Disk) → O.content (O.mkdir_all d s).1 q ≡ O.content s q
  pub open_ok :
      (p : String) (mode : ℕ) (s : O.Disk)
      → (h : O.File) × ((O.open_file p mode s).0 ≡ ok h)
        × (O.name h ≡ p)
        × (O.content (O.open_file p mode s).1 p ≡ some [])
  pub content-open_file :
      (p q : String) (mode : ℕ) (s : O.Disk)
      → q ≢ p
      → O.content (O.open_file p mode s).1 q ≡ O.content s q
  pub write_ok :
      (h : O.File) (bytes old : List ℕ) (s : O.Disk)
      → O.content s (O.name h) ≡ some old
      → ((O.write h bytes s).0 ≡ length bytes)
        × ((O.write h bytes s).1 ≡ ok tt)
        × (O.content (O.write h bytes s).2 (O.name h) ≡ some (old ++ bytes))
  pub content-write :
      (h : O.File) (bytes : List ℕ) (q : String) (s : O.Disk)
      → q ≢ O.name h
      → O.content (O.write h bytes s).2 q ≡ O.content s q
  pub content-close :
      (h : O.File) (q : String) (s : O.Disk) → O.content (O.close h s) q ≡ O.content s q
