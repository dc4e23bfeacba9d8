-- ===== src/Container/Image.antt =====
-- image.go: the images of containers, unpacked from archives. The archive, the file system and the
-- decoder of specifications are parameters.
pub mod Unpack
pub mod Contents
use konk.Base.{
  ℕ, ℤ, String, Bool, true, false, Result, ok, err, errorf, Error, Fallible, nat_beq, ◌||◌, not,
}
use konk.Base.Exec.{Cmd, Exec, returns, fails, ◌>>=◌, ◌>>◌, pure, call, check, wrapped, deferring}

-- The types of entries that the code tells apart.
pub data Typeflag : Type 0 where
  type_dir type_reg type_symlink type_link : Typeflag
  other_type : ℕ → Typeflag

pub record Header : Type 0 where
  pub typeflag : Typeflag
  pub name : String
  pub linkname : String
  -- The mode, the part of it that may be changed, and whether it says that the entry is a link.
  pub mode : ℕ
  pub changeable : ℕ
  pub is_symlink : Bool
  pub uid : ℤ
  pub gid : ℤ
  pub size : ℕ
  pub access_time : ℤ
  pub mod_time : ℤ

-- What `tarReader.Next` gives, call by call: an entry with the reader of its data, an error, or the
-- end.
pub data Archive (Reader : Type 0) : Type 0 where
  eof : Archive Reader
  broken : Error → Archive Reader
  entry : Header → Reader → Archive Reader → Archive Reader

pub record ImageOs : Type 1 where
  pub World : Type 0
  pub File : Type 0
  pub Reader : Type 0
  pub Spec : Type 0
  -- `path.Join` of two parts.
  pub join : String → String → String
  pub mkdir : String → ℕ → World → Fallible × World
  pub mkdir_all : String → World → Fallible × World
  pub chmod : String → ℕ → World → Fallible × World
  pub lchown : String → ℤ → ℤ → World → Fallible × World
  -- `ChtimesFlags` without following a link.
  pub chtimes : String → ℤ → ℤ → World → Fallible × World
  pub symlink : String → String → World → Fallible × World
  pub link : String → String → World → Fallible × World
  -- `os.Open`, and `os.OpenFile` with O_WRONLY, O_CREATE and O_TRUNC.
  pub open_read : String → World → Result File × World
  pub open_file : String → ℕ → World → Result File × World
  pub close : File → World → World
  -- `io.CopyN`: how many bytes have been written, and the error.
  pub copy_n : File → Reader → ℕ → World → ℕ × Fallible × World
  pub remove_all : String → World → World
  -- `gzip.NewReader`, with the archive behind it.
  pub new_reader : File → World → Result (Archive Reader) × World
  -- The decoder of the specification, and the specification with its root under a directory.
  pub decode : File → World → Result Spec × World
  pub root_under : String → Spec → Spec
  -- The hexadecimal SHA-512/256 digest of a text.
  pub digest : String → String

module _ (O : ImageOs) where
  pub record Image : Type 0 where
    pub root_path : String
    pub name : String
    pub spec : O.Spec

  -- The mode of a link is not set.
  unfoldable pub set_mode : String → Header → Cmd O.World (Unit {0})
  set_mode full_path header = elim header.is_symlink [
    | true ↦ pure tt
    | false ↦ wrapped "Failed to set file mode: %v" (call (O.chmod full_path header.changeable))
  ]

  abbrev pub set_owner : String → Header → Cmd O.World (Unit {0})
  set_owner full_path header =
      wrapped "Failed to set user and group ID for %v: %v"
        (call (O.lchown full_path header.uid header.gid))

  abbrev pub set_times : String → Header → Cmd O.World (Unit {0})
  set_times full_path header =
      wrapped "Failed to set atime and mtime for %v: %v"
        (call (O.chtimes full_path header.access_time header.mod_time))

  unfoldable pub set_file_attributes : String → Header → Cmd O.World (Unit {0})
  set_file_attributes full_path header = do
    set_mode full_path header
    set_owner full_path header
    set_times full_path header

  abbrev pub make_dir : String → Header → Cmd O.World (Unit {0})
  make_dir full_path header =
      wrapped "Failed to create directory %v: %v" (call (O.mkdir full_path header.mode))

  unfoldable pub create_dir : String → Header → Cmd O.World (Unit {0})
  create_dir extract_dir header = do
    let full_path = O.join extract_dir header.name
    make_dir full_path header
    set_file_attributes full_path header

  -- The copy fails by its error, or by a number of bytes that is not the size.
  unfoldable pub copy : O.File → O.Reader → ℕ → Cmd O.World (Unit {0})
  copy file reader size w =
      let (written, r, w') = O.copy_n file reader size w in
      elim r [
        | err e ↦ fails (errorf "Wrote %v bytes out of %v. Failed: %v") w'
        | ok _ ↦ elim (nat_beq written size) [
          | true ↦ returns tt w'
          | false ↦ fails (errorf "Wrote %v bytes out of %v. Failed: %v") w'
        ]
      ]

  abbrev pub create_file : String → Header → Cmd O.World O.File
  create_file full_path header =
      wrapped "Failed to create file %v: %v" (call (O.open_file full_path header.mode))

  abbrev pub fill_file : String → Header → O.File → O.Reader → Cmd O.World (Unit {0})
  fill_file full_path header file reader = do
    copy file reader header.size
    set_file_attributes full_path header

  unfoldable pub write_file : String → Header → O.Reader → Cmd O.World (Unit {0})
  write_file extract_dir header reader = do
    let full_path = O.join extract_dir header.name
    file ← create_file full_path header
    deferring (O.close file) (fill_file full_path header file reader)

  unfoldable pub create_sym_link : String → Header → Cmd O.World (Unit {0})
  create_sym_link extract_dir header = do
    let full_path = O.join extract_dir header.name
    wrapped "Failed to create a symbolic link %v: %v" (call (O.symlink header.linkname full_path))
    set_file_attributes full_path header

  unfoldable pub create_hard_link : String → Header → Cmd O.World (Unit {0})
  create_hard_link extract_dir header =
      wrapped "Failed to create a hard link %v: %v"
        (call (O.link (O.join extract_dir header.linkname) (O.join extract_dir header.name)))

  unfoldable pub image_name : String → String
  image_name = O.digest

  -- The body of the loop.
  unfoldable pub extract : String → Header → O.Reader → Cmd O.World (Unit {0})
  extract extract_dir header reader = elim header.typeflag [
    | type_dir ↦
        wrapped "Failed to create directory from image %v: %v" (create_dir extract_dir header)
    | type_reg ↦
        wrapped "Failed to write file from image %v: %v" (write_file extract_dir header reader)
    | type_symlink ↦
        wrapped "Failed to create a symlink from image %v: %v" (create_sym_link extract_dir header)
    | type_link ↦
        wrapped "Failed to create a hardlink from image %v: %v"
          (create_hard_link extract_dir header)
    | other_type b ↦ check (err (errorf "Unsupported file type %v for %v"))
  ]

  unfoldable pub unpack : String → Archive O.Reader → Cmd O.World (Unit {0})
  unpack extract_dir eof = pure tt
  unpack extract_dir (broken e) = wrapped "Failed reading the archive %v: %v" (check (err e))
  unpack extract_dir (entry header reader archive) = do
    extract extract_dir header reader
    unpack extract_dir archive

  unfoldable pub unpack_image : String → String → Cmd O.World (Unit {0})
  unpack_image extract_dir image = do
    file ← wrapped "Failed to open container image file %v: %v" (call (O.open_read image))
    deferring (O.close file) (do
      archive ← wrapped "File %v is not in gzip format: %v" (call (O.new_reader file))
      unpack extract_dir archive)

  unfoldable pub read_spec : String → Cmd O.World O.Spec
  read_spec image_dir = do
    file ←
        wrapped "Failed to open config file %v: %v"
          (call (O.open_read (O.join image_dir "config.json")))
    deferring (O.close file) (do spec ← call (O.decode file); pure (O.root_under image_dir spec))

  abbrev pub image_dir : String
  image_dir = "./images"

  unfoldable pub new_image : String → Cmd O.World Image
  new_image image_path = do
    let name = image_name image_path
    let extract_dir = O.join image_dir name
    call (O.mkdir_all image_dir)
    unpack_image extract_dir image_path
    spec ← read_spec extract_dir
    pure (record { root_path = extract_dir; name = name; spec = spec })

  unfoldable pub close : Image → O.World → O.World
  close image = O.remove_all image.root_path
