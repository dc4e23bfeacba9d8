-- ===== src/Container/Image/Unpack.antt =====
-- image.go: what unpacking an image leaves on the disk.
use konk.Base.{
  ℕ, ℤ, String, List, [], ◌++◌, Option, some, ◌≡◌, ◌≢◌, ◌∙◌, sym, subst, ok, Fallible, take,
  Result-cases, Bool-cases, inl, inr, nat_beq,
}
use konk.Base.Exec.{Cmd, ◌>>◌, call, wrapped, deferring}
use konk.Base.Exec.Ensures.{Ensures, Ensures-bind, Ensures-wrapped, Ensures-call, Ensures-deferring}
use konk.Container.Image.{
  ImageOs, Header, set_mode, set_owner, set_times, make_dir, create_file, fill_file,
  set_file_attributes, create_dir, copy, write_file,
}

-- A disk of files: `content` is what a path has, `path_of` the path that a file was opened at, and
-- `bytes` the data of an entry. Opening to write empties the file; copying puts the bytes behind those
-- that are there, if it reports no error; no call touches the content of another path, and only these
-- two touch any.
pub record IsDisk (O : ImageOs) : Type 0 where
  pub content : O.World → String → Option (List ℕ)
  pub path_of : O.File → String
  pub bytes : O.Reader → List ℕ
  pub open_path :
      (p : String) (mode : ℕ) (f : O.File) (w : O.World)
      → (O.open_file p mode w).0 ≡ ok f
      → (path_of f ≡ p) × (content (O.open_file p mode w).1 p ≡ some [])
  pub content-open_file :
      (p q : String) (mode : ℕ) (w : O.World)
      → q ≢ p
      → content (O.open_file p mode w).1 q ≡ content w q
  pub content-copy_n :
      (f : O.File) (r : O.Reader) (size : ℕ) (old : List ℕ) (w : O.World)
      → content w (path_of f) ≡ some old
      → (O.copy_n f r size w).1 ≡ ok tt
      → content (O.copy_n f r size w).2 (path_of f) ≡ some (old ++ take size (bytes r))
  pub content-copy_other :
      (f : O.File) (r : O.Reader) (size : ℕ) (q : String) (w : O.World)
      → q ≢ path_of f
      → content (O.copy_n f r size w).2 q ≡ content w q
  pub content-mkdir :
      (p q : String) (mode : ℕ) (w : O.World) → content (O.mkdir p mode w).1 q ≡ content w q
  pub content-chmod :
      (p q : String) (mode : ℕ) (w : O.World) → content (O.chmod p mode w).1 q ≡ content w q
  pub content-lchown :
      (p q : String) (u g : ℤ) (w : O.World) → content (O.lchown p u g w).1 q ≡ content w q
  pub content-chtimes :
      (p q : String) (a m : ℤ) (w : O.World) → content (O.chtimes p a m w).1 q ≡ content w q
  pub content-close :
      (f : O.File) (q : String) (w : O.World) → content (O.close f w) q ≡ content w q

module _ (O : ImageOs) (L : IsDisk O) where
  -- Nothing is said of what an error leaves.
  abbrev pub Any : O.World → Type 0
  Any w = Unit

  -- The content that a path has from now on.
  abbrev pub Has : String → Option (List ℕ) → Unit {0} → O.World → Type 0
  Has q x _ w = L.content w q ≡ x

  call-Has :
      (q : String) (x : Option (List ℕ)) (f : String) (op : O.World → Fallible × O.World)
      → ((w : O.World) → L.content (op w).1 q ≡ L.content w q)
      → (w : O.World) → L.content w q ≡ x
      → Ensures (Has q x) Any (wrapped f (call op) w)
  call-Has q x f op same w h =
      Ensures-wrapped (Has q x) Any f (call op) w
        (Ensures-call (Has q x) Any op w (λ _ _. same w ∙ h) tt)

  set_mode-Has :
      (q p : String) (x : Option (List ℕ)) (header : Header) (w : O.World)
      → L.content w q ≡ x
      → Ensures (Has q x) Any (set_mode O p header w)
  unfolding set_mode
  set_mode-Has q p x header w h = elim (Bool-cases header.is_symlink) [
    | inl e ↦ rw (e, Ensures) h
    | inr e ↦
        rw (e, Ensures)
          (call-Has q x "Failed to set file mode: %v" (O.chmod p header.changeable)
            (L.content-chmod p q header.changeable) w h)
  ]

  set_file_attributes-Has :
      (q p : String) (x : Option (List ℕ)) (header : Header) (w : O.World)
      → L.content w q ≡ x
      → Ensures (Has q x) Any (set_file_attributes O p header w)
  unfolding set_file_attributes
  set_file_attributes-Has q p x header w h =
      Ensures-bind (Has q x) Any (Has q x) (set_mode O p header)
        (λ _. set_owner O p header >> set_times O p header) w (set_mode-Has q p x header w h)
        λ _ v g.
          Ensures-bind (Has q x) Any (Has q x) (set_owner O p header) (λ _. set_times O p header) v
            (call-Has q x "Failed to set user and group ID for %v: %v"
              (O.lchown p header.uid header.gid) (L.content-lchown p q header.uid header.gid) v g)
            λ _ u k.
              call-Has q x "Failed to set atime and mtime for %v: %v"
                (O.chtimes p header.access_time header.mod_time)
                (L.content-chtimes p q header.access_time header.mod_time) u k

  pub create_dir-Has :
      (q dir : String) (x : Option (List ℕ)) (header : Header) (w : O.World)
      → L.content w q ≡ x
      → Ensures (Has q x) Any (create_dir O dir header w)
  unfolding create_dir
  create_dir-Has q dir x header w h =
      let p = O.join dir header.name in
      Ensures-bind (Has q x) Any (Has q x) (make_dir O p header)
        (λ _. set_file_attributes O p header) w
        (call-Has q x "Failed to create directory %v: %v" (O.mkdir p header.mode)
          (L.content-mkdir p q header.mode) w h)
        λ _ v g. set_file_attributes-Has q p x header v g

  -- What a copy that reports no error leaves at a path.
  copy-Has :
      (q : String) (y : Option (List ℕ)) (f : O.File) (r : O.Reader) (size : ℕ) (w : O.World)
      → ((O.copy_n f r size w).1 ≡ ok tt → L.content (O.copy_n f r size w).2 q ≡ y)
      → Ensures (Has q y) Any (copy O f r size w)
  unfolding copy
  copy-Has q y f r size w k = elim (Result-cases (O.copy_n f r size w).1) [
    | inr (e, g) ↦ rw (g, Ensures) tt
    | inl (_, g) ↦ elim (Bool-cases (nat_beq (O.copy_n f r size w).0 size)) [
      | inl s ↦ rw (g, s, Ensures) (k g)
      | inr s ↦ rw (g, s, Ensures) tt
    ]
  ]

  fill_file-Has :
      (q p : String) (y : Option (List ℕ)) (header : Header) (f : O.File) (r : O.Reader)
      (w : O.World)
      → ((O.copy_n f r header.size w).1 ≡ ok tt → L.content (O.copy_n f r header.size w).2 q ≡ y)
      → Ensures (Has q y) Any (fill_file O p header f r w)
  fill_file-Has q p y header f r w k =
      Ensures-bind (Has q y) Any (Has q y) (copy O f r header.size)
        (λ _. set_file_attributes O p header) w (copy-Has q y f r header.size w k)
        λ _ v g. set_file_attributes-Has q p y header v g

  closed-Has :
      (q : String) (y : Option (List ℕ)) (f : O.File) (m : Cmd O.World (Unit {0})) (w : O.World)
      → Ensures (Has q y) Any (m w)
      → Ensures (Has q y) Any (deferring (O.close f) m w)
  closed-Has q y f m w h =
      Ensures-deferring (Has q y) Any (Has q y) Any (O.close f) m w h
        (λ _ v g. L.content-close f q v ∙ g) (λ v _. tt)

  -- A file that is written has the data of its entry.
  pub write_file-Has :
      (dir : String) (header : Header) (r : O.Reader) (w : O.World)
      → Ensures
          (Has (O.join dir header.name) (some (take header.size (L.bytes r))))
          Any
          (write_file O dir header r w)
  unfolding write_file
  write_file-Has dir header r w =
      let p = O.join dir header.name in
      let y = some (take header.size (L.bytes r)) in
      let Opened : O.File → O.World → Type 0 =
        λ f v. (L.path_of f ≡ p) × (L.content v p ≡ some []) in
      Ensures-bind Opened Any (Has p y) (create_file O p header)
        (λ f. deferring (O.close f) (fill_file O p header f r)) w
        (Ensures-wrapped Opened Any "Failed to create file %v: %v"
          (call (O.open_file p header.mode)) w
          (Ensures-call Opened Any (O.open_file p header.mode) w
            (λ f e. L.open_path p header.mode f w e) tt))
        λ f v (at, empty). closed-Has p y f (fill_file O p header f r) v (
          fill_file-Has p p y header f r v λ e.
            subst (λ x. L.content (O.copy_n f r header.size v).2 x ≡ y) at
              (L.content-copy_n f r header.size [] v
                (subst (λ x. L.content v x ≡ some []) (sym at) empty) e))

  -- It leaves other paths alone.
  pub write_file-other :
      (q dir : String) (x : Option (List ℕ)) (header : Header) (r : O.Reader) (w : O.World)
      → q ≢ O.join dir header.name
      → L.content w q ≡ x
      → Ensures (Has q x) Any (write_file O dir header r w)
  unfolding write_file
  write_file-other q dir x header r w ne h =
      let p = O.join dir header.name in
      let Opened : O.File → O.World → Type 0 = λ f v. (L.path_of f ≡ p) × (L.content v q ≡ x) in
      Ensures-bind Opened Any (Has q x) (create_file O p header)
        (λ f. deferring (O.close f) (fill_file O p header f r)) w
        (Ensures-wrapped Opened Any "Failed to create file %v: %v"
          (call (O.open_file p header.mode)) w
          (Ensures-call Opened Any (O.open_file p header.mode) w
            (λ f e.
              ((L.open_path p header.mode f w e).0, L.content-open_file p q header.mode w ne ∙ h))
            tt))
        λ f v (at, old). closed-Has q x f (fill_file O p header f r) v (
          fill_file-Has q p x header f r v
            λ e. L.content-copy_other f r header.size q v (λ s. ne (s ∙ at)) ∙ old)
