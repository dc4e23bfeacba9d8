-- ===== src/Container/Image/Contents.antt =====
-- image.go: the files of an image are on the disk once it has been unpacked.
use konk.Base.{
  ℕ, String, List, Option, some, ◌≡◌, ◌≢◌, refl, Bool, true, false, take, arith, ◌∙◌, subst, sym,
}
use konk.Base.Exec.{Exec, returns, fails, exits, panics}
use konk.Base.Exec.Ensures.{Ensures, Ensures-bind, Ensures-wrapped, Ensures-map, Ensures-both}
use konk.Container.Image.{
  ImageOs, Header, Typeflag, type_dir, type_reg, type_symlink, type_link, other_type, Archive, eof,
  broken, entry, create_dir, write_file, extract, unpack,
}
use konk.Container.Image.Unpack.{IsDisk, Any, Has, create_dir-Has, write_file-Has, write_file-other}

-- Links let two paths share their content.
abbrev pub is_plain : Typeflag → Bool
is_plain type_dir = true
is_plain type_reg = true
is_plain type_symlink = false
is_plain type_link = false
is_plain (other_type b) = false

abbrev IfFile : Typeflag → Type 0 → Type 0
IfFile type_reg P = P
IfFile type_dir P = Unit
IfFile type_symlink P = Unit
IfFile type_link P = Unit
IfFile (other_type b) P = Unit

-- There is always this to say.
Ensures-nothing : {W A : Type 0} (x : Exec W A) → Ensures (λ _ _. Unit {0}) (λ _. Unit {0}) x
Ensures-nothing (returns a w) = tt
Ensures-nothing (fails e w) = tt
Ensures-nothing (exits w) = tt
Ensures-nothing (panics w) = tt

module _ (O : ImageOs) (dir : String) where
  -- No entry is for this path.
  abbrev pub Avoids : String → Archive O.Reader → Type 0
  Avoids q eof = Unit
  Avoids q (broken e) = Unit
  Avoids q (entry header r a) = (q ≢ O.join dir header.name) × Avoids q a

  -- Only directories and regular files, no two entries for one path.
  abbrev pub IsPlain : Archive O.Reader → Type 0
  IsPlain eof = Unit
  IsPlain (broken e) = Unit
  IsPlain (entry header r a) =
      (is_plain header.typeflag ≡ true) × Avoids (O.join dir header.name) a × IsPlain a

  module _ (L : IsDisk O) where
    -- The data of a regular file.
    abbrev pub data_of : Header → O.Reader → Option (List ℕ)
    data_of header r = some (take header.size (L.bytes r))

    -- The file of an entry has its data.
    abbrev Holds : Header → O.Reader → O.World → Type 0
    Holds header r v = L.content v (O.join dir header.name) ≡ data_of header r

    -- Every regular file of an archive has its data.
    abbrev pub IsStored : Archive O.Reader → O.World → Type 0
    IsStored eof w = Unit
    IsStored (broken e) w = Unit
    IsStored (entry header r a) w = IfFile header.typeflag (Holds header r w) × IsStored a w

    extract-other :
        (t : Typeflag) (q : String) (x : Option (List ℕ)) (header : Header) (r : O.Reader)
        (w : O.World)
        → header.typeflag ≡ t
        → is_plain t ≡ true
        → q ≢ O.join dir header.name
        → L.content w q ≡ x
        → Ensures (Has O L q x) (Any O L) (extract O dir header r w)
    unfolding extract
    extract-other type_dir q x header r w e p ne h =
        rw (e, Ensures)
          (Ensures-wrapped (Has O L q x) (Any O L) "Failed to create directory from image %v: %v"
            (create_dir O dir header) w (create_dir-Has O L q dir x header w h))
    extract-other type_reg q x header r w e p ne h =
        rw (e, Ensures)
          (Ensures-wrapped (Has O L q x) (Any O L) "Failed to write file from image %v: %v"
            (write_file O dir header r) w (write_file-other O L q dir x header r w ne h))
    extract-other type_symlink q x header r w e p ne h = absurd (ground arith)
    extract-other type_link q x header r w e p ne h = absurd (ground arith)
    extract-other (other_type b) q x header r w e p ne h = absurd (ground arith)

    unpack-other :
        (a : Archive O.Reader) (q : String) (x : Option (List ℕ)) (w : O.World)
        → IsPlain a
        → Avoids q a
        → L.content w q ≡ x
        → Ensures (Has O L q x) (Any O L) (unpack O dir a w)
    unfolding unpack
    unpack-other eof q x w p n h = h
    unpack-other (broken e) q x w p n h = tt
    unpack-other (entry header r a) q x w (p, _, ps) (n, ns) h =
        Ensures-bind (Has O L q x) (Any O L) (Has O L q x) (extract O dir header r)
          (λ _. unpack O dir a) w (extract-other header.typeflag q x header r w refl p n h)
          λ _ v g. unpack-other a q x v ps ns g

    -- What extracting an entry leaves at its path.
    abbrev Extracted : Header → O.Reader → Unit {0} → O.World → Type 0
    Extracted header r _ v = IfFile header.typeflag (Holds header r v)

    extract-Extracted :
        (t : Typeflag) (header : Header) (r : O.Reader) (w : O.World)
        → header.typeflag ≡ t
        → is_plain t ≡ true
        → Ensures (Extracted header r) (Any O L) (extract O dir header r w)
    unfolding extract
    extract-Extracted type_dir header r w e p =
        let nothing : Unit {0} → O.World → Type 0 = λ _ _. Unit in
        Ensures-map nothing (Any O L) (Extracted header r) (extract O dir header r w)
          (Ensures-nothing (extract O dir header r w))
          λ _ v _. subst (λ x. IfFile x (Holds header r v)) (sym e) tt
    extract-Extracted type_reg header r w e p =
        let has = Has O L (O.join dir header.name) (data_of header r) in
        Ensures-map has (Any O L) (Extracted header r) (extract O dir header r w)
          (rw (e, Ensures)
            (Ensures-wrapped has (Any O L) "Failed to write file from image %v: %v"
              (write_file O dir header r) w (write_file-Has O L dir header r w)))
          λ _ v h. subst (λ x. IfFile x (Holds header r v)) (sym e) h
    extract-Extracted type_symlink header r w e p = absurd (ground arith)
    extract-Extracted type_link header r w e p = absurd (ground arith)
    extract-Extracted (other_type b) header r w e p = absurd (ground arith)

    -- A later entry, for another path, keeps it.
    kept : (t : Typeflag) (P Q : Type 0) → IfFile t P → (P → Q) → IfFile t Q
    kept type_dir P Q h k = tt
    kept type_reg P Q h k = k h
    kept type_symlink P Q h k = tt
    kept type_link P Q h k = tt
    kept (other_type b) P Q h k = tt

    -- An archive of directories and regular files, no two for one path, on a disk without links: if
    -- unpacking it returns no error, every regular file is at its path under the directory, with the
    -- data of its entry, as many bytes as its header says.
    pub unpack_lem :
        (a : Archive O.Reader) (w : O.World)
        → IsPlain a
        → Ensures (λ _ v. IsStored a v) (Any O L) (unpack O dir a w)
    unfolding unpack
    unpack_lem eof w p = tt
    unpack_lem (broken e) w p = tt
    unpack_lem (entry header r a) w (p, n, ps) =
        Ensures-bind (Extracted header r) (Any O L) (λ _ v. IsStored (entry header r a) v)
          (extract O dir header r) (λ _. unpack O dir a) w
          (extract-Extracted header.typeflag header r w refl p)
          λ _ v h.
            let q = O.join dir header.name in
            let same = Has O L q (L.content v q) in
            let stored : Unit {0} → O.World → Type 0 = λ _ u. IsStored a u in
            Ensures-map (λ x u. same x u × stored x u) (Any O L)
              (λ _ u. IsStored (entry header r a) u) (unpack O dir a v)
              (Ensures-both same (Any O L) stored (unpack O dir a v)
                (unpack-other a q (L.content v q) v ps n refl) (unpack_lem a v ps))
              λ _ u (g, rest).
                (kept header.typeflag (Holds header r v) (Holds header r u) h (λ x. g ∙ x), rest)
