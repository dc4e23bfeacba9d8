-- ===== src/Container/Registry/Laws.antt =====
-- What the register does to the container of any one rank.
use konk.Base.{
  ℤ, pos, negsuc, succ_ℤ, ◌≡◌, ◌≢◌, refl, ◌⊎◌, inl, inr, String, List, [], ◌∷◌, ◌++◌, none, some,
  ok, err, Error, arith, ◌==◌, int_eq, if◌then◌else◌, Option-cases, Result-cases,
}
use konk.Base.Dict.{lookup, lookup-insert, lookup-erase, NodupKeys}
use konk.Container.Types.{Rank, ImageInfoArgs}
use konk.Container.Runtime.{Runtime}
use konk.Container.Checkpoint.{
  Checkpoint, full, Container, new_container, load_checkpoint, image_info, checkpoint_path,
}
use konk.Container.Registry.{
  ContainerRegister, put, get_or_create, load, load_checkpoints, load_parent, delete_unlocked,
}

module _ (R : Runtime) where
  -- A container that is registered is returned as it is, and the register is not changed. Otherwise
  -- one is created: if that fails the register is not changed; if not, the register has the new
  -- container, under its rank and without checkpoints, and every other as before.
  pub get_or_create_lem :
      (rank q : Rank) (name : String) (args : List String) (config : R.Config)
      (c : ContainerRegister R) (w : R.World)
      → let (r, c', w') = get_or_create R rank name args config c w in
        ((cont : Container R) × (lookup rank c.reg ≡ some cont)
          × (r ≡ ok cont)
          × (c' ≡ c)
          × (w' ≡ w))
        ⊎ ((e : Error) × (lookup rank c.reg ≡ none) × (r ≡ err e) × (c' ≡ c))
        ⊎ ((cont : Container R) × (lookup rank c.reg ≡ none)
            × (r ≡ ok cont)
            × (cont.rank ≡ rank)
            × (cont.args ≡ args)
            × (cont.checkpoints ≡ [])
            × (lookup q c'.reg ≡ (if q == rank then some cont else lookup q c.reg)))
  unfolding get_or_create put
  get_or_create_lem rank q name args config c w = elim (Option-cases (lookup rank c.reg)) [
    | inr (cont, e) ↦ rw (e, get_or_create) (inl (cont, refl, refl, refl, refl))
    | inl e ↦ elim (Result-cases (R.create name config w).0) [
      | inl (lib, f) ↦
          rw (e, f, get_or_create)
            (inr (inr (_, refl, refl, refl, refl, refl, lookup-insert q rank _ c.reg)))
      | inr (x, f) ↦ rw (e, f, get_or_create) (inr (inl (_, refl, refl, refl)))
    ]
  ]

  load_checkpoint_lem :
      (g : ℤ) (cont : Container R) (w : R.World)
      → let (r, cont') = load_checkpoint R g cont w in
        (((e : Error) × (R.read_dir (checkpoint_path R cont (full g)) w ≡ err e) × (r ≡ err e))
          ⊎ ((R.read_dir (checkpoint_path R cont (full g)) w ≡ ok tt)
              × (r ≡ ok tt)
              × (cont' ≡ record cont { checkpoints = cont.checkpoints ++ (full g ∷ []) })))
  unfolding load_checkpoint
  load_checkpoint_lem g cont w =
      elim (Result-cases (R.read_dir (checkpoint_path R cont (full g)) w)) [
        | inl (_, e) ↦ rw (e, load_checkpoint) (inr (refl, refl, refl))
        | inr (x, e) ↦ rw (e, load_checkpoint) (inl (x, refl, refl))
      ]

  -- The checkpoints that an image brings: its own, and the parent's unless there is none.
  abbrev pub loaded : ImageInfoArgs → List Checkpoint
  loaded info =
      if info.parent == negsuc 0
      then full info.generation ∷ []
      else full info.generation ∷ full info.parent ∷ []

  load_checkpoints_lem :
      (info : ImageInfoArgs) (cont : Container R) (w : R.World)
      → cont.checkpoints ≡ []
      → ((e : Error) × (load_checkpoints R info cont w ≡ err e))
        ⊎ (load_checkpoints R info cont w
            ≡ ok (record cont {
              checkpoints = loaded info;
              next_checkpoint_id = succ_ℤ info.generation;
            }))
  unfolding load_checkpoints load_parent load_checkpoint
  load_checkpoints_lem info cont w e = ground arith

  -- A container is loaded only if its rank is free. A load that fails leaves the register as it was;
  -- one that succeeds registers the container with the checkpoints of the image and the number after
  -- the image's generation for the next one, and keeps every other container.
  pub load_lem :
      (info : ImageInfoArgs) (q : Rank) (c : ContainerRegister R) (w : R.World)
      → let (r, c', _) = load R info c w in
        ((e : Error) × (r ≡ err e) × (c' ≡ c))
        ⊎ ((cont : Container R) × (r ≡ ok cont)
            × (lookup info.rank c.reg ≡ none)
            × (cont.checkpoints ≡ loaded info)
            × (cont.next_checkpoint_id ≡ succ_ℤ info.generation)
            × (cont.rank ≡ info.rank)
            × (cont.external ≡ [])
            × (lookup q c'.reg ≡ (if q == info.rank then some cont else lookup q c.reg)))
  unfolding load put
  load_lem info q c w = elim (Option-cases (lookup info.rank c.reg)) [
    | inr (cont, e) ↦ rw (e, load) (inl (_, refl, refl))
    | inl e ↦ elim (Result-cases (R.load info.id w).0) [
      | inr (x, f) ↦ rw (e, f, load) (inl (_, refl, refl))
      | inl (lib, f) ↦
          elim (load_checkpoints_lem info (new_container R lib info.rank info.args c.nymph_dir)
            (R.load info.id w).1 refl) [
              | inl (x, g) ↦ rw (e, f, g, load) (inl (_, refl, refl))
              | inr g ↦
                  rw (e, f, g, load)
                    (inr (_, refl, refl, refl, refl, refl, refl, lookup-insert q info.rank _ c.reg))
            ]
    ]
  ]

  load_checkpoints_needs_parent :
      (info : ImageInfoArgs) (cont : Container R) (w : R.World) (e : Error)
      → info.parent ≢ negsuc 0
      → R.read_dir (checkpoint_path R cont (full info.parent)) w ≡ err e
      → (x : Error) × (load_checkpoints R info cont w ≡ err x)
  unfolding load_checkpoints load_parent load_checkpoint
  load_checkpoints_needs_parent info cont w e named missing =
      elim (Result-cases (R.read_dir (checkpoint_path R cont (full info.generation)) w)) [
        | inr (x, f) ↦ (x, ground arith)
        | inl (_, f) ↦ (e, ground arith)
      ]

  -- The image of a checkpoint never names its parent, so its receiver takes generation 0 for the
  -- parent: without a directory for generation 0 the load fails, whatever generation was sent.
  pub load_needs_first :
      (sent : Container R) (k : Checkpoint) (c : ContainerRegister R) (w : R.World) (lib : R.Lib)
      (e : Error)
      → let info = image_info R sent k in
        let (opened, w') = R.load info.id w in
        lookup info.rank c.reg ≡ none
        → opened ≡ ok lib
        → R.read_dir
            (checkpoint_path R (new_container R lib info.rank info.args c.nymph_dir) (full (pos 0)))
            w'
          ≡ err e
        → (x : Error) × ((load R info c w).0 ≡ err x)
  unfolding load image_info
  load_needs_first sent k c w lib e free loads missing =
      let (x, f) =
        load_checkpoints_needs_parent (image_info R sent k)
          (new_container R lib sent.rank sent.args c.nymph_dir) (R.load (R.id sent.lib) w).1 e
          (λ q. ground arith) missing in
      (x, rw (free, loads, f, load))

  -- In a register that lists no rank twice, deleting a container panics exactly if there is none of
  -- that rank. Otherwise that container leaves the register, also if destroying it fails, and every
  -- other one stays.
  pub delete_unlocked_lem :
      (rank q : Rank) (c : ContainerRegister R) (w : R.World)
      → NodupKeys c.reg
      → ((lookup rank c.reg ≡ none) × (delete_unlocked R rank c w ≡ none))
        ⊎ ((c' : ContainerRegister R) × (w' : R.World) × (delete_unlocked R rank c w
              ≡ some (c', w'))
            × (lookup q c'.reg ≡ (if q == rank then none else lookup q c.reg)))
  unfolding delete_unlocked
  delete_unlocked_lem rank q c w u = elim (Option-cases (lookup rank c.reg)) [
    | inl e ↦ rw (e, delete_unlocked) (inl (refl, refl))
    | inr (cont, e) ↦ rw (e, delete_unlocked) (inr (_, _, refl, lookup-erase q rank c.reg u))
  ]
