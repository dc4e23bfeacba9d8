-- ===== src/Container/Checkpoint.antt =====
-- checkpoint.go, and the part of container.go that its checkpoints belong to. A checkpoint refers to
-- its container, so its methods take the container as an argument.
pub mod Latest
pub mod Numbering
use konk.Base.{
  ℕ, ℤ, pos, succ_ℤ, ltb_ℤ, String, List, [], ◌∷◌, ◌++◌, Bool, true, false, Option, none, some,
  Result, ok, err, errorf, Fallible, ◌==◌, int_eq, if◌then◌else◌,
}
use konk.Container.Types.{Rank, ImageInfoArgs}
use konk.Container.Runtime.{Runtime, CriuOpts, Process}

-- A checkpoint by its generation, and by its parent if it has one.
pub data Checkpoint : Type 0 where
  full : ℤ → Checkpoint
  child : ℤ → Checkpoint → Checkpoint

abbrev pub generation : Checkpoint → ℤ
generation (full g) = g
generation (child g p) = g

find_checkpoint : ℤ → List Checkpoint → Result Checkpoint
find_checkpoint g [] = err (errorf "Checkpoint %v not found")
find_checkpoint g (k ∷ ks) = if generation k == g then ok k else find_checkpoint g ks

-- The checkpoint that `parent` makes, numbered by the container's counter.
abbrev pub numbered : Option Checkpoint → ℤ → Checkpoint
numbered none g = full g
numbered (some p) g = child g p

-- The loop of `latestCheckpoint`, with the checkpoint at the index `latest`.
unfoldable pub latest_loop : Checkpoint → List Checkpoint → Checkpoint
latest_loop latest [] = latest
latest_loop latest (k ∷ ks) =
    latest_loop (if ltb_ℤ (generation latest) (generation k) then k else latest) ks

unfoldable pub latest_checkpoint : List Checkpoint → Option Checkpoint
latest_checkpoint [] = none
latest_checkpoint (k ∷ ks) = some (latest_loop k (k ∷ ks))

module _ (R : Runtime) where
  pub record Container : Type 0 where
    pub lib : R.Lib
    pub rank : Rank
    pub nymph_root : String
    pub args : List String
    pub external : List String
    -- Whether `tty` is set.
    pub tty : Bool
    pub checkpoints : List Checkpoint
    pub next_checkpoint_id : ℤ

  abbrev pub new_container : R.Lib → Rank → List String → String → Container
  new_container lib rank args nymph_root = record {
    lib = lib;
    rank = rank;
    nymph_root = nymph_root;
    args = args;
    external = [];
    tty = false;
    checkpoints = [];
    next_checkpoint_id = pos 0;
  }

  unfoldable pub add_external : List String → Container → Container
  add_external external c = record c { external = c.external ++ external }

  abbrev pub path_abs : Container → String → String
  path_abs c path_rel = R.join c.nymph_root path_rel

  abbrev pub container_path : Container → String
  container_path c = R.join (R.join "containers" "factory") (R.id c.lib)

  abbrev pub state_path : Container → String
  state_path c = R.join (container_path c) "state.json"

  abbrev pub checkpoints_path : Container → String
  checkpoints_path c = R.join "checkpoints" (R.id c.lib)

  -- `checkpoint.Path` and `checkpoint.PathAbs`.
  abbrev pub checkpoint_path : Container → Checkpoint → String
  checkpoint_path c k = R.join (checkpoints_path c) (R.itoa (generation k))

  abbrev pub checkpoint_path_abs : Container → Checkpoint → String
  checkpoint_path_abs c k = path_abs c (checkpoint_path c k)

  unfoldable pub get_checkpoint : Container → ℤ → Result Checkpoint
  unfolding find_checkpoint
  get_checkpoint c g = find_checkpoint g c.checkpoints

  unfoldable pub new_checkpoint :
      Option Checkpoint → Container → R.World → Result Checkpoint × Container × R.World
  new_checkpoint parent c w =
      let k = numbered parent c.next_checkpoint_id in
      let (made, w') = R.mkdir_all (checkpoint_path_abs c k) w in
      elim made [
        | err e ↦ (err e, c, w')
        | ok _ ↦ (
          ok k,
          record c {
            checkpoints = c.checkpoints ++ (k ∷ []);
            next_checkpoint_id = succ_ℤ c.next_checkpoint_id;
          },
          w',
        )
      ]

  -- The directory is looked for relative to the working directory, which is the nymph's root.
  unfoldable pub load_checkpoint : ℤ → Container → R.World → Fallible × Container
  load_checkpoint target c w = elim (R.read_dir (checkpoint_path c (full target)) w) [
    | err e ↦ (err e, c)
    | ok _ ↦ (ok tt, record c { checkpoints = c.checkpoints ++ (full target ∷ []) })
  ]

  -- `Parent` is not set, so it has the zero value.
  unfoldable pub image_info : Container → Checkpoint → ImageInfoArgs
  image_info c k = record {
    rank = c.rank;
    id = R.id c.lib;
    args = c.args;
    generation = generation k;
    parent = pos 0;
  }

  abbrev pub parent_path_abs : Container → Checkpoint → String
  parent_path_abs c (full g) = ""
  parent_path_abs c (child g p) = checkpoint_path_abs c p

  unfoldable pub dump_opts : Container → Checkpoint → Bool → CriuOpts
  dump_opts c k pre_dump = record {
    images_directory = checkpoint_path_abs c k;
    parent_image = parent_path_abs c k;
    leave_running = pre_dump;
    pre_dump = pre_dump;
    external = [];
    external_unix_connections = false;
  }

  unfoldable pub dump : Container → Checkpoint → Bool → R.World → Fallible × R.World
  unfolding dump_opts
  dump c k pre_dump = R.checkpoint c.lib (dump_opts c k pre_dump)

  unfoldable pub restore_opts : Container → Checkpoint → CriuOpts
  restore_opts c k = record {
    images_directory = checkpoint_path_abs c k;
    parent_image = parent_path_abs c k;
    leave_running = true;
    pre_dump = false;
    external = c.external;
    external_unix_connections = true;
  }

  unfoldable pub restore : Container → Checkpoint → Process → R.World → Fallible × R.World
  unfolding restore_opts
  restore c k process = R.restore c.lib process (restore_opts c k)
