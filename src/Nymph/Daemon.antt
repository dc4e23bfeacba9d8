-- ===== src/Nymph/Daemon.antt =====
-- srv/nymph/server.go: starting the daemon of a node, its registration at the coordinator, and the
-- clean-up at its end.
pub mod Laws
pub mod Start
pub mod Registration
use konk.Base.{
  ℕ, zero, suc, String, List, [], ◌∷◌, ◌++◌, Option, none, some, Bool, true, false, Result, ok, err,
  Error, Fallible,
}
use konk.Base.Dict.{Dict}
use konk.Base.Exec.{
  Cmd, Exec, returns, fails, exits, panics, ◌>>=◌, ◌>>◌, pure, call, check, wrapped, on_error,
}
use konk.Config.{Viper, get_string, get_string_slice}
use konk.Config.Key

-- What a daemon uses: the operating system, the drivers of pkg/network, the register and the images of
-- pkg/container, and the client of the coordinator.
pub record Node (W : Type 0) : Type 1 where
  pub Network : Type 0
  pub Register : Type 0
  pub Image : Type 0
  pub Client : Type 0
  -- `os.IsNotExist` of the error of `os.Stat`.
  pub is_missing : String → W → Bool
  pub remove_all : String → W → W
  pub mkdir_all : String → W → Fallible × W
  pub chdir : String → W → Fallible × W
  pub hostname : W → Result String
  pub new_network : String → Cmd W Network
  pub destroy_network : Network → W → W
  -- `none` is a panic.
  pub new_register : String → W → Option (Register × W)
  pub destroy_register : Register → W → W
  pub close_image : Image → W → W
  pub new_client : Cmd W Client
  -- The reply, zero after an error, and the error.
  pub register_nymph : Client → String → W → ℕ × Fallible × W
  pub unregister_nymph : Client → String → W → Fallible × W
  pub close_client : Client → W → W

module _ {W : Type 0} (N : Node W) where
  -- `none` is a nil pointer.
  pub record Nymph : Type 0 where
    pub client : Option N.Client
    pub containers : Option N.Register
    pub images : Dict String N.Image
    pub networks : List N.Network
    pub root_dir : String
    pub hostname : String
    pub id : ℕ

  unfoldable pub create_root_dir : String → Cmd W (Unit {0})
  create_root_dir root_dir w =
      let w₁ : W = elim (N.is_missing root_dir w) [ true ↦ w | false ↦ N.remove_all root_dir w ] in
      (wrapped "Failed to create temporary directory %v: %v" (call (N.mkdir_all root_dir))
          >> wrapped "Failed to change to temporary directory: %v" (call (N.chdir root_dir)))
        w₁

  -- The networks that have been made, and how the loop ended.
  unfoldable pub instantiate : List String → List N.Network → W → List N.Network × Exec W (Unit {0})
  instantiate [] networks w = (networks, returns tt w)
  instantiate (network_type ∷ types) networks w = elim (N.new_network network_type w) [
    | returns network w' ↦ instantiate types (networks ++ network ∷ []) w'
    | fails e w' ↦ (networks, fails e w')
    | exits w' ↦ (networks, exits w')
    | panics w' ↦ (networks, panics w')
  ]

  unfoldable pub destroy_networks : List N.Network → W → W
  destroy_networks [] w = w
  destroy_networks (network ∷ networks) w = destroy_networks networks (N.destroy_network network w)

  unfoldable pub close_images : Dict String N.Image → W → W
  close_images [] w = w
  close_images ((_, image) ∷ images) w = close_images images (N.close_image image w)

  -- An unknown hostname is logged, and stands as "".
  abbrev name_or_empty : Result String → String
  name_or_empty (ok name) = name
  name_or_empty (err e) = ""

  unfoldable pub unregister_nymph : Nymph → W → W
  unregister_nymph n w = elim n.client [
    | none ↦ w
    | some c ↦ N.close_client c (N.unregister_nymph c (name_or_empty (N.hostname w)) w).1
  ]

  abbrev destroy_containers : Option N.Register → W → W
  destroy_containers none w = w
  destroy_containers (some r) w = N.destroy_register r w

  -- `Nymph._Close`
  unfoldable pub close : Nymph → W → W
  close n w =
      let w₁ = destroy_containers n.containers w in
      let w₂ = close_images n.images w₁ in
      let w₃ = unregister_nymph n w₂ in
      let w₄ = N.remove_all n.root_dir w₃ in destroy_networks n.networks w₄

  -- The networks that were made before an error are those that `_Close` destroys.
  abbrev pub settled : Nymph → List N.Network × Exec W (Unit {0}) → Exec W Nymph
  settled n (networks, returns _ w) = returns (record n { networks = networks }) w
  settled n (networks, fails e w) = fails e (close (record n { networks = networks }) w)
  settled n (networks, exits w) = exits w
  settled n (networks, panics w) = panics w

  unfoldable pub new_containers : String → Cmd W N.Register
  new_containers root_dir w = elim (N.new_register root_dir w) [
    | none ↦ panics w
    | some (r, w') ↦ returns r w'
  ]

  module _ (V : Viper) where
    unfoldable pub instantiate_networks : Nymph → Cmd W Nymph
    instantiate_networks n = do
      types ← get_string_slice V Key.nymph_networks
      λ w. settled n (instantiate types [] w)

    -- The register and the client.
    unfoldable pub connect : Nymph → Cmd W Nymph
    connect n = do
      containers ← new_containers n.root_dir
      let n' : Nymph = record n { containers = some containers }
      client ← on_error (close n') (wrapped "Failed to connect to the coordinator: %v" N.new_client)
      pure (record n' { client = some client })

    abbrev pub blank : String → Nymph
    blank root_dir = record {
      client = none;
      containers = none;
      images = [];
      networks = [];
      root_dir = root_dir;
      hostname = "";
      id = 0;
    }

    -- What follows the reading of the hostname.
    unfoldable pub build : String → String → Cmd W Nymph
    build root_dir hostname = do
      n₁ ← instantiate_networks (record (blank root_dir) { hostname = hostname })
      connect n₁

    unfoldable pub start_in : String → Cmd W Nymph
    start_in root_dir = do
      on_error (close (blank root_dir)) (create_root_dir root_dir)
      hostname ←
          on_error (close (blank root_dir))
            (wrapped "Failed to get hostname: %v" λ w. check (N.hostname w) w)
      build root_dir hostname

    unfoldable pub new_nymph : Cmd W Nymph
    new_nymph = do root_dir ← get_string V Key.nymph_root_dir; start_in root_dir
