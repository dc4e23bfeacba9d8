-- ===== src/Config/File.antt =====
-- config/viper.go: reading the file of the configuration, before a command runs.
use konk.Base.{String, true, false, ok, err, Fallible, ◌==◌, string_eq}
use konk.Base.Exec.{Cmd, returns, exits}

-- The calls of viper that say where the file is, and the one that reads it.
pub record Files (W : Type 0) : Type 0 where
  pub set_config_file : String → W → W
  pub add_config_path : String → W → W
  pub set_config_name : String → W → W
  pub set_env_prefix : String → W → W
  pub read_in_config : W → Fallible × W

module _ {W : Type 0} (F : Files W) where
  abbrev locate : String → W → W
  locate cfg_file w = elim (cfg_file == "") [
    | false ↦ F.set_config_file cfg_file w
    | true ↦ F.set_config_name ".konk" (F.add_config_path "$HOME" w)
  ]

  -- `cfg_file` is the flag --config. `os.Exit(1)` follows an error.
  unfoldable pub init_config : String → Cmd W (Unit {0})
  init_config cfg_file w =
      let (r, w') = F.read_in_config (F.set_env_prefix "konk" (locate cfg_file w)) in
      elim r [ err e ↦ exits w' | ok _ ↦ returns tt w' ]
