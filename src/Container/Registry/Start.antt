-- ===== src/Container/Registry/Start.antt =====
-- container_registry.go: making the register of a nymph, with the directory of its factory.
use konk.Base.{String, ok, err, Fallible}
use konk.Base.Exec.{Cmd, returns, panics}
use konk.Container.Runtime.{Runtime}
use konk.Container.Registry.{ContainerRegister, empty_register}

-- `new_factory` is `libcontainer.New`, at a path.
module _ (R : Runtime) (new_factory : String → R.World → Fallible × R.World) where
  abbrev factory_path : String
  factory_path = R.join "containers" "factory"

  abbrev factory_path_abs : String → String
  factory_path_abs nymph_dir = R.join nymph_dir factory_path

  -- Both errors panic.
  unfoldable pub new_container_register : String → Cmd R.World (ContainerRegister R)
  new_container_register nymph_dir w =
      let (made, w₁) = R.mkdir_all (factory_path_abs nymph_dir) w in
      elim made [
        | err e ↦ panics w₁
        | ok _ ↦
            let (created, w₂) = new_factory (factory_path_abs nymph_dir) w₁ in
            elim created [ err e ↦ panics w₂ | ok _ ↦ returns (empty_register R nymph_dir) w₂ ]
      ]
