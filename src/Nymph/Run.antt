-- ===== src/Nymph/Run.antt =====
-- srv/nymph/server.go: the cache of images, and the call that starts a container. Images, the
-- conversion of their specifications and the devices of the node are a parameter.
pub mod Images
pub mod Laws
pub mod Numbers
use konk.Base.{
  ℕ, ℤ, String, List, [], ◌∷◌, Option, none, some, Result, ok, err, wrap, Fallible, ◌==◌, string_eq,
}
use konk.Base.Dict.{Dict, lookup, insert}
use konk.Base.Exec.{returns, fails, exits, panics}
use konk.Config.{Viper}
use konk.Container.Types.{Rank, start}
use konk.Container.Runtime.{Runtime}
use konk.Container.Checkpoint.{Container}
use konk.Container.Registry.{ContainerRegister, get_or_create, put}
use konk.Container.Life.{launch}
use konk.Container.Labels.{
  Labels, Value, uint_value, string_value, rank_value, new_labels, add_label, to_string_slice,
}
use konk.Container.Address.{Ip, create_container_addr}
use konk.Nymph.Client.{RunArgs}
use konk.Nymph.Devices

-- What starting a container uses of libraries, of the node and of the coordinator's client.
pub record Host (R : Runtime) : Type 1 where
  pub Image : Type 0
  pub image_name : String → String
  pub new_image : String → R.World → Result Image × R.World
  pub container_name : String → Rank → String
  pub convert : String → Image → Result R.Config
  -- What `addDevices` uses: the node's configuration, and of libcontainer the devices at a path, those
  -- that are always allowed, and the part of a container's configuration that is set.
  pub viper : Viper
  pub Device : Type 0
  pub itoa : ℤ → String
  pub get_devices : String → Result (List Device)
  pub default_allowed : List Device
  pub device_part : R.Config → Devices.Config Device
  pub set_device_part : Devices.Config Device → R.Config → R.Config
  -- The configuration with labels behind its own, and with the hostname of a rank.
  pub set_labels : List String → R.Config → R.Config
  pub set_hostname : Rank → R.Config → R.Config
  pub show : Value → String
  pub addr_string : Ip → String
  pub register_container : Rank → String → R.World → Fallible × R.World

-- What starting a container asks of a network driver.
pub record Driver (R : Runtime) : Type 0 where
  pub install_hooks : R.Config → Result R.Config
  pub add_labels : Labels → Fallible × Labels

module _ (R : Runtime) (H : Host R) where
  pub record Server : Type 0 where
    pub containers : ContainerRegister R
    pub images : Dict String H.Image
    pub hostname : String
    pub id : ℕ
    -- The bytes of the global `util.ContainerNet`.
    pub net : Ip
    pub world : R.World

  unfoldable pub get_image : String → Server → Result H.Image × Server
  get_image path n =
      let name = H.image_name path in
      elim (lookup name n.images) [
        | some image ↦ (ok image, n)
        | none ↦
            let (r, w) = H.new_image path n.world in
            elim r [
              | err e ↦
                  (err (wrap "Failed to open a container image %v: %v" e), record n { world = w })
              | ok image ↦ (ok image, record n { images = insert name image n.images; world = w })
            ]
      ]

  -- An error of adding labels is not looked at.
  unfoldable pub install : List (Driver R) → R.Config → Labels → Result (R.Config × Labels)
  install [] config labels = ok (config, labels)
  install (net ∷ nets) config labels = elim (net.install_hooks config) [
    | err e ↦ err e
    | ok config' ↦ install nets config' (net.add_labels labels).1
  ]

  abbrev pub first_labels : ℕ → Rank → Ip → Labels
  first_labels id rank addr =
      let l₁ = (add_label "nymph-id" (uint_value id) new_labels).1 in
      let l₂ = (add_label "rank" (rank_value rank) l₁).1 in
      (add_label "ip" (string_value (H.addr_string addr)) l₂).1

  -- The configuration of a container, with its networks, labels and hostname.
  unfoldable pub labelled : List (Driver R) → RunArgs → ℕ → Ip → R.Config → Result R.Config
  unfolding install to_string_slice
  labelled nets args id addr config = elim (install nets config (first_labels id args.rank addr)) [
    | err e ↦ err e
    | ok (config', labels) ↦
        ok (H.set_hostname args.rank (H.set_labels (to_string_slice H.show labels.data') config'))
  ]

  -- `addDevices` on that configuration, which it changes in place; `none` is its panic.
  unfoldable pub add_devices : Rank → R.Config → Option (Result R.Config)
  add_devices rank config =
      let part = H.device_part config in
      elim (Devices.add_devices H.viper H.itoa H.get_devices H.default_allowed part rank tt) [
        | returns part' _ ↦ some (ok (H.set_device_part part' config))
        | fails e _ ↦ some (err e)
        | exits _ ↦ none
        | panics _ ↦ none
      ]

  -- The whole configuration.
  unfoldable pub configure :
      List (Driver R) → RunArgs → ℕ → Ip → R.Config → Option (Result R.Config)
  configure nets args id addr config = elim (labelled nets args id addr config) [
    | err e ↦ some (err e)
    | ok config' ↦ add_devices args.rank config'
  ]

  -- From `GetOrCreate` on.
  unfoldable pub start_container : RunArgs → String → R.Config → Server → Fallible × Server
  start_container args name config n =
      let (made, cs, w₁) = get_or_create R args.rank name args.args config n.containers n.world in
      elim made [
        | err e ↦
            (err (wrap "Container creation failed: %v" e), record n { containers = cs; world = w₁ })
        | ok cont ↦
            let (launched, cont', w₂) = launch R start args.args args.init cont w₁ in
            let n' = record n { containers = put R args.rank cont' cs; world = w₂ } in
            elim launched [
              | err e ↦ (err e, n')
              | ok _ ↦
                  let (r, w₃) = H.register_container args.rank n.hostname w₂ in
                  (r, record n' { world = w₃ })
            ]
      ]

  -- `Nymph.Run`; `none` is a panic, which the code also raises when it has no image.
  unfoldable pub run : List (Driver R) → RunArgs → Server → Option (Fallible × Server)
  run nets args n =
      let (r, n₁) = get_image args.image n in
      elim r [
        | err e ↦ none
        | ok image ↦
            let name = H.container_name args.image args.rank in
            elim (H.convert name image) [
              | err e ↦ some (err (wrap "Failed converting spec to config" e), n₁)
              | ok config ↦ elim (create_container_addr args.rank n₁.net) [
                | none ↦ none
                | some addr ↦
                    let n₂ = record n₁ { net = addr } in
                    elim (configure nets args n.id addr config) [
                      | none ↦ none
                      | some r ↦ elim r [
                        | err e ↦ some (err e, n₂)
                        | ok config' ↦ some (start_container args name config' n₂)
                      ]
                    ]
              ]
            ]
      ]
