-- ===== src/Nymph/Run/Laws.antt =====
-- What starting a container leaves behind.
use konk.Base.{
  ◌≡◌, ◌≢◌, ◌⊎◌, String, List, true, Option, none, some, ok, err, Error, Fallible, int_eq,
  string_eq, false,
}
use konk.Base.Dict.{lookup}
use konk.Container.Types.{Rank}
use konk.Container.Runtime.{Runtime}
use konk.Container.Checkpoint.{Container}
use konk.Container.Address.{Ip, create_container_addr}
use konk.Nymph.Client.{RunArgs}
use konk.Nymph.Devices
use konk.Config.Key
use konk.Nymph.Run.{Host, Driver, Server, get_image, labelled}

module _ (R : Runtime) (H : Host R) where
  module _ (args : RunArgs) (q : Rank) (ne : q ≢ args.rank) where
    -- The coordinator was told that the container runs here, in the last call.
    abbrev pub Registered : String → R.World → Type 0
    Registered host w =
        (before : R.World) × (H.register_container args.rank host before ≡ (ok tt, w))

    -- Another container is registered as it was; without an error the container is registered with
    -- a terminal, and the coordinator was told of it.
    abbrev pub Started : Server R H → Fallible × Server R H → Type 0
    Started n (r, n') =
        (lookup q n'.containers.reg ≡ lookup q n.containers.reg)
        × ((r ≢ ok tt)
            ⊎ ((cont : Container R) × (lookup args.rank n'.containers.reg ≡ some cont)
                × (cont.tty ≡ true)
                × Registered n.hostname n'.world))

    -- The image gives a configuration that has no capabilities when the devices are added to it.
    abbrev pub NoCapabilities : List (Driver R) → Server R H → Type 0
    NoCapabilities nets n =
        (image : H.Image) × (config config' : R.Config) × (addr : Ip) × ((get_image R H args.image
            n).0
          ≡ ok image)
        × (H.convert (H.container_name args.image args.rank) image ≡ ok config)
        × (create_container_addr args.rank n.net ≡ some addr)
        × (labelled R H nets args n.id addr config ≡ ok config')
        × ((H.device_part config').capabilities ≡ none)

    -- What a call leaves: it panics only without an image, an address, the path of the devices or
    -- capabilities, and otherwise it leaves the node as `Started` says.
    abbrev pub Ran : List (Driver R) → Server R H → Option (Fallible × Server R H) → Type 0
    Ran nets n none =
        ((e : Error) × ((get_image R H args.image n).0 ≡ err e))
        ⊎ (create_container_addr args.rank n.net ≡ none)
        ⊎ (H.viper.is_set Key.container_device_path ≡ false)
        ⊎ NoCapabilities nets n
    Ran nets n (some result) = Started n result
