-- ===== src/Nymph/Devices.antt =====
-- srv/nymph/server.go: the capabilities and devices of a container.
use konk.Base.{ℤ, String, ◌<>◌, List, [], ◌∷◌, ◌++◌, Option, none, some, Result}
use konk.Base.Exec.{Cmd, returns, panics, ◌>>=◌, pure, check}
use konk.Config.{Viper, get_string}
use konk.Config.Key
use konk.Container.Types.{Rank}

-- `configs.Capabilities`.
pub record Capabilities : Type 0 where
  pub bounding : List String
  pub effective : List String
  pub ambient : List String
  pub inheritable : List String
  pub permitted : List String

-- The fields of `configs.Config` that the method sets; the capabilities are a pointer, which can be
-- nil. Seccomp then allows by default, and the resources of the control group leave swappiness and the
-- permission of all devices open.
pub record Config (Device : Type 0) : Type 0 where
  pub capabilities : Option Capabilities
  pub devices : List Device
  pub cgroup_path : String
  pub allowed_devices : List Device

unfoldable pub caps : List String
caps =
    "CAP_NET_ADMIN" ∷ "CAP_SYS_ADMIN" ∷ "CAP_CHOWN" ∷ "CAP_DAC_OVERRIDE" ∷ "CAP_FSETID"
    ∷ "CAP_FOWNER" ∷ "CAP_MKNOD" ∷ "CAP_NET_RAW" ∷ "CAP_SETGID" ∷ "CAP_SETUID" ∷ "CAP_SETFCAP"
    ∷ "CAP_SETPCAP" ∷ "CAP_NET_BIND_SERVICE" ∷ "CAP_SYS_CHROOT" ∷ "CAP_KILL" ∷ "CAP_AUDIT_WRITE"
    ∷ []

unfoldable pub add_caps : Capabilities → Capabilities
unfolding caps
add_caps c = record {
  bounding = c.bounding ++ caps;
  effective = c.effective ++ caps;
  ambient = c.ambient ++ caps;
  inheritable = c.inheritable ++ caps;
  permitted = c.permitted ++ caps;
}

-- Following a pointer.
abbrev there : {W A : Type 0} → Option A → Cmd W A
there none w = panics w
there (some a) w = returns a w

-- `get_devices` is `devices.GetDevices`, `default_allowed` is `configs.DefaultAllowedDevices`. An error
-- is returned without the configuration, which the caller then drops. The capabilities are added first,
-- which panics if there are none to add to.
unfoldable pub add_devices :
    {W Device : Type 0}
    → Viper
    → (ℤ → String)
    → (String → Result (List Device))
    → List Device
    → Config Device
    → Rank
    → Cmd W (Config Device)
add_devices V itoa get_devices default_allowed config rank = do
  capabilities ← there config.capabilities
  device_path ← get_string V Key.container_device_path
  dev ← check (get_devices device_path)
  let all = config.devices ++ dev
  pure (record config {
    capabilities = some (add_caps capabilities);
    devices = all;
    cgroup_path = "rank" <> itoa rank;
    allowed_devices = default_allowed ++ all;
  })
