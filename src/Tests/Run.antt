-- ===== src/Tests/Run.antt =====
-- A nymph in memory that starts a container.
use konk.Base.{some, pos, String, true, List, [], ◌∷◌, ok, int_eq, string_eq}
use konk.Container.Address.{container_net}
use konk.Container.Registry.{empty_register}
use konk.Nymph.Client.{RunArgs}
use konk.Nymph.Devices.{Capabilities}
use konk.Tests.Network.{memory_viper}
use konk.Nymph.Run.{Host, Driver, Server}
use konk.Tests.Runtime.{memory_runtime}

abbrev capabilities : Capabilities
capabilities = record {
  bounding = [];
  effective = [];
  ambient = [];
  inheritable = [];
  permitted = [];
}

-- An image is its path, and the coordinator accepts every registration.
abbrev pub memory_host : Host memory_runtime
memory_host = record {
  Image = String;
  image_name = λ path. path;
  new_image = λ path w. (ok path, w);
  container_name = λ path rank. path;
  convert = λ name image. ok tt;
  viper = memory_viper;
  Device = String;
  itoa = λ n. "1";
  get_devices = λ path. ok (path ∷ []);
  default_allowed = [];
  device_part = λ config. record {
    capabilities = some capabilities;
    devices = [];
    cgroup_path = "";
    allowed_devices = [];
  };
  set_device_part = λ part config. config;
  set_labels = λ labels config. config;
  set_hostname = λ rank config. config;
  show = λ v. "";
  addr_string = λ a. "";
  register_container = λ rank host w. (ok tt, host ∷ w);
}

abbrev server : Server memory_runtime memory_host
server = record {
  containers = empty_register memory_runtime "/tmp";
  images = [];
  hostname = "a";
  id = 0;
  net = container_net;
  world = [];
}

abbrev args : RunArgs
args = record { rank = pos 1; image = "app"; args = []; init = true }

abbrev drivers : List (Driver memory_runtime)
drivers = record { install_hooks = λ config. ok config; add_labels = λ l. (ok tt, l) } ∷ []
