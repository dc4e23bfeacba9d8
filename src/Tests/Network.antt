-- ===== src/Tests/Network.antt =====
-- The network drivers on a host in memory.
use konk.Base.{
  ℤ, pos, String, List, [], ◌∷◌, true, some, Result, ok, err, errorf, Fallible, ◌≡◌, refl, ◌==◌,
  string_eq, if◌then◌else◌,
}
use konk.Base.Exec.{Cmd}
use konk.Config.{Viper}
use konk.Network.HookState.{State}
use konk.Network.Veth
use konk.Network.Veth.Laws.{Configured, Settled, new_veth_lem}
use konk.Network.Veth.Hooks.{poststop, poststop_lem, Stopped}
use konk.Network.Ovs.{Vswitch}
use konk.Network.Rxe.Hooks.{ProcFs}
use konk.Network.Driver.{Env, Network, veth, new}
use konk.Network.Hooks.{Command, HookLists, Process, install_hooks}
use konk.Network.Hooks.Laws.{install_hooks_lem, driver_hooks, hook_process, started}
use konk.Tests.Links.{single, memory_netlink, memory_netlink-IsLawful}

-- Every key is set, and its value is its name.
abbrev pub memory_viper : Viper
memory_viper = record {
  is_set = λ key. true;
  string_at = λ key. key;
  strings_at = λ key. "veth" ∷ [];
  bool_at = λ key. true;
  int_at = λ key. pos 4;
  uint_at = λ key. 4;
  parse_ip = λ s. ok (239 ∷ 0 ∷ 0 ∷ 1 ∷ []);
}

configured : Configured memory_viper
configured = record {
  bridge = refl;
  dev = refl;
  vxlan = refl;
  port = refl;
  id = refl;
  group = refl;
  bytes = 239 ∷ 0 ∷ 0 ∷ 1 ∷ [];
  parses = refl;
}

abbrev host : Veth.Host
host = record { hostname = ok "a"; sum = λ h. (1, 2) }

abbrev devices : List String
devices = "veth.vxlan.dev" ∷ []

new_veth_lem_example :
    Settled memory_netlink memory_netlink-IsLawful memory_viper host configured devices
      (Veth.new_veth memory_netlink memory_viper host devices)
new_veth_lem_example =
    new_veth_lem memory_netlink memory_netlink-IsLawful memory_viper host configured devices

abbrev itoa : ℤ → String
itoa n = "4"

abbrev atoi : String → Result ℤ
atoi s = if s == "4" then ok (pos 4) else err (errorf "invalid syntax")

abbrev state : State
state = record { status = "stopped"; pid = 7; annotations = ("konk-rank", "4") ∷ [] }

poststop_lem_example :
    Stopped itoa atoi memory_netlink state
      ("vpeer4" ∷ "br0" ∷ [])
      (poststop itoa atoi memory_netlink state ("vpeer4" ∷ "br0" ∷ []))
poststop_lem_example =
    poststop_lem itoa atoi memory_netlink memory_netlink-IsLawful state ("vpeer4" ∷ "br0" ∷ [])

abbrev switch : Vswitch (List String)
switch = record {
  add_bridge = λ b w. (ok tt, w);
  add_port = λ b p w. (ok tt, w);
  delete_port = λ b p w. (ok tt, w);
  delete_bridge = λ b w. (ok tt, w);
}

abbrev proc : ProcFs (List String)
proc = record {
  File = Unit;
  open_read = λ p w. (ok tt, w);
  open_write = λ p w. (ok tt, w);
  read = λ f n w. (ok "4", w);
  write_string = λ f s w. (ok tt, w);
  close = λ f w. w;
}

abbrev env : Env memory_netlink
env = record {
  viper = memory_viper;
  host = host;
  switch = switch;
  proc = proc;
  itoa = itoa;
  atoi = atoi;
  trim = λ s. s;
}

abbrev driver : Network memory_netlink
driver = record {
  driver = veth (record { bridge = single "veth.bridge.name"; vxlan = single "veth.vxlan.name" });
  network_type = "veth";
}

abbrev process : Process
process = record { getwd = ok "/tmp"; environ = [] }

abbrev no_hooks : HookLists
no_hooks = record { prestart = []; poststart = []; poststop = [] }

abbrev read_state : List String → Result State × List String
read_state w = (ok state, w)

abbrev open_log : List String → Fallible × List String
open_log w = (ok tt, w)

abbrev close_log : List String → List String
close_log w = w

abbrev Runs : (State → Cmd (List String) (Unit {0})) → List String → Type 0
Runs hook args =
    started memory_netlink env read_state open_log close_log args
    ≡ some (hook_process memory_netlink env read_state open_log close_log hook)

install_hooks_lem_example :
    let (r, hooks) = install_hooks process "veth" no_hooks in
    (r ≡ ok tt)
    × (c₁ c₂ c₃ : Command) × (hooks.prestart ≡ c₁ ∷ [])
    × (hooks.poststart ≡ c₂ ∷ [])
    × (hooks.poststop ≡ c₃ ∷ [])
    × Runs (driver_hooks memory_netlink env driver.driver).prestart c₁.args
    × Runs (driver_hooks memory_netlink env driver.driver).poststart c₂.args
    × Runs (driver_hooks memory_netlink env driver.driver).poststop c₃.args
unfolding new string_eq konk.Network.Driver.new_driver Veth.new_veth Veth.create_bridge
    konk.Config.get_string Veth.get_bridge_hwaddr Veth.create_vxlan konk.Config.get_int
    konk.Config.get_ip Veth.connect
install_hooks_lem_example =
    install_hooks_lem memory_netlink env read_state open_log close_log process "/tmp" "veth" driver
      no_hooks devices ("veth.vxlan.name" ∷ "veth.bridge.name" ∷ devices) refl refl
