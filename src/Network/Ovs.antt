-- ===== src/Network/Ovs.antt =====
-- ovs.go: the driver over Open vSwitch. Its start and its hooks panic, for they are not implemented; the
-- code behind these panics is not reached and not modelled.
use konk.Base.{String, ◌<>◌, Result, ok, err, Fallible}
use konk.Base.Exec.{Cmd, panics, ◌>>=◌, ◌>>◌, pure, call, or_exit}
use konk.Config.{Viper, get_string}
use konk.Config.Key
use konk.Network.HookState.{State, annotation}

-- What the driver uses of github.com/digitalocean/go-openvswitch.
pub record Vswitch (W : Type 0) : Type 0 where
  pub add_bridge : String → W → Fallible × W
  pub add_port : String → String → W → Fallible × W
  pub delete_port : String → String → W → Fallible × W
  pub delete_bridge : String → W → Fallible × W

pub record NetworkOvs : Type 0 where
  pub bridge : String
  pub vxlan_port : String

unfoldable pub ovs_port_name : State → Result String
unfolding annotation
ovs_port_name s = elim (annotation "konk-rank" "Konk rank is not set" s) [
  | err e ↦ err e
  | ok rank ↦ ok ("p" <> rank)
]

unfoldable pub ovs_port_addr : State → Result String
unfolding annotation
ovs_port_addr = annotation "konk-ip" "Konk ip is not set"

module _ {W : Type 0} (S : Vswitch W) where
  unfoldable pub configure_peers : NetworkOvs → Cmd W (Unit {0})
  configure_peers n = do call (S.add_port n.bridge n.vxlan_port); λ w. panics w

  unfoldable pub new_ovs : Viper → Cmd W NetworkOvs
  new_ovs V = do
    bridge_name ← get_string V Key.ovs_bridge_name
    or_exit (call (S.add_bridge bridge_name))
    let ovs : NetworkOvs = record { bridge = bridge_name; vxlan_port = "ovsvxlan0" }
    configure_peers ovs
    pure ovs

  unfoldable pub cleanup_port : NetworkOvs → String → W → W
  cleanup_port n port_name w = (S.delete_port n.bridge port_name w).1

  unfoldable pub destroy : NetworkOvs → W → W
  destroy n w = (S.delete_bridge n.bridge (cleanup_port n n.vxlan_port w)).1

  unfoldable pub prestart : State → Cmd W (Unit {0})
  prestart state w = panics w

  unfoldable pub poststop : State → Cmd W (Unit {0})
  poststop state w = panics w
