-- ===== src/Network/Driver.antt =====
-- network.go: the drivers behind one interface, with the methods of `baseNetwork` for what a driver
-- does not define.
use konk.Base.{ℤ, String, List, [], Bool, true, false, some, Result, ok, Fallible, ◌==◌, string_eq}
use konk.Base.Exec.{Cmd, panics, ◌>>=◌, pure}
use konk.Config.{Viper}
use konk.Container.Labels.{Labels}
use konk.Container.Types.{Rank}
use konk.Network.Netlink.{Netlink}
use konk.Network.Veth
use konk.Network.Ovs
use konk.Network.Rxe
use konk.Network.Rxe.Hooks as RxeHooks

-- What the drivers use besides netlink: the configuration, the host's name, Open vSwitch, files of the
-- kernel, `strconv` and `strings.TrimSpace`.
pub record Env (K : Netlink) : Type 1 where
  pub viper : Viper
  pub host : Veth.Host
  pub switch : Ovs.Vswitch K.World
  pub proc : RxeHooks.ProcFs K.World
  pub itoa : ℤ → String
  pub atoi : String → Result ℤ
  pub trim : String → String

module _ (K : Netlink) where
  pub data Driver : Type 0 where
    rxe : Rxe.NetworkRxe → Driver
    ovs : Ovs.NetworkOvs → Driver
    veth : Veth.NetworkVeth K → Driver

  pub record Network : Type 0 where
    pub driver : Driver
    pub network_type : String

  unfoldable pub add_labels : Network → Labels → Fallible × Labels
  add_labels n l = elim n.driver [
    | rxe r ↦ Rxe.add_labels r l
    | ovs o ↦ (ok tt, l)
    | veth v ↦ Veth.add_labels K v l
  ]

  module _ (E : Env K) where
    unfoldable pub declare_external : Network → Rank → List String × Bool
    declare_external n rank = elim n.driver [
      | rxe r ↦ ([], false)
      | ovs o ↦ ([], false)
      | veth v ↦ Veth.declare_external K E.itoa rank
    ]

    unfoldable pub post_restore : Network → Rank → Cmd K.World (Unit {0})
    post_restore n rank = elim n.driver [
      | rxe r ↦ pure tt
      | ovs o ↦ pure tt
      | veth v ↦ Veth.post_restore K E.itoa v rank
    ]

    unfoldable pub destroy : Network → K.World → K.World
    destroy n w = elim n.driver [
      | rxe r ↦ w
      | ovs o ↦ Ovs.destroy E.switch o w
      | veth v ↦ Veth.destroy K (some v.bridge) (some v.vxlan) w
    ]

    -- The switch on the type.
    unfoldable pub new_driver : String → Cmd K.World Driver
    new_driver network_type = elim (network_type == "rxe") [
      | true ↦ do n ← RxeHooks.new_rxe E.proc E.viper E.atoi E.trim; pure (rxe n)
      | false ↦ elim (network_type == "ovs") [
        | true ↦ do n ← Ovs.new_ovs E.switch E.viper; pure (ovs n)
        | false ↦ elim (network_type == "veth") [
          | true ↦ do n ← Veth.new_veth K E.viper E.host; pure (veth n)
          | false ↦ λ w. panics w
        ]
      ]
    ]

    unfoldable pub new : String → Cmd K.World Network
    new network_type = do
      driver ← new_driver network_type
      pure (record { driver = driver; network_type = network_type })
