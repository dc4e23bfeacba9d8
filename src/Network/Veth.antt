-- ===== src/Network/Veth.antt =====
-- veth.go: the driver that connects containers by pairs of virtual devices, a bridge on each node and
-- a tunnel between the nodes.
pub mod Laws
pub mod Pair
pub mod Hooks
use konk.Base.{
  ℕ, ℤ, ◌+◌, ◌%◌, ◌^◌, String, ◌<>◌, List, [], ◌∷◌, Option, none, some, Bool, true, Result, ok, err,
  wrap, Fallible,
}
use konk.Base.Exec.{Cmd, Exec, ◌>>=◌, ◌>>◌, pure, call, check, wrapped, or_exit, on_error}
use konk.Config.{Viper, get_string, get_int, get_ip}
use konk.Config.Key
use konk.Container.Labels.{Labels, string_value, add_label}
use konk.Container.Types.{Rank}
use konk.Container.Device.{get_dev_name}
use konk.Network.Netlink.{Netlink}

-- The last two bytes of the address, plus the last two of the digest of the hostname.
unfoldable pub bridge_hwaddr : ℕ × ℕ → List ℕ
bridge_hwaddr (last_but_one, last) =
    198 ∷ 86 ∷ 142 ∷ 163 ∷ ((170 + last_but_one) % 2 ^ 8) ∷ ((58 + last) % 2 ^ 8) ∷ []

-- `os.Hostname`, and the last two bytes of the SHA-512/256 digest of a text.
pub record Host : Type 0 where
  pub hostname : Result String
  pub sum : String → ℕ × ℕ

unfoldable pub get_bridge_hwaddr : Host → Result (List ℕ)
get_bridge_hwaddr h = elim h.hostname [
  | err e ↦ err e
  | ok hostname ↦ ok (bridge_hwaddr (h.sum hostname))
]

module _ (K : Netlink) where
  pub record NetworkVeth : Type 0 where
    pub bridge : K.Link
    pub vxlan : K.Link

  -- An error of the deletion is only logged.
  unfoldable pub destroy_link : K.Link → K.World → K.World
  destroy_link l w = (K.link_del l w).1

  unfoldable pub destroy_some : Option K.Link → K.World → K.World
  destroy_some none w = w
  destroy_some (some l) w = destroy_link l w

  -- `Destroy`, for a driver whose fields may be nil.
  unfoldable pub destroy : Option K.Link → Option K.Link → K.World → K.World
  destroy bridge vxlan w = destroy_some bridge (destroy_some vxlan w)

  module _ (V : Viper) (H : Host) where
    unfoldable pub create_vxlan : Cmd K.World K.Link
    create_vxlan = do
      parent_name ← get_string V Key.veth_vxlan_dev
      parent ← wrapped "No parent linke %v: %v" λ w. check (K.link_by_name parent_name w) w
      name ← get_string V Key.veth_vxlan_name
      port ← get_int V Key.veth_vxlan_port
      id ← get_int V Key.veth_vxlan_id
      group ← get_ip V Key.veth_vxlan_group
      let vxlan = K.vxlan name port id group (K.index parent)
      call (K.link_add vxlan)
      pure vxlan

    unfoldable pub create_bridge : Cmd K.World K.Link
    create_bridge = do
      name ← get_string V Key.veth_bridge_name
      hwaddr ← check (get_bridge_hwaddr H)
      let bridge = K.bridge name hwaddr
      call (K.link_add bridge)
      pure bridge

    -- Putting the tunnel behind the bridge, and both up.
    unfoldable pub connect : K.Link → K.Link → Cmd K.World (Unit {0})
    connect bridge vxlan = do
      wrapped "could not add vxlan to bridge: %v\n" (call (K.link_set_master vxlan bridge))
      wrapped "Failed to put vxlan up: %v" (call (K.link_set_up vxlan))
      wrapped "Failed to put bridge up: %v" (call (K.link_set_up bridge))

    -- The deferred `Destroy` runs when `err` is set, on the fields that are set by then.
    unfoldable pub new_veth : Cmd K.World NetworkVeth
    new_veth = do
      bridge ← on_error (destroy none none) (wrapped "could not add bridge: %v\n" create_bridge)
      vxlan ←
          on_error (destroy (some bridge) none) (wrapped "could not add vxlan: %v\n" create_vxlan)
      on_error (destroy (some bridge) (some vxlan)) (connect bridge vxlan)
      pure (record { bridge = bridge; vxlan = vxlan })

  unfoldable pub add_labels : NetworkVeth → Labels → Fallible × Labels
  add_labels n = add_label "bridge" (string_value (K.name n.bridge))

  module _ (itoa : ℤ → String) where
    unfoldable pub declare_external : Rank → List String × Bool
    declare_external rank = (("veth[veth" <> itoa rank <> "]:vpeer" <> itoa rank) ∷ [], true)

    -- The process ends when the bridge cannot take the device.
    unfoldable pub post_restore : NetworkVeth → Rank → Cmd K.World (Unit {0})
    post_restore n rank = do
      vpeer ←
          wrapped "Can't get a peer link %s: %v"
            λ w. check (K.link_by_name (get_dev_name itoa "vpeer" rank) w) w
      or_exit (call (K.link_set_master vpeer n.bridge))
      wrapped "Could not set interface %s up: %v" (call (K.link_set_up vpeer))
