-- ===== src/Network/Netlink.antt =====
-- The calls of github.com/vishvananda/netlink and netns that the drivers make, as a parameter.
use konk.Base.{
  ℕ, String, List, Bool, true, false, ◌&&◌, ◌||◌, not, ◌==◌, string_eq, ◌≡◌, Result, ok, err, Error,
  Fallible, ℤ,
}

pub record Netlink : Type 1 where
  pub World : Type 0
  pub Link : Type 0
  pub Namespace : Type 0
  pub Handle : Type 0
  pub Addr : Type 0
  -- The values that describe devices to be made: of a pair with its hardware address and the name of
  -- its peer; of a bridge; of a tunnel with its port, its identifier, its group and the index of the
  -- device below.
  pub veth : String → List ℕ → String → Link
  pub bridge : String → List ℕ → Link
  pub vxlan : String → ℤ → ℤ → List ℕ → ℤ → Link
  pub name : Link → String
  pub index : Link → ℤ
  -- Whether a link is a `*netlink.Bridge`.
  pub is_bridge : Link → Bool
  pub parse_addr : String → Result Addr
  pub link_by_name : String → World → Result Link
  pub link_add : Link → World → Fallible × World
  pub link_del : Link → World → Fallible × World
  pub link_set_master : Link → Link → World → Fallible × World
  pub link_set_up : Link → World → Fallible × World
  pub link_set_ns_pid : Link → ℕ → World → Fallible × World
  -- `netns.GetFromPid` and `netlink.NewHandleAt`, with what gives their results back.
  pub get_from_pid : ℕ → World → Result Namespace × World
  pub close : Namespace → World → World
  pub new_handle_at : Namespace → World → Result Handle × World
  pub delete : Handle → World → World
  pub addr_add : Handle → Link → Addr → World → Fallible × World
  pub set_up_at : Handle → Link → World → Fallible × World
  -- Whether the host's namespace has a device of a name.
  pub present : World → String → Bool

-- What the documentation of netlink says of the devices of the host's namespace. A device is found by
-- its name; a bridge or a tunnel is added under its own name, if that is free; deleting a device that
-- exists succeeds for a privileged caller, and takes no more than that device away, or for a device
-- of a pair, its peer too; the other calls, and those that fail, leave the names as they are.
pub record IsLawful (K : Netlink) : Type 0 where
  pub name-bridge : (n : String) (h : List ℕ) → K.name (K.bridge n h) ≡ n
  pub name-vxlan : (n : String) (p id : ℤ) (g : List ℕ) (i : ℤ) → K.name (K.vxlan n p id g i) ≡ n
  pub found :
      (n : String) (w : K.World)
      → K.present w n ≡ true
      → (l : K.Link) × (K.link_by_name n w ≡ ok l) × (K.name l ≡ n)
  pub missing :
      (n : String) (w : K.World)
      → K.present w n ≡ false
      → (e : Error) × (K.link_by_name n w ≡ err e)
  pub add_bridge :
      (n : String) (h : List ℕ) (w : K.World)
      → (K.link_add (K.bridge n h) w).0 ≡ ok tt
      → (K.present w n ≡ false)
        × ((m : String) → K.present (K.link_add (K.bridge n h) w).1 m ≡ (m == n || K.present w m))
  pub add_vxlan :
      (n : String) (p id : ℤ) (g : List ℕ) (i : ℤ) (w : K.World)
      → (K.link_add (K.vxlan n p id g i) w).0 ≡ ok tt
      → (K.present w n ≡ false)
        × ((m : String)
            → K.present (K.link_add (K.vxlan n p id g i) w).1 m ≡ (m == n || K.present w m))
  pub add_fails :
      (l : K.Link) (e : Error) (w : K.World) (m : String)
      → (K.link_add l w).0 ≡ err e
      → K.present (K.link_add l w).1 m ≡ K.present w m
  pub del_bridge :
      (n : String) (h : List ℕ) (w : K.World) (m : String)
      → K.present w n ≡ true
      → K.present (K.link_del (K.bridge n h) w).1 m ≡ (not (m == n) && K.present w m)
  pub del_vxlan :
      (n : String) (p id : ℤ) (g : List ℕ) (i : ℤ) (w : K.World) (m : String)
      → K.present w n ≡ true
      → K.present (K.link_del (K.vxlan n p id g i) w).1 m ≡ (not (m == n) && K.present w m)
  pub del_gone :
      (l : K.Link) (w : K.World)
      → K.present w (K.name l) ≡ true
      → K.present (K.link_del l w).1 (K.name l) ≡ false
  pub del_only :
      (l : K.Link) (w : K.World) (m : String)
      → K.present w m ≡ false
      → K.present (K.link_del l w).1 m ≡ false
  pub present-set_master :
      (l k : K.Link) (w : K.World) (m : String)
      → K.present (K.link_set_master l k w).1 m ≡ K.present w m
  pub present-set_up :
      (l : K.Link) (w : K.World) (m : String) → K.present (K.link_set_up l w).1 m ≡ K.present w m
