-- ===== src/Tests/Links.antt =====
-- A host in memory whose state is the list of the names of its devices.
use konk.Base.{
  pos, String, List, [], ◌∷◌, Bool, true, false, ◌||◌, ◌&&◌, not, Result, ok, err, errorf, Fallible,
  ◌==◌, string_eq, ◌≡◌, refl, if◌then◌else◌, arith, eq_self,
}
use konk.Network.Netlink.{Netlink, IsLawful}

abbrev pub has : List String → String → Bool
has [] n = false
has (d ∷ ds) n = (n == d) || has ds n

abbrev pub without : String → List String → List String
without n [] = []
without n (d ∷ ds) = let rest = without n ds in if d == n then rest else d ∷ rest

has-without : (n m : String) (ds : List String) → has (without n ds) m ≡ (not (m == n) && has ds m)
has-without n m [] = ground arith
has-without n m (d ∷ ds) = ground (arith, has-without n m ds)

-- A device with the name of its peer, if it has one.
pub data Device : Type 0 where
  single : String → Device
  pair : String → String → Device

abbrev name_of : Device → String
name_of (single n) = n
name_of (pair n p) = n

abbrev added : Device → List String → List String
added (single n) w = n ∷ w
added (pair n p) w = n ∷ p ∷ w

abbrev exists : Fallible
exists = err (errorf "file exists")

abbrev unknown : {A : Type 0} → Result A
unknown = err (errorf "Link not found")

abbrev pub memory_netlink : Netlink
memory_netlink = record {
  World = List String;
  Link = Device;
  Namespace = Unit;
  Handle = Unit;
  Addr = String;
  veth = λ n h p. pair n p;
  bridge = λ n h. single n;
  vxlan = λ n p id g i. single n;
  name = name_of;
  index = λ l. pos 1;
  is_bridge = λ l. true;
  parse_addr = λ s. ok s;
  link_by_name = λ n w. if has w n then ok (single n) else unknown;
  link_add = λ l w. if has w (name_of l) then (exists, w) else (ok tt, added l w);
  link_del = λ l w. (ok tt, without (name_of l) w);
  link_set_master = λ l k w. (ok tt, w);
  link_set_up = λ l w. (ok tt, w);
  link_set_ns_pid = λ l p w. (ok tt, without (name_of l) w);
  get_from_pid = λ p w. (ok tt, w);
  close = λ ns w. w;
  new_handle_at = λ ns w. (ok tt, w);
  delete = λ h w. w;
  addr_add = λ h l a w. (ok tt, w);
  set_up_at = λ h l w. (ok tt, w);
  present = has;
}

pub memory_netlink-IsLawful : IsLawful memory_netlink
memory_netlink-IsLawful = record {
  name-bridge = λ n h. refl;
  name-vxlan = λ n p id g i. refl;
  found = λ n w e. (single n, ground arith, refl);
  missing = λ n w e. (errorf "Link not found", ground arith);
  add_bridge = λ n h w e. ground arith;
  add_vxlan = λ n p id g i w e. ground arith;
  add_fails = λ l e w m f. ground arith;
  del_bridge = λ n h w m e. has-without n m w;
  del_vxlan = λ n p id g i w m e. has-without n m w;
  del_gone = λ l w e.
      ground (arith, has-without (name_of l) (name_of l) w, eq_self {A = String} (name_of l));
  del_only = λ l w m e. ground (arith, has-without (name_of l) m w);
  present-set_master = λ l k w m. refl;
  present-set_up = λ l w m. refl;
}
