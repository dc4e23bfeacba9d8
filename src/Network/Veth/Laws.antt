-- ===== src/Network/Veth/Laws.antt =====
-- veth.go: what making the driver leaves on the node.
use konk.Base.{
  ℕ, ℤ, String, List, true, false, ◌&&◌, ◌||◌, not, ◌==◌, string_eq, ◌≡◌, refl, ◌∙◌, sym, subst, ap,
  ok, Error, Result-cases, wrap, ◌⊎◌, inl, inr, arith, eq_self,
}
use konk.Base.Exec.{Exec, returns, fails}
use konk.Config.{Viper, get_string, get_int, get_ip}
use konk.Config.Key
use konk.Network.Netlink.{Netlink, IsLawful}
use konk.Network.Veth.{
  NetworkVeth, Host, get_bridge_hwaddr, create_bridge, create_vxlan, connect, new_veth, destroy,
  destroy_some, destroy_link,
}

-- The keys that the driver needs are set, and the group is an address.
pub record Configured (V : Viper) : Type 0 where
  pub bridge : V.is_set Key.veth_bridge_name ≡ true
  pub dev : V.is_set Key.veth_vxlan_dev ≡ true
  pub vxlan : V.is_set Key.veth_vxlan_name ≡ true
  pub port : V.is_set Key.veth_vxlan_port ≡ true
  pub id : V.is_set Key.veth_vxlan_id ≡ true
  pub group : V.is_set Key.veth_vxlan_group ≡ true
  pub bytes : List ℕ
  pub parses : V.parse_ip (V.string_at Key.veth_vxlan_group) ≡ ok bytes

module _ (K : Netlink) where
  -- The same devices are there.
  abbrev pub Same : K.World → K.World → Type 0
  Same w w' = (m : String) → K.present w' m ≡ K.present w m

  -- A device that was added and then deleted leaves no trace.
  removed :
      (n : String) (w v u : K.World)
      → K.present w n ≡ false
      → ((m : String) → K.present v m ≡ (m == n || K.present w m))
      → ((m : String) → K.present u m ≡ (not (m == n) && K.present v m))
      → Same w u
  removed n w v u free added gone m = ground (arith, added m, gone m, free)

  -- The device that was added is there.
  added_present :
      (n : String) (w v : K.World)
      → ((m : String) → K.present v m ≡ (m == n || K.present w m))
      → K.present v n ≡ true
  added_present n w v added = added n ∙ rw (eq_self {A = String} n) refl

  module _ (L : IsLawful K) (V : Viper) (H : Host) (c : Configured V) where
    create_bridge-cases :
        (w : K.World)
        → let n = V.string_at Key.veth_bridge_name in
          ((h : List ℕ) × ((K.link_add (K.bridge n h) w).0 ≡ ok tt)
            × (create_bridge K V H w ≡ returns (K.bridge n h) (K.link_add (K.bridge n h) w).1))
          ⊎ ((e : Error) × (w' : K.World) × (create_bridge K V H w ≡ fails e w') × Same w w')
    unfolding create_bridge get_string
    create_bridge-cases w = elim (Result-cases (get_bridge_hwaddr H)) [
      | inr (e, f) ↦ inr (e, w, ground arith, λ m. refl)
      | inl (h, f) ↦
          let n = V.string_at Key.veth_bridge_name in
          elim (Result-cases (K.link_add (K.bridge n h) w).0) [
            | inl (_, g) ↦ inl (h, g, ground arith)
            | inr (e, g) ↦ inr (
              e,
              (K.link_add (K.bridge n h) w).1,
              ground arith,
              λ m. L.add_fails (K.bridge n h) e w m g,
            )
          ]
    ]

    create_vxlan-cases :
        (w : K.World)
        → let n = V.string_at Key.veth_vxlan_name in
          let port = V.int_at Key.veth_vxlan_port in
          let id = V.int_at Key.veth_vxlan_id in
          ((i : ℤ) × ((K.link_add (K.vxlan n port id c.bytes i) w).0 ≡ ok tt)
            × (create_vxlan K V H w
                ≡ returns
                    (K.vxlan n port id c.bytes i)
                    (K.link_add (K.vxlan n port id c.bytes i) w).1))
          ⊎ ((e : Error) × (w' : K.World) × (create_vxlan K V H w ≡ fails e w') × Same w w')
    unfolding create_vxlan get_string get_int get_ip
    create_vxlan-cases w = elim (Result-cases (K.link_by_name (V.string_at Key.veth_vxlan_dev) w)) [
      | inr (e, f) ↦ inr (wrap "No parent linke %v: %v" e, w, ground arith, λ m. refl)
      | inl (parent, f) ↦
          let n = V.string_at Key.veth_vxlan_name in
          let port = V.int_at Key.veth_vxlan_port in
          let id = V.int_at Key.veth_vxlan_id in
          let l = K.vxlan n port id c.bytes (K.index parent) in
          elim (Result-cases (K.link_add l w).0) [
            | inl (_, g) ↦ inl (K.index parent, g, ground arith)
            | inr (e, g) ↦ inr (e, (K.link_add l w).1, ground arith, λ m. L.add_fails l e w m g)
          ]
    ]

    connect-cases :
        (b v : K.Link) (w : K.World)
        → ((w' : K.World) × (connect K V H b v w ≡ returns tt w') × Same w w')
          ⊎ ((e : Error) × (w' : K.World) × (connect K V H b v w ≡ fails e w') × Same w w')
    unfolding connect
    connect-cases b v w =
        let w₁ = (K.link_set_master v b w).1 in
        let w₂ = (K.link_set_up v w₁).1 in
        let w₃ = (K.link_set_up b w₂).1 in
        let same₁ : Same w w₁ = L.present-set_master v b w in
        let same₂ : Same w w₂ = λ m. L.present-set_up v w₁ m ∙ same₁ m in
        let same₃ : Same w w₃ = λ m. L.present-set_up b w₂ m ∙ same₂ m in
        elim (Result-cases (K.link_set_master v b w).0) [
          | inr (e, f) ↦ inr (wrap "could not add vxlan to bridge: %v\n" e, w₁, ground arith, same₁)
          | inl (_, f) ↦ elim (Result-cases (K.link_set_up v w₁).0) [
            | inr (e, g) ↦ inr (wrap "Failed to put vxlan up: %v" e, w₂, ground arith, same₂)
            | inl (_, g) ↦ elim (Result-cases (K.link_set_up b w₂).0) [
              | inr (e, h) ↦ inr (wrap "Failed to put bridge up: %v" e, w₃, ground arith, same₃)
              | inl (_, h) ↦ inl (w₃, ground arith, same₃)
            ]
          ]
        ]

    -- What may be left: the two devices and no other, or an error and nothing new.
    pub data Settled (w : K.World) : Exec K.World (NetworkVeth K) → Type 0 where
      made :
          (n : NetworkVeth K) (w' : K.World)
          → K.name n.bridge ≡ V.string_at Key.veth_bridge_name
          → K.name n.vxlan ≡ V.string_at Key.veth_vxlan_name
          → ((m : String)
              → K.present w' m ≡ (
                  m == V.string_at Key.veth_vxlan_name
                  || (m == V.string_at Key.veth_bridge_name || K.present w m)))
          → Settled w (returns n w')
      failed : (e : Error) (w' : K.World) → Same w w' → Settled w (fails e w')

    -- On a node with a lawful netlink and the driver's configuration, making the driver either gives a
    -- driver whose bridge and tunnel have the configured names, and adds these two devices and no
    -- other to the node; or it returns an error, and the devices of the node are those of before.
    pub new_veth_lem : (w : K.World) → Settled w (new_veth K V H w)
    unfolding new_veth destroy destroy_some destroy_link
    new_veth_lem w = elim (create_bridge-cases w) [
      | inr (e, w', f, same) ↦
          subst (Settled w) (sym (ground arith))
            (failed (wrap "could not add bridge: %v\n" e) w' same)
      | inl (h, g, f) ↦
          let bn = V.string_at Key.veth_bridge_name in
          let b = K.bridge bn h in
          let w₁ = (K.link_add b w).1 in
          let (free, with_bridge) = L.add_bridge bn h w g in
          let there = added_present bn w w₁ with_bridge in
          elim (create_vxlan-cases w₁) [
            | inr (e, w₂, k, same) ↦ subst (Settled w) (sym (ground arith)) (
                failed (wrap "could not add vxlan: %v\n" e) (K.link_del b w₂).1 (
                  removed bn w w₁ (K.link_del b w₂).1 free with_bridge λ m.
                    L.del_bridge bn h w₂ m (same bn ∙ there)
                    ∙ ap (λ x. not (m == bn) && x) (same m)))
            | inl (i, k, q) ↦
                let vn = V.string_at Key.veth_vxlan_name in
                let port = V.int_at Key.veth_vxlan_port in
                let id = V.int_at Key.veth_vxlan_id in
                let v = K.vxlan vn port id c.bytes i in
                let w₂ = (K.link_add v w₁).1 in
                let (free', with_vxlan) = L.add_vxlan vn port id c.bytes i w₁ k in
                elim (connect-cases b v w₂) [
                  | inl (w₃, t, same) ↦ subst (Settled w) (sym (ground arith)) (
                      made (record { bridge = b; vxlan = v }) w₃ (L.name-bridge bn h)
                        (L.name-vxlan vn port id c.bytes i)
                        λ m. same m ∙ with_vxlan m ∙ ap (λ x. m == vn || x) (with_bridge m))
                  | inr (e, w₃, t, same) ↦ subst (Settled w) (sym (ground arith)) (
                      failed e (K.link_del b (K.link_del v w₃).1).1 (
                        let w₄ = (K.link_del v w₃).1 in
                        let at : K.present w₃ vn ≡ true =
                          same vn ∙ added_present vn w₁ w₂ with_vxlan in
                        let back : Same w₁ w₄ = removed vn w₁ w₂ w₄ free' with_vxlan λ m.
                          L.del_vxlan vn port id c.bytes i w₃ m at
                          ∙ ap (λ x. not (m == vn) && x) (same m) in
                        removed bn w w₁ (K.link_del b w₄).1 free with_bridge λ m.
                          L.del_bridge bn h w₄ m (back bn ∙ there)
                          ∙ ap (λ x. not (m == bn) && x) (back m)))
                ]
          ]
    ]
