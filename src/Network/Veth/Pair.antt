-- ===== src/Network/Veth/Pair.antt =====
-- veth.go: the pair of devices of a container.
use konk.Base.{
  ℤ, String, true, false, Option, none, some, ok, err, errorf, Error, ◌≡◌, ◌⊎◌, inl, inr, arith,
  Bool-cases, sym, subst,
}
use konk.Base.Exec.{Exec, Cmd, returns, fails, ◌>>=◌, ◌>>◌, pure, call, check, wrapped}
use konk.Container.Types.{Rank}
use konk.Container.Device.{get_dev_name, create_new_hardware_addr}
use konk.Network.Netlink.{Netlink, IsLawful}

module _ (K : Netlink) where
  pub record VethPair : Type 0 where
    pub veth : K.Link
    pub vpeer : K.Link

  -- Deleting a device by its name: the error of looking it up, if there is one. The error of the
  -- deletion is only logged.
  unfoldable pub delete_named : String → K.World → Option Error × K.World
  delete_named name w = elim (K.link_by_name name w) [
    | ok l ↦ (none, (K.link_del l w).1)
    | err e ↦ (some e, w)
  ]

  unfoldable pub close : VethPair → K.World → K.World
  close v w = (K.link_del v.vpeer (K.link_del v.veth w).1).1

  module _ (itoa : ℤ → String) where
    unfoldable pub new_veth_pair : Rank → Cmd K.World VethPair
    new_veth_pair rank = do
      let veth_name = get_dev_name itoa "veth" rank
      let vpeer_name = get_dev_name itoa "vpeer" rank
      let template = K.veth veth_name (create_new_hardware_addr rank) vpeer_name
      wrapped "Failed to create veth pair: %v" (call (K.link_add template))
      veth ← wrapped "Can' get a veth link %s: %v" λ w. check (K.link_by_name veth_name w) w
      vpeer ← wrapped "Can't get a peer link %s: %v" λ w. check (K.link_by_name vpeer_name w) w
      pure (record { veth = veth; vpeer = vpeer })

    unfoldable pub delete_veth_pair : Rank → Cmd K.World (Unit {0})
    delete_veth_pair rank w =
        let (peer_err, w₁) = delete_named (get_dev_name itoa "vpeer" rank) w in
        let (eth_err, w₂) = delete_named (get_dev_name itoa "veth" rank) w₁ in
        elim peer_err [
          | none ↦ returns tt w₂
          | some e ↦ elim eth_err [
            | none ↦ returns tt w₂
            | some f ↦ fails (errorf "Failed to delete pair: vpeer: %v veth: %v") w₂
          ]
        ]

  module _ (L : IsLawful K) where
    -- What a deletion by name does.
    delete_named_lem :
        (name : String) (w : K.World)
        → let (e, w') = delete_named name w in
          (K.present w' name ≡ false)
          × (((e ≡ none) × (K.present w name ≡ true))
              ⊎ ((x : Error) × (e ≡ some x) × (K.present w name ≡ false) × (w' ≡ w)))
    unfolding delete_named
    delete_named_lem name w = elim (Bool-cases (K.present w name)) [
      | inl p ↦ let (l, f, named) = L.found name w p in ground (arith, L.del_gone l w)
      | inr p ↦ let (x, f) = L.missing name w p in ground arith
    ]

    delete_named-only :
        (name m : String) (w : K.World)
        → K.present w m ≡ false
        → K.present (delete_named name w).1 m ≡ false
    unfolding delete_named
    delete_named-only name m w h = elim (Bool-cases (K.present w name)) [
      | inl p ↦ let (l, f, named) = L.found name w p in ground (arith, L.del_only l w m h)
      | inr p ↦ let (x, f) = L.missing name w p in ground arith
    ]

    module _ (itoa : ℤ → String) (rank : Rank) where
      abbrev vpeer : String
      vpeer = get_dev_name itoa "vpeer" rank

      abbrev veth : String
      veth = get_dev_name itoa "veth" rank

      -- What deleting a pair may leave: no end of it, or an error where there was none.
      pub data PairGone (w : K.World) : Exec K.World (Unit {0}) → Type 0 where
        gone :
            (w' : K.World)
            → (K.present w vpeer ≡ true) ⊎ (K.present w veth ≡ true)
            → K.present w' vpeer ≡ false
            → K.present w' veth ≡ false
            → PairGone w (returns tt w')
        nothing :
            (e : Error)
            → K.present w vpeer ≡ false
            → K.present w veth ≡ false
            → PairGone w (fails e w)

      -- Deleting the pair of a rank leaves neither end in the host's namespace; it returns an error
      -- if neither was there, and changes nothing then, and returns none otherwise.
      pub delete_veth_pair_lem : (w : K.World) → PairGone w (delete_veth_pair itoa rank w)
      unfolding delete_veth_pair
      delete_veth_pair_lem w =
          let w₁ = (delete_named vpeer w).1 in
          let (gone₁, first) = delete_named_lem vpeer w in
          let (gone₂, second) = delete_named_lem veth w₁ in
          let w₂ = (delete_named veth w₁).1 in
          let still = delete_named-only veth vpeer w₁ gone₁ in
          elim first [
            | inl (e, there) ↦
                subst (PairGone w) (sym (ground arith)) (gone w₂ (inl there) still gone₂)
            | inr (x, e, missing, same) ↦ elim second [
              | inl (f, there) ↦
                  subst (PairGone w) (sym (ground arith))
                    (gone w₂ (inr (subst (λ u. K.present u veth ≡ true) same there)) still gone₂)
              | inr (y, f, missing', same') ↦ subst (PairGone w) (sym (ground arith)) (
                  nothing (errorf "Failed to delete pair: vpeer: %v veth: %v") missing
                    (subst (λ u. K.present u veth ≡ false) same missing'))
            ]
          ]
