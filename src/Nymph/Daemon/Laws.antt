-- ===== src/Nymph/Daemon/Laws.antt =====
-- srv/nymph/server.go: what starting and closing the daemon does with the networks of the node.
use mathlib.Core.List.{Perm, perm_middle, append_assoc}
use mathlib.Core.List.Perm
use konk.Base.{
  String, List, [], ◌∷◌, ◌++◌, Option, none, some, Error, ◌≡◌, refl, subst, sym, arith, inl, inr,
  Option-cases, ◌∙◌,
}
use konk.Base.Dict.{Dict}
use konk.Base.Exec.{Exec, returns, fails, exits, panics, Exec-cases}
use konk.Nymph.Daemon.{
  Node, Nymph, instantiate, destroy_networks, close_images, unregister_nymph, close, name_or_empty,
  destroy_containers,
}

module _ {W : Type 0} (N : Node W) where
  -- `live` lists the networks that exist on the node. Making one adds it, unless there is an error;
  -- destroying one takes it away; nothing else does either.
  pub record IsTracked (live : W → List N.Network) : Type 0 where
    pub new_ok :
        (t : String) (n : N.Network) (w w' : W)
        → N.new_network t w ≡ returns n w'
        → Perm (live w') (n ∷ live w)
    pub new_fails :
        (t : String) (e : Error) (w w' : W)
        → N.new_network t w ≡ fails e w'
        → Perm (live w') (live w)
    pub destroy_ok :
        (n : N.Network) (l : List N.Network) (w : W)
        → Perm (live w) (n ∷ l)
        → Perm (live (N.destroy_network n w)) l
    pub live-remove_all : (d : String) (w : W) → live (N.remove_all d w) ≡ live w
    pub live-mkdir_all : (d : String) (w : W) → live (N.mkdir_all d w).1 ≡ live w
    pub live-chdir : (d : String) (w : W) → live (N.chdir d w).1 ≡ live w
    pub live-new_register :
        (d : String) (r : N.Register) (w w' : W)
        → N.new_register d w ≡ some (r, w')
        → live w' ≡ live w
    pub live-destroy_register : (r : N.Register) (w : W) → live (N.destroy_register r w) ≡ live w
    pub live-close_image : (i : N.Image) (w : W) → live (N.close_image i w) ≡ live w
    pub live-new_client :
        (c : N.Client) (w w' : W) → N.new_client w ≡ returns c w' → live w' ≡ live w
    pub live-client_fails : (e : Error) (w w' : W) → N.new_client w ≡ fails e w' → live w' ≡ live w
    pub live-unregister_nymph :
        (c : N.Client) (h : String) (w : W) → live (N.unregister_nymph c h w).1 ≡ live w
    pub live-close_client : (c : N.Client) (w : W) → live (N.close_client c w) ≡ live w

  module _ (live : W → List N.Network) (L : IsTracked live) where
    -- Destroying the networks that were made leaves those of before.
    pub destroy_networks_lem :
        (made base : List N.Network) (w : W)
        → Perm (live w) (made ++ base)
        → Perm (live (destroy_networks N made w)) base
    unfolding destroy_networks
    destroy_networks_lem [] base w p = p
    destroy_networks_lem (n ∷ made) base w p =
        destroy_networks_lem made base (N.destroy_network n w) (L.destroy_ok n (made ++ base) w p)

    live-close_images :
        (images : Dict String N.Image) (w : W) → live (close_images N images w) ≡ live w
    unfolding close_images
    live-close_images [] w = refl
    live-close_images ((k, i) ∷ images) w =
        live-close_images images (N.close_image i w) ∙ L.live-close_image i w

    live-unregister_nymph : (n : Nymph N) (w : W) → live (unregister_nymph N n w) ≡ live w
    unfolding unregister_nymph
    live-unregister_nymph n w = elim (Option-cases n.client) [
      | inl e ↦ ground arith
      | inr (c, e) ↦ ground (
        arith,
        L.live-unregister_nymph c (name_or_empty N (N.hostname w)) w,
        L.live-close_client c (N.unregister_nymph c (name_or_empty N (N.hostname w)) w).1,
      )
    ]

    live-destroy_containers :
        (r : Option N.Register) (w : W) → live (destroy_containers N r w) ≡ live w
    live-destroy_containers none w = refl
    live-destroy_containers (some r) w = L.live-destroy_register r w

    -- Closing a daemon destroys its networks, and no other.
    pub close_lem :
        (n : Nymph N) (base : List N.Network) (w : W)
        → Perm (live w) (n.networks ++ base)
        → Perm (live (close N n w)) base
    unfolding close
    close_lem n base w p =
        let w₁ = destroy_containers N n.containers w in
        let w₂ = close_images N n.images w₁ in
        let w₃ = unregister_nymph N n w₂ in
        let w₄ = N.remove_all n.root_dir w₃ in
        let same : live w₄ ≡ live w =
          L.live-remove_all n.root_dir w₃
          ∙ live-unregister_nymph n w₂
          ∙ live-close_images n.images w₁
          ∙ live-destroy_containers n.containers w in
        destroy_networks_lem n.networks base w₄
          (subst (λ l. Perm l (n.networks ++ base)) (sym same) p)

    -- The networks of a loop that has ended, and those of before.
    abbrev pub Holds : List N.Network → List N.Network × Exec W (Unit {0}) → Type 0
    Holds base (nets, returns _ w) = Perm (live w) (nets ++ base)
    Holds base (nets, fails e w) = Perm (live w) (nets ++ base)
    Holds base (nets, exits w) = Unit
    Holds base (nets, panics w) = Unit

    pub instantiate-Holds :
        (types : List String) (nets base : List N.Network) (w : W)
        → Perm (live w) (nets ++ base)
        → Holds base (instantiate N types nets w)
    unfolding instantiate
    instantiate-Holds [] nets base w p = p
    instantiate-Holds (t ∷ types) nets base w p = elim (Exec-cases (N.new_network t w)) [
      | inl (n, v, e) ↦
          let grown : Perm (live v) ((nets ++ n ∷ []) ++ base) =
            subst (Perm (live v)) (sym (append_assoc nets (n ∷ []) base)) (
              Perm.trans (L.new_ok t n w v e)
                (Perm.trans (Perm.cons n p) (Perm.symm (perm_middle nets base)))) in
          rw (e, instantiate) (instantiate-Holds types (nets ++ n ∷ []) base v grown)
      | inr (inl (x, v, e)) ↦ rw (e, instantiate) (Perm.trans (L.new_fails t x w v e) p)
      | inr (inr (inl (v, e))) ↦ rw (e, instantiate) tt
      | inr (inr (inr (v, e))) ↦ rw (e, instantiate) tt
    ]
