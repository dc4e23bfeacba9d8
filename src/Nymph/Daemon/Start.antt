-- ===== src/Nymph/Daemon/Start.antt =====
-- srv/nymph/server.go: what starting the daemon leaves of the networks of the node.
use mathlib.Core.List.{Perm}
use mathlib.Core.List.Perm
use konk.Base.{
  String, List, [], ◌++◌, some, true, false, Fallible, ◌≡◌, refl, subst, sym, arith, inl, inr,
  Bool-cases, Option-cases,
}
use konk.Base.Exec.{
  Cmd, Exec, returns, fails, exits, panics, ◌>>=◌, pure, call, check, wrapped, on_error, Exec-cases,
}
use konk.Base.Exec.Ensures.{
  Ensures, Ensures-bind, Ensures-wrapped, Ensures-on_error, Ensures-call, Ensures-check,
}
use konk.Config.Key
use konk.Config.{Viper, get_string, get_string_slice}
use konk.Nymph.Daemon.{
  Node, Nymph, create_root_dir, instantiate, close, settled, instantiate_networks, connect,
  new_nymph, blank, build, start_in, new_containers,
}
use konk.Nymph.Daemon.Laws.{IsTracked, close_lem, Holds, instantiate-Holds}

abbrev mkdir_failed : String
mkdir_failed = "Failed to create temporary directory %v: %v"

abbrev dial_failed : String
dial_failed = "Failed to connect to the coordinator: %v"

abbrev name_failed : String
name_failed = "Failed to get hostname: %v"

abbrev chdir_failed : String
chdir_failed = "Failed to change to temporary directory: %v"

module _ {W : Type 0} (N : Node W) where
  module _ (live : W → List N.Network) (L : IsTracked N live) where
    module _ (V : Viper) (base : List N.Network) where
      -- Only the networks of before.
      abbrev pub Base : W → Type 0
      Base w = Perm (live w) base

      -- The networks of the daemon, and those of before.
      abbrev pub Own : Nymph N → W → Type 0
      Own n w = Perm (live w) (n.networks ++ base)

      -- A call that makes and destroys no network.
      call-Base :
          (op : W → Fallible × W)
          → ((w : W) → live (op w).1 ≡ live w)
          → (f : String) (w : W) → Base w
          → Ensures (λ _ v. Base v) Base (wrapped f (call op) w)
      call-Base op same f w p =
          let kept : Base (op w).1 = subst (λ l. Perm l base) (sym (same w)) p in
          Ensures-wrapped (λ _ v. Base v) Base f (call op) w
            (Ensures-call (λ _ v. Base v) Base op w (λ _ _. kept) kept)

      create_root_dir-Base :
          (d : String) (w : W) → Base w → Ensures (λ _ v. Base v) Base (create_root_dir N d w)
      unfolding create_root_dir
      create_root_dir-Base d w p =
          let w₁ : W = elim (N.is_missing d w) [ true ↦ w | false ↦ N.remove_all d w ] in
          let purged : live w₁ ≡ live w = elim (Bool-cases (N.is_missing d w)) [
            | inl e ↦ ground arith
            | inr e ↦ ground (arith, L.live-remove_all d w)
          ] in
          Ensures-bind (λ _ v. Base v) Base (λ _ v. Base v)
            (wrapped mkdir_failed (call (N.mkdir_all d)))
            (λ _. wrapped chdir_failed (call (N.chdir d))) w₁
            (call-Base (N.mkdir_all d) (L.live-mkdir_all d) mkdir_failed w₁
              (subst (λ l. Perm l base) (sym purged) p))
            λ _ v q. call-Base (N.chdir d) (L.live-chdir d) chdir_failed v q

      settled-Own :
          (n : Nymph N) (made : List N.Network × Exec W (Unit {0}))
          → Holds N live L base made
          → Ensures Own Base (settled N n made)
      settled-Own n (nets, returns _ w) h = h
      settled-Own n (nets, fails e w) h = close_lem N live L (record n { networks = nets }) base w h
      settled-Own n (nets, exits w) h = tt
      settled-Own n (nets, panics w) h = tt

      instantiate_networks-Own :
          (n : Nymph N) (w : W) → Base w → Ensures Own Base (instantiate_networks N V n w)
      unfolding instantiate_networks get_string_slice
      instantiate_networks-Own n w p = elim (Bool-cases (V.is_set Key.nymph_networks)) [
        | inl e ↦
            rw (e, ◌>>=◌)
              (settled-Own n (instantiate N (V.strings_at Key.nymph_networks) [] w)
                (instantiate-Holds N live L (V.strings_at Key.nymph_networks) [] base w p))
        | inr e ↦ rw (e, ◌>>=◌) tt
      ]

      -- A daemon that is ready: it has a client, and its networks and those of before are all there is.
      abbrev pub Ready : Nymph N → W → Type 0
      Ready n w = (c : N.Client) × (n.client ≡ some c) × Own n w

      new_client-Ready :
          (n : Nymph N) (r : N.Register) (w : W)
          → Own n w
          → let n' : Nymph N = record n { containers = some r } in
            Ensures
              (λ _ v. Own n' v)
              Base
              (on_error (close N n') (wrapped dial_failed N.new_client) w)
      new_client-Ready n r w p =
          let n' : Nymph N = record n { containers = some r } in
          let first : Ensures (λ _ v. Own n' v) (Own n') (N.new_client w) =
            elim (Exec-cases (N.new_client w)) [
              | inl (c, v, e) ↦
                  rw e
                    (subst (λ l. Perm l (n.networks ++ base)) (sym (L.live-new_client c w v e)) p)
              | inr (inl (x, v, e)) ↦
                  rw e
                    (subst (λ l. Perm l (n.networks ++ base)) (sym (L.live-client_fails x w v e)) p)
              | inr (inr (inl (v, e))) ↦ rw e tt
              | inr (inr (inr (v, e))) ↦ rw e tt
            ] in
          Ensures-on_error (λ _ v. Own n' v) Base (Own n') (close N n')
            (wrapped dial_failed N.new_client) w
            (Ensures-wrapped (λ _ v. Own n' v) (Own n') dial_failed N.new_client w first)
            λ v q. close_lem N live L n' base v q

      new_containers-Own :
          (n : Nymph N) (w : W)
          → Own n w
          → Ensures
              (λ r v. Own (record n { containers = some r }) v)
              Base
              (new_containers N n.root_dir w)
      unfolding new_containers
      new_containers-Own n w p = elim (Option-cases (N.new_register n.root_dir w)) [
        | inl e ↦ rw (e, Ensures) tt
        | inr ((r, v), e) ↦
            rw (e, Ensures)
              (subst (λ l. Perm l (n.networks ++ base))
                (sym (L.live-new_register n.root_dir r w v e)) p)
      ]

      connect-Ready : (n : Nymph N) (w : W) → Own n w → Ensures Ready Base (connect N V n w)
      unfolding connect
      connect-Ready n w p =
          let with_register : N.Register → Nymph N = λ r. record n { containers = some r } in
          let dialled : N.Register → Cmd W N.Client =
            λ r. on_error (close N (with_register r)) (wrapped dial_failed N.new_client) in
          let finish : N.Register → N.Client → Cmd W (Nymph N) =
            λ r c. pure (record (with_register r) { client = some c }) in
          Ensures-bind (λ r v. Own (with_register r) v) Base Ready (new_containers N n.root_dir)
            (λ r. dialled r >>= finish r) w (new_containers-Own n w p)
            λ r v q.
              Ensures-bind (λ _ u. Own (with_register r) u) Base Ready (dialled r) (finish r) v
                (new_client-Ready n r v q) (λ c u own. (c, refl, own))

      build-Ready : (d h : String) (w : W) → Base w → Ensures Ready Base (build N V d h w)
      unfolding build
      build-Ready d h w p =
          let named : Nymph N = record (blank N V d) { hostname = h } in
          Ensures-bind Own Base Ready (instantiate_networks N V named) (connect N V) w
            (instantiate_networks-Own named w p) connect-Ready

      start_in-Ready : (d : String) (w : W) → Base w → Ensures Ready Base (start_in N V d w)
      unfolding start_in
      start_in-Ready d w p =
          let bad = close N (blank N V d) in
          let cleaned : (v : W) → Base v → Base (bad v) =
            λ v q. close_lem N live L (blank N V d) base v q in
          let ask : Cmd W String = λ v. check (N.hostname v) v in
          Ensures-bind (λ _ v. Base v) Base Ready (on_error bad (create_root_dir N d))
            (λ _. on_error bad (wrapped name_failed ask) >>= build N V d) w
            (Ensures-on_error (λ _ v. Base v) Base Base bad (create_root_dir N d) w
              (create_root_dir-Base d w p) cleaned)
            λ _ v q.
              Ensures-bind (λ _ u. Base u) Base Ready (on_error bad (wrapped name_failed ask))
                (build N V d) v
                (Ensures-on_error (λ _ u. Base u) Base Base bad (wrapped name_failed ask) v
                  (Ensures-wrapped (λ _ u. Base u) Base name_failed ask v
                    (Ensures-check (λ _ u. Base u) Base (N.hostname v) v (λ _. q) q))
                  cleaned)
                λ h u r. build-Ready d h u r

    pub new_nymph_lem :
        (V : Viper) (w : W) → Ensures (Ready V (live w)) (Base V (live w)) (new_nymph N V w)
    unfolding new_nymph get_string
    new_nymph_lem V w = elim (Bool-cases (V.is_set Key.nymph_root_dir)) [
      | inr e ↦ rw (e, Ensures) tt
      | inl e ↦
          rw (e, Ensures) (start_in-Ready V (live w) (V.string_at Key.nymph_root_dir) w Perm.rfl)
    ]
