-- ===== src/Nymph/Run/Numbers.antt =====
-- server.go, network.go and rxe.go: the numbers in the labels of a container that `Nymph.Run` starts, with
-- the drivers of the network package.
use konk.Base.{
  ℕ, String, List, [], ◌∷◌, ◌++◌, All, Result, ok, none, ◌≡◌, ◌≢◌, refl, ◌∙◌, ap, map, false, ◌==◌,
  eq_of, arith, string_eq, Result-cases, inl, inr,
}
use konk.Base.Dict.{lookup, insert}
use konk.Container.Types.{Rank}
use konk.Container.Runtime.{Runtime}
use konk.Container.Address.{Ip}
use konk.Container.Labels.{Labels, add_label, get_label_uint, string_value}
use konk.Container.Labels.Laws.{add_label_lem}
use konk.Network.Netlink.{Netlink}
use konk.Network.Driver.{Network, rxe, ovs, veth}
use konk.Network.Driver as Drivers
use konk.Network.Rxe.{NetworkRxe, start_of, add_labels_lem}
use konk.Network.Veth
use konk.Nymph.Run.{Host, Driver, install, first_labels}

-- A container's labels before the rxe driver has added its numbers.
abbrev pub NewFor : ℕ → Labels → Type 0
NewFor id l =
    (get_label_uint "nymph-id" l ≡ ok id)
    × (lookup "rxe-qpnstart" l.data' ≡ none)
    × (lookup "rxe-mrnstart" l.data' ≡ none)

get_label_uint-lookup :
    (key : String) (l k : Labels)
    → lookup key l.data' ≡ lookup key k.data'
    → get_label_uint key l ≡ get_label_uint key k
unfolding get_label_uint
get_label_uint-lookup key l k e = rw (e, get_label_uint) refl

module _ (K : Netlink) where
  abbrev pub IsOther : Drivers.Driver K → Type 0
  IsOther (rxe r) = ⊥
  IsOther (ovs o) = Unit
  IsOther (veth v) = Unit

  -- The labels after the drivers of a list have added theirs.
  abbrev pub collect : List (Network K) → Labels → Labels
  collect [] l = l
  collect (n ∷ ns) l = collect ns (Drivers.add_labels K n l).1

  lookup-add_labels :
      (d : Drivers.Driver K) (t key : String) (l : Labels)
      → IsOther d
      → key ≢ "bridge"
      → lookup key (Drivers.add_labels K (record { driver = d; network_type = t }) l).1.data'
        ≡ lookup key l.data'
  unfolding Drivers.add_labels Veth.add_labels
  lookup-add_labels (rxe r) t key l h ne = absurd h
  lookup-add_labels (ovs o) t key l h ne = refl
  lookup-add_labels (veth v) t key l h ne =
      elim (add_label_lem "bridge" key (string_value (K.name v.bridge)) l ne) [
        | inl (old, _, _, same) ↦ ap (λ (x : Labels). lookup key x.data') same
        | inr (_, _, _, same) ↦ same
      ]

  pub lookup-collect :
      (ns : List (Network K)) (key : String) (l : Labels)
      → All (λ n. IsOther n.driver) ns
      → key ≢ "bridge"
      → lookup key (collect ns l).data' ≡ lookup key l.data'
  lookup-collect [] key l h ne = refl
  lookup-collect (n ∷ ns) key l (h, hs) ne =
      lookup-collect ns key (Drivers.add_labels K n l).1 hs ne
      ∙ lookup-add_labels n.driver n.network_type key l h ne

  collect-append :
      (ns ms : List (Network K)) (l : Labels) → collect (ns ++ ms) l ≡ collect ms (collect ns l)
  collect-append [] ms l = refl
  collect-append (n ∷ ns) ms l = collect-append ns ms (Drivers.add_labels K n l).1

  module _ (R : Runtime) (H : Host R) (hooks : Network K → R.Config → Result R.Config) where
    -- The drivers as `Nymph.Run` uses them, with their `InstallHooks`.
    abbrev pub drivers : List (Network K) → List (Driver R)
    drivers ns =
        map (λ n. record { install_hooks = hooks n; add_labels = Drivers.add_labels K n }) ns

    install-collect :
        (ns : List (Network K)) (config config' : R.Config) (l k : Labels)
        → install R H (drivers ns) config l ≡ ok (config', k)
        → k ≡ collect ns l
    unfolding install
    install-collect [] config config' l k = λ e. ground arith
    install-collect (n ∷ ns) config config' l k = elim (Result-cases (hooks n config)) [
      | inl (c, f) ↦
          rw (f, install) (λ e. install-collect ns c config' (Drivers.add_labels K n l).1 k e)
      | inr (x, f) ↦ rw (f, install) (λ e. absurd cc)
    ]

    first_labels-NewFor :
        (id : ℕ) (rank : Rank) (addr : Ip) → NewFor id (first_labels R H id rank addr)
    unfolding add_label insert get_label_uint string_eq
    first_labels-NewFor id rank addr = (refl, refl, refl)

    -- A container of a nymph with the identifier `id`, the labels `l` and the network rxe, which is one
    -- of the nymph's networks, the others being of other types: `Nymph.Run` has installed the hooks.
    abbrev pub Labelled : NetworkRxe → ℕ → Labels → Type 0
    Labelled n id l =
        (before after : List (Network K)) × (t : String) × (rank : Rank) × (addr : Ip) × (config
          config' : R.Config)
        × All (λ m. IsOther m.driver) before
        × All (λ m. IsOther m.driver) after
        × (install R H (drivers (before ++ (record { driver = rxe n; network_type = t } ∷ after)))
              config (first_labels R H id rank addr)
            ≡ ok (config', l))

    keys_differ :
        (◌≢◌ {A = String} "nymph-id" "bridge")
        × (◌≢◌ {A = String} "rxe-qpnstart" "bridge")
        × (◌≢◌ {A = String} "rxe-mrnstart" "bridge")
    unfolding string_eq
    keys_differ = (λ p. ne p refl, λ p. ne p refl, λ p. ne p refl)
      where
        ne : {x y : String} → x ≡ y → (x == y) ≡ false → ⊥
        ne p f = ground (arith, eq_of p)

    -- The container has the numbers that the driver makes of the identifier.
    pub Labelled-numbers :
        (n : NetworkRxe) (id : ℕ) (l : Labels)
        → Labelled n id l
        → (get_label_uint "rxe-qpnstart" l ≡ ok (start_of id n.qpnpn n.minqpn))
          × (get_label_uint "rxe-mrnstart" l ≡ ok (start_of id n.mrnpn n.minmrn))
    unfolding Drivers.add_labels
    Labelled-numbers n id l (before, after, t, rank, addr, config, config', hb, ha, e) =
        let r : Network K = record { driver = rxe n; network_type = t } in
        let l₀ = first_labels R H id rank addr in
        let l₁ = collect before l₀ in
        let l₂ = (Drivers.add_labels K r l₁).1 in
        let (named, qpns, mrns) = first_labels-NewFor id rank addr in
        let (nb, qb, mb) = keys_differ in
        let all : l ≡ collect after l₂ =
          install-collect (before ++ (r ∷ after)) config config' l₀ l e
          ∙ collect-append before (r ∷ after) l₀ in
        let (_, q, m) =
          add_labels_lem n l₁ id
            (get_label_uint-lookup "nymph-id" l₁ l₀ (lookup-collect before "nymph-id" l₀ hb nb)
              ∙ named)
            (lookup-collect before "rxe-qpnstart" l₀ hb qb ∙ qpns)
            (lookup-collect before "rxe-mrnstart" l₀ hb mb ∙ mrns) in
        (
          ap (get_label_uint "rxe-qpnstart") all
              ∙ get_label_uint-lookup "rxe-qpnstart" (collect after l₂) l₂
                  (lookup-collect after "rxe-qpnstart" l₂ ha qb)
              ∙ q,
          ap (get_label_uint "rxe-mrnstart") all
              ∙ get_label_uint-lookup "rxe-mrnstart" (collect after l₂) l₂
                  (lookup-collect after "rxe-mrnstart" l₂ ha mb)
              ∙ m,
        )
