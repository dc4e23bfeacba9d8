-- ===== src/Network/Veth/Hooks.antt =====
-- veth.go: the hooks that connect a container, and that delete its devices.
use konk.Base.{
  ℤ, String, true, false, Result, ok, err, errorf, Error, ◌==◌, string_eq, ◌≡◌, refl, ◌⊎◌, inl, inr,
  Result-cases,
}
use konk.Base.Exec.{
  Exec, Cmd, returns, fails, ◌>>=◌, ◌>>◌, call, check, assert, wrapped, or_exit, deferring, exits,
  panics,
}
use konk.Container.Types.{Rank}
use konk.Container.Device.{get_dev_name}
use konk.Network.HookState.{State, annotation}
use konk.Network.Netlink.{Netlink, IsLawful}
use konk.Network.Veth.Pair.{new_veth_pair, delete_veth_pair, PairGone, delete_veth_pair_lem}

unfoldable pub veth_port_addr : State → Result String
unfolding annotation
veth_port_addr = annotation "konk-ip" "Konk ip is not set"

unfoldable pub veth_bridge_name : State → Result String
unfolding annotation
veth_bridge_name = annotation "konk-bridge" "Konk bridge is not set"

-- `strconv.Itoa` and `strconv.Atoi`.
module _ (itoa : ℤ → String) (atoi : String → Result ℤ) where
  unfoldable pub veth_port_rank : State → Result Rank
  unfolding annotation
  veth_port_rank s = elim (annotation "konk-rank" "Konk rank is not set" s) [
    | err e ↦ err e
    | ok rank ↦ elim (atoi rank) [ err e ↦ err (errorf "Invalid rank: v") | ok val ↦ ok val ]
  ]

  module _ (K : Netlink) where
    -- From the ranks on: the pair is made, one end goes to the container, the other to the bridge.
    unfoldable pub connect : State → K.Handle → Cmd K.World (Unit {0})
    connect state handle = do
      rank ← or_exit (check (veth_port_rank state))
      addr_string ← or_exit (check (veth_port_addr state))
      pair ← new_veth_pair K itoa rank
      addr ← or_exit (check (K.parse_addr addr_string))
      or_exit (call (K.link_set_ns_pid pair.veth state.pid))
      or_exit (call (K.addr_add handle pair.veth addr))
      or_exit (call (K.set_up_at handle pair.veth))
      bridge_name ← or_exit (check (veth_bridge_name state))
      bridge ← or_exit λ w. check (K.link_by_name bridge_name w) w
      assert (K.is_bridge bridge)
      or_exit (call (K.link_set_master pair.vpeer bridge))
      wrapped "Could not set interface %s up: %v" (call (K.link_set_up pair.vpeer))

    unfoldable pub prestart : State → Cmd K.World (Unit {0})
    prestart state w = elim (state.status == "creating") [
      | false ↦ returns tt w
      | true ↦
          (do
            ns ← or_exit (call (K.get_from_pid state.pid))
            deferring (K.close ns) (do
              handle ← or_exit (call (K.new_handle_at ns))
              deferring (K.delete handle) (connect state handle)))
            w
    ]

    -- Also where the pair has been deleted, the hook returns an error.
    abbrev success : Exec K.World (Unit {0}) → Exec K.World (Unit {0})
    success (returns _ w) = fails (errorf "Success") w
    success (fails e w) = fails e w
    success (exits w) = exits w
    success (panics w) = panics w

    unfoldable pub poststop : State → Cmd K.World (Unit {0})
    poststop state w = elim (veth_port_rank state) [
      | err e ↦ returns tt w
      | ok rank ↦ success (delete_veth_pair K itoa rank w)
    ]

    abbrev pub Refused : Rank → Exec K.World (Unit {0}) → Type 0
    Refused rank x =
        (e : Error) × (w' : K.World) × (x ≡ fails e w')
        × (K.present w' (get_dev_name itoa "vpeer" rank) ≡ false)
        × (K.present w' (get_dev_name itoa "veth" rank) ≡ false)

    success-Refused :
        (L : IsLawful K) (rank : Rank) (w : K.World) {x : Exec K.World (Unit {0})}
        → PairGone K L itoa rank w x
        → Refused rank (success x)
    success-Refused L rank w (PairGone.gone w' there a b) = (errorf "Success", w', refl, a, b)
    success-Refused L rank w (PairGone.nothing e a b) = (e, w, refl, a, b)

    -- Without a rank the hook has no error and does nothing.
    abbrev pub Stopped : State → K.World → Exec K.World (Unit {0}) → Type 0
    Stopped state w x =
        ((e : Error) × (veth_port_rank state ≡ err e) × (x ≡ returns tt w))
        ⊎ ((rank : Rank) × (veth_port_rank state ≡ ok rank) × Refused rank x)

    -- On a lawful netlink: for a container whose annotation konk-rank is there and is a number, the hook
    -- returns an error, and neither end of the pair is in the host's namespace after it. Without such
    -- an annotation it returns no error, and does nothing.
    pub poststop_lem :
        (L : IsLawful K) (state : State) (w : K.World) → Stopped state w (poststop state w)
    unfolding poststop
    poststop_lem L state w = elim (Result-cases (veth_port_rank state)) [
      | inr (e, f) ↦ rw (f, poststop) (inl (e, refl, refl))
      | inl (rank, f) ↦
          rw (f, poststop)
            (inr (rank, refl, success-Refused L rank w (delete_veth_pair_lem K L itoa rank w)))
    ]
