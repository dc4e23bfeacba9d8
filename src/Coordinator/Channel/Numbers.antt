-- ===== src/Coordinator/Channel/Numbers.antt =====
-- The identifiers of the coordinator at work in the rxe driver (pkg/network/rxe.go): the numbers that the
-- containers of two nymphs get.
use konk.Base.{
  dec_lt, ℕ, ◌+◌, ◌*◌, ◌^◌, ◌≤◌, ◌<◌, ◌≡◌, ◌≢◌, ◌⊎◌, inl, inr, ok, some, Result, List, string_eq,
  sym, ◌∙◌, ap, arith,
}
use konk.Base.Dict.{lookup}
use konk.Container.Labels.{Labels, get_label_uint}
use konk.Nymph.Client.{Transport}
use konk.Network.Rxe.{NetworkRxe, start_of, start_apart}
use konk.Network.Netlink.{Netlink}
use konk.Network.Driver.{Network}
use konk.Container.Runtime.{Runtime}
use konk.Nymph.Run.{Host}
use konk.Nymph.Run.Numbers.{Labelled, Labelled-numbers}
use konk.Coordinator.LocationDb.{Location, location_eq}
use konk.Coordinator.NymphSet.Bits.{BitSet, IsLawful}
use konk.Coordinator.Control.{new_control}
use konk.Coordinator.Channel.{Request, System, fresh_system, Run}
use konk.Coordinator.Channel.Invariant.{distinct_ids}

-- The numbers of a nymph with the identifier `id` fit in 64 bits.
abbrev pub Fits : NetworkRxe → ℕ → Type 0
Fits n id = (id * n.qpnpn + n.minqpn < 2 ^ 64) × (id * n.mrnpn + n.minmrn < 2 ^ 64)

-- Two ranges of a length.
abbrev pub Apart : ℕ → ℕ → ℕ → Type 0
Apart len a b = (a + len ≤ b) ⊎ (b + len ≤ a)

-- What the labels of two containers say of their ranges.
abbrev pub RangesApart : NetworkRxe → Labels → Labels → Type 0
RangesApart n l k =
    (qa qb ma mb : ℕ) × (get_label_uint "rxe-qpnstart" l ≡ ok qa)
    × (get_label_uint "rxe-qpnstart" k ≡ ok qb)
    × Apart n.qpnpn qa qb
    × (get_label_uint "rxe-mrnstart" l ≡ ok ma)
    × (get_label_uint "rxe-mrnstart" k ≡ ok mb)
    × Apart n.mrnpn ma mb

apart :
    (i j per_node least : ℕ)
    → i * per_node + least < 2 ^ 64
    → j * per_node + least < 2 ^ 64
    → i ≢ j
    → Apart per_node (start_of i per_node least) (start_of j per_node least)
apart i j per_node least f g ne = elim (dec_lt i j) [
  | yes h ↦ inl (start_apart i j per_node least h g)
  | no h ↦ inr (start_apart j i per_node least (omega (arith, h, ne)) f)
]

module _ (B : BitSet) (L : IsLawful B) (T : Transport) where
  module _ (K : Netlink) (R : Runtime) (H : Host R)
      (hooks : Network K → R.Config → Result R.Config) where
    -- Over a lawful bit set, in every state that a fresh coordinator can reach, whoever calls it in
    -- whatever order: two nymphs that it has at different locations, with numbers of the rxe network
    -- that fit in 64 bits, and with that network once among their networks, start containers whose
    -- labels have ranges of queue pair and memory region numbers that do not overlap.
    pub ranges_apart :
        {w : T.World} {rs : List Request} {s : System B T}
        → Run B T (fresh_system B T (new_control B T) w) rs s
        → (a b : Location) (i j : ℕ) (n : NetworkRxe) (l k : Labels) → a ≢ b
        → lookup a s.control.nymph_set.set ≡ some i
        → lookup b s.control.nymph_set.set ≡ some j
        → Fits n i
        → Fits n j
        → Labelled K R H hooks n i l
        → Labelled K R H hooks n j k
        → RangesApart n l k
    ranges_apart run a b i j n l k ne at_a at_b (fq, fm) (gq, gm) li kj =
        let (ql, ml) = Labelled-numbers K R H hooks n i l li in
        let (qk, mk) = Labelled-numbers K R H hooks n j k kj in
        let differ : i ≢ j = λ p. ne (distinct_ids B L T run a b i at_a (at_b ∙ ap some (sym p))) in
        (
          start_of i n.qpnpn n.minqpn,
          start_of j n.qpnpn n.minqpn,
          start_of i n.mrnpn n.minmrn,
          start_of j n.mrnpn n.minmrn,
          ql,
          qk,
          apart i j n.qpnpn n.minqpn fq gq differ,
          ml,
          mk,
          apart i j n.mrnpn n.minmrn fm gm differ,
        )
