-- ===== src/Network/Peers.antt =====
-- util.go: the addresses of the other nodes of a list. The hostname and the resolver are parameters.
use konk.Base.{
  String, List, [], ◌∷◌, true, false, ◌||◌, Result, ok, err, errorf, ltb, nat_beq, length, ◌==◌,
  string_eq, if◌then◌else◌,
}
use konk.Base.Exec.{Cmd, returns, exits, ◌>>=◌, pure, check, or_exit}

module _ {W : Type 0} (lookup_host : String → Result (List String)) where
  -- The first address of a peer.
  unfoldable pub resolve : String → Cmd W String
  resolve peer w = elim (lookup_host peer) [
    | err e ↦ exits w
    | ok [] ↦ exits w
    | ok (addr ∷ _) ↦ returns addr w
  ]

  unfoldable pub other_peers : String → List String → Cmd W (List String)
  other_peers hostname [] = pure []
  other_peers hostname (peer ∷ peers) = elim (peer == hostname) [
    | true ↦ other_peers hostname peers
    | false ↦ do addr ← resolve peer; rest ← other_peers hostname peers; pure (addr ∷ rest)
  ]

  -- The test that this node, and another one, are in the list.
  unfoldable pub checked_peers : List String → List String → Cmd W (List String)
  checked_peers peer_names others =
      if ltb (length others) 1 || nat_beq (length others) (length peer_names)
      then check (err (errorf "Peer list is wrong"))
      else pure others

  unfoldable pub get_other_peers : Result String → List String → Cmd W (List String)
  get_other_peers host_result peer_names = elim (ltb (length peer_names) 2) [
    | true ↦ check (err (errorf "No peers to connect: %v"))
    | false ↦ do
      hostname ← or_exit (check host_result)
      others ← other_peers hostname peer_names
      checked_peers peer_names others
  ]
