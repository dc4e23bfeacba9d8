-- ===== src/Tests/Nymph.antt =====
-- A nymph that sends a container, and one that restores it; labels and the numbers of rxe.
use konk.Base.Exec.{returns, exits}
use konk.Base.{
  ℕ, ◌≤◌, ◌<◌, ◌+◌, ℤ, pos, negsuc, ◌≡◌, ◌≢◌, refl, ◌⊎◌, String, true, false, none, some, List, [],
  ◌∷◌, ok, err, Error, errorf, ◌==◌, int_eq, string_eq, ℕ_discrete, arith, eq_of,
}
use konk.Base.Dict.{lookup}
use konk.Container.Types.{ImageInfoArgs, migrate}
use konk.Container.Checkpoint.{Container, new_container}
use konk.Container.Registry.{ContainerRegister}
use konk.Container.Address.{Ip, container_net, create_container_addr, create_container_addr_lem}
use konk.Container.Labels.{
  Labels, uint_value, string_value, add_label, get_label_uint, get_label_string,
}
use konk.Container.Labels.Laws.{get_label-add_label}
use konk.Network.Rxe.{NetworkRxe}
use konk.Nymph.Client.{SendArgs}
use konk.Nymph.Relaunch.{Network, relaunch}
use konk.Nymph.Relaunch.Laws.{relaunch_lem}
use konk.Nymph.Send.{Remote, Nymph, send}
use konk.Nymph.Send.Laws.{Left, send_lem}
use konk.Tests.Nodes.{memory_fs}
use konk.Tests.Runtime.{memory_runtime}

-- Nodes whose recipients count the calls, and answer with the number of the call.
abbrev counting : Remote memory_runtime
counting = record {
  Net = ℕ;
  dial = λ host net. (ok tt, net);
  call = λ host msg net. (ok (net + 1), net + 1);
  fs = λ w. memory_fs (("/tmp/containers/factory/id/state.json", 1 ∷ []) ∷ []) [];
}

abbrev container : Container memory_runtime
container = new_container memory_runtime "id" (pos 1) [] "/tmp"

abbrev register : ContainerRegister memory_runtime
register = record { nymph_dir = "/tmp"; reg = (pos 1, container) ∷ [] }

abbrev nymph : Nymph memory_runtime counting "/tmp"
nymph = record { containers = register; world = []; net = 0 }

abbrev args : SendArgs
args = record { container_rank = pos 1; host = "b"; migration_type = migrate }

ranks_differ : (a b : ℤ) → (a == b) ≡ false → a ≢ b
ranks_differ a b e p = ground (arith, eq_of p)

pub two_ne_one : pos 2 ≢ pos 1
unfolding int_eq ℕ_discrete
two_ne_one = ranks_differ (pos 2) (pos 1) refl

send_lem_example :
    Left memory_runtime counting "/tmp" args
      (pos 2)
      two_ne_one
      nymph
      (send memory_runtime counting "/tmp" args nymph)
unfolding int_eq ℕ_discrete
send_lem_example =
    send_lem memory_runtime counting "/tmp" args (pos 2) two_ne_one container nymph refl (refl, tt)

abbrev drivers : List (Network memory_runtime)
drivers =
    record { declare_external = λ rank. ([], false); post_restore = λ c w. returns tt w }
    ∷ record { declare_external = λ rank. ("veth" ∷ [], true); post_restore = λ c w. exits w }
    ∷ []

abbrev info : ImageInfoArgs
info = record { rank = pos 2; id = "id"; args = []; generation = pos 1; parent = negsuc 0 }

relaunch_lem_example :
    let (r, c', _) = relaunch memory_runtime drivers info register ("checkpoints/id/I" ∷ []) in
    ((e : Error) × (r ≡ some (err e)) × (c' ≡ register))
    ⊎ ((cont : Container memory_runtime) × (lookup (pos 2) register.reg ≡ none)
        × (lookup (pos 2) c'.reg ≡ some cont)
        × (lookup (pos 1) c'.reg ≡ some container)
        × (cont.external ≡ "veth" ∷ [])
        × ((r ≢ some (ok tt)) ⊎ (cont.tty ≡ true)))
unfolding int_eq ℕ_discrete
relaunch_lem_example =
    relaunch_lem memory_runtime drivers info (pos 1) register ("checkpoints/id/I" ∷ [])
      (ranks_differ (pos 1) (pos 2) refl)

abbrev labels : Labels
labels = record { data' = ("nymph-id", uint_value 1) ∷ [] }

pub strings_differ : (s t : String) → (s == t) ≡ false → s ≢ t
strings_differ s t e p = ground (arith, eq_of p)

get_label-add_label_example :
    let u = (add_label "x" (uint_value 7) labels).1 in
    let t = (add_label "x" (string_value "seven") labels).1 in
    (get_label_uint "x" u ≡ ok 7)
    × (get_label_string "x" t ≡ ok "seven")
    × (get_label_string "x" u ≡ err (errorf "Type assertion failed at key %v"))
    × (get_label_uint "x" t ≡ err (errorf "Type assertion failed at key %v"))
unfolding string_eq
get_label-add_label_example = get_label-add_label "x" 7 "seven" labels refl

abbrev pub rxe : NetworkRxe
rxe = record { qpnpn = 1000; minqpn = 17; mrnpn = 500; minmrn = 1 }

create_container_addr_lem_example :
    ((253 < 3) × (create_container_addr (pos 3) container_net ≡ none))
    ⊎ ((a : Ip) × (create_container_addr (pos 3) container_net ≡ some a)
        × (1 ≤ a.byte_3)
        × (a.byte_3 ≤ 254)
        × ((◌≡◌ {A = ℕ} 3 9) ⊎ (create_container_addr (pos 9) container_net ≢ some a)))
create_container_addr_lem_example = create_container_addr_lem 3 9 container_net container_net
