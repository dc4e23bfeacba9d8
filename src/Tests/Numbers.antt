-- ===== src/Tests/Numbers.antt =====
-- Two of the nymphs that have registered at the same time, and a container of each.
use konk.Base.{ok, pos, [], ◌∷◌, ℕ, Result, ap, refl, some, ◌≡◌, arith, string_eq, ℕ_discrete, ◌≢◌}
use konk.Base.Dict.{lookup, insert}
use konk.Coordinator.LocationDb.{Location, location_eq}
use konk.Coordinator.NymphSet.{add}
use konk.Coordinator.NymphSet.Memory.{memory_bits, memory_bits-IsLawful, test, next_clear, set}
use konk.Coordinator.Control.{handle, register_nymph_impl}
use konk.Coordinator.Channel.{ask, receive, serve, answer}
use konk.Coordinator.Channel.Numbers.{RangesApart, ranges_apart}
use konk.Tests.Coordinator.{network}
use konk.Tests.Channel.{all_taken, to_all}
use konk.Tests.Nymph.{rxe, strings_differ}
use konk.Tests.Runtime.{memory_runtime}
use konk.Tests.Run.{memory_host}
use konk.Tests.Links.{memory_netlink}
use konk.Network.Driver.{Network, ovs}
use konk.Network.Driver
use konk.Container.Labels.{Labels}
use konk.Container.Address.{container_net}
use konk.Nymph.Run.{install, first_labels}
use konk.Nymph.Run.Numbers.{collect, Labelled}

abbrev a : Location
a = record { hostname = "a" }

abbrev z : Location
z = record { hostname = "z" }

registered :
    let ids = all_taken.control.nymph_set.set in (lookup a ids ≡ some 1) × (lookup z ids ≡ some 2)
unfolding ask receive serve answer handle register_nymph_impl add insert set next_clear test
    ℕ_discrete location_eq string_eq
registered = (refl, refl)

a_ne_z : a ≢ z
unfolding string_eq
a_ne_z p = strings_differ "a" "z" refl (ap (λ (l : Location). l.hostname) p)

abbrev switched : Network memory_netlink
switched = record {
  driver = ovs (record { bridge = "br"; vxlan_port = "port" });
  network_type = "ovs";
}

abbrev accepted : Network memory_netlink → Unit {0} → Result (Unit {0})
accepted n config = ok config

-- The labels of a container on the networks ovs and rxe.
abbrev labels_of : ℕ → Labels
labels_of id =
    collect memory_netlink
      (switched ∷ record { driver = Driver.rxe rxe; network_type = "rxe" } ∷ [])
      (first_labels memory_runtime memory_host id (pos 5) container_net)

labelled :
    (id : ℕ) → Labelled memory_netlink memory_runtime memory_host accepted rxe id (labels_of id)
unfolding install
labelled id = (switched ∷ [], [], "rxe", pos 5, container_net, tt, tt, (tt, tt), tt, refl)

ranges_apart_example : RangesApart rxe (labels_of 1) (labels_of 2)
ranges_apart_example =
    ranges_apart memory_bits memory_bits-IsLawful network memory_netlink memory_runtime memory_host
      accepted to_all a z 1 2 rxe (labels_of 1) (labels_of 2) a_ne_z registered.0 registered.1
      (omega arith, omega arith) (omega arith, omega arith) (labelled 1) (labelled 2)
