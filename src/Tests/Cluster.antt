-- ===== src/Tests/Cluster.antt =====
-- The coordinator, the nymph a that has a container, and the nymph b that it is sent to.
use konk.Base.{
  pos, [], ◌∷◌, some, err, errorf, refl, ◌≡◌, ◌⊎◌, int_eq, string_eq, ℕ_discrete, Option, Fallible,
}
use konk.Util.Rpc.{delivered}
use konk.Container.Types.{migrate}
use konk.Nymph.Client.{RunArgs}
use konk.Nymph.Migration.{remote}
use konk.Coordinator.LocationDb.{get}
use konk.Coordinator.NymphSet.Memory.{memory_bits}
use konk.Coordinator.Control.{Control, no_reply, migrate_impl, new_control}
use konk.Coordinator.Cluster.{transport}
use konk.Coordinator.Cluster.Laws.{Node, Here, There, migrate_impl-right}
use konk.Tests.Migration.{container, files, source}
use konk.Tests.Nodes.{memory_os}
use konk.Tests.Nymph.{two_ne_one}
use konk.Tests.Runtime.{memory_runtime}

abbrev Nymph : Type 0
Nymph = Node memory_runtime memory_runtime memory_os [] "r" (λ disk w. w) files "b" "/tmp" "a"

abbrev no_run : RunArgs → Nymph → Option (Fallible × Nymph)
no_run args n = some (err (errorf "no image"), n)

abbrev control : Control memory_bits
control =
    record (new_control memory_bits (
      transport memory_runtime
        (remote memory_runtime memory_runtime memory_os [] "r" (λ disk w. w) files "b") "/tmp" "a"
        no_run)) { location_db = record { db = (pos 1, record { hostname = "a" }) ∷ [] } }

migrate_impl-right_example :
    let o =
      migrate_impl memory_bits
        (transport memory_runtime
          (remote memory_runtime memory_runtime memory_os [] "r" (λ disk w. w) files "b")
          "/tmp"
          "a"
          no_run)
        control
        (record { nymph = some source; deliveries = delivered ∷ [] })
        (pos 1)
        "b"
        migrate
        no_reply in
    ((get o.control.location_db (pos 1) ≡ some (record { hostname = "a" }))
      × Here memory_runtime memory_runtime memory_os [] "r"
          (λ disk w. w)
          files
          "b"
          "/tmp"
          "a"
          no_run
          (pos 1)
          (pos 2)
          two_ne_one
          migrate
          o.world)
    ⊎ ((get o.control.location_db (pos 1) ≡ some (record { hostname = "b" }))
        × There memory_runtime memory_runtime memory_os [] "r"
            (λ disk w. w)
            files
            "b"
            "/tmp"
            "a"
            no_run
            (pos 1)
            (pos 2)
            two_ne_one
            migrate
            source
            o.world)
unfolding int_eq ℕ_discrete get
migrate_impl-right_example =
    migrate_impl-right memory_runtime memory_runtime memory_os [] "r" (λ disk w. w) files "b" "/tmp"
      "a" no_run (pos 1) (pos 2) two_ne_one migrate source container refl refl (refl, tt)
      memory_bits control (delivered ∷ []) no_reply tt refl tt
