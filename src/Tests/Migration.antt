-- ===== src/Tests/Migration.antt =====
-- A container on its way from one nymph to another, where the first call of the destination is lost.
use konk.Base.{true, pos, List, [], ◌∷◌, String, errorf, refl, int_eq, string_eq, ℕ_discrete}
use konk.Util.Rpc.{delivered, lost}
use konk.Container.Checkpoint.{Container, new_container}
use konk.Container.Types.{migrate}
use konk.Nymph.Client.{SendArgs}
use konk.Nymph.Recipient.{new_recipient}
use konk.Nymph.Send.{send}
use konk.Nymph.MigrationDonor.{DonorFs}
use konk.Nymph.Migration.{remote}
use konk.Nymph.Migration.Laws.{Source, Migrated, migration_lem}
use konk.Tests.Nodes.{memory_fs, memory_os}
use konk.Tests.Runtime.{memory_runtime}
use konk.Tests.Nymph.{two_ne_one}

abbrev pub container : Container memory_runtime
container = new_container memory_runtime "id" (pos 1) [] "/tmp"

abbrev pub files : List String → DonorFs
files w = memory_fs (("/tmp/containers/factory/id/state.json", 1 ∷ []) ∷ []) []

abbrev args : SendArgs
args = record { container_rank = pos 1; host = "b"; migration_type = migrate }

abbrev pub source :
    Source memory_runtime memory_runtime memory_os [] "r"
      (λ disk w. w)
      files
      "b"
      "/tmp"
      args
      (pos 2)
      two_ne_one
source = record {
  containers = record { nymph_dir = "/tmp"; reg = (pos 1, container) ∷ [] };
  world = [];
  net = record {
    recipient = new_recipient memory_os;
    disk = [];
    node = record {
      register = record { nymph_dir = "/tmp"; reg = [] };
      world = "checkpoints/id/" ∷ [];
      deliveries = delivered ∷ lost (errorf "connection reset") ∷ [];
      running = true;
    };
  };
}

migration_lem_example :
    Migrated memory_runtime memory_runtime memory_os [] "r"
      (λ disk w. w)
      files
      "b"
      "/tmp"
      args
      (pos 2)
      two_ne_one
      source
      (send memory_runtime
        (remote memory_runtime memory_runtime memory_os [] "r" (λ disk w. w) files "b")
        "/tmp"
        args
        source)
unfolding int_eq ℕ_discrete
migration_lem_example =
    migration_lem memory_runtime memory_runtime memory_os [] "r" (λ disk w. w) files "b" "/tmp" args
      (pos 2) two_ne_one container source refl refl (refl, tt)
