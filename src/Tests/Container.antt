-- ===== src/Tests/Container.antt =====
-- Containers on a runtime in memory: its state is the list of directories that exist.
use konk.Base.{
  pos, negsuc, ◌≡◌, refl, ◌⊎◌, none, some, [], ◌∷◌, Error, ok, err, errorf, int_eq, string_eq,
  ℕ_discrete, arith,
}
use konk.Base.Dict.{lookup}
use konk.Container.Types.{ImageInfoArgs}
use konk.Tests.Runtime.{memory_runtime, exists, tally}
use konk.Container.Checkpoint.{
  Checkpoint, full, generation, Container, new_container, latest_checkpoint, new_checkpoint,
  get_checkpoint, image_info,
}
use konk.Container.Checkpoint.Numbering.{IsNumbered, new_checkpoint_lem}
use konk.Container.Registry.{ContainerRegister, empty_register, get_or_create, load}
use konk.Container.Registry.Laws.{get_or_create_lem, load_lem, load_needs_first}

abbrev container : Container memory_runtime
container = record (new_container memory_runtime "id" (pos 1) [] "/tmp") {
  checkpoints = full (pos 0) ∷ [];
  next_checkpoint_id = pos 1;
}

abbrev register : ContainerRegister memory_runtime
register = record { nymph_dir = "/tmp"; reg = (pos 1, container) ∷ [] }

abbrev info : ImageInfoArgs
info = record { rank = pos 2; id = "id"; args = []; generation = pos 1; parent = negsuc 0 }

new_checkpoint_lem_example :
    let (r, c', _) = new_checkpoint memory_runtime (some (full (pos 0))) container [] in
    IsNumbered memory_runtime c'
    × (((e : Error) × (r ≡ err e) × (c' ≡ container))
        ⊎ ((k : Checkpoint) × (r ≡ ok k)
            × (generation k ≡ pos 1)
            × (get_checkpoint memory_runtime c' (generation k) ≡ ok k)
            × (latest_checkpoint c'.checkpoints ≡ some k)))
new_checkpoint_lem_example =
    new_checkpoint_lem memory_runtime (some (full (pos 0))) container [] (omega arith, tt)

get_or_create_lem_example :
    let (r, c', w') = get_or_create memory_runtime (pos 3) "new" [] tt register [] in
    ((cont : Container memory_runtime) × (lookup (pos 3) register.reg ≡ some cont)
      × (r ≡ ok cont)
      × (c' ≡ register)
      × (w' ≡ []))
    ⊎ ((e : Error) × (lookup (pos 3) register.reg ≡ none) × (r ≡ err e) × (c' ≡ register))
    ⊎ ((cont : Container memory_runtime) × (lookup (pos 3) register.reg ≡ none)
        × (r ≡ ok cont)
        × (cont.rank ≡ pos 3)
        × (cont.args ≡ [])
        × (cont.checkpoints ≡ [])
        × (lookup (pos 1) c'.reg ≡ some container))
unfolding int_eq ℕ_discrete
get_or_create_lem_example = get_or_create_lem memory_runtime (pos 3) (pos 1) "new" [] tt register []

load_lem_example :
    let (r, c', _) = load memory_runtime info register ("checkpoints/id/I" ∷ []) in
    ((e : Error) × (r ≡ err e) × (c' ≡ register))
    ⊎ ((cont : Container memory_runtime) × (r ≡ ok cont)
        × (lookup (pos 2) register.reg ≡ none)
        × (cont.checkpoints ≡ full (pos 1) ∷ [])
        × (cont.next_checkpoint_id ≡ pos 2)
        × (cont.rank ≡ pos 2)
        × (cont.external ≡ [])
        × (lookup (pos 1) c'.reg ≡ some container))
unfolding int_eq ℕ_discrete
load_lem_example = load_lem memory_runtime info (pos 1) register ("checkpoints/id/I" ∷ [])

load_needs_first_example :
    (x : Error) × ((load memory_runtime
        (image_info memory_runtime container (full (pos 1)))
        (empty_register memory_runtime "/tmp")
        ("checkpoints/id/I" ∷ [])).0
      ≡ err x)
unfolding exists tally string_eq image_info
load_needs_first_example =
    load_needs_first memory_runtime container (full (pos 1)) (empty_register memory_runtime "/tmp")
      ("checkpoints/id/I" ∷ []) "id" (errorf "no such directory") refl refl refl
