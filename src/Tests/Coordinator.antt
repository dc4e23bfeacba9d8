-- ===== src/Tests/Coordinator.antt =====
-- The coordinator at work: two nymphs, a and b, and three containers.
use mathlib.Core.List.Permᴰ
use konk.Base.{
  pos, ◌≡◌, ◌≢◌, refl, ◌⊎◌, ◌↔◌, String, true, false, none, some, List, [], ◌∷◌, Error, ok, err,
  errorf, int_eq, string_eq, ℕ_discrete,
}
use konk.Base.Dict.{Dict, lookup, insert}
use konk.Container.Types.{Rank, migrate, migration_type_eq}
use konk.Nymph.Client.{Transport, Call}
use konk.Coordinator.LocationDb.{
  Location, location_eq, LocationDb, LocationInfo, get, unset, locations_stat,
}
use konk.Coordinator.LocationDb.Laws as LocationLaws
use konk.Coordinator.LocationDb.Laws.{get-unset}
use konk.Coordinator.LocationDb.Stat.{lookup-locations_stat}
use konk.Coordinator.NymphSet.Laws as NymphLaws
use konk.Coordinator.NymphSet.{NymphSet, new_nymph_set, add, del, get_nymphs}
use konk.Coordinator.NymphSet.Memory.{memory_bits, memory_bits-IsLawful, test, next_clear, set}
use konk.Coordinator.Control.{
  Control, string_reply, no_reply, unregister_nymph_args, allocate_host, migrate_impl, signal_impl,
  handle,
}
use konk.Coordinator.Control.Allocate.{Allocated, allocate_host_lem}
use konk.Coordinator.Control.Migration.{Sent, migrate_impl_lem}
use konk.Coordinator.Control.Broadcast.{AllOk, calls, signal_impl_lem}
use konk.Coordinator.Control.Invariant
use konk.Coordinator.Client
use konk.Coordinator.Client.{WasOrIsAt}
use konk.Util.Rpc.{lost, delivered}
use konk.Coordinator.Scheduler.{idle, request, tick}
use konk.Coordinator.Scheduler.Choice.{tick_sound}

-- A network whose state is the calls that were made.
abbrev pub network : Transport
network = record {
  World = List (String × Call);
  reached = λ host w. true;
  answered = λ host c w. true;
  range = λ w l. l;
  range-Perm = λ w l. Permᴰ.refl l;
  dial = λ host w. w;
  call = λ host c w. (ok tt, (host, c) ∷ w);
}

abbrev a : Location
a = record { hostname = "a" }

abbrev b : Location
b = record { hostname = "b" }

abbrev c : Location
c = record { hostname = "c" }

-- A report in which b has fewer containers than a.
abbrev report : Dict Location LocationInfo
report = (a, record { container_count = 2 }) ∷ (b, record { container_count = 1 }) ∷ []

abbrev locations : LocationDb
locations = record { db = (pos 0, a) ∷ (pos 1, a) ∷ (pos 2, b) ∷ [] }

abbrev nymphs : NymphSet memory_bits
nymphs = (add memory_bits (add memory_bits (new_nymph_set memory_bits) a).0 b).0

nymphs-IsValid : NymphLaws.IsValid memory_bits nymphs
nymphs-IsValid =
    NymphLaws.add-IsValid memory_bits memory_bits-IsLawful
      (add memory_bits (new_nymph_set memory_bits) a).0 b
      (NymphLaws.add-IsValid memory_bits memory_bits-IsLawful (new_nymph_set memory_bits) a
        (NymphLaws.new_nymph_set-IsValid memory_bits memory_bits-IsLawful))

b_registered : lookup b nymphs.set ≡ some 1
unfolding add insert set next_clear test ℕ_discrete location_eq string_eq
b_registered = refl

abbrev control : Control memory_bits
control = record { location_db = locations; nymph_set = nymphs }

locations-IsValid : LocationLaws.IsValid locations
unfolding int_eq ℕ_discrete
locations-IsValid = record { nodup = (refl, (refl, (refl, tt))) }

control-IsValid : Invariant.IsValid memory_bits control
control-IsValid = record { locations = locations-IsValid; nymphs = nymphs-IsValid }

get-unset_example :
    (get (unset locations (pos 1) a).0 (pos 1) ≡ none)
    × ((unset locations (pos 1) a).1 ≡ ok tt ↔ true ≡ true)
unfolding get int_eq ℕ_discrete location_eq string_eq
get-unset_example = get-unset locations (pos 1) (pos 1) a locations-IsValid

lookup-locations_stat_example :
    lookup a (locations_stat locations) ≡ some (record { container_count = 1 })
unfolding int_eq ℕ_discrete location_eq string_eq
lookup-locations_stat_example = lookup-locations_stat locations a

del_lem_example :
    let (m, found) = del memory_bits nymphs b in
    (found ≡ true ↔ lookup b nymphs.set ≢ none)
    × (lookup a m.set ≡ some 0)
    × (test m.active_ids 1 ≡ false)
unfolding add insert set next_clear test ℕ_discrete location_eq string_eq
del_lem_example = NymphLaws.del_lem memory_bits memory_bits-IsLawful nymphs b a 1 nymphs-IsValid

add_again_leaks_example :
    let (m, _) = del memory_bits (add memory_bits nymphs b).0 b in
    (lookup b m.set ≡ none) × (test m.active_ids 1 ≡ true)
add_again_leaks_example =
    NymphLaws.add_again_leaks memory_bits memory_bits-IsLawful nymphs b 1 nymphs-IsValid
      b_registered

allocate_host_lem_example :
    let o = allocate_host memory_bits network control [] (pos 7) (string_reply "") in
    (o.control ≡ control) × (o.world ≡ []) × Allocated "" none locations.db (o.reply, o.error)
unfolding get int_eq ℕ_discrete
allocate_host_lem_example = allocate_host_lem memory_bits network control [] (pos 7) ""

migrate_impl_lem_example :
    let o = migrate_impl memory_bits network control [] (pos 1) "b" migrate no_reply in
    ((e : Error) × (o.error ≡ err e) × (o.control ≡ control))
    ⊎ ((src : Location) × (o.error ≡ ok tt)
        × (some a ≡ some src)
        × (src.hostname ≢ "b")
        × Sent network (pos 1) src.hostname "b" migrate [] o.world
        × (o.control.nymph_set ≡ nymphs)
        × (get o.control.location_db (pos 1) ≡ some b))
unfolding get int_eq ℕ_discrete migration_type_eq
migrate_impl_lem_example =
    migrate_impl_lem memory_bits network control [] (pos 1) (pos 1) "b" migrate no_reply

signal_impl_lem_example :
    let o = signal_impl memory_bits network control [] (pos 9) no_reply in
    (o.control ≡ control)
    × (o.world ≡ (calls network (pos 9) locations.db []).1)
    × (o.error ≡ ok tt ↔ AllOk (calls network (pos 9) locations.db []).0)
signal_impl_lem_example = signal_impl_lem memory_bits network control [] (pos 9) no_reply

handle-IsValid_example :
    Invariant.IsValid memory_bits
      (handle memory_bits network control [] (unregister_nymph_args "b") no_reply).control
handle-IsValid_example =
    Invariant.handle-IsValid memory_bits memory_bits-IsLawful network control []
      (unregister_nymph_args "b") no_reply control-IsValid

tick_sound_example :
    let (len, round) = tick locations (get_nymphs memory_bits nymphs) locations 3 4 5 in
    (round ≡ idle)
    ⊎ ((q : Rank) × (src dest : Location) × (round ≡ request q dest.hostname migrate)
        × (get locations q ≡ some src)
        × (lookup dest nymphs.set ≢ none)
        × (dest ≢ src))
tick_sound_example = tick_sound memory_bits locations nymphs 3 4 5 nymphs-IsValid

-- The answer to the client that moves container 1 is lost on its way.
migrate_lem_example :
    let m =
      Client.migrate memory_bits network
        (lost (errorf "connection lost"))
        control
        []
        (pos 1)
        "b"
        migrate in
    let l = Client.allocate_host memory_bits network delivered m.control [] (pos 1) in
    ((m.error ≡ ok tt) × (l.value ≡ "b") × (l.error ≡ ok tt))
    ⊎ ((e : Error) × (m.error ≡ err e)
        × WasOrIsAt memory_bits network control m.control (pos 1) "b")
unfolding migration_type_eq
migrate_lem_example =
    Client.migrate_lem memory_bits network (lost (errorf "connection lost")) control [] [] (pos 1)
      "b" migrate refl
