-- ===== src/Coordinator/LocationDb.antt =====
-- location.go: where each container runs. Each method holds the mutex, so it is one step.
pub mod Laws
pub mod Stat
use konk.Base.{
  ℕ, ◌+◌, String, ◌≡◌, refl, ap, Bool, true, false, Option, none, some, List, [], ◌∷◌, Eq, ◌==◌,
  string_eq, int_eq, Fallible, ok, err, errorf,
}
use konk.Base.Dict.{Dict, lookup, insert, erase}
use konk.Container.Types.{Rank}
use mathlib.Core.Logic.{dite}

pub record Location : Type 0 where
  pub hostname : String

Location-discrete : Discrete Location
Location-discrete a b =
    dite (string_eq.dec a.hostname b.hostname) (λ p. yes (λ i. record { hostname = p i }))
      (λ n. no (λ p. n (ap (λ (l : Location). l.hostname) p)))

instance unfoldable pub location_eq : Eq Location
unfolding Location-discrete
location_eq = record { dec = Location-discrete }

pub record LocationDb : Type 0 where
  pub db : Dict Rank Location

abbrev pub new_location_db : LocationDb
new_location_db = record { db = [] }

unfoldable pub get : LocationDb → Rank → Option Location
get l rank = lookup rank l.db

unfoldable pub set : LocationDb → Rank → Location → LocationDb
set l rank location = record { db = insert rank location l.db }

-- Only the host that a container is registered at may delete its record.
unfoldable pub unset : LocationDb → Rank → Location → LocationDb × Fallible
unset l rank old_location = elim (lookup rank l.db) [
  | none ↦ (l, err (errorf "Container %v was not registered"))
  | some cur_host ↦ elim (cur_host == old_location) [
    | true ↦ (record { db = erase rank l.db }, ok tt)
    | false ↦ (l, err (errorf "Request for deleting %v@%v came from %v"))
  ]
]

pub record LocationInfo : Type 0 where
  pub container_count : ℕ

-- One round of the loop. `info` is a copy of the map's entry, and the code increments the copy.
abbrev pub count_location : Location → Dict Location LocationInfo → Dict Location LocationInfo
count_location location info_map = elim (lookup location info_map) [
  | none ↦ insert location (record { container_count = 1 }) info_map
  | some info ↦ let info' = record info { container_count = info.container_count + 1 } in info_map
]

unfoldable pub stat_loop :
    Dict Rank Location → Dict Location LocationInfo → Dict Location LocationInfo
stat_loop [] info_map = info_map
stat_loop ((_, location) ∷ db) info_map = stat_loop db (count_location location info_map)

unfoldable pub locations_stat : LocationDb → Dict Location LocationInfo
locations_stat l = stat_loop l.db []

-- The copy shares its map with the original, so it shows later writes; every caller reads it at once.
abbrev pub dump : LocationDb → LocationDb
dump l = l
