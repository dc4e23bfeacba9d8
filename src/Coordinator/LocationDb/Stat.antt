-- ===== src/Coordinator/LocationDb/Stat.antt =====
-- What `LocationsStat` reports.
use konk.Base.{
  ◌≡◌, ◌||◌, Bool, false, Option, none, some, [], ◌∷◌, arith, if◌then◌else◌, ◌==◌, int_eq,
}
use konk.Base.Dict.{Dict, lookup, lookup-insert}
use konk.Container.Types.{Rank}
use konk.Coordinator.LocationDb.{
  Location, location_eq, LocationDb, LocationInfo, count_location, stat_loop, locations_stat,
}

-- Whether some container runs at `loc`.
abbrev pub hosts : Location → Dict Rank Location → Bool
hosts loc [] = false
hosts loc ((_, l) ∷ db) = loc == l || hosts loc db

abbrev one : LocationInfo
one = record { container_count = 1 }

abbrev or_one : Bool → Option LocationInfo → Option LocationInfo
or_one b none = if b then some one else none
or_one b (some i) = some i

lookup-stat_loop :
    (loc : Location) (db : Dict Rank Location) (m : Dict Location LocationInfo)
    → lookup loc (stat_loop db m) ≡ or_one (hosts loc db) (lookup loc m)
unfolding stat_loop
lookup-stat_loop loc [] m = ground arith
lookup-stat_loop loc ((_, l) ∷ db) m =
    ground (arith, lookup-stat_loop loc db (count_location l m), lookup-insert loc l one m)

-- The report has an entry for each location with a container and for no other, and every entry
-- says 1, however many containers run there.
pub lookup-locations_stat :
    (l : LocationDb) (loc : Location)
    → lookup loc (locations_stat l)
      ≡ (if hosts loc l.db then some (record { container_count = 1 }) else none)
unfolding locations_stat
lookup-locations_stat l loc = lookup-stat_loop loc l.db []
