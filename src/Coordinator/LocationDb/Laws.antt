-- ===== src/Coordinator/LocationDb/Laws.antt =====
-- What the methods of the location database do to the location of any one container.
use konk.Base.{
  ◌↔◌, ◌≡◌, ◌&&◌, Bool, true, false, none, some, arith, if◌then◌else◌, ◌==◌, int_eq, ok, Option,
}
use konk.Base.Dict.{NodupKeys, lookup-insert, lookup-erase, insert-NodupKeys, erase-NodupKeys}
use konk.Container.Types.{Rank}
use konk.Coordinator.LocationDb.{Location, location_eq, LocationDb, get, set, unset}

-- No rank has two records.
pub record IsValid (l : LocationDb) : Type 0 where
  pub nodup : NodupKeys l.db

pub set-IsValid : (l : LocationDb) (r : Rank) (loc : Location) → IsValid l → IsValid (set l r loc)
unfolding set
set-IsValid l r loc v = record { nodup = insert-NodupKeys r loc l.db v.nodup }

pub unset-IsValid :
    (l : LocationDb) (r : Rank) (loc : Location) → IsValid l → IsValid (unset l r loc).0
unfolding unset
unset-IsValid l r loc v = ground (arith, erase-NodupKeys r l.db v.nodup)

pub get-set :
    (l : LocationDb) (r q : Rank) (loc : Location)
    → get (set l r loc) q ≡ (if q == r then some loc else get l q)
unfolding get set
get-set l r q loc = lookup-insert q r loc l.db

-- Whether the record of `r` says `loc`.
abbrev pub is_at : Option Location → Location → Bool
is_at none loc = false
is_at (some cur) loc = cur == loc

-- In a database without double records, `Unset` removes the record of a container exactly when it
-- comes from the host of that record; it fails and removes nothing otherwise, and touches no other
-- record in either case.
pub get-unset :
    (l : LocationDb) (r q : Rank) (loc : Location)
    → IsValid l
    → (get (unset l r loc).0 q ≡ (if (q == r) && is_at (get l r) loc then none else get l q))
      × (((unset l r loc).1 ≡ ok tt) ↔ (is_at (get l r) loc ≡ true))
unfolding get unset
get-unset l r q loc v = ground (arith, lookup-erase q r l.db v.nodup)
