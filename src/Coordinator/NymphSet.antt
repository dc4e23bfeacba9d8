-- ===== src/Coordinator/NymphSet.antt =====
-- nymph_set.go: the identifiers that registered nymphs hold. The bit set is that of
-- github.com/willf/bitset, a parameter here. Each method holds the mutex, so it is one step.
pub mod Bits
pub mod Laws
pub mod Memory
use konk.Base.{ℕ, Bool, true, false, Option, none, some, List, []}
use konk.Base.Dict.{Dict, keys, lookup, insert, erase}
use konk.Coordinator.LocationDb.{Location, location_eq}
use Bits.{BitSet}

pub record NymphSet (B : BitSet) : Type 0 where
  pub active_ids : B.Bits
  pub set : Dict Location ℕ

module _ (B : BitSet) where
  abbrev pub new_nymph_set : NymphSet B
  new_nymph_set = record { active_ids = B.empty; set = [] }

  -- The lowest free bit, or the number of bits in use if there is none.
  abbrev pub next_id : B.Bits → ℕ
  next_id s = elim (B.next_clear 0 s) [ none ↦ B.count s | some id ↦ id ]

  unfoldable pub add : NymphSet B → Location → NymphSet B × ℕ
  add n location =
      let id = next_id n.active_ids in
      (record { active_ids = B.set id n.active_ids; set = insert location id n.set }, id)

  unfoldable pub del : NymphSet B → Location → NymphSet B × Bool
  del n location = elim (lookup location n.set) [
    | none ↦ (n, false)
    | some id ↦ (record { active_ids = B.clear id n.active_ids; set = erase location n.set }, true)
  ]

  unfoldable pub get_nymphs : NymphSet B → List Location
  get_nymphs n = keys n.set
