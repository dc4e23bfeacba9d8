-- ===== src/Coordinator/Scheduler.antt =====
-- scheduler.go: one round of the scheduler, which picks a container and a node to move it to. The
-- random numbers are arguments.
pub mod Choice
use konk.Base.{
  ℕ, ◌-◌, ◌%◌, String, Bool, true, false, Option, none, some, List, [], ◌∷◌, ltb, nat_beq, ◌&&◌,
  not, length, get_elem?, if◌then◌else◌, ◌==◌, int_eq,
}
use konk.Base.Dict.{Dict, keys, insert}
use konk.Container.Types.{Rank, MigrationType, migrate}
use konk.Coordinator.LocationDb.{Location, location_eq, LocationDb, get}

-- `getRanks` collects the ranks in a map first.
abbrev rank_set : Dict Rank Location → Dict Rank Bool → Dict Rank Bool
rank_set [] ranks = ranks
rank_set ((rank, _) ∷ db) ranks = rank_set db (insert rank true ranks)

unfoldable pub get_ranks : LocationDb → List Rank
get_ranks l = keys (rank_set l.db [])

-- `rand.Intn(n)` for a random number: it panics unless `n` is positive.
abbrev pub intn : ℕ → ℕ → Option ℕ
intn r n = if nat_beq n 0 then none else some (r % n)

-- The loop that drops the source from the candidates stops at the first match.
unfoldable pub remove_location : List Location → Location → List Location
remove_location [] src = []
remove_location (l ∷ ls) src = if l == src then ls else l ∷ remove_location ls src

pub data Round : Type 0 where
  idle : Round
  panic : Round
  request : Rank → String → MigrationType → Round

-- `ranks[rand.Intn(len(ranks))]`, with the panics of `Intn` and of an index out of range.
unfoldable pub pick {ℓ} : {A : Type ℓ} → ℕ → List A → Option A
pick r xs = elim (intn r (length xs)) [ none ↦ none | some i ↦ get_elem? xs i ]

-- From the choice of a container on. `current` is the database when the location is looked up, which
-- can be later than when the ranks were read.
unfoldable pub attempt : List Rank → List Location → LocationDb → ℕ → ℕ → Round
attempt ranks locs current r s = elim (pick r ranks) [
  | none ↦ panic
  | some target_cont ↦ elim (get current target_cont) [
    | none ↦ panic
    | some src_loc ↦ elim (pick s (remove_location locs src_loc)) [
      | none ↦ panic
      | some target_loc ↦ request target_cont target_loc.hostname migrate
    ]
  ]
]

-- One tick, with the number of ranks that the last one saw; it returns the number to remember.
unfoldable pub tick : LocationDb → List Location → LocationDb → ℕ → ℕ → ℕ → ℕ × Round
tick l locs current last_len r s =
    let ranks = get_ranks l in
    let cur_len = length ranks in
    if not (ltb 0 cur_len && nat_beq last_len cur_len)
    then (cur_len, idle)
    else if ltb (length locs) 2
    then (cur_len, idle)
    else (cur_len, attempt ranks locs current r s)
