-- ===== src/Coordinator/NymphSet/Memory.antt =====
-- A bit set that meets the interface: a list of bits, the lowest first.
use konk.Base.{
  ℕ, zero, suc, ◌≤◌, ◌<◌, ◌≡◌, refl, Bool, true, false, Option, none, some, arith, List, [], ◌∷◌,
  if◌then◌else◌, nat_beq, length,
}
use konk.Coordinator.NymphSet.Bits.{BitSet, IsLawful, count_below}

unfoldable pub test : List Bool → ℕ → Bool
test [] i = false
test (b ∷ s) zero = b
test (b ∷ s) (suc i) = test s i

abbrev suc_option : Option ℕ → Option ℕ
suc_option none = none
suc_option (some i) = some (suc i)

unfoldable pub next_clear : ℕ → List Bool → Option ℕ
next_clear i [] = none
next_clear zero (false ∷ s) = some 0
next_clear zero (true ∷ s) = suc_option (next_clear zero s)
next_clear (suc i) (b ∷ s) = suc_option (next_clear i s)

unfoldable pub set : ℕ → List Bool → List Bool
set zero [] = true ∷ []
set (suc i) [] = false ∷ set i []
set zero (b ∷ s) = true ∷ s
set (suc i) (b ∷ s) = b ∷ set i s

unfoldable pub clear : ℕ → List Bool → List Bool
clear i [] = []
clear zero (b ∷ s) = false ∷ s
clear (suc i) (b ∷ s) = b ∷ clear i s

abbrev pub memory_bits : BitSet
memory_bits = record {
  Bits = List Bool;
  empty = [];
  test = test;
  len = length;
  next_clear = next_clear;
  count = λ s. count_below (test s) (length s);
  set = set;
  clear = clear;
}

test-set : (i j : ℕ) (s : List Bool) → test (set i s) j ≡ (if nat_beq i j then true else test s j)
unfolding test set
test-set zero zero [] = refl
test-set zero (suc j) [] = ground arith
test-set (suc i) zero [] = ground arith
test-set (suc i) (suc j) [] = ground (arith, test-set i j [])
test-set zero zero (b ∷ s) = refl
test-set zero (suc j) (b ∷ s) = ground arith
test-set (suc i) zero (b ∷ s) = ground arith
test-set (suc i) (suc j) (b ∷ s) = ground (arith, test-set i j s)

test-clear :
    (i j : ℕ) (s : List Bool) → test (clear i s) j ≡ (if nat_beq i j then false else test s j)
unfolding test clear
test-clear i j [] = ground arith
test-clear zero zero (b ∷ s) = refl
test-clear zero (suc j) (b ∷ s) = ground arith
test-clear (suc i) zero (b ∷ s) = ground arith
test-clear (suc i) (suc j) (b ∷ s) = ground (arith, test-clear i j s)

test_above : (j : ℕ) (s : List Bool) → length s ≤ j → test s j ≡ false
unfolding test
test_above j [] h = refl
test_above zero (b ∷ s) h = absurd (omega arith)
test_above (suc j) (b ∷ s) h = test_above j s (omega arith)

next_clear_some : (i j : ℕ) (s : List Bool) → next_clear i s ≡ some j → test s j ≡ false
unfolding test next_clear
next_clear_some i j [] e = cc
next_clear_some zero j (false ∷ s) e = ground arith
next_clear_some zero zero (true ∷ s) e = ground arith
next_clear_some zero (suc j) (true ∷ s) e = next_clear_some zero j s (ground arith)
next_clear_some (suc i) zero (b ∷ s) e = ground arith
next_clear_some (suc i) (suc j) (b ∷ s) e = next_clear_some i j s (ground arith)

next_clear_none :
    (i j : ℕ) (s : List Bool) → next_clear i s ≡ none → i ≤ j → j < length s → test s j ≡ true
unfolding test next_clear
next_clear_none i j [] e l h = absurd (omega arith)
next_clear_none zero j (false ∷ s) e l h = cc
next_clear_none zero zero (true ∷ s) e l h = refl
next_clear_none zero (suc j) (true ∷ s) e l h =
    next_clear_none zero j s (ground arith) (omega arith) (omega arith)
next_clear_none (suc i) zero (b ∷ s) e l h = absurd (omega arith)
next_clear_none (suc i) (suc j) (b ∷ s) e l h =
    next_clear_none i j s (ground arith) (omega arith) (omega arith)

pub memory_bits-IsLawful : IsLawful memory_bits
unfolding test
memory_bits-IsLawful = record {
  test-empty = λ j. refl;
  test-set = test-set;
  test-clear = test-clear;
  test_above = test_above;
  next_clear_some = next_clear_some;
  next_clear_none = next_clear_none;
  count_lem = λ s. refl;
}
