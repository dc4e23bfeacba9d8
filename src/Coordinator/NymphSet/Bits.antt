-- ===== src/Coordinator/NymphSet/Bits.antt =====
-- The interface of the bit set, the documented behaviour that the code relies on, and a value that
-- meets it.
use konk.Base.{
  ℕ, zero, suc, ◌+◌, ◌≤◌, ◌<◌, ◌≡◌, refl, Bool, true, false, Option, none, some, arith,
  if◌then◌else◌, nat_beq,
}

pub record BitSet : Type 1 where
  pub Bits : Type 0
  pub empty : Bits
  pub test : Bits → ℕ → Bool
  pub len : Bits → ℕ
  pub next_clear : ℕ → Bits → Option ℕ
  pub count : Bits → ℕ
  pub set : ℕ → Bits → Bits
  pub clear : ℕ → Bits → Bits

-- How many numbers below a bound pass a test.
abbrev pub count_below : (ℕ → Bool) → ℕ → ℕ
count_below p zero = 0
count_below p (suc n) = (if p n then 1 else 0) + count_below p n

pub record IsLawful (B : BitSet) : Type 0 where
  pub test-empty : (j : ℕ) → B.test B.empty j ≡ false
  pub test-set :
      (i j : ℕ) (s : B.Bits) → B.test (B.set i s) j ≡ (if nat_beq i j then true else B.test s j)
  pub test-clear :
      (i j : ℕ) (s : B.Bits) → B.test (B.clear i s) j ≡ (if nat_beq i j then false else B.test s j)
  pub test_above : (j : ℕ) (s : B.Bits) → B.len s ≤ j → B.test s j ≡ false
  -- `NextClear(i)` finds the first clear bit from `i` on, and reports none if all up to the length
  -- are set.
  pub next_clear_some : (i j : ℕ) (s : B.Bits) → B.next_clear i s ≡ some j → B.test s j ≡ false
  pub next_clear_none :
      (i j : ℕ) (s : B.Bits) → B.next_clear i s ≡ none → i ≤ j → j < B.len s → B.test s j ≡ true
  pub count_lem : (s : B.Bits) → B.count s ≡ count_below (B.test s) (B.len s)

pub count_below_full : (p : ℕ → Bool) (n : ℕ) → ((j : ℕ) → j < n → p j ≡ true) → count_below p n ≡ n
count_below_full p zero h = refl
count_below_full p (suc n) h =
    ground (arith, h n (omega arith), count_below_full p n (λ j l. h j (omega arith)))
