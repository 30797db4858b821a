-- ===== src/Transaction/Period.antt =====
-- The period of a transaction's era (`create_transaction`, runtime/src/lib.rs).
use lunes_nightly.Prelude.{
  ℕ, zero, suc, ◌*◌, ◌/◌, ◌^◌, ◌≤◌, ◌<◌, ◌≡◌, none, some, arith, leb, Bool-cases, inl, inr, ap,
}
use native.Mathlib.Nat.{pow-zero, pow-succ'}
use lunes_nightly.Transaction.{power_from, checked_next_power_of_two, mortal_period}

-- `q` is the smallest power of two that is not below `n`.
abbrev pub IsNextPower : ℕ → ℕ → Type 0
IsNextPower n q = (j : ℕ) × (q ≡ 2 ^ j) × (n ≤ q) × (q < 2 * n)

next_power : (p left : ℕ) → 2 * p * 2 ^ left ≡ p * (2 * 2 ^ left)
next_power p left = grind arith

power_from-IsNextPower :
    (left j p n : ℕ)
    → p ≡ 2 ^ j
    → p < 2 * n
    → n ≤ p * 2 ^ left
    → (q : ℕ) × (power_from (suc left) p n ≡ some q) × IsNextPower n q
unfolding power_from
power_from-IsNextPower zero j p n e below enough =
    (p, ground (arith, pow-zero 2), (j, e, omega (arith, pow-zero 2), below))
power_from-IsNextPower (suc left) j p n e below enough = elim (Bool-cases (leb n p)) [
  | inl reached ↦ (p, ground arith, (j, e, ground arith, below))
  | inr short ↦
      let (q, found, next) =
        power_from-IsNextPower left (suc j) (2 * p) n (omega (arith, pow-succ' 2 j)) (ground arith)
          (rw (next_power p left) (omega (arith, ap (λ (t : ℕ). p * t) (pow-succ' 2 left)))) in
      (q, ground (arith, found), next)
]

pow_pos : (k : ℕ) → 0 < 2 ^ k
pow_pos zero = omega (arith, pow-zero 2)
pow_pos (suc k) = omega (arith, pow-succ' 2 k, pow_pos k)

power_from-none : (left p n : ℕ) → p * 2 ^ left < n → power_from (suc left) p n ≡ none
unfolding power_from
power_from-none zero p n over = let short : p < n = omega (arith, pow-zero 2) in ground arith
power_from-none (suc left) p n over =
    let doubled : 2 * p * 2 ^ left < n =
      rw (next_power p left) (omega (arith, ap (λ (t : ℕ). p * t) (pow-succ' 2 left))) in
    let short : p < n = grind (arith, pow_pos (suc left)) in
    ground (arith, power_from-none left (2 * p) n doubled)

half_power : (q j : ℕ) → q ≡ 2 ^ j → 2 ≤ q → ((k : ℕ) × (q / 2 ≡ 2 ^ k)) × (2 * (q / 2) ≡ q)
half_power q zero e two = absurd (omega (arith, pow-zero 2))
half_power q (suc k) e two =
    let twice = pow-succ' 2 k in ((k, omega (arith, twice)), omega (arith, twice))

-- For a block hash count of at least 2 and at most 2 ^ 31, the period of the era is a power of two
-- below the count and not below its half: the longest period for which the chain still knows the
-- hash of the block that the era begins with. For larger counts, to which no power of two in a
-- `u32` corresponds, the period is 2.
pub mortal_period_bounds :
    (count : ℕ)
    → 2 ≤ count
    → (count ≤ 2 ^ 31
        → ((j : ℕ) × (mortal_period count ≡ 2 ^ j))
          × (mortal_period count < count)
          × (count ≤ 2 * mortal_period count))
      × (2 ^ 31 < count → mortal_period count ≡ 2)
unfolding mortal_period checked_next_power_of_two
mortal_period_bounds count positive = (
  λ small.
      let (q, found, (j, e, ge, lt)) =
        power_from-IsNextPower 31 0 1 count (omega (arith, pow-zero 2)) (omega arith)
          (omega arith) in
      let (half, exact) = half_power q j e (omega arith) in
      rw (found, mortal_period) (half, omega arith, omega arith),
  λ large. rw (power_from-none 31 1 count (omega arith), mortal_period),
)
