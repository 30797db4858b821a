-- ===== src/Election.antt =====
-- The balancing of the off-chain election miner (runtime/src/lib.rs, `OffchainRandomBalancing`).
use lunes_nightly.Prelude.{
  ℕ, ◌%◌, ◌≤◌, ◌≡◌, refl, Option, some, arith, u32_max, saturating_add, if◌then◌else◌, ◌==◌,
}

-- `MINER_MAX_ITERATIONS`
abbrev pub miner_max_iterations : ℕ
miner_max_iterations = 10

pub record BalancingConfig : Type 0 where
  pub iterations : ℕ
  pub tolerance : ℕ

-- `OffchainRandomBalancing::get`, for the number that the random seed decodes to and the largest
-- number of iterations; the source has `MINER_MAX_ITERATIONS` for it.
unfoldable pub random_balancing : ℕ → ℕ → Option BalancingConfig
random_balancing top random =
    let iterations = (if top == 0 then 0 else random % saturating_add u32_max top 1) in
    some (record { iterations = iterations; tolerance = 0 })

unfoldable pub offchain_random_balancing : ℕ → Option BalancingConfig
unfolding random_balancing
offchain_random_balancing random = random_balancing miner_max_iterations random

-- For every random number the miner gets a configuration of at most `MINER_MAX_ITERATIONS`
-- iterations with tolerance 0, and every number of iterations up to that is got for some.
offchain_random_balancing_range :
    (random wanted : ℕ)
    → ((n : ℕ) × (offchain_random_balancing random
          ≡ some (record { iterations = n; tolerance = 0 }))
        × (n ≤ miner_max_iterations))
      × (wanted ≤ miner_max_iterations
          → (seed : ℕ) × (offchain_random_balancing seed
              ≡ some (record { iterations = wanted; tolerance = 0 })))
unfolding offchain_random_balancing
offchain_random_balancing_range random wanted =
    ((random % 11, refl, omega arith), λ small. (wanted, ground arith))
