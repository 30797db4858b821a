-- ===== src/Constants.antt =====
-- The constants of runtime/src/constants.rs: amounts of money and spans of time.

use lunes_nightly.Prelude.{ℕ, ◌+◌, ◌*◌, ◌/◌, ◌^◌}

-- `mod currency`: amounts in the smallest unit, `u128`.
abbrev pub unit : ℕ
unit = 100_000_000

abbrev pub milliunit : ℕ
milliunit = 1_000_000

abbrev pub microunit : ℕ
microunit = 100_000

abbrev pub nanounit : ℕ
nanounit = 1_000

abbrev pub min_validator_bond : ℕ
min_validator_bond = 50_000 * unit

abbrev pub min_nominator_bond : ℕ
min_nominator_bond = 100 * unit

abbrev pub total_initial_issuance_lunes : ℕ
total_initial_issuance_lunes = 200_000_000 * unit

abbrev pub total_initial_issuance_lunes_test : ℕ
total_initial_issuance_lunes_test = 10_000_000_000 * unit

abbrev pub initial_collator_staking : ℕ
initial_collator_staking = 50_000 * unit

abbrev pub token_decimals : ℕ
token_decimals = 8

abbrev pub token : ℕ
token = 10 ^ token_decimals

abbrev pub contract_deposit_per_byte : ℕ
contract_deposit_per_byte = 4 * (token / 10_000_000)

-- `deposit(items, bytes)`, over `u32` arguments cast to `u128`.
unfoldable pub deposit : ℕ → ℕ → ℕ
deposit items bytes = items * 15 * unit + bytes * 6 * unit

-- `mod time`: spans in milliseconds, or in blocks.
abbrev pub millisecs_per_block : ℕ
millisecs_per_block = 1000

abbrev pub secs_per_block : ℕ
secs_per_block = millisecs_per_block / 1000

abbrev pub slot_duration : ℕ
slot_duration = millisecs_per_block

abbrev pub primary_probability : ℕ × ℕ
primary_probability = (1, 4)

abbrev pub minutes : ℕ
minutes = 60 / secs_per_block

abbrev pub hours : ℕ
hours = minutes * 60

abbrev pub days : ℕ
days = hours * 24

abbrev pub epoch_duration_in_blocks : ℕ
epoch_duration_in_blocks = 10 * minutes

-- The source multiplies by the ratio of the two durations in `f64` and truncates; both durations
-- and the product are whole numbers that an `f64` holds exactly.
abbrev pub epoch_duration_in_slots : ℕ
epoch_duration_in_slots = epoch_duration_in_blocks * (millisecs_per_block / slot_duration)
