-- ===== src/Limits.antt =====
-- Bounds of numbers and sizes that the configuration of runtime/src/lib.rs hands to the pallets, as far
-- as they bear on each other.
mod Fit
use lunes_nightly.Prelude.{ℕ, ◌*◌, ◌/◌, ◌-◌, ◌^◌, List, [], ◌∷◌, u64_max}
use lunes_nightly.Fees.{normal_dispatch_ratio}

-- `MAX_BLOCK_SIZE`, in bytes, and the share of normal extrinsics in it.
abbrev pub max_block_size : ℕ
max_block_size = 5 * 1024 * 1024

abbrev pub normal_block_length : ℕ
normal_block_length = max_block_size * normal_dispatch_ratio / 100

-- The priorities of the unsigned transactions, of 64 bits. `StakingUnsignedPriority` is used for that
-- of the election miner alone.
abbrev pub im_online_unsigned_priority : ℕ
im_online_unsigned_priority = u64_max

abbrev pub staking_unsigned_priority : ℕ
staking_unsigned_priority = u64_max / 2

abbrev pub multi_phase_unsigned_priority : ℕ
multi_phase_unsigned_priority = staking_unsigned_priority - 1

-- `MinerMaxLength`, nine tenths of that length.
abbrev pub miner_max_length : ℕ
miner_max_length = normal_block_length * 9 / 10

-- The elections: for the miner, and on chain.
abbrev pub max_nominations : ℕ
max_nominations = 16

abbrev pub max_electing_voters : ℕ
max_electing_voters = 40_000

abbrev pub max_electable_targets : ℕ
max_electable_targets = 10_000

abbrev pub max_on_chain_electing_voters : ℕ
max_on_chain_electing_voters = 5_000

abbrev pub max_on_chain_electable_targets : ℕ
max_on_chain_electable_targets = 1_250

abbrev pub max_active_validators : ℕ
max_active_validators = 1_000

abbrev pub max_nominator_rewarded_per_validator : ℕ
max_nominator_rewarded_per_validator = 256

-- `MaxAuthorities` of Aura and of Grandpa.
abbrev pub aura_max_authorities : ℕ
aura_max_authorities = 32

abbrev pub grandpa_max_authorities : ℕ
grandpa_max_authorities = 32

-- `MaxCodeLen` and `PreimageMaxSize`, in bytes.
abbrev pub max_code_len : ℕ
max_code_len = 123 * 1024

abbrev pub preimage_max_size : ℕ
preimage_max_size = 4096 * 1024
