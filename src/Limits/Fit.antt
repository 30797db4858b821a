-- ===== src/Limits/Fit.antt =====
-- Which of the bounds of runtime/src/lib.rs fit each other.
use lunes_nightly.Prelude.{◌*◌, ◌≤◌, ◌<◌, ◌≡◌, arith, refl}
use lunes_nightly.Limits.{
  normal_block_length, im_online_unsigned_priority, staking_unsigned_priority,
  multi_phase_unsigned_priority, miner_max_length, max_electing_voters, max_electable_targets,
  max_on_chain_electing_voters, max_on_chain_electable_targets, max_active_validators,
  aura_max_authorities, grandpa_max_authorities, max_code_len, preimage_max_size,
}

-- A heartbeat goes before a solution of the election, as the source's comment says.
heartbeats_first :
    (multi_phase_unsigned_priority < staking_unsigned_priority)
    × (staking_unsigned_priority < im_online_unsigned_priority)
heartbeats_first = (omega arith, omega arith)

-- A solution of the miner and a contract's code fit into the normal part of a block; a preimage of
-- the largest size does not.
lengths_fit :
    (miner_max_length < normal_block_length)
    × (max_code_len < normal_block_length)
    × (normal_block_length < preimage_max_size)
lengths_fit = (omega arith, omega arith, omega arith)

-- The elections on chain are smaller than the miner's and have room for all the winners; more
-- validators can be elected than Aura and Grandpa hold authorities.
elections_fit :
    (max_on_chain_electing_voters ≤ max_electing_voters)
    × (max_on_chain_electable_targets ≤ max_electable_targets)
    × (max_active_validators ≤ max_on_chain_electable_targets)
    × (aura_max_authorities ≡ grandpa_max_authorities)
    × (31 * aura_max_authorities < max_active_validators)
elections_fit = (omega arith, omega arith, omega arith, refl, omega arith)
