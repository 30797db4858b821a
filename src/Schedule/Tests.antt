-- ===== src/Schedule/Tests.antt =====
-- The periods with blocks of six seconds, as the specification before had them, and of one second.
use lunes_nightly.Prelude.{◌+◌, ◌*◌, ◌≤◌, ◌≡◌, ◌↔◌, refl, arith}
use lunes_nightly.Schedule.{
  voting_period, bonding, timed_blocks, counted_blocks, signed_phase, unsigned_phase, era_blocks,
}
use lunes_nightly.Schedule.WallTime.{wall_time, block_time_change}

block_time_change_example :
    (wall_time 6000 (timed_blocks 6000 voting_period)
      ≡ wall_time 1000 (timed_blocks 1000 voting_period))
    × (wall_time 6000 (counted_blocks bonding) ≡ 6 * wall_time 1000 (counted_blocks bonding))
    × ((signed_phase 6000 + unsigned_phase 6000 ≤ era_blocks) ↔ (2 ≤ 6))
block_time_change_example = block_time_change 6 10 voting_period bonding (omega arith)

-- A vote takes 28 days, and the 672 eras of bonding take 33 hours and 36 minutes.
vote_days : wall_time 1000 (timed_blocks 1000 voting_period) ≡ 28 * 24 * 60 * 60 * 1000
unfolding timed_blocks
vote_days = refl

bonding_hours : wall_time 1000 (counted_blocks bonding) ≡ (33 * 60 + 36) * 60 * 1000
unfolding counted_blocks
bonding_hours = refl
