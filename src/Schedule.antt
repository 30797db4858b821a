-- ===== src/Schedule.antt =====
-- How long the periods of the runtime last (the `parameter_types` of runtime/src/lib.rs and `mod time`
-- of runtime/src/constants.rs). The block time is a parameter, so that two builds can be compared;
-- the runtime has that of `Constants`.
pub mod WallTime
pub mod Windows
mod Tests
use lunes_nightly.Prelude.{ℕ, ◌*◌, ◌/◌}
use lunes_nightly.Constants.{epoch_duration_in_slots}

-- `SessionPeriod`, in blocks
abbrev pub session_period : ℕ
session_period = 30

-- `SessionsPerEra`
abbrev pub sessions_per_era : ℕ
sessions_per_era = 6

-- `BondingDuration`, `SlashDeferDuration` and `HistoryDepth`, in eras
abbrev pub bonding_duration : ℕ
bonding_duration = 24 * 28

abbrev pub slash_defer_duration : ℕ
slash_defer_duration = 24 * 7

abbrev pub history_depth : ℕ
history_depth = 84

-- `MaxSetIdSessionEntries`, in sessions
abbrev pub max_set_id_session_entries : ℕ
max_set_id_session_entries = 168

-- `OffchainRepeat`, in blocks
abbrev pub offchain_repeat : ℕ
offchain_repeat = 5

-- The periods: those that the source gives in units of time, and those that it gives in blocks,
-- sessions and eras.
pub data Timed : Type 0 where
  epoch_duration council_motion_duration technical_motion_duration : Timed
  alliance_motion_duration launch_period voting_period fast_track_voting_period : Timed
  enactment_period cooloff_period spend_period tip_countdown : Timed
  bounty_deposit_payout_delay bounty_update_period max_deadline_duration : Timed

pub data Counted : Type 0 where
  session era bonding slash_defer history set_id_history repeat : Counted

-- `MILLISECS_PER_BLOCK`
module _ (millisecs : ℕ) where
  -- `SECS_PER_BLOCK`
  abbrev secs_of : ℕ
  secs_of = millisecs / 1000

  -- `MINUTES`, `HOURS` and `DAYS`, in blocks
  abbrev pub minutes_of : ℕ
  minutes_of = 60 / secs_of

  abbrev hours_of : ℕ
  hours_of = minutes_of * 60

  abbrev days_of : ℕ
  days_of = hours_of * 24

  -- `EPOCH_DURATION_IN_BLOCKS`
  abbrev epoch_blocks : ℕ
  epoch_blocks = 10 * minutes_of

  -- `SignedPhase` and `UnsignedPhase`
  abbrev pub signed_phase : ℕ
  signed_phase = epoch_blocks / 4

  abbrev pub unsigned_phase : ℕ
  unsigned_phase = epoch_blocks / 4

  abbrev council_motion_duration_blocks : ℕ
  council_motion_duration_blocks = 5 * days_of

  abbrev technical_motion_duration_blocks : ℕ
  technical_motion_duration_blocks = 5 * days_of

  abbrev alliance_motion_duration_blocks : ℕ
  alliance_motion_duration_blocks = 5 * days_of

  abbrev launch_period_blocks : ℕ
  launch_period_blocks = 28 * 24 * 60 * minutes_of

  abbrev voting_period_blocks : ℕ
  voting_period_blocks = 28 * 24 * 60 * minutes_of

  abbrev fast_track_voting_period_blocks : ℕ
  fast_track_voting_period_blocks = 3 * 24 * 60 * minutes_of

  abbrev enactment_period_blocks : ℕ
  enactment_period_blocks = 30 * 24 * 60 * minutes_of

  abbrev cooloff_period_blocks : ℕ
  cooloff_period_blocks = 28 * 24 * 60 * minutes_of

  abbrev spend_period_blocks : ℕ
  spend_period_blocks = 1 * days_of

  abbrev tip_countdown_blocks : ℕ
  tip_countdown_blocks = 1 * days_of

  abbrev bounty_deposit_payout_delay_blocks : ℕ
  bounty_deposit_payout_delay_blocks = 1 * days_of

  abbrev bounty_update_period_blocks : ℕ
  bounty_update_period_blocks = 14 * days_of

  abbrev max_deadline_duration_blocks : ℕ
  max_deadline_duration_blocks = 12 * 30 * days_of

  -- The periods in blocks.
  unfoldable pub timed_blocks : Timed → ℕ
  timed_blocks epoch_duration = epoch_blocks
  timed_blocks council_motion_duration = council_motion_duration_blocks
  timed_blocks technical_motion_duration = technical_motion_duration_blocks
  timed_blocks alliance_motion_duration = alliance_motion_duration_blocks
  timed_blocks launch_period = launch_period_blocks
  timed_blocks voting_period = voting_period_blocks
  timed_blocks fast_track_voting_period = fast_track_voting_period_blocks
  timed_blocks enactment_period = enactment_period_blocks
  timed_blocks cooloff_period = cooloff_period_blocks
  timed_blocks spend_period = spend_period_blocks
  timed_blocks tip_countdown = tip_countdown_blocks
  timed_blocks bounty_deposit_payout_delay = bounty_deposit_payout_delay_blocks
  timed_blocks bounty_update_period = bounty_update_period_blocks
  timed_blocks max_deadline_duration = max_deadline_duration_blocks

-- `ReportLongevity`, in slots
abbrev pub report_longevity : ℕ
report_longevity = 24 * 28 * 6 * epoch_duration_in_slots

-- An era is its number of sessions.
abbrev pub era_blocks : ℕ
era_blocks = sessions_per_era * session_period

unfoldable pub counted_blocks : Counted → ℕ
counted_blocks session = session_period
counted_blocks era = era_blocks
counted_blocks bonding = bonding_duration * era_blocks
counted_blocks slash_defer = slash_defer_duration * era_blocks
counted_blocks history = history_depth * era_blocks
counted_blocks set_id_history = max_set_id_session_entries * session_period
counted_blocks repeat = offchain_repeat
