-- ===== src/Schedule/WallTime.antt =====
-- What a change of the block time does to the periods (runtime/src/lib.rs and docs/NETWORK_TUNING.md).
use native.Mathlib.Nat.{div-eq_of_eq-mul_right, mul_comm, mul_assoc, mul-le-mul, le_refl}
use lunes_nightly.Prelude.{
  ℕ, zero, suc, ◌+◌, ◌*◌, ◌/◌, ◌≤◌, ◌<◌, ◌≡◌, ◌↔◌, arith, sym, ap, Bool-cases, leb, inl, inr,
}
use lunes_nightly.Constants.{millisecs_per_block}
use lunes_nightly.Schedule.{
  Timed, Counted, epoch_duration, council_motion_duration, technical_motion_duration,
  alliance_motion_duration, launch_period, voting_period, fast_track_voting_period,
  enactment_period, cooloff_period, spend_period, tip_countdown, bounty_deposit_payout_delay,
  bounty_update_period, max_deadline_duration, minutes_of, timed_blocks, counted_blocks,
  signed_phase, unsigned_phase, era_blocks,
}

-- A period of a number of blocks, in milliseconds.
abbrev pub wall_time : ℕ → ℕ → ℕ
wall_time millisecs blocks = blocks * millisecs

-- A period that the source gives in units of time, in minutes.
abbrev minutes_in : Timed → ℕ
minutes_in epoch_duration = 10
minutes_in council_motion_duration = 5 * 60 * 24
minutes_in technical_motion_duration = 5 * 60 * 24
minutes_in alliance_motion_duration = 5 * 60 * 24
minutes_in launch_period = 28 * 24 * 60
minutes_in voting_period = 28 * 24 * 60
minutes_in fast_track_voting_period = 3 * 24 * 60
minutes_in enactment_period = 30 * 24 * 60
minutes_in cooloff_period = 28 * 24 * 60
minutes_in spend_period = 1 * 60 * 24
minutes_in tip_countdown = 1 * 60 * 24
minutes_in bounty_deposit_payout_delay = 1 * 60 * 24
minutes_in bounty_update_period = 14 * 60 * 24
minutes_in max_deadline_duration = 12 * 30 * 60 * 24

timed_minutes : (ms : ℕ) (p : Timed) → timed_blocks ms p ≡ minutes_in p * minutes_of ms
unfolding timed_blocks
timed_minutes ms epoch_duration = omega arith
timed_minutes ms council_motion_duration = omega arith
timed_minutes ms technical_motion_duration = omega arith
timed_minutes ms alliance_motion_duration = omega arith
timed_minutes ms launch_period = omega arith
timed_minutes ms voting_period = omega arith
timed_minutes ms fast_track_voting_period = omega arith
timed_minutes ms enactment_period = omega arith
timed_minutes ms cooloff_period = omega arith
timed_minutes ms spend_period = omega arith
timed_minutes ms tip_countdown = omega arith
timed_minutes ms bounty_deposit_payout_delay = omega arith
timed_minutes ms bounty_update_period = omega arith
timed_minutes ms max_deadline_duration = omega arith

positive : (s k : ℕ) → s * k ≡ 60 → 0 < s
positive zero k h = absurd (omega (arith, h))
positive (suc s) k h = omega arith

-- A block time of `s` whole seconds that divides a minute: `k` blocks are a minute.
minutes_whole : (s k : ℕ) → s * k ≡ 60 → minutes_of (1000 * s) ≡ k
minutes_whole s k h =
    let whole : 1000 * s / 1000 ≡ s = omega arith in
    rw whole (div-eq_of_eq-mul_right (positive s k h) (sym h))

-- A minute of blocks is a minute.
minute : (s k : ℕ) → s * k ≡ 60 → wall_time (1000 * s) k ≡ 60_000
minute s k h = omega (arith, h, mul_comm s k)

-- Two seconds for a block, or more, and the two phases of an election fit into an era.
phases_fit_iff :
    (s k : ℕ)
    → s * k ≡ 60
    → (signed_phase (1000 * s) + unsigned_phase (1000 * s) ≤ era_blocks) ↔ (2 ≤ s)
phases_fit_iff s k h =
    let m = minutes_whole s k h in
    let some_time = positive s k h in
    (
      (λ fits. elim (Bool-cases (leb 2 s)) [
        | inl slow ↦ ground arith
        | inr fast ↦
            let one : s ≡ 1 = ground arith in
            let full : k ≡ 60 = omega (arith, h, ap (λ t. t * k) one) in
            absurd (omega (arith, m, full, fits))
      ]),
      (λ slow.
          let half : 2 * k ≤ 60 = omega (arith, h, mul-le-mul slow (le_refl k)) in
          omega (arith, m, half)),
    )

-- With blocks of `s` whole seconds, a divisor of a minute, the periods that the source gives in units
-- of time last as long as with the blocks of one second that the runtime has; the periods that it
-- gives in blocks, sessions and eras last `s` times as long. And the two phases of an election fit into
-- an era exactly with blocks of two seconds or more, so not with those of the runtime.
pub block_time_change :
    (s k : ℕ) (p : Timed) (q : Counted)
    → s * k ≡ 60
    → (wall_time (1000 * s) (timed_blocks (1000 * s) p)
        ≡ wall_time millisecs_per_block (timed_blocks millisecs_per_block p))
      × (wall_time (1000 * s) (counted_blocks q)
          ≡ s * wall_time millisecs_per_block (counted_blocks q))
      × ((signed_phase (1000 * s) + unsigned_phase (1000 * s) ≤ era_blocks) ↔ (2 ≤ s))
block_time_change s k p q h = (
  rw
      (
        timed_minutes (1000 * s) p,
        timed_minutes millisecs_per_block p,
        minutes_whole s k h,
        mul_assoc (minutes_in p) k (1000 * s),
        minute s k h,
      )
      (omega arith),
  omega (arith, mul_comm (counted_blocks q) s),
  phases_fit_iff s k h,
)
