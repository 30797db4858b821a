-- ===== src/Schedule/Windows.antt =====
-- The windows that are given in eras and sessions, against each other (runtime/src/lib.rs).
use lunes_nightly.Prelude.{◌*◌, ◌≡◌, refl}
use lunes_nightly.Constants.{epoch_duration_in_slots}
use lunes_nightly.Schedule.{
  bonding_duration, sessions_per_era, report_longevity, counted_blocks, bonding, slash_defer,
  history, set_id_history,
}

-- The longevity of reports is what the comment beside it says, and 20 times the time for which funds
-- stay bonded; a slash is deferred for a quarter of that time; validators' history is kept for an
-- eighth of it, and the set ids for a twenty-fourth.
windows :
    (report_longevity ≡ bonding_duration * sessions_per_era * epoch_duration_in_slots)
    × (report_longevity ≡ 20 * counted_blocks bonding)
    × (4 * counted_blocks slash_defer ≡ counted_blocks bonding)
    × (8 * counted_blocks history ≡ counted_blocks bonding)
    × (24 * counted_blocks set_id_history ≡ counted_blocks bonding)
unfolding counted_blocks
windows = (refl, refl, refl, refl, refl)
