-- ===== src/VoterBags/Tests.antt =====
-- A score among the bags of runtime/src/voter_bags.rs.
use lunes_nightly.Prelude.{arith}
use lunes_nightly.VoterBags.{thresholds}
use lunes_nightly.VoterBags.Cover.{Bag, thresholds-Bag}

thresholds-Bag_example : Bag 110_000_000_000_000 thresholds
thresholds-Bag_example = thresholds-Bag 110_000_000_000_000 (omega arith)
