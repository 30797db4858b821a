-- ===== src/Fees/Bounds.antt =====
-- The range, the monotonicity and the calibration of `WeightToFeeLunes::weight_to_fee`
-- (runtime/src/lib.rs).
use lunes_nightly.Prelude.{◌+◌, ◌/◌, ◌≤◌, ◌<◌, ◌≡◌, ◌↔◌, max, arith, u64_max}
use lunes_nightly.Fees.{Weight, weight_to_fee, minimum_weight_fee, weight_fee_divisor}

-- Both readings of a weight are `u64`.
pub record IsWeight (w : Weight) : Type 0 where
  pub ref_time_fits : w.ref_time ≤ u64_max
  pub proof_size_fits : w.proof_size ≤ u64_max

-- For every weight of two `u64` readings no step of the conversion saturates: the fee is the floor
-- or the quotient of the exact sum of the two readings by the divisor, whichever is larger, and it
-- is below 2 ^ 65.
pub weight_to_fee_exact :
    (w : Weight)
    → IsWeight w
    → (weight_to_fee w ≡ max ((w.ref_time + w.proof_size) / weight_fee_divisor) minimum_weight_fee)
      × (weight_to_fee w < 36_893_488_147_419_103_232)
unfolding weight_to_fee
weight_to_fee_exact w h = omega arith

-- No weight, of whatever size, is converted into a fee below the floor, and a weight with larger
-- readings never costs less.
weight_to_fee_mono :
    (v w : Weight)
    → v.ref_time ≤ w.ref_time
    → v.proof_size ≤ w.proof_size
    → (minimum_weight_fee ≤ weight_to_fee v) × (weight_to_fee v ≤ weight_to_fee w)
unfolding weight_to_fee
weight_to_fee_mono v w h k = omega arith

abbrev pub add_weights : Weight → Weight → Weight
add_weights v w = record {
  ref_time = v.ref_time + w.ref_time;
  proof_size = v.proof_size + w.proof_size;
}

-- Splitting work over two extrinsics never makes it cheaper by more than one unit: the fee of the
-- joined weight is at most one above the sum of the two fees.
weight_to_fee_subadditive :
    (v w : Weight) → weight_to_fee (add_weights v w) ≤ weight_to_fee v + weight_to_fee w + 1
unfolding weight_to_fee
weight_to_fee_subadditive v w = omega arith

-- For two `u64` readings the fee lies above the floor exactly when they add up to 1,381,380 or
-- more, and it is the floor for all lighter weights.
weight_to_fee_floor_iff :
    (w : Weight)
    → IsWeight w
    → (minimum_weight_fee < weight_to_fee w) ↔ (1_381_380 ≤ w.ref_time + w.proof_size)
unfolding weight_to_fee
weight_to_fee_floor_iff w h = (omega arith, omega arith)

-- The calibration of the fee: for every weight `u`, and for a weight `v` of two `u64` readings that
-- are no larger than those of `w`: `v` pays at least the floor and no more than `w`; splitting the
-- work of `w` and `u` over two extrinsics makes it cheaper by at most one unit; and the fee of `v`
-- lies above the floor exactly when its readings add up to 1,381,380 or more.
weight_to_fee_calibrated :
    (u v w : Weight)
    → IsWeight v
    → v.ref_time ≤ w.ref_time
    → v.proof_size ≤ w.proof_size
    → (minimum_weight_fee ≤ weight_to_fee v)
      × (weight_to_fee v ≤ weight_to_fee w)
      × (weight_to_fee (add_weights w u) ≤ weight_to_fee w + weight_to_fee u + 1)
      × ((minimum_weight_fee < weight_to_fee v) ↔ (1_381_380 ≤ v.ref_time + v.proof_size))
weight_to_fee_calibrated u v w fits h k =
    let (floor, ascends) = weight_to_fee_mono v w h k in
    (floor, ascends, weight_to_fee_subadditive w u, weight_to_fee_floor_iff v fits)
