-- ===== src/Fees/Spam.antt =====
-- What it costs to fill a block (the fee conversion and the block limits of runtime/src/lib.rs).
use lunes_nightly.Prelude.{ℕ, ◌+◌, ◌*◌, ◌≤◌, arith, List, [], ◌∷◌, length, All}
use lunes_nightly.Fees.{Weight, weight_to_fee, weight_fee_divisor, max_block, normal_dispatch_ratio}
use lunes_nightly.Fees.Bounds.{IsWeight, weight_to_fee_exact}

-- The readings and the fees of extrinsics together.
unfoldable pub total_weight : List Weight → ℕ
total_weight [] = 0
total_weight (w ∷ ws) = w.ref_time + w.proof_size + total_weight ws

unfoldable pub total_fee : List Weight → ℕ
total_fee [] = 0
total_fee (w ∷ ws) = weight_to_fee w + total_fee ws

fee_linear :
    (ws : List Weight)
    → All IsWeight ws
    → (1000 * total_weight ws ≤ 1001 * weight_fee_divisor * total_fee ws)
      × (weight_fee_divisor * total_fee ws ≤ total_weight ws + 1_380_000 * length ws)
unfolding total_weight total_fee
fee_linear [] fits = (omega arith, omega arith)
fee_linear (w ∷ ws) (fit, fits) =
    let one = (weight_to_fee_exact w fit).0 in
    let (low, high) = fee_linear ws fits in (omega (arith, one, low), omega (arith, one, high))

-- Filling a block is not cheap, however the work is cut into extrinsics: if the readings of any
-- extrinsics, each a pair of `u64`, add up to at least the part of a block's time that is for normal
-- extrinsics, their weight fees add up to at least 1,085,870,566 units, which is more than ten LUNES.
-- And the fees of any number of extrinsics are at most what their readings ask for by the divisor,
-- and 1,000 units for each extrinsic.
pub full_block_fees :
    (ws : List Weight)
    → All IsWeight ws
    → normal_dispatch_ratio * max_block.ref_time ≤ 100 * total_weight ws
    → (1_085_870_566 ≤ total_fee ws)
      × (weight_fee_divisor * total_fee ws ≤ total_weight ws + 1_380_000 * length ws)
full_block_fees ws fits full =
    let (low, high) = fee_linear ws fits in (omega (arith, low, full), high)
