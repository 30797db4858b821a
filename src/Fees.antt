-- ===== src/Fees.antt =====
-- Transaction fees (runtime/src/lib.rs): the conversion of weight into a fee, the constants that
-- calibrate it (runtime/src/constants.rs for `UNIT`), and, in the children, its laws and the
-- distribution of a collected fee.
pub mod Bounds
pub mod Deal
pub mod Conservation
pub mod Shares
pub mod Spam
pub mod Mock
mod Tests
use lunes_nightly.Prelude.{ℕ, ◌*◌, ◌/◌, max, saturating_add, saturating_mul, u64_max, u128_max}
use lunes_nightly.Constants.{unit}

-- `PROOF_SIZE_FEE_MULTIPLIER`
abbrev pub proof_size_fee_multiplier : ℕ
proof_size_fee_multiplier = 1

-- `MINIMUM_WEIGHT_FEE`
abbrev pub minimum_weight_fee : ℕ
minimum_weight_fee = 1_000

-- `WEIGHT_FEE_DIVISOR`
abbrev pub weight_fee_divisor : ℕ
weight_fee_divisor = 1_380

-- The two readings of a `Weight` that the conversion takes, both `u64`.
pub record Weight : Type 0 where
  pub ref_time : ℕ
  pub proof_size : ℕ

-- `WeightToFeeLunes::weight_to_fee`. The casts to `u128` keep the value; `saturating_div` by a
-- divisor that is not zero is division.
unfoldable pub weight_to_fee : Weight → ℕ
weight_to_fee weight =
    let ref_time_fee = weight.ref_time in
    let proof_size_fee = saturating_mul u128_max weight.proof_size proof_size_fee_multiplier in
    max (saturating_add u128_max ref_time_fee proof_size_fee / weight_fee_divisor)
      minimum_weight_fee

-- `RuntimeBlockWeights`: the weight of a block, `2u64 * WEIGHT_REF_TIME_PER_SECOND` and `u64::MAX`.
abbrev pub max_block : Weight
max_block = record { ref_time = 2 * 1_000_000_000_000; proof_size = u64_max }

-- `NORMAL_DISPATCH_RATIO`, in per cent
abbrev pub normal_dispatch_ratio : ℕ
normal_dispatch_ratio = 75

-- The shares of a fee, in per cent, and the issuance above which a part is burned.
abbrev pub author_fee_share : ℕ
author_fee_share = 75

abbrev pub treasury_burn_fee_share : ℕ
treasury_burn_fee_share = 25

abbrev pub treasury_half_share : ℕ
treasury_half_share = 50

abbrev pub burn_half_share : ℕ
burn_half_share = 50

abbrev pub deflation_issuance_threshold : ℕ
deflation_issuance_threshold = 50_000_000 * unit
