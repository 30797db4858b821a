-- ===== src/RuntimeApi/Payment.antt =====
-- The configuration of `pallet_transaction_payment` and the two APIs that quote fees
-- (runtime/src/lib.rs). The pallet is a parameter that is given the configuration.
use lunes_nightly.Prelude.{ℕ, saturating_mul, u128_max, Bool, Option}
use lunes_nightly.Fees.{Weight, weight_to_fee, max_block}

-- `TransactionByteFee`
abbrev pub transaction_byte_fee : ℕ
transaction_byte_fee = 10

-- `ConstantMultiplier<Balance, TransactionByteFee>`
unfoldable pub length_to_fee : ℕ → ℕ
length_to_fee len = saturating_mul u128_max len transaction_byte_fee

-- What the runtime sets in `pallet_transaction_payment::Config`.
pub record Config (Multiplier : Type 0) : Type 0 where
  pub operational_fee_multiplier : ℕ
  pub weight_to_fee : Weight → ℕ
  pub length_to_fee : ℕ → ℕ
  pub fee_multiplier_update : Multiplier → Multiplier
  pub max_block : Weight

-- `RuntimeDispatchInfo`, as far as fees need it.
pub record DispatchInfo : Type 0 where
  pub weight : Weight
  pub partial_fee : ℕ

-- `InclusionFee`, the part of `FeeDetails` that is not the tip; a tip is not quoted.
pub record InclusionFee : Type 0 where
  pub base_fee : ℕ
  pub len_fee : ℕ
  pub adjusted_weight_fee : ℕ

-- The pallet, with what it reads of extrinsics and calls: their weight and whether they pay.
pub record TransactionPayment : Type 1 where
  pub Extrinsic : Type 0
  pub RuntimeCall : Type 0
  pub Multiplier : Type 0
  pub Chain : Type 0
  pub one : Multiplier
  pub next_fee_multiplier : Chain → Multiplier
  pub saturating_mul_int : Multiplier → ℕ → ℕ
  -- The stored multiplier at the end of a block.
  pub on_finalize : Config Multiplier → Chain → Chain
  pub weight_of : RuntimeCall → Weight
  pub pays_fee : RuntimeCall → Bool
  pub base_extrinsic : Weight
  pub function_of : Extrinsic → RuntimeCall
  pub is_signed : Extrinsic → Bool
  pub query_info : Config Multiplier → Extrinsic → ℕ → Chain → DispatchInfo
  pub query_fee_details : Config Multiplier → Extrinsic → ℕ → Chain → Option InclusionFee
  pub query_call_info : Config Multiplier → RuntimeCall → ℕ → Chain → DispatchInfo
  pub query_call_fee_details : Config Multiplier → RuntimeCall → ℕ → Chain → Option InclusionFee
  pub weight_to_fee : Config Multiplier → Weight → ℕ
  pub length_to_fee : Config Multiplier → ℕ → ℕ

module _ (t : TransactionPayment) where
  open t use {Extrinsic, RuntimeCall, Chain}

  -- `impl pallet_transaction_payment::Config for Runtime`, with `FeeMultiplier`. A collected fee goes
  -- to `OnChargeTransaction`, which is `on_unbalanceds` of `Fees.Deal` and no part of a quote.
  abbrev pub config : Config t.Multiplier
  config = record {
    operational_fee_multiplier = 5;
    weight_to_fee = weight_to_fee;
    length_to_fee = length_to_fee;
    fee_multiplier_update = λ previous. t.one;
    max_block = max_block;
  }

  -- `TransactionPaymentApi`
  unfoldable pub query_info : Extrinsic → ℕ → Chain → DispatchInfo
  query_info uxt len c = t.query_info config uxt len c

  unfoldable pub query_fee_details : Extrinsic → ℕ → Chain → Option InclusionFee
  query_fee_details uxt len c = t.query_fee_details config uxt len c

  unfoldable pub query_weight_to_fee : Weight → ℕ
  query_weight_to_fee weight = t.weight_to_fee config weight

  unfoldable pub query_length_to_fee : ℕ → ℕ
  query_length_to_fee length = t.length_to_fee config length

  -- `TransactionPaymentCallApi`
  unfoldable pub query_call_info : RuntimeCall → ℕ → Chain → DispatchInfo
  query_call_info call len c = t.query_call_info config call len c

  unfoldable pub query_call_fee_details : RuntimeCall → ℕ → Chain → Option InclusionFee
  query_call_fee_details call len c = t.query_call_fee_details config call len c

  unfoldable pub query_call_weight_to_fee : Weight → ℕ
  query_call_weight_to_fee weight = t.weight_to_fee config weight

  unfoldable pub query_call_length_to_fee : ℕ → ℕ
  query_call_length_to_fee length = t.length_to_fee config length
