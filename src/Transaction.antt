-- ===== src/Transaction.antt =====
-- Signed transactions that the node makes itself: `create_transaction` of runtime/src/lib.rs, for
-- off-chain workers, and `create_benchmark_extrinsic` of node/src/benchmarking.rs. Eras, payloads
-- and signatures are not part of the repository and enter as a record of operations.
pub mod Period
pub mod Signed
mod Tests
use lunes_nightly.Prelude.{
  ℕ, zero, suc, ◌*◌, ◌/◌, Option, none, some, true, false, List, [], ◌∷◌, leb, saturating_sub,
}

-- `BlockHashCount`
abbrev pub block_hash_count : ℕ
block_hash_count = 2400

-- The search of `u32::checked_next_power_of_two` from `p` on, over the powers that are left.
unfoldable pub power_from : ℕ → ℕ → ℕ → Option ℕ
power_from zero p n = none
power_from (suc left) p n = elim (leb n p) [ true ↦ some p | false ↦ power_from left (2 * p) n ]

-- The 32 powers of two that a `u32` holds.
unfoldable pub checked_next_power_of_two : ℕ → Option ℕ
checked_next_power_of_two n = power_from 32 1 n

-- `checked_next_power_of_two().map(|c| c / 2).unwrap_or(2)`
unfoldable pub mortal_period : ℕ → ℕ
mortal_period count = elim (checked_next_power_of_two count) [ none ↦ 2 | some c ↦ c / 2 ]

-- The tuple `SignedExtra`, in its order.
pub data Extension (Era : Type 0) : Type 0 where
  check_non_zero_sender check_spec_version check_tx_version check_genesis : Extension Era
  check_era : Era → Extension Era
  check_nonce : ℕ → Extension Era
  check_weight restrict_asset_mint : Extension Era
  charge_transaction_payment : ℕ → Extension Era

pub record Signing : Type 1 where
  pub RuntimeCall : Type 0
  pub Era : Type 0
  pub mortal : ℕ → ℕ → Era
  pub Payload : Type 0
  -- `SignedPayload::new`; `none` is its error, which the code logs and drops.
  pub new_payload : RuntimeCall → List (Extension Era) → Option Payload
  pub deconstruct : Payload → RuntimeCall × List (Extension Era)
  pub Public : Type 0
  pub Signature : Type 0
  -- `using_encoded(|payload| C::sign(payload, public))`
  pub sign : Payload → Public → Option Signature
  pub Address : Type 0
  pub unlookup : ℕ → Address

module _ (s : Signing) where
  open s use {
    RuntimeCall, Era, mortal, Payload, new_payload, deconstruct, Public, Signature, sign, Address,
    unlookup,
  }

  -- The `extra` of `create_transaction`, for the nonce and the number of the block in progress.
  unfoldable pub transaction_extra : ℕ → ℕ → List (Extension Era)
  transaction_extra nonce block_number =
      let tip : ℕ = 0 in
      let period = mortal_period block_hash_count in
      let current_block = saturating_sub block_number 1 in
      let era = mortal period current_block in
      check_non_zero_sender
      ∷ check_spec_version
      ∷ check_tx_version
      ∷ check_genesis
      ∷ check_era era
      ∷ check_nonce nonce
      ∷ check_weight
      ∷ restrict_asset_mint
      ∷ charge_transaction_payment tip
      ∷ []

  -- A transaction: its call, and the address, the signature and the extra that go with it.
  pub record Transaction : Type 0 where
    pub call : RuntimeCall
    pub address : Address
    pub signature : Signature
    pub extra : List (Extension Era)

  unfoldable pub create_transaction : RuntimeCall → Public → ℕ → ℕ → ℕ → Option Transaction
  create_transaction call public account nonce block_number =
      elim (new_payload call (transaction_extra nonce block_number)) [
        | none ↦ none
        | some raw_payload ↦ elim (sign raw_payload public) [
          | none ↦ none
          | some signature ↦ some (record {
            call = (deconstruct raw_payload).0;
            address = unlookup account;
            signature = signature;
            extra = (deconstruct raw_payload).1;
          })
        ]
      ]

  -- The `extra` of `create_benchmark_extrinsic`, for the nonce and the number of the best block.
  unfoldable pub benchmark_extra : ℕ → ℕ → List (Extension Era)
  benchmark_extra nonce best_block =
      let period = mortal_period block_hash_count in
      check_non_zero_sender
      ∷ check_spec_version
      ∷ check_tx_version
      ∷ check_genesis
      ∷ check_era (mortal period best_block)
      ∷ check_nonce nonce
      ∷ check_weight
      ∷ restrict_asset_mint
      ∷ charge_transaction_payment 0
      ∷ []
