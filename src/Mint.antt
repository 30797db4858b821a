-- ===== src/Mint.antt =====
-- The signed extension `RestrictAssetMint` (runtime/src/lib.rs), which looks at the call of a signed
-- extrinsic before it is dispatched. The calls and the pallets behind them are not part of the
-- repository: a call is read as far as the extension and the laws in the children need it.
pub mod Lock
pub mod Open
mod Tests
use lunes_nightly.Prelude.{ℕ, Bool, Result, ok, err, List, not, ◌&&◌, ◌==◌, ltb, if◌then◌else◌}

-- The calls of the runtime: `Assets::mint`, with the asset, the beneficiary and the amount; the
-- batches of the utility pallet, which hold calls; and all else.
mutual
  pub data RuntimeCall : Type 0 where
    assets_mint : ℕ → ℕ → ℕ → RuntimeCall
    utility_batch : Calls → RuntimeCall
    any_other : ℕ → RuntimeCall

  pub data Calls : Type 0 where
    none_left : Calls
    then_call : RuntimeCall → Calls → Calls

pub record Transactions : Type 1 where
  pub Chain : Type 0
  pub total_supply : ℕ → Chain → ℕ
  pub ValidTransaction : Type 0
  pub default_valid : ValidTransaction
  pub TransactionValidityError : Type 0
  -- `InvalidTransaction::Custom(n).into()`
  pub invalid_custom : ℕ → TransactionValidityError
  -- The dispatch of a call that a signer has sent: whether it succeeds, and the new state.
  pub dispatch : RuntimeCall → ℕ → Chain → Bool × Chain
  -- A signed extrinsic that the other extensions let pass, with the `pre_dispatch` of one: the call
  -- of a signer, on a state.
  pub apply_extrinsic :
      (RuntimeCall → Chain → Result TransactionValidityError (Unit {0}))
      → ℕ
      → RuntimeCall
      → Chain
      → Chain

abbrev pub usdt_asset_id : ℕ
usdt_asset_id = 2

module _ (t : Transactions) where
  open t use {
    Chain, total_supply, ValidTransaction, default_valid, TransactionValidityError, invalid_custom,
  }

  -- `RestrictAssetMint::validate`
  unfoldable pub validate : RuntimeCall → Chain → Result TransactionValidityError ValidTransaction
  validate (assets_mint id_raw beneficiary amount) c =
      let supply = total_supply id_raw c in
      if not (id_raw == usdt_asset_id) && ltb 0 supply
      then err (invalid_custom 1)
      else ok default_valid
  validate (utility_batch calls) c = ok default_valid
  validate (any_other call) c = ok default_valid

  -- `RestrictAssetMint::additional_signed`: nothing of its own is signed.
  unfoldable pub additional_signed : Result TransactionValidityError (Unit {0})
  additional_signed = ok tt

  -- `RestrictAssetMint::pre_dispatch`
  unfoldable pub pre_dispatch : RuntimeCall → Chain → Result TransactionValidityError (Unit {0})
  pre_dispatch (assets_mint id_raw beneficiary amount) c =
      let supply = total_supply id_raw c in
      if not (id_raw == usdt_asset_id) && ltb 0 supply then err (invalid_custom 1) else ok tt
  pre_dispatch (utility_batch calls) c = ok tt
  pre_dispatch (any_other call) c = ok tt
