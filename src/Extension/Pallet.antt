-- ===== src/Extension/Pallet.antt =====
-- What the chain extension of runtime/src/chain_extension.rs uses and the repository does not
-- hold: the assets pallet, the SCALE codec and the environment of the contracts pallet. The input
-- structs are the extension's own.
use lunes_nightly.Prelude.{ℕ, Bool, String, List, Result, Action}

-- The `Psp22…Input` structs. Assets, accounts and amounts are numbers.
pub record BalanceOfInput : Type 0 where
  pub asset_id : ℕ
  pub owner : ℕ

pub record AllowanceInput : Type 0 where
  pub asset_id : ℕ
  pub owner : ℕ
  pub spender : ℕ

pub record TransferInput : Type 0 where
  pub asset_id : ℕ
  pub to : ℕ
  pub value : ℕ

pub record TransferFromInput : Type 0 where
  pub asset_id : ℕ
  pub from : ℕ
  pub to : ℕ
  pub value : ℕ

pub record ApproveInput : Type 0 where
  pub asset_id : ℕ
  pub spender : ℕ
  pub value : ℕ

pub record BurnInput : Type 0 where
  pub asset_id : ℕ
  pub from : ℕ
  pub value : ℕ

pub record MintInput : Type 0 where
  pub asset_id : ℕ
  pub to : ℕ
  pub value : ℕ

pub record Pallets : Type 1 where
  pub DispatchError : Type 0
  pub other : String → DispatchError
  pub RetVal : Type 0
  pub converging : ℕ → RetVal
  -- The codec's `encode` of a byte string, of a `u8` and of a balance.
  pub encode_bytes : List ℕ → List ℕ
  pub encode_u8 : ℕ → List ℕ
  pub encode_balance : ℕ → List ℕ
  -- `env.read_as` at each type that the handlers read, and `env.write`, on the contract's memory.
  pub Memory : Type 0
  pub read_asset_id : Memory → Result DispatchError ℕ
  pub read_balance_of : Memory → Result DispatchError BalanceOfInput
  pub read_allowance : Memory → Result DispatchError AllowanceInput
  pub read_transfer : Memory → Result DispatchError TransferInput
  pub read_transfer_from : Memory → Result DispatchError TransferFromInput
  pub read_approve : Memory → Result DispatchError ApproveInput
  pub read_burn : Memory → Result DispatchError BurnInput
  pub write : List ℕ → Action Memory DispatchError (Unit {0})
  -- The assets pallet, on the state of the chain.
  pub Chain : Type 0
  pub asset_name : ℕ → Chain → List ℕ
  pub asset_symbol : ℕ → Chain → List ℕ
  pub asset_decimals : ℕ → Chain → ℕ
  pub total_issuance : ℕ → Chain → ℕ
  pub balance : ℕ → ℕ → Chain → ℕ
  -- `allowance asset owner spender`
  pub allowance : ℕ → ℕ → ℕ → Chain → ℕ
  -- `transfer asset source dest amount keep_alive`
  pub transfer : ℕ → ℕ → ℕ → ℕ → Bool → Action Chain DispatchError ℕ
  -- `transfer_from asset owner delegate dest amount`
  pub transfer_from : ℕ → ℕ → ℕ → ℕ → ℕ → Action Chain DispatchError (Unit {0})
  -- `approve asset owner delegate amount`
  pub approve : ℕ → ℕ → ℕ → ℕ → Action Chain DispatchError (Unit {0})
  -- The calls `cancel_approval` and `burn`, by an origin and with an address to look up.
  pub Origin : Type 0
  pub signed : ℕ → Origin
  pub Address : Type 0
  pub unlookup : ℕ → Address
  pub cancel_approval : Origin → ℕ → Address → Action Chain DispatchError (Unit {0})
  pub burn : Origin → ℕ → Address → ℕ → Action Chain DispatchError (Unit {0})
  -- Read by the statements alone: whether an account may burn the asset of others.
  pub is_admin : ℕ → ℕ → Chain → Bool
