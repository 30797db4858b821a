-- ===== src/RuntimeApi/Contracts.antt =====
-- `ContractsApi` of runtime/src/lib.rs: dry runs of contracts with the gas of a whole block unless
-- the caller gives a limit. The contracts pallet is a parameter.
use lunes_nightly.Prelude.{ℕ, ◌≤◌, ◌≡◌, Bool, true, Option, none, some, refl}
use lunes_nightly.Fees.{Weight, max_block}

-- `pallet_contracts::Determinism`
pub data Determinism : Type 0 where
  deterministic relaxed : Determinism

-- The pallet: its operations on the state of the chain, each with its answer and the new state.
pub record Contracts : Type 1 where
  pub AccountId : Type 0
  pub Bytes : Type 0
  pub Code : Type 0
  pub Chain : Type 0
  pub ContractExecResult : Type 0
  pub ContractInstantiateResult : Type 0
  pub CodeUploadResult : Type 0
  pub GetStorageResult : Type 0
  -- `gas_consumed` of the two results
  pub gas_consumed : ContractExecResult → Weight
  pub gas_instantiated : ContractInstantiateResult → Weight
  pub bare_call :
      AccountId
      → AccountId
      → ℕ
      → Weight
      → Option ℕ
      → Bytes
      → Bool
      → Determinism
      → Chain
      → ContractExecResult × Chain
  pub bare_instantiate :
      AccountId
      → ℕ
      → Weight
      → Option ℕ
      → Code
      → Bytes
      → Bytes
      → Bool
      → Chain
      → ContractInstantiateResult × Chain
  pub bare_upload_code :
      AccountId → Bytes → Option ℕ → Determinism → Chain → CodeUploadResult × Chain
  pub get_storage : AccountId → Bytes → Chain → GetStorageResult

-- `gas_limit.unwrap_or(RuntimeBlockWeights::get().max_block)`
unfoldable pub gas_or_block : Option Weight → Weight
gas_or_block none = max_block
gas_or_block (some w) = w

module _ (t : Contracts) where
  open t use {
    AccountId, Bytes, Code, Chain, ContractExecResult, ContractInstantiateResult, CodeUploadResult,
    GetStorageResult, gas_consumed, gas_instantiated,
  }

  unfoldable pub contracts_call :
      AccountId
      → AccountId
      → ℕ
      → Option Weight
      → Option ℕ
      → Bytes
      → Chain
      → ContractExecResult × Chain
  contracts_call origin dest value gas_limit storage_deposit_limit input_data c =
      let gas_limit = gas_or_block gas_limit in
      t.bare_call origin dest value gas_limit storage_deposit_limit input_data true deterministic c

  unfoldable pub instantiate :
      AccountId
      → ℕ
      → Option Weight
      → Option ℕ
      → Code
      → Bytes
      → Bytes
      → Chain
      → ContractInstantiateResult × Chain
  instantiate origin value gas_limit storage_deposit_limit code data_bytes salt c =
      let gas_limit = gas_or_block gas_limit in
      t.bare_instantiate origin value gas_limit storage_deposit_limit code data_bytes salt true c

  unfoldable pub upload_code :
      AccountId → Bytes → Option ℕ → Determinism → Chain → CodeUploadResult × Chain
  upload_code origin code storage_deposit_limit determinism c =
      t.bare_upload_code origin code storage_deposit_limit determinism c

  unfoldable pub get_storage : AccountId → Bytes → Chain → GetStorageResult
  get_storage address key c = t.get_storage address key c

-- `Weight::all_lte`
abbrev pub AllLte : Weight → Weight → Type 0
AllLte v w = (v.ref_time ≤ w.ref_time) × (v.proof_size ≤ w.proof_size)

-- What the pallet documents: no run consumes more gas than its limit.
pub record IsMetered (t : Contracts) : Type 0 where
  pub call_gas :
      (origin dest : t.AccountId) (value : ℕ) (limit : Weight) (deposit : Option ℕ)
      (input : t.Bytes) (debug : Bool) (d : Determinism) (c : t.Chain)
      → AllLte
          (t.gas_consumed (t.bare_call origin dest value limit deposit input debug d c).0)
          limit
  pub instantiate_gas :
      (origin : t.AccountId) (value : ℕ) (limit : Weight) (deposit : Option ℕ) (code : t.Code)
      (input salt : t.Bytes) (debug : Bool) (c : t.Chain)
      → AllLte
          (t.gas_instantiated
            (t.bare_instantiate origin value limit deposit code input salt debug c).0)
          limit

module _ (t : Contracts) (laws : IsMetered t) where
  -- A dry run of a call or of an instantiation consumes no more gas than the limit that is given
  -- and, where none is given, no more than the weight of a block; and leaving the limit out is the
  -- same as giving the weight of a block. The contracts pallet keeps to the limit that it is given.
  dry_runs_metered :
      (origin dest : t.AccountId) (value : ℕ) (limit : Option Weight) (deposit : Option ℕ)
      (code : t.Code) (input salt : t.Bytes) (c : t.Chain)
      → AllLte
          (t.gas_consumed (contracts_call t origin dest value limit deposit input c).0)
          (gas_or_block limit)
        × AllLte
            (t.gas_instantiated (instantiate t origin value limit deposit code input salt c).0)
            (gas_or_block limit)
        × (contracts_call t origin dest value none deposit input c
            ≡ contracts_call t origin dest value (some max_block) deposit input c)
        × (instantiate t origin value none deposit code input salt c
            ≡ instantiate t origin value (some max_block) deposit code input salt c)
  unfolding contracts_call instantiate gas_or_block
  dry_runs_metered origin dest value limit deposit code input salt c = (
    laws.call_gas origin dest value (gas_or_block limit) deposit input true deterministic c,
    laws.instantiate_gas origin value (gas_or_block limit) deposit code input salt true c,
    refl,
    refl,
  )
