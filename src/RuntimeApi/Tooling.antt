-- ===== src/RuntimeApi/Tooling.antt =====
-- The APIs that runtime/src/lib.rs has in builds for benchmarks (`Benchmark`) and for try-runtime
-- (`TryRuntime`). The benchmarks of the pallets and the executive are parameters; `none` is a panic.
use lunes_nightly.Prelude.{String, Bool, List, [], Option, none, some, Result, ok, err}
use lunes_nightly.Fees.{Weight, max_block}
use lunes_nightly.Pallets.{Runner, benchmarks}

-- `frame_benchmarking`, with the runners of the table.
pub record Benchmarking : Type 1 where
  pub BenchmarkList : Type 0
  pub StorageInfo : Type 0
  pub StorageKey : Type 0
  pub BenchmarkBatch : Type 0
  pub BenchmarkConfig : Type 0
  pub RuntimeString : Type 0
  -- `AllPalletsWithSystem`
  pub all_storage_info : List StorageInfo
  pub all_whitelisted_keys : List StorageKey
  -- `list_benchmarks!` and `add_benchmarks!`, which `define_benchmarks!` makes of its table.
  pub list_benchmarks : List (String × Runner) → Bool → List BenchmarkList
  pub add_benchmarks :
      List (String × Runner)
      → BenchmarkConfig × List StorageKey
      → List BenchmarkBatch
      → Result RuntimeString (List BenchmarkBatch)

module _ (b : Benchmarking) where
  open b use {
    BenchmarkList, StorageInfo, StorageKey, BenchmarkBatch, BenchmarkConfig, RuntimeString,
  }

  unfoldable pub benchmark_metadata : Bool → List BenchmarkList × List StorageInfo
  benchmark_metadata extra = (b.list_benchmarks benchmarks extra, b.all_storage_info)

  unfoldable pub dispatch_benchmark : BenchmarkConfig → Result RuntimeString (List BenchmarkBatch)
  dispatch_benchmark config =
      let params : BenchmarkConfig × List StorageKey = (config, b.all_whitelisted_keys) in
      b.add_benchmarks benchmarks params []

-- The executive under try-runtime, on the state of the chain.
pub record TryExecutive : Type 1 where
  pub Chain : Type 0
  pub Error : Type 0
  pub UpgradeCheckSelect : Type 0
  pub TryStateSelect : Type 0
  pub Block : Type 0
  pub try_runtime_upgrade : UpgradeCheckSelect → Chain → Result Error Weight × Chain
  pub try_execute_block : Block → Bool → Bool → TryStateSelect → Chain → Result Error Weight × Chain

module _ (t : TryExecutive) where
  open t use {Chain, Error, UpgradeCheckSelect, TryStateSelect, Block}

  -- `unwrap` and `expect`
  abbrev unwrap : {A : Type 0} → Result Error A × Chain → Option (A × Chain)
  unwrap (ok a, c) = some (a, c)
  unwrap (err e, c) = none

  unfoldable pub try_on_runtime_upgrade :
      UpgradeCheckSelect → Chain → Option ((Weight × Weight) × Chain)
  try_on_runtime_upgrade checks c = elim (unwrap (t.try_runtime_upgrade checks c)) [
    | some (weight, c') ↦ some ((weight, max_block), c')
    | none ↦ none
  ]

  unfoldable pub try_execute_block :
      Block → Bool → Bool → TryStateSelect → Chain → Option (Weight × Chain)
  try_execute_block block state_root_check signature_check select c =
      unwrap (t.try_execute_block block state_root_check signature_check select c)
