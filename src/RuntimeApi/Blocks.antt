-- ===== src/RuntimeApi/Blocks.antt =====
-- The APIs of runtime/src/lib.rs for making, importing and checking blocks: `Core`, `Metadata`,
-- `BlockBuilder`, `TaggedTransactionQueue` and `OffchainWorkerApi`. The executive and the inherents
-- are parameters.
use lunes_nightly.Prelude.{ℕ, Option, List}
use lunes_nightly.Benchmark.{spec_version, transaction_version}

-- `VERSION`, without the name and the list of APIs.
pub record RuntimeVersion : Type 0 where
  pub authoring_version : ℕ
  pub spec_version : ℕ
  pub impl_version : ℕ
  pub transaction_version : ℕ
  pub state_version : ℕ

abbrev pub runtime_version : RuntimeVersion
runtime_version = record {
  authoring_version = 1;
  spec_version = spec_version;
  impl_version = 1;
  transaction_version = transaction_version;
  state_version = 1;
}

pub record Block (Header Extrinsic : Type 0) : Type 0 where
  pub header : Header
  pub extrinsics : List Extrinsic

pub record Executive : Type 1 where
  pub Chain : Type 0
  pub Header : Type 0
  pub Extrinsic : Type 0
  pub Hash : Type 0
  pub ApplyExtrinsicResult : Type 0
  pub TransactionSource : Type 0
  pub TransactionValidity : Type 0
  pub InherentData : Type 0
  pub CheckInherentsResult : Type 0
  pub OpaqueMetadata : Type 0
  -- `none` is a panic, which refuses the block.
  pub execute_block : Block Header Extrinsic → Chain → Option Chain
  pub initialize_block : Header → Chain → Chain
  pub apply_extrinsic : Extrinsic → Chain → ApplyExtrinsicResult × Chain
  pub finalize_block : Chain → Header × Chain
  pub validate_transaction :
      TransactionSource → Extrinsic → Hash → Chain → TransactionValidity × Chain
  pub offchain_worker : Header → Chain → Chain
  pub create_extrinsics : InherentData → Chain → List Extrinsic
  pub check_extrinsics : InherentData → Block Header Extrinsic → Chain → CheckInherentsResult
  -- `OpaqueMetadata::new(Runtime::metadata().into())`
  pub runtime_metadata : OpaqueMetadata

module _ (x : Executive) where
  open x use {
    Chain, Header, Extrinsic, Hash, ApplyExtrinsicResult, TransactionSource, TransactionValidity,
    InherentData, CheckInherentsResult, OpaqueMetadata,
  }

  -- `Core`
  abbrev pub api_version : RuntimeVersion
  api_version = runtime_version

  unfoldable pub execute_block : Block Header Extrinsic → Chain → Option Chain
  execute_block block c = x.execute_block block c

  unfoldable pub initialize_block : Header → Chain → Chain
  initialize_block header c = x.initialize_block header c

  -- `Metadata`
  abbrev pub api_metadata : OpaqueMetadata
  api_metadata = x.runtime_metadata

  -- `BlockBuilder`
  unfoldable pub apply_extrinsic : Extrinsic → Chain → ApplyExtrinsicResult × Chain
  apply_extrinsic extrinsic c = x.apply_extrinsic extrinsic c

  unfoldable pub finalize_block : Chain → Header × Chain
  finalize_block c = x.finalize_block c

  unfoldable pub inherent_extrinsics : InherentData → Chain → List Extrinsic
  inherent_extrinsics inherents c = x.create_extrinsics inherents c

  unfoldable pub check_inherents :
      Block Header Extrinsic → InherentData → Chain → CheckInherentsResult
  check_inherents block inherents c = x.check_extrinsics inherents block c

  -- `TaggedTransactionQueue`
  unfoldable pub validate_transaction :
      TransactionSource → Extrinsic → Hash → Chain → TransactionValidity × Chain
  validate_transaction source tx block_hash c = x.validate_transaction source tx block_hash c

  -- `OffchainWorkerApi`
  unfoldable pub offchain_worker : Header → Chain → Chain
  offchain_worker header c = x.offchain_worker header c
