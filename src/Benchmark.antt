-- ===== src/Benchmark.antt =====
-- The extrinsics of the benchmark commands (node/src/benchmarking.rs). Signing is as in
-- `Transaction`; the client and the keys are not part of the repository.
pub mod Valid
mod Tests
use lunes_nightly.Prelude.{ℕ, String, Option, none, some, Result, ok, err, List, [], ◌∷◌}
use lunes_nightly.Transaction.{Signing, Extension, benchmark_extra}

-- `VERSION.spec_version` and `VERSION.transaction_version` (runtime/src/lib.rs)
abbrev pub spec_version : ℕ
spec_version = 108

abbrev pub transaction_version : ℕ
transaction_version = 2

-- What an extension adds to the bytes that are signed.
pub data Additional : Type 0 where
  nothing : Additional
  version : ℕ → Additional
  hash : ℕ → Additional

pub record Benchmarking (s : Signing) : Type 1 where
  pub Client : Type 0
  -- `client.block_hash(0)`, with the errors left out; and the best block.
  pub block_hash_zero : Client → Option ℕ
  pub best_hash : Client → ℕ
  pub best_number : Client → ℕ
  -- `SignedPayload::from_raw`
  pub from_raw : s.RuntimeCall → List (Extension s.Era) → List Additional → s.Payload
  pub Pair : Type 0
  -- The account of a pair's public key.
  pub public : Pair → ℕ
  pub sign_with : Pair → s.Payload → s.Signature
  -- `Sr25519Keyring::Bob.pair()`
  pub bob : Pair
  pub remark : List ℕ → s.RuntimeCall
  -- `transfer_keep_alive` to an account, of an amount.
  pub transfer_keep_alive : ℕ → ℕ → s.RuntimeCall

-- `UncheckedExtrinsic::new_signed`: the address is that of the account.
pub record SignedExtrinsic (s : Signing) : Type 0 where
  pub call : s.RuntimeCall
  pub signer : ℕ
  pub signature : s.Signature
  pub extra : List (Extension s.Era)

module _ (s : Signing) (b : Benchmarking s) where
  open s use {RuntimeCall}
  open b use {Client, Pair, from_raw}

  -- The additional data of `create_benchmark_extrinsic`, for the genesis block and the best block.
  abbrev pub additional_data : ℕ → ℕ → List Additional
  additional_data genesis_hash best_hash =
      nothing
      ∷ version spec_version
      ∷ version transaction_version
      ∷ hash genesis_hash
      ∷ hash best_hash
      ∷ nothing
      ∷ nothing
      ∷ nothing
      ∷ nothing
      ∷ []

  -- `create_benchmark_extrinsic`; `none` is the panic without a genesis block.
  unfoldable pub create_benchmark_extrinsic :
      Client → Pair → RuntimeCall → ℕ → Option (SignedExtrinsic s)
  create_benchmark_extrinsic client sender call nonce = elim (b.block_hash_zero client) [
    | none ↦ none
    | some genesis_hash ↦
        let extra = benchmark_extra s nonce (b.best_number client) in
        let raw_payload = from_raw call extra (additional_data genesis_hash (b.best_hash client)) in
        some (record {
          call = call;
          signer = b.public sender;
          signature = b.sign_with sender raw_payload;
          extra = extra;
        })
  ]

  pub record RemarkBuilder : Type 0 where
    pub client : Client

  pub record TransferKeepAliveBuilder : Type 0 where
    pub client : Client
    pub dest : ℕ
    pub value : ℕ

  abbrev pub remark_pallet : RemarkBuilder → String × String
  remark_pallet builder = ("system", "remark")

  abbrev pub transfer_pallet : TransferKeepAliveBuilder → String × String
  transfer_pallet builder = ("balances", "transfer_keep_alive")

  -- `RemarkBuilder::build`; `none` is a panic.
  unfoldable pub build_remark : RemarkBuilder → ℕ → Option (Result String (SignedExtrinsic s))
  build_remark builder nonce =
      elim (create_benchmark_extrinsic builder.client b.bob (b.remark []) nonce) [
        | none ↦ none
        | some extrinsic ↦ some (ok extrinsic)
      ]

  -- `TransferKeepAliveBuilder::build`
  unfoldable pub build_transfer :
      TransferKeepAliveBuilder → ℕ → Option (Result String (SignedExtrinsic s))
  build_transfer builder nonce =
      elim (create_benchmark_extrinsic builder.client b.bob
        (b.transfer_keep_alive builder.dest builder.value) nonce) [
          | none ↦ none
          | some extrinsic ↦ some (ok extrinsic)
        ]
