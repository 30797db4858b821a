-- ===== src/Benchmark/Valid.antt =====
-- The extrinsics of node/src/benchmarking.rs pass the signature check of the next block.
use lunes_nightly.Prelude.{ℕ, ◌^◌, ◌≤◌, ◌≡◌, ◌∙◌, refl, ap, Bool, true, some, ok, [], map, arith}
use lunes_nightly.Transaction.{
  Signing, Extension, check_non_zero_sender, check_spec_version, check_tx_version, check_genesis,
  check_era, check_nonce, check_weight, restrict_asset_mint, charge_transaction_payment,
  benchmark_extra, mortal_period, checked_next_power_of_two, power_from, block_hash_count,
}
use lunes_nightly.Benchmark.{
  Benchmarking, Additional, nothing, version, hash, spec_version, transaction_version,
  SignedExtrinsic, create_benchmark_extrinsic, additional_data, RemarkBuilder,
  TransferKeepAliveBuilder, build_remark, build_transfer,
}

-- What the runtime does with a signed extrinsic that it finds in the block after the best one:
-- each extension computes its additional data from the chain, and the signature is checked on the
-- call, the extra and that data.
pub record Checking (s : Signing) (b : Benchmarking s) : Type 0 where
  pub additional : Extension s.Era → b.Client → Additional
  pub verify : s.Signature → s.Payload → ℕ → Bool

-- The checks as the libraries document them.
pub record IsChecking (s : Signing) (b : Benchmarking s) (k : Checking s b) : Type 0 where
  pub verify_signed :
      (pair : b.Pair) (payload : s.Payload)
      → k.verify (b.sign_with pair payload) payload (b.public pair) ≡ true
  pub additional_sender : (c : b.Client) → k.additional check_non_zero_sender c ≡ nothing
  pub additional_spec : (c : b.Client) → k.additional check_spec_version c ≡ version spec_version
  pub additional_tx : (c : b.Client) → k.additional check_tx_version c ≡ version transaction_version
  pub additional_genesis :
      (c : b.Client) (g : ℕ) → b.block_hash_zero c ≡ some g → k.additional check_genesis c ≡ hash g
  -- An era that is mortal from the best block on begins with that block, where its period is a
  -- power of two from 4 to 4096.
  pub additional_era :
      (c : b.Client) (j : ℕ)
      → 2 ≤ j
      → j ≤ 12
      → k.additional (check_era (s.mortal (2 ^ j) (b.best_number c))) c ≡ hash (b.best_hash c)
  pub additional_nonce : (c : b.Client) (n : ℕ) → k.additional (check_nonce n) c ≡ nothing
  pub additional_weight : (c : b.Client) → k.additional check_weight c ≡ nothing
  -- `RestrictAssetMint::additional_signed` of runtime/src/lib.rs.
  pub additional_mint : (c : b.Client) → k.additional restrict_asset_mint c ≡ nothing
  pub additional_payment :
      (c : b.Client) (tip : ℕ) → k.additional (charge_transaction_payment tip) c ≡ nothing

module _ (s : Signing) (b : Benchmarking s) (k : Checking s b) where
  -- The signature of an extrinsic is accepted in the block after the best one.
  abbrev pub IsAccepted : b.Client → SignedExtrinsic s → Type 0
  IsAccepted c x =
      k.verify x.signature (b.from_raw x.call x.extra (map (λ e. k.additional e c) x.extra))
        x.signer
      ≡ true

  module _ (laws : IsChecking s b k) where
    period_lem : mortal_period block_hash_count ≡ 2 ^ 11
    unfolding mortal_period checked_next_power_of_two power_from
    period_lem = refl

    -- What the builder signs is what the runtime checks.
    extra_lem :
        (c : b.Client) (nonce g : ℕ)
        → b.block_hash_zero c ≡ some g
        → map (λ e. k.additional e c) (benchmark_extra s nonce (b.best_number c))
          ≡ additional_data s b g (b.best_hash c)
    unfolding benchmark_extra
    extra_lem c nonce g h =
        rw
          (
            period_lem,
            laws.additional_sender c,
            laws.additional_spec c,
            laws.additional_tx c,
            laws.additional_genesis c g h,
            laws.additional_era c 11 (omega arith) (omega arith),
            laws.additional_nonce c nonce,
            laws.additional_weight c,
            laws.additional_mint c,
            laws.additional_payment c 0,
          )
          refl

    create-IsAccepted :
        (c : b.Client) (pair : b.Pair) (call : s.RuntimeCall) (nonce g : ℕ)
        → b.block_hash_zero c ≡ some g
        → (x : SignedExtrinsic s) × (create_benchmark_extrinsic s b c pair call nonce ≡ some x)
          × (x.call ≡ call)
          × (x.signer ≡ b.public pair)
          × (x.extra ≡ benchmark_extra s nonce (b.best_number c))
          × IsAccepted c x
    unfolding create_benchmark_extrinsic
    create-IsAccepted c pair call nonce g h =
        let extra = benchmark_extra s nonce (b.best_number c) in
        let payload = b.from_raw call extra (additional_data s b g (b.best_hash c)) in
        (
          record {
            call = call;
            signer = b.public pair;
            signature = b.sign_with pair payload;
            extra = extra;
          },
          rw (h, create_benchmark_extrinsic) refl,
          refl,
          refl,
          refl,
          ap (λ t. k.verify (b.sign_with pair payload) (b.from_raw call extra t) (b.public pair))
                (extra_lem c nonce g h)
              ∙ laws.verify_signed pair payload,
        )

    -- On a client with a genesis block both builders return an extrinsic with the nonce that they
    -- are given, signed by Bob: an empty remark, and a transfer of the builder's amount to the
    -- builder's account. The runtime accepts its signature in the block after the best one. The
    -- libraries behave as documented.
    pub build-IsAccepted :
        (remarks : RemarkBuilder s b) (transfers : TransferKeepAliveBuilder s b) (nonce g h : ℕ)
        → b.block_hash_zero remarks.client ≡ some g
        → b.block_hash_zero transfers.client ≡ some h
        → ((x : SignedExtrinsic s) × (build_remark s b remarks nonce ≡ some (ok x))
            × (x.call ≡ b.remark [])
            × (x.signer ≡ b.public b.bob)
            × (x.extra ≡ benchmark_extra s nonce (b.best_number remarks.client))
            × IsAccepted remarks.client x)
          × ((x : SignedExtrinsic s) × (build_transfer s b transfers nonce ≡ some (ok x))
              × (x.call ≡ b.transfer_keep_alive transfers.dest transfers.value)
              × (x.signer ≡ b.public b.bob)
              × (x.extra ≡ benchmark_extra s nonce (b.best_number transfers.client))
              × IsAccepted transfers.client x)
    unfolding build_remark build_transfer
    build-IsAccepted remarks transfers nonce g h first second =
        let (x, made, call, signer, extra, accepted) =
          create-IsAccepted remarks.client b.bob (b.remark []) nonce g first in
        let (y, made', call', signer', extra', accepted') =
          create-IsAccepted transfers.client b.bob
            (b.transfer_keep_alive transfers.dest transfers.value) nonce h second in
        (
          (x, rw (made, build_remark) refl, call, signer, extra, accepted),
          (y, rw (made', build_transfer) refl, call', signer', extra', accepted'),
        )
