-- ===== src/Benchmark/Tests.antt =====
-- The builders of node/src/benchmarking.rs with payloads that are kept whole and signatures that
-- name their signer.
use lunes_nightly.Prelude.{
  ℕ, ◌+◌, ◌≡◌, refl, Bool, true, false, ◌&&◌, some, ok, List, [], ◌∷◌, ◌==◌, arith,
}
use lunes_nightly.Transaction.{
  Signing, Extension, check_non_zero_sender, check_spec_version, check_tx_version, check_genesis,
  check_era, check_nonce, check_weight, restrict_asset_mint, charge_transaction_payment,
  benchmark_extra,
}
use lunes_nightly.Benchmark.{
  Benchmarking, Additional, nothing, version, hash, spec_version, transaction_version,
  SignedExtrinsic, RemarkBuilder, TransferKeepAliveBuilder, build_remark, build_transfer,
}
use lunes_nightly.Benchmark.Valid.{Checking, IsChecking, IsAccepted, build-IsAccepted}

-- A payload is signed by naming the signer; an era is the block that it begins with.
abbrev plain : Signing
plain = record {
  RuntimeCall = List ℕ;
  Era = ℕ;
  mortal = λ period current. current;
  Payload = List ℕ;
  new_payload = λ call extra. some call;
  deconstruct = λ payload. (payload, []);
  Public = ℕ;
  Signature = ℕ × List ℕ;
  sign = λ payload public. some (public, payload);
  Address = ℕ;
  unlookup = λ who. who;
}

abbrev encode : List Additional → List ℕ
encode [] = []
encode (nothing ∷ rest) = 0 ∷ encode rest
encode (version n ∷ rest) = n ∷ encode rest
encode (hash n ∷ rest) = n ∷ encode rest

abbrev same : List ℕ → List ℕ → Bool
same [] [] = true
same [] (y ∷ ys) = false
same (x ∷ xs) [] = false
same (x ∷ xs) (y ∷ ys) = (x == y) && same xs ys

same_refl : (xs : List ℕ) → same xs xs ≡ true
same_refl [] = refl
same_refl (x ∷ xs) = ground (arith, same_refl xs)

-- A client is the number of its best block, whose hash is the number and 1000 more.
abbrev client_at : Benchmarking plain
client_at = record {
  Client = ℕ;
  block_hash_zero = λ c. some 1000;
  best_hash = λ c. 1000 + c;
  best_number = λ c. c;
  from_raw = λ call extra data_list. encode data_list;
  Pair = ℕ;
  public = λ pair. pair;
  sign_with = λ pair payload. (pair, payload);
  bob = 2;
  remark = λ text. 0 ∷ text;
  transfer_keep_alive = λ dest value. 1 ∷ dest ∷ value ∷ [];
}

abbrev runtime_data : Extension ℕ → ℕ → Additional
runtime_data check_non_zero_sender c = nothing
runtime_data check_spec_version c = version spec_version
runtime_data check_tx_version c = version transaction_version
runtime_data check_genesis c = hash 1000
runtime_data (check_era block) c = hash (1000 + block)
runtime_data (check_nonce n) c = nothing
runtime_data check_weight c = nothing
runtime_data restrict_asset_mint c = nothing
runtime_data (charge_transaction_payment tip) c = nothing

abbrev checks : Checking plain client_at
checks = record {
  additional = runtime_data;
  verify = λ signature payload who. (signature.0 == who) && same signature.1 payload;
}

checks-IsChecking : IsChecking plain client_at checks
checks-IsChecking = record {
  verify_signed = λ pair payload. ground (arith, same_refl payload);
  additional_sender = λ c. refl;
  additional_spec = λ c. refl;
  additional_tx = λ c. refl;
  additional_genesis = λ c g h. ground (arith, h);
  additional_era = λ c j _ _. refl;
  additional_nonce = λ c n. refl;
  additional_weight = λ c. refl;
  additional_mint = λ c. refl;
  additional_payment = λ c tip. refl;
}

build-IsAccepted_example :
    let remarks : RemarkBuilder plain client_at = record { client = 9 } in
    let transfers : TransferKeepAliveBuilder plain client_at = record {
      client = 9;
      dest = 1;
      value = 500;
    } in
    ((x : SignedExtrinsic plain) × (build_remark plain client_at remarks 3 ≡ some (ok x))
      × (x.call ≡ 0 ∷ [])
      × (x.signer ≡ 2)
      × (x.extra ≡ benchmark_extra plain 3 9)
      × IsAccepted plain client_at checks 9 x)
    × ((x : SignedExtrinsic plain) × (build_transfer plain client_at transfers 3 ≡ some (ok x))
        × (x.call ≡ 1 ∷ 1 ∷ 500 ∷ [])
        × (x.signer ≡ 2)
        × (x.extra ≡ benchmark_extra plain 3 9)
        × IsAccepted plain client_at checks 9 x)
build-IsAccepted_example =
    build-IsAccepted plain client_at checks checks-IsChecking (record { client = 9 })
      (record { client = 9; dest = 1; value = 500 }) 3 1000 1000 refl refl
