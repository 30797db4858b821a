-- ===== src/RuntimeApi/Tests.antt =====
-- The quotes of runtime/src/lib.rs at a small payment pallet.
use lunes_nightly.Prelude.{ℕ, ◌*◌, ◌≡◌, refl, arith, Bool, true, Option, none, some, if◌then◌else◌}
use lunes_nightly.Fees.{Weight, weight_to_fee}
use lunes_nightly.RuntimeApi.Payment.{
  TransactionPayment, Config, InclusionFee, DispatchInfo, query_info, query_fee_details,
  query_weight_to_fee, query_length_to_fee, query_call_info, query_call_fee_details,
  query_call_weight_to_fee, query_call_length_to_fee,
}
use lunes_nightly.RuntimeApi.Contracts.{Contracts, IsMetered}
use lunes_nightly.RuntimeApi.Quotes.{min_weight, final_fee, IsLawful, fee_of, quotes_exact}

abbrev base : Weight
base = record { ref_time = 100_000_000; proof_size = 0 }

-- A call is its weight and whether it pays; an extrinsic is a signed call; the multiplier is a
-- number, and a chain is the multiplier that it stores.
abbrev Call : Type 0
Call = Weight × Bool

abbrev capped_fee : Config ℕ → Weight → ℕ
capped_fee f w = f.weight_to_fee (min_weight w f.max_block)

abbrev details : Config ℕ → Call → ℕ → ℕ → Option InclusionFee
details f (w, pays) len c =
    if pays
    then some (record {
      base_fee = capped_fee f base;
      len_fee = f.length_to_fee len;
      adjusted_weight_fee = c * capped_fee f w;
    })
    else none

abbrev info : Config ℕ → Call → ℕ → ℕ → DispatchInfo
info f call len c = record { weight = call.0; partial_fee = final_fee (details f call len c) }

abbrev payment : TransactionPayment
payment = record {
  Extrinsic = Call;
  RuntimeCall = Call;
  Multiplier = ℕ;
  Chain = ℕ;
  one = 1;
  next_fee_multiplier = λ c. c;
  saturating_mul_int = λ m n. m * n;
  on_finalize = λ f c. f.fee_multiplier_update c;
  weight_of = λ call. call.0;
  pays_fee = λ call. call.1;
  base_extrinsic = base;
  function_of = λ x. x;
  is_signed = λ x. true;
  query_info = info;
  query_fee_details = details;
  query_call_info = info;
  query_call_fee_details = details;
  weight_to_fee = capped_fee;
  length_to_fee = λ f l. f.length_to_fee l;
}

payment-IsLawful : IsLawful payment
payment-IsLawful = record {
  weight_fee = λ f w. refl;
  length_fee = λ f l. refl;
  mul_one = λ n. omega arith;
  update_multiplier = λ f c. refl;
  call_details = λ f call l c. refl;
  call_info = λ f call l c. refl;
  signed_details = λ f x l c h. refl;
  signed_info = λ f x l c h. refl;
}

abbrev transfer : Call
transfer = (record { ref_time = 174_090_000; proof_size = 0 }, true)

quotes_exact_example :
    ((query_call_info payment transfer 144 1).partial_fee ≡ fee_of base transfer.0 144)
    × (query_info payment transfer 144 1 ≡ query_call_info payment transfer 144 1)
    × (query_fee_details payment transfer 144 1 ≡ query_call_fee_details payment transfer 144 1)
    × (query_weight_to_fee payment base ≡ weight_to_fee base)
    × (query_call_weight_to_fee payment base ≡ weight_to_fee base)
    × (query_length_to_fee payment 144 ≡ 10 * 144)
    × (query_call_length_to_fee payment 144 ≡ 10 * 144)
quotes_exact_example =
    quotes_exact payment payment-IsLawful transfer 144 7 transfer base (omega arith) refl refl

-- A contracts pallet that uses up the gas it is given and answers with it.
abbrev spender : Contracts
spender = record {
  AccountId = ℕ;
  Bytes = ℕ;
  Code = ℕ;
  Chain = ℕ;
  ContractExecResult = Weight;
  ContractInstantiateResult = Weight;
  CodeUploadResult = ℕ;
  GetStorageResult = ℕ;
  gas_consumed = λ w. w;
  gas_instantiated = λ w. w;
  bare_call = λ origin dest value limit deposit input debug d c. (limit, c);
  bare_instantiate = λ origin value limit deposit code input salt debug c. (limit, c);
  bare_upload_code = λ origin code deposit d c. (code, c);
  get_storage = λ address key c. key;
}

spender-IsMetered : IsMetered spender
spender-IsMetered = record {
  call_gas = λ origin dest value limit deposit input debug d c. omega arith;
  instantiate_gas = λ origin value limit deposit code input salt debug c. omega arith;
}
