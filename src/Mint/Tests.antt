-- ===== src/Mint/Tests.antt =====
-- The extension `RestrictAssetMint` at small pallets: supplies by asset, and mints by account 1.
use lunes_nightly.Prelude.{
  ℕ, ◌+◌, ◌≡◌, ◌↔◌, refl, Bool, true, false, List, [], ◌∷◌, ok, err, arith, ◌==◌, if◌then◌else◌,
}
use lunes_nightly.Mint.{
  RuntimeCall, assets_mint, utility_batch, any_other, Calls, none_left, then_call, Transactions,
  validate, pre_dispatch,
}
use lunes_nightly.Mint.Open.{granted_amount, first_granted, apply_mints_open}
use lunes_nightly.Mint.Lock.{
  IsLawful, IsLocked, MintCall, restrict_iff, apply_signed, apply_mints, apply_mints-supply,
  batch_bypass,
}

abbrev Supplies : Type 0
Supplies = ℕ → ℕ

abbrev grant : ℕ → ℕ → ℕ → Supplies → Bool × Supplies
grant id n who c = if who == 1 then (true, λ x. if x == id then c x + n else c x) else (false, c)

mutual
  run : RuntimeCall → ℕ → Supplies → Bool × Supplies
  run (assets_mint id to n) who c = grant id n who c
  run (utility_batch calls) who c = (true, run_all calls who c)
  run (any_other call) who c = (true, c)

  run_all : Calls → ℕ → Supplies → Supplies
  run_all none_left who c = c
  run_all (then_call call rest) who c = run_all rest who (run call who c).1

abbrev small : Transactions
small = record {
  Chain = Supplies;
  total_supply = λ x c. c x;
  ValidTransaction = Unit {0};
  default_valid = tt;
  TransactionValidityError = ℕ;
  invalid_custom = λ n. n;
  dispatch = run;
  apply_extrinsic =
      λ check who call c. elim (check call c) [ ok _ ↦ (run call who c).1 | err _ ↦ c ];
}

small-IsLawful : IsLawful small
unfolding run run_all
small-IsLawful = record {
  apply_refused = λ check who call c e h. rw h refl;
  apply_passed = λ check who call c x h. rw h refl;
  mint_adds = λ id to n who c h. ground arith;
  mint_fails = λ id to n who c h. ground arith;
  mint_other = λ id to n who x c h. ground arith;
  batch_of_one = λ call who c x. refl;
}

-- Asset 7 has a supply of 50, USDT one of 10.
abbrev supplies : Supplies
supplies x = if x == 7 then 50 else if x == 2 then 10 else 0

usdt_passes : apply_signed small 1 (assets_mint 2 5 30) supplies 2 ≡ 40
unfolding pre_dispatch run
usdt_passes = refl

restrict_iff_example :
    ((validate small (assets_mint 7 5 30) supplies ≡ err 1)
      ↔ (pre_dispatch small (assets_mint 7 5 30) supplies ≡ err 1))
    × ((pre_dispatch small (assets_mint 7 5 30) supplies ≡ err 1) ↔ (
        IsLocked {Chain = Supplies} (λ x c. c x) (assets_mint 7 5 30) supplies × (◌≡◌ {A = ℕ} 1 1)))
restrict_iff_example = restrict_iff small (assets_mint 7 5 30) supplies 1

abbrev attempts : ℕ → MintCall
attempts asset = record { signer = 1; asset = asset; beneficiary = 5; amount = 30 }

apply_mints-supply_example :
    apply_mints small (attempts 7 ∷ attempts 2 ∷ attempts 7 ∷ []) supplies 7 ≡ 50
apply_mints-supply_example =
    apply_mints-supply small small-IsLawful (attempts 7 ∷ attempts 2 ∷ attempts 7 ∷ []) 7 supplies
      (omega arith) (omega arith)

batch_bypass_example :
    (apply_signed small 1 (assets_mint 7 5 30) supplies ≡ supplies)
    × (apply_signed small 1 (utility_batch (then_call (assets_mint 7 5 30) none_left)) supplies 7
        ≡ 80)
unfolding run
batch_bypass_example =
    batch_bypass small small-IsLawful 1 7 5 30 supplies (omega arith) (omega arith) refl

-- A mint of asset 9 by account 2, which is not granted, two that are, and one of USDT.
abbrev mints : List MintCall
mints =
    record { signer = 2; asset = 9; beneficiary = 5; amount = 60 }
    ∷ record { signer = 1; asset = 9; beneficiary = 5; amount = 70 }
    ∷ record { signer = 1; asset = 9; beneficiary = 5; amount = 8 }
    ∷ record { signer = 1; asset = 2; beneficiary = 5; amount = 30 }
    ∷ []

minted_usdt : apply_mints small mints supplies 2 ≡ 40
unfolding apply_mints pre_dispatch run
minted_usdt = refl

apply_mints_open_example : apply_mints small mints supplies 9 ≡ 70
unfolding first_granted granted_amount pre_dispatch run
apply_mints_open_example = apply_mints_open small small-IsLawful 9 mints supplies
