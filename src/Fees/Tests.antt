-- ===== src/Fees/Tests.antt =====
-- Runs of the fee code (the tests of runtime/src/lib.rs among them), and the theorems about it at
-- concrete weights and at a small balances pallet.
use lunes_nightly.Prelude.{
  ◌+◌, ◌*◌, ◌≤◌, ◌<◌, ◌≡◌, ◌≢◌, refl, none, some, [], ◌∷◌, arith, max, ◌/◌, if◌then◌else◌, ◌==◌, ℕ,
}
use lunes_nightly.Fees.{Weight, weight_to_fee, minimum_weight_fee, weight_fee_divisor}
use lunes_nightly.Fees.Bounds.{weight_to_fee_exact}
use lunes_nightly.Fees.Spam.{total_weight, total_fee, full_block_fees}
use lunes_nightly.Fees.Deal.{
  on_unbalanceds, treasury_account, drop_all, deal, deal_treasury, author_unbalanced,
  treasury_unbalanced,
}
use lunes_nightly.Fees.Conservation.{on_unbalanceds-IsBacked}
use lunes_nightly.Fees.Shares.{on_unbalanceds_shares, on_unbalanceds_no_author}
use lunes_nightly.Fees.Mock.{Book, ledger, ledger-IsLawful}

abbrev transfer_weight : Weight
transfer_weight = record { ref_time = 274_090_000; proof_size = 0 }

abbrev empty_weight : Weight
empty_weight = record { ref_time = 0; proof_size = 0 }

transfer_fee : weight_to_fee transfer_weight ≡ 198_615
unfolding weight_to_fee
transfer_fee = refl

floor_fee : weight_to_fee empty_weight ≡ 1_000
unfolding weight_to_fee
floor_fee = refl

weight_to_fee_exact_example :
    (weight_to_fee transfer_weight ≡ max (274_090_000 / weight_fee_divisor) minimum_weight_fee)
    × (weight_to_fee transfer_weight < 36_893_488_147_419_103_232)
weight_to_fee_exact_example = weight_to_fee_exact transfer_weight (omega arith)

-- Two extrinsics that fill a block, one of them light.
abbrev heavy : Weight
heavy = record { ref_time = 1_500_000_000_000; proof_size = 0 }

full_block_fees_example :
    (1_085_870_566 ≤ total_fee (heavy ∷ empty_weight ∷ []))
    × (1_380 * total_fee (heavy ∷ empty_weight ∷ [])
        ≤ total_weight (heavy ∷ empty_weight ∷ []) + 2_760_000)
unfolding total_weight
full_block_fees_example =
    full_block_fees (heavy ∷ empty_weight ∷ []) (omega arith, (omega arith, tt)) (omega arith)

-- An author 7 and the treasury, both above the existential deposit, with two fees outstanding.
abbrev early : Book
early = record {
  issuance = 2_000_000;
  circulating = 1_000_000;
  balance = λ a. if a == 7 then 600_000 else 400_000;
  author = some 7;
}

abbrev late : Book
late = record early { issuance = 6_000_000_000_000_000; circulating = 5_999_999_999_000_000 }

-- The test `deal_with_fees_merges_tips_into_fees`.
merges_tips :
    (on_unbalanceds ledger (600_000 ∷ 400_000 ∷ []) (record early { author = none })).balance
      treasury_account
    ≡ 650_000
unfolding on_unbalanceds drop_all deal deal_treasury author_unbalanced treasury_unbalanced
merges_tips = refl

on_unbalanceds-IsBacked_example :
    let c' = on_unbalanceds ledger (600_000 ∷ 400_000 ∷ []) early in
    c'.issuance ≡ c'.circulating + 0
on_unbalanceds-IsBacked_example =
    on_unbalanceds-IsBacked ledger ledger-IsLawful 0 (600_000 ∷ 400_000 ∷ []) early (omega arith)
      (omega arith)

on_unbalanceds_shares_example :
    let c' = on_unbalanceds ledger (600_000 ∷ 400_000 ∷ []) late in
    (c'.balance 7 ≡ 1_350_000)
    × (c'.balance treasury_account ≡ 525_000)
    × ((a : ℕ) → a ≢ 7 → a ≢ treasury_account → c'.balance a ≡ late.balance a)
    × (c'.issuance ≡ 5_999_999_999_875_000)
on_unbalanceds_shares_example =
    on_unbalanceds_shares ledger ledger-IsLawful 600_000 400_000 late 7 (omega arith) refl
      (omega arith) (λ m. ground arith) (λ m. ground arith)

on_unbalanceds_no_author_example :
    let c' = on_unbalanceds ledger (1_000_000 ∷ []) (record early { author = none }) in
    (c'.balance treasury_account ≡ 650_000)
    × ((a : ℕ) → a ≢ treasury_account → c'.balance a ≡ early.balance a)
    × (c'.issuance ≡ 1_250_000)
on_unbalanceds_no_author_example =
    on_unbalanceds_no_author ledger ledger-IsLawful 1_000_000 (record early { author = none })
      (omega arith) refl (λ m. ground arith)
