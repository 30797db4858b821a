-- ===== src/Flows/Tests.antt =====
-- Fees, slashes and burns at a small balances pallet and a treasury that credits its account.
use lunes_nightly.Prelude.{ℕ, ◌+◌, ◌*◌, ◌^◌, ◌≡◌, ◌≢◌, refl, some, arith, ◌==◌, if◌then◌else◌}
use lunes_nightly.Fees.Deal.{treasury_account}
use lunes_nightly.Fees.Mock.{Book, ledger, ledger-IsLawful}
use lunes_nightly.Flows.{
  Treasury, treasury_pallet_id, handle, transaction_fee, democracy_slash, handler_of,
}
use lunes_nightly.Flows.Split.{IsLawful, IsOpen, Reaches, Parts, parts, flow-Reaches}

abbrev account_of_pallet : ℕ → ℕ
account_of_pallet id = (0x6d6f646c * 2 ^ 64 + id) * 2 ^ 160

abbrev treasury : Treasury ledger
treasury = record {
  into_account = account_of_pallet;
  on_nonzero_unbalanced = ledger.resolve_creating (account_of_pallet treasury_pallet_id);
}

treasury-IsLawful : IsLawful ledger treasury
treasury-IsLawful = record { into_account_lem = λ id. refl; treasury_credits = λ i c. refl }

-- The author 7 and all others, with an issuance above the threshold.
abbrev book : Book
book = record {
  issuance = 6_000_000_000_000_000;
  circulating = 5_999_999_999_000_000;
  balance = λ a. if a == 7 then 600_000 else 400_000;
  author = some 7;
}

book-IsOpen : IsOpen ledger ledger-IsLawful treasury treasury-IsLawful 7 book
book-IsOpen = record {
  author_known = refl;
  not_fixed = omega arith;
  not_pallet = omega arith;
  author_open = λ m. ground arith;
  fixed_open = λ m. ground arith;
  pallet_open = λ m. ground arith;
}

abbrev fee_parts : Parts
fee_parts = record { to_author = 750_000; to_fixed = 125_000; to_pallet = 0; burned = 125_000 }

flow-Reaches_example :
    (◌≡◌ {A = ℕ} (750_000 + 125_000 + 0 + 125_000) 1_000_000)
    × Reaches ledger ledger-IsLawful treasury treasury-IsLawful 7 fee_parts book
        (handle ledger treasury (handler_of transaction_fee) 1_000_000 book)
    × (account_of_pallet treasury_pallet_id ≢ treasury_account)
unfolding handler_of parts
flow-Reaches_example =
    flow-Reaches ledger ledger-IsLawful treasury treasury-IsLawful transaction_fee 1_000_000 book 7
      (omega arith) book-IsOpen

-- A slash of democracy goes to the treasury pallet whole.
democracy_slashed :
    (handle ledger treasury (handler_of democracy_slash) 9_000 book).balance
      (account_of_pallet treasury_pallet_id)
    ≡ 409_000
unfolding handle handler_of
democracy_slashed = refl
