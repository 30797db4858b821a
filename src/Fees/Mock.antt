-- ===== src/Fees/Mock.antt =====
-- A small balances pallet that meets the assumptions of `Fees.Deal`.
use lunes_nightly.Prelude.{
  ℕ, ◌+◌, ◌-◌, ◌*◌, ◌/◌, ◌≤◌, refl, Bool, Option, arith, min, leb, ◌==◌, if◌then◌else◌, u128_max,
  saturating_add, zero, suc, Bool-cases, ltb, inl, inr,
}
use native.Mathlib.Nat.{mul-le-mul, le_refl, div-mul-le_self}
use lunes_nightly.Fees.Deal.{Currency, IsLawful}

pub record Book : Type 0 where
  pub issuance : ℕ
  pub circulating : ℕ
  pub balance : ℕ → ℕ
  pub author : Option ℕ

abbrev first_part : ℕ → ℕ → ℕ → ℕ
first_part i p q = min (i * p) u128_max / (p + q)

abbrev drop : ℕ → Book → Book
drop i c = record c { issuance = c.issuance - i }

-- The existential deposit is 500.
abbrev accepts : ℕ → ℕ → Book → Bool
accepts w n c = leb 500 (c.balance w + n)

abbrev credit : ℕ → ℕ → Book → Book
credit w i c = record c {
  circulating = c.circulating + i;
  balance = λ a. if a == w then c.balance a + i else c.balance a;
}

abbrev resolve : ℕ → ℕ → Book → Book
resolve w i c = if accepts w i c then credit w i c else drop i c

abbrev pub ledger : Currency
ledger = record {
  Chain = Book;
  Imbalance = ℕ;
  peek = λ i. i;
  merge_into = λ tips fees. saturating_add u128_max fees tips;
  ration = λ i p q. (first_part i p q, i - first_part i p q);
  on_unbalanced = λ h i c. if i == 0 then c else h i c;
  drop = drop;
  resolve_creating = resolve;
  total_issuance = λ c. c.issuance;
  author = λ c. c.author;
  free_balance = λ a c. c.balance a;
  circulating = λ c. c.circulating;
  accepts = accepts;
}

div_le : (n k i : ℕ) → n ≤ i * k → n / k ≤ i
div_le n zero i h = omega arith
div_le n (suc k) i h = elim (Bool-cases (ltb i (n / suc k))) [
  | inl over ↦
      let bigger : suc i ≤ n / suc k = ground arith in
      absurd (omega (arith, mul-le-mul bigger (le_refl (suc k)), div-mul-le_self n (suc k)))
  | inr fits ↦ ground arith
]

first_part-le : (i p q : ℕ) → first_part i p q ≤ i
first_part-le i p q = div_le (min (i * p) u128_max) (p + q) i (grind arith)

pub ledger-IsLawful : IsLawful ledger
ledger-IsLawful = record {
  peek-merge_into = λ tips fees. refl;
  ration_sum = λ i p q _. omega (arith, first_part-le i p q);
  ration_first = λ i p q _ _. refl;
  on_unbalanced_zero = λ h i c e. ground arith;
  on_unbalanced_pos = λ h i c e. ground arith;
  issuance-drop = λ i c. refl;
  circulating-drop = λ i c. refl;
  balance-drop = λ a i c. refl;
  issuance-resolve = λ w i c. ground arith;
  circulating-resolve = λ w i c. ground arith;
  balance-resolve = λ a w i c h. ground arith;
  accepts-resolve = λ v w n i c h. ground arith;
  accepts-drop = λ v n i c h. h;
}
