-- ===== src/Fees/Shares.antt =====
-- How much of a fee `DealWithFees` (runtime/src/lib.rs) gives to whom.
use lunes_nightly.Prelude.{
  ℕ, ◌+◌, ◌-◌, ◌*◌, ◌/◌, ◌≤◌, ◌≡◌, ◌≢◌, true, none, some, [], ◌∷◌, arith, refl, Bool, inl, inr,
  u128_max, Bool-cases, ltb, ◌==◌, if◌then◌else◌,
}
use lunes_nightly.Fees.{deflation_issuance_threshold}
use lunes_nightly.Fees.Deal.{
  Currency, IsLawful, author_unbalanced, treasury_unbalanced, deal_treasury, deal, drop_all,
  on_unbalanceds, treasury_account,
}

-- The share of a fee that does not go to the author, and the half of it that is not burned above
-- the threshold.
abbrev pub quarter : ℕ → ℕ
quarter f = f * 25 / 100

abbrev pub half : ℕ → ℕ
half q = q * 50 / 100

abbrev pub is_deflating : ℕ → Bool
is_deflating issuance = ltb deflation_issuance_threshold issuance

module _ (b : Currency) (laws : IsLawful b) where
  open b use {
    Chain, Imbalance, peek, merge_into, ration, on_unbalanced, drop, resolve_creating,
    total_issuance, author, free_balance, accepts,
  }
  open laws use {
    peek-merge_into, ration_sum, ration_first, on_unbalanced_zero, on_unbalanced_pos, issuance-drop,
    balance-drop, issuance-resolve, balance-resolve, accepts-resolve, accepts-drop,
  }

  -- From `c` to `c'` the account `w` has been credited with `n`, and nothing else has changed.
  abbrev pub Credits : ℕ → ℕ → Chain → Chain → Type 0
  Credits w n c c' =
      ((a : ℕ) → free_balance a c' ≡ (if a == w then free_balance a c + n else free_balance a c))
      × (total_issuance c' ≡ total_issuance c)
      × ((v m : ℕ) → accepts v m c ≡ true → accepts v m c' ≡ true)

  pub on_unbalanced-Credits :
      (f : Imbalance → Chain → Chain) (w : ℕ) (i : Imbalance) (c : Chain)
      → f i c ≡ resolve_creating w i c
      → accepts w (peek i) c ≡ true
      → Credits w (peek i) c (on_unbalanced f i c)
  on_unbalanced-Credits f w i c e ok = elim (Bool-cases (ltb 0 (peek i))) [
    | inl pos ↦
        rw (on_unbalanced_pos f i c (ground arith), e)
          (
            λ a. balance-resolve a w i c ok,
            ground (arith, issuance-resolve w i c),
            λ v m h. accepts-resolve v w m i c h,
          )
    | inr empty ↦
        rw (on_unbalanced_zero f i c (ground arith)) (λ a. ground arith, ground arith, λ v m h. h)
  ]

  -- Above the threshold half of the treasury's part is credited and the rest is burned; below it
  -- all of the part is credited.
  deal_treasury-shares :
      (i : Imbalance) (c : Chain)
      → peek i * 50 ≤ u128_max
      → ((m : ℕ) → accepts treasury_account m c ≡ true)
      → let above = is_deflating (total_issuance c) in
        let paid = (if above then half (peek i) else peek i) in
        ((a : ℕ)
          → free_balance a (deal_treasury b i c)
            ≡ (if a == treasury_account then free_balance a c + paid else free_balance a c))
        × (total_issuance (deal_treasury b i c) ≡ total_issuance c - (peek i - paid))
  unfolding deal_treasury treasury_unbalanced
  deal_treasury-shares i c fits ok = elim (Bool-cases (is_deflating (total_issuance c))) [
    | inl above ↦
        let (t, u) = ration i 50 50 in
        let (paid, kept, _) =
          on_unbalanced-Credits (treasury_unbalanced b) treasury_account t c refl (ok (peek t)) in
        let first = ration_first i 50 50 (omega arith) (omega arith) in
        let c' = on_unbalanced (treasury_unbalanced b) t c in
        rw (above, deal_treasury)
          (
            λ a. ground (arith, first, balance-drop a u c', paid a),
            omega (arith, first, ration_sum i 50 50 (omega arith), issuance-drop u c', kept),
          )
    | inr below ↦
        let (paid, kept, _) =
          on_unbalanced-Credits (treasury_unbalanced b) treasury_account i c refl (ok (peek i)) in
        rw (below, deal_treasury) (paid, omega (arith, kept))
  ]

  -- `deal` at an author that is not the treasury, in terms of the amount of the merged fee.
  pub deal-shares :
      (i : Imbalance) (c : Chain) (who : ℕ)
      → peek i * 25 ≤ u128_max
      → author c ≡ some who
      → who ≢ treasury_account
      → ((m : ℕ) → accepts who m c ≡ true)
      → ((m : ℕ) → accepts treasury_account m c ≡ true)
      → let share = quarter (peek i) in
        let paid = (if is_deflating (total_issuance c) then half share else share) in
        (free_balance who (deal b i c) ≡ free_balance who c + (peek i - share))
        × (free_balance treasury_account (deal b i c) ≡ free_balance treasury_account c + paid)
        × ((a : ℕ)
            → a ≢ who
            → a ≢ treasury_account
            → free_balance a (deal b i c) ≡ free_balance a c)
        × (total_issuance (deal b i c) ≡ total_issuance c - (share - paid))
  unfolding deal author_unbalanced
  deal-shares i c who fits e ne known treasury_known =
      let (t, rest) = ration i 25 75 in
      let c' = on_unbalanced (author_unbalanced b) rest c in
      let split : peek t ≡ quarter (peek i) =
        omega (arith, ration_first i 25 75 (omega arith) (omega arith)) in
      let whole : peek rest ≡ peek i - quarter (peek i) =
        omega (arith, split, ration_sum i 25 75 (omega arith)) in
      let (credited, kept, open_still) =
        on_unbalanced-Credits (author_unbalanced b) who rest c (rw (e, author_unbalanced))
          (known (peek rest)) in
      let (paid, issuance) =
        deal_treasury-shares t c' (omega arith)
          (λ m. open_still treasury_account m (treasury_known m)) in
      (
        ground (arith, credited who, paid who),
        ground (arith, credited treasury_account, paid treasury_account),
        λ a h k. ground (arith, credited a, paid a),
        ground arith,
      )

  author_unbalanced-none :
      (i : Imbalance) (c : Chain) → author c ≡ none → author_unbalanced b i c ≡ drop i c
  unfolding author_unbalanced
  author_unbalanced-none i c e = rw (e, author_unbalanced)

  -- With no author the author's part is dropped.
  unbalanced-drops :
      (i : Imbalance) (c : Chain)
      → author c ≡ none
      → let c' = on_unbalanced (author_unbalanced b) i c in
        (total_issuance c' ≡ total_issuance c - peek i)
        × ((a : ℕ) → free_balance a c' ≡ free_balance a c)
        × ((v m : ℕ) → accepts v m c ≡ true → accepts v m c' ≡ true)
  unbalanced-drops i c e = elim (Bool-cases (ltb 0 (peek i))) [
    | inl pos ↦
        rw
          (on_unbalanced_pos (author_unbalanced b) i c (ground arith), author_unbalanced-none i c e)
          (issuance-drop i c, λ a. balance-drop a i c, λ v m. accepts-drop v m i c)
    | inr empty ↦
        rw (on_unbalanced_zero (author_unbalanced b) i c (ground arith))
          (ground arith, λ a. refl, λ v m h. h)
  ]

  merged :
      (fees tips : Imbalance)
      → peek fees + peek tips ≤ u128_max
      → peek (merge_into tips fees) ≡ peek fees + peek tips
  merged fees tips h = omega (arith, peek-merge_into tips fees)

  -- With a block author that is not the treasury account, both of them existing accounts, and 25
  -- times the sum of fees and tips a `u128`: the treasury's quarter, rounded down, is credited to
  -- it, or half of that, rounded down, while the issuance is above the threshold; the author is
  -- credited with the sum less the quarter; no third account's balance changes; and the issuance
  -- falls by the part of the quarter that is not credited.
  pub on_unbalanceds_shares :
      (fees tips : Imbalance) (c : Chain) (who : ℕ)
      → (peek fees + peek tips) * 25 ≤ u128_max
      → author c ≡ some who
      → who ≢ treasury_account
      → ((m : ℕ) → accepts who m c ≡ true)
      → ((m : ℕ) → accepts treasury_account m c ≡ true)
      → let amount = peek fees + peek tips in
        let share = quarter amount in
        let paid = (if is_deflating (total_issuance c) then half share else share) in
        let c' = on_unbalanceds b (fees ∷ tips ∷ []) c in
        (free_balance who c' ≡ free_balance who c + (amount - share))
        × (free_balance treasury_account c' ≡ free_balance treasury_account c + paid)
        × ((a : ℕ) → a ≢ who → a ≢ treasury_account → free_balance a c' ≡ free_balance a c)
        × (total_issuance c' ≡ total_issuance c - (share - paid))
  unfolding on_unbalanceds drop_all
  on_unbalanceds_shares fees tips c who fits e ne known treasury_known =
      rw (← merged fees tips (omega arith)) (
        deal-shares (merge_into tips fees) c who (omega (arith, merged fees tips (omega arith))) e
          ne known treasury_known)

  -- With no block author and an existing treasury account, and 25 times the amount a `u128`: the
  -- author's part is burned first, the threshold is compared with the issuance that is left, no
  -- balance but the treasury's changes, and the issuance falls by all that is not credited.
  pub on_unbalanceds_no_author :
      (fees : Imbalance) (c : Chain)
      → peek fees * 25 ≤ u128_max
      → author c ≡ none
      → ((m : ℕ) → accepts treasury_account m c ≡ true)
      → let share = quarter (peek fees) in
        let left = total_issuance c - (peek fees - share) in
        let paid = (if is_deflating left then half share else share) in
        let c' = on_unbalanceds b (fees ∷ []) c in
        (free_balance treasury_account c' ≡ free_balance treasury_account c + paid)
        × ((a : ℕ) → a ≢ treasury_account → free_balance a c' ≡ free_balance a c)
        × (total_issuance c' ≡ left - (share - paid))
  unfolding on_unbalanceds deal
  on_unbalanceds_no_author fees c fits e treasury_known =
      let (t, rest) = ration fees 25 75 in
      let split : peek t ≡ quarter (peek fees) =
        omega (arith, ration_first fees 25 75 (omega arith) (omega arith)) in
      let whole : peek rest ≡ peek fees - quarter (peek fees) =
        omega (arith, split, ration_sum fees 25 75 (omega arith)) in
      let c' = on_unbalanced (author_unbalanced b) rest c in
      let (burned, same, open_still) = unbalanced-drops rest c e in
      let (paid, issuance) =
        deal_treasury-shares t c' (omega arith)
          (λ m. open_still treasury_account m (treasury_known m)) in
      (
        ground (arith, same treasury_account, paid treasury_account),
        λ a k. ground (arith, same a, paid a),
        ground arith,
      )
