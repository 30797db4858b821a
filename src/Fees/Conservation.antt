-- ===== src/Fees/Conservation.antt =====
-- `DealWithFees` (runtime/src/lib.rs) neither makes nor loses money: what it is given is credited
-- to an account or leaves the issuance.
use lunes_nightly.Prelude.{
  ℕ, ◌+◌, ◌≤◌, ◌≡◌, List, [], ◌∷◌, arith, inl, inr, u128_max, Bool-cases, Option-cases, ltb,
}
use lunes_nightly.Fees.{deflation_issuance_threshold}
use lunes_nightly.Fees.Deal.{
  Currency, IsLawful, author_unbalanced, treasury_unbalanced, deal_treasury, deal, drop_all,
  on_unbalanceds, treasury_account,
}

module _ (b : Currency) (laws : IsLawful b) where
  open b use {
    Chain, Imbalance, peek, merge_into, ration, on_unbalanced, drop, resolve_creating,
    total_issuance, author, circulating, accepts,
  }
  open laws use {
    peek-merge_into, ration_sum, on_unbalanced_zero, on_unbalanced_pos, issuance-drop,
    circulating-drop, issuance-resolve, circulating-resolve,
  }

  abbrev pub total : List Imbalance → ℕ
  total [] = 0
  total (i ∷ rest) = peek i + total rest

  -- The issuance is made up of the balances and of `n` units of imbalances that are still held.
  abbrev pub IsBacked : ℕ → Chain → Type 0
  IsBacked n c = total_issuance c ≡ circulating c + n

  drop-IsBacked :
      (n : ℕ) (i : Imbalance) (c : Chain) → IsBacked (peek i + n) c → IsBacked n (drop i c)
  drop-IsBacked n i c h = omega (arith, issuance-drop i c, circulating-drop i c)

  resolve-IsBacked :
      (n w : ℕ) (i : Imbalance) (c : Chain)
      → IsBacked (peek i + n) c
      → IsBacked n (resolve_creating w i c)
  resolve-IsBacked n w i c h = ground (arith, issuance-resolve w i c, circulating-resolve w i c)

  -- A handler that accounts for its imbalance does so behind `on_unbalanced` too.
  on_unbalanced-IsBacked :
      (f : Imbalance → Chain → Chain)
      → ((n : ℕ) (i : Imbalance) (c : Chain) → IsBacked (peek i + n) c → IsBacked n (f i c))
      → (n : ℕ) (i : Imbalance) (c : Chain) → IsBacked (peek i + n) c
      → IsBacked n (on_unbalanced f i c)
  on_unbalanced-IsBacked f keep n i c h = elim (Bool-cases (ltb 0 (peek i))) [
    | inl pos ↦ rw (on_unbalanced_pos f i c (ground arith)) (keep n i c h)
    | inr zero_amount ↦
        let empty : peek i ≡ 0 = ground arith in rw (on_unbalanced_zero f i c empty) (omega arith)
  ]

  author-IsBacked :
      (n : ℕ) (i : Imbalance) (c : Chain)
      → IsBacked (peek i + n) c
      → IsBacked n (author_unbalanced b i c)
  unfolding author_unbalanced
  author-IsBacked n i c h = elim (Option-cases (author c)) [
    | inl e ↦ rw (e, author_unbalanced) (drop-IsBacked n i c h)
    | inr (w, e) ↦ rw (e, author_unbalanced) (resolve-IsBacked n w i c h)
  ]

  treasury-IsBacked :
      (n : ℕ) (i : Imbalance) (c : Chain)
      → IsBacked (peek i + n) c
      → IsBacked n (treasury_unbalanced b i c)
  unfolding treasury_unbalanced
  treasury-IsBacked n i c h = resolve-IsBacked n treasury_account i c h

  deal_treasury-IsBacked :
      (n : ℕ) (i : Imbalance) (c : Chain)
      → IsBacked (peek i + n) c
      → IsBacked n (deal_treasury b i c)
  unfolding deal_treasury
  deal_treasury-IsBacked n i c h =
      elim (Bool-cases (ltb deflation_issuance_threshold (total_issuance c))) [
        | inl above ↦
            let (t, u) = ration i 50 50 in
            rw (above, deal_treasury)
              (drop-IsBacked n u _ (
                on_unbalanced-IsBacked (treasury_unbalanced b) treasury-IsBacked (peek u + n) t c
                  (omega (arith, ration_sum i 50 50 (omega arith)))))
        | inr below ↦
            rw (below, deal_treasury)
              (on_unbalanced-IsBacked (treasury_unbalanced b) treasury-IsBacked n i c h)
      ]

  deal-IsBacked :
      (n : ℕ) (i : Imbalance) (c : Chain) → IsBacked (peek i + n) c → IsBacked n (deal b i c)
  unfolding deal
  deal-IsBacked n i c h =
      let (t, a) = ration i 25 75 in
      deal_treasury-IsBacked n t _ (
        on_unbalanced-IsBacked (author_unbalanced b) author-IsBacked (peek t + n) a c
          (omega (arith, ration_sum i 25 75 (omega arith))))

  drop_all-IsBacked :
      (n : ℕ) (is : List Imbalance) (c : Chain)
      → IsBacked (total is + n) c
      → IsBacked n (drop_all b is c)
  unfolding drop_all
  drop_all-IsBacked n [] c h = omega arith
  drop_all-IsBacked n (i ∷ is) c h =
      drop_all-IsBacked n is (drop i c) (drop-IsBacked (total is + n) i c (omega arith))

  -- If the issuance is the sum of all balances, of the imbalances that the handler is given and of
  -- `n` more units held elsewhere, and the given ones add up to a `u128`, then after the handler it
  -- is the sum of all balances and of those `n` units: whatever the author, the issuance and the
  -- number of imbalances are, every unit is credited or leaves the issuance.
  pub on_unbalanceds-IsBacked :
      (n : ℕ) (is : List Imbalance) (c : Chain)
      → total is ≤ u128_max
      → IsBacked (total is + n) c
      → IsBacked n (on_unbalanceds b is c)
  unfolding on_unbalanceds
  on_unbalanceds-IsBacked n [] c fits h = omega arith
  on_unbalanceds-IsBacked n (fees ∷ []) c fits h = deal-IsBacked n fees c (omega arith)
  on_unbalanceds-IsBacked n (fees ∷ tips ∷ rest) c fits h = drop_all-IsBacked n rest _ (
      deal-IsBacked (total rest + n) (merge_into tips fees) c
        (omega (arith, peek-merge_into tips fees)))
