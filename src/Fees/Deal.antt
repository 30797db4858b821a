-- ===== src/Fees/Deal.antt =====
-- Where a collected fee goes (runtime/src/lib.rs: `Author`, `TreasuryLunes`, `DealWithFees`), over
-- the balances pallet, which is not part of the repository and enters as a record of operations.
use lunes_nightly.Prelude.{
  ℕ, ◌+◌, ◌-◌, ◌*◌, ◌/◌, ◌≤◌, ◌<◌, ◌≡◌, Bool, true, Option, none, some, List, [], ◌∷◌, min, ltb,
  ◌==◌, if◌then◌else◌, saturating_add, u128_max, u32_max,
}
use lunes_nightly.Fees.{
  treasury_burn_fee_share, author_fee_share, treasury_half_share, burn_half_share,
  deflation_issuance_threshold,
}

-- What the runtime calls of the balances and authorship pallets. An account is its 32 bytes, read
-- as a number; `peek` is the amount of an imbalance.
pub record Currency : Type 1 where
  pub Chain : Type 0
  pub Imbalance : Type 0
  pub peek : Imbalance → ℕ
  -- `tips.merge_into(&mut fees)` is `merge_into tips fees`.
  pub merge_into : Imbalance → Imbalance → Imbalance
  pub ration : Imbalance → ℕ → ℕ → Imbalance × Imbalance
  -- The trait's own `on_unbalanced`, which calls the handler that it is given.
  pub on_unbalanced : (Imbalance → Chain → Chain) → Imbalance → Chain → Chain
  pub drop : Imbalance → Chain → Chain
  pub resolve_creating : ℕ → Imbalance → Chain → Chain
  pub total_issuance : Chain → ℕ
  pub author : Chain → Option ℕ
  -- Read by the statements alone: an account's balance, the sum of all balances, and whether an
  -- account can be credited with an amount (it exists, or the amount reaches the existential
  -- deposit).
  pub free_balance : ℕ → Chain → ℕ
  pub circulating : Chain → ℕ
  pub accepts : ℕ → ℕ → Chain → Bool

-- The account that `TreasuryLunes` credits.
abbrev pub treasury_account : ℕ
treasury_account = 0x2c11d2aff81147e5522539c51c1cb87bae94a0865d214f3983f3557a6732f26a

module _ (b : Currency) where
  open b use {
    Chain, Imbalance, peek, merge_into, ration, on_unbalanced, drop, resolve_creating,
    total_issuance, author, free_balance, circulating, accepts,
  }

  -- `Author::on_nonzero_unbalanced`. With no author the imbalance goes out of scope.
  unfoldable pub author_unbalanced : Imbalance → Chain → Chain
  author_unbalanced amount c = elim (author c) [
    | none ↦ drop amount c
    | some who ↦ resolve_creating who amount c
  ]

  -- `TreasuryLunes::on_nonzero_unbalanced`
  unfoldable pub treasury_unbalanced : Imbalance → Chain → Chain
  treasury_unbalanced amount c = resolve_creating treasury_account amount c

  -- The part of `DealWithFees::on_unbalanceds` below the author's share.
  unfoldable pub deal_treasury : Imbalance → Chain → Chain
  deal_treasury to_treasury_burn c =
      if ltb deflation_issuance_threshold (total_issuance c)
      then (let (to_treasury, to_burn) =
            ration to_treasury_burn treasury_half_share burn_half_share in
          drop to_burn (on_unbalanced treasury_unbalanced to_treasury c))
      else on_unbalanced treasury_unbalanced to_treasury_burn c

  -- The body of `DealWithFees::on_unbalanceds` once tips are merged into the fees.
  unfoldable pub deal : Imbalance → Chain → Chain
  deal fees c =
      let (to_treasury_burn, to_author) = ration fees treasury_burn_fee_share author_fee_share in
      deal_treasury to_treasury_burn (on_unbalanced author_unbalanced to_author c)

  -- What is left in the iterator goes out of scope with it.
  unfoldable pub drop_all : List Imbalance → Chain → Chain
  drop_all [] c = c
  drop_all (i ∷ rest) c = drop_all rest (drop i c)

  -- `DealWithFees::on_unbalanceds`, over the items of the iterator.
  unfoldable pub on_unbalanceds : List Imbalance → Chain → Chain
  on_unbalanceds [] c = c
  on_unbalanceds (fees ∷ []) c = deal fees c
  on_unbalanceds (fees ∷ tips ∷ rest) c = drop_all rest (deal (merge_into tips fees) c)

  -- What the handlers rely on, as the pallets document it.
  pub record IsLawful : Type 1 where
    pub peek-merge_into :
        (tips fees : Imbalance)
        → peek (merge_into tips fees) ≡ saturating_add u128_max (peek fees) (peek tips)
    -- `ration` splits an imbalance in the ratio of its two arguments, and loses nothing.
    pub ration_sum :
        (i : Imbalance) (p q : ℕ)
        → 0 < p + q
        → peek (ration i p q).0 + peek (ration i p q).1 ≡ peek i
    pub ration_first :
        (i : Imbalance) (p q : ℕ)
        → 0 < p + q
        → p + q ≤ u32_max
        → peek (ration i p q).0 ≡ min (peek i * p) u128_max / (p + q)
    -- An empty imbalance is dropped without a call of the handler.
    pub on_unbalanced_zero :
        (h : Imbalance → Chain → Chain) (i : Imbalance) (c : Chain)
        → peek i ≡ 0
        → on_unbalanced h i c ≡ c
    pub on_unbalanced_pos :
        (h : Imbalance → Chain → Chain) (i : Imbalance) (c : Chain)
        → 0 < peek i
        → on_unbalanced h i c ≡ h i c
    -- Dropping an imbalance lowers the issuance, and no balance.
    pub issuance-drop :
        (i : Imbalance) (c : Chain) → total_issuance (drop i c) ≡ total_issuance c - peek i
    pub circulating-drop : (i : Imbalance) (c : Chain) → circulating (drop i c) ≡ circulating c
    pub balance-drop :
        (a : ℕ) (i : Imbalance) (c : Chain) → free_balance a (drop i c) ≡ free_balance a c
    -- A credit that an account accepts, and one that it does not: then the imbalance is dropped.
    pub issuance-resolve :
        (w : ℕ) (i : Imbalance) (c : Chain)
        → total_issuance (resolve_creating w i c)
          ≡ (if accepts w (peek i) c then total_issuance c else total_issuance c - peek i)
    pub circulating-resolve :
        (w : ℕ) (i : Imbalance) (c : Chain)
        → circulating (resolve_creating w i c)
          ≡ (if accepts w (peek i) c then circulating c + peek i else circulating c)
    pub balance-resolve :
        (a w : ℕ) (i : Imbalance) (c : Chain)
        → accepts w (peek i) c ≡ true
        → free_balance a (resolve_creating w i c)
          ≡ (if a == w then free_balance a c + peek i else free_balance a c)
    -- A credit to one account does not close another.
    pub accepts-resolve :
        (v w n : ℕ) (i : Imbalance) (c : Chain)
        → accepts v n c ≡ true
        → accepts v n (resolve_creating w i c) ≡ true
    pub accepts-drop :
        (v n : ℕ) (i : Imbalance) (c : Chain) → accepts v n c ≡ true → accepts v n (drop i c) ≡ true
