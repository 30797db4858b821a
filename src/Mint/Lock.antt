-- ===== src/Mint/Lock.antt =====
-- What `RestrictAssetMint` (runtime/src/lib.rs) stops, and what it lets pass.
use lunes_nightly.Prelude.{
  ◌∙◌, ℕ, ◌+◌, ◌<◌, ◌≡◌, ◌≢◌, ◌↔◌, refl, true, List, [], ◌∷◌, err, ok, Result, false, sym, ap, ◌⊎◌,
  Result-cases, arith, Bool-cases, ◌==◌, inl, inr,
}
use lunes_nightly.Mint.{
  RuntimeCall, assets_mint, utility_batch, any_other, none_left, then_call, Transactions,
  usdt_asset_id, validate, pre_dispatch,
}

-- What the libraries document: an extrinsic that an extension's `pre_dispatch` refuses does nothing,
-- and one that it lets pass makes of the supplies what the dispatch of its call makes of them; a
-- mint that succeeds adds its amount to the supply of its asset, one that fails leaves the supply,
-- and neither touches another asset; and a batch of one call makes of the supplies what the call
-- makes of them.
pub record IsLawful (t : Transactions) : Type 0 where
  pub apply_refused :
      (check : RuntimeCall → t.Chain → Result t.TransactionValidityError (Unit {0})) (who : ℕ)
      (call : RuntimeCall) (c : t.Chain) (e : t.TransactionValidityError)
      → check call c ≡ err e
      → t.apply_extrinsic check who call c ≡ c
  pub apply_passed :
      (check : RuntimeCall → t.Chain → Result t.TransactionValidityError (Unit {0})) (who : ℕ)
      (call : RuntimeCall) (c : t.Chain) (x : ℕ)
      → check call c ≡ ok tt
      → t.total_supply x (t.apply_extrinsic check who call c)
        ≡ t.total_supply x (t.dispatch call who c).1
  pub mint_adds :
      (id to n who : ℕ) (c : t.Chain)
      → (t.dispatch (assets_mint id to n) who c).0 ≡ true
      → t.total_supply id (t.dispatch (assets_mint id to n) who c).1 ≡ t.total_supply id c + n
  pub mint_fails :
      (id to n who : ℕ) (c : t.Chain)
      → (t.dispatch (assets_mint id to n) who c).0 ≡ false
      → t.total_supply id (t.dispatch (assets_mint id to n) who c).1 ≡ t.total_supply id c
  pub mint_other :
      (id to n who x : ℕ) (c : t.Chain)
      → x ≢ id
      → t.total_supply x (t.dispatch (assets_mint id to n) who c).1 ≡ t.total_supply x c
  pub batch_of_one :
      (call : RuntimeCall) (who : ℕ) (c : t.Chain) (x : ℕ)
      → t.total_supply x (t.dispatch (utility_batch (then_call call none_left)) who c).1
        ≡ t.total_supply x (t.dispatch call who c).1

-- A mint as a signer may send it: the signer, the asset, the beneficiary and the amount.
pub record MintCall : Type 0 where
  pub signer : ℕ
  pub asset : ℕ
  pub beneficiary : ℕ
  pub amount : ℕ

-- A mint at the top of an extrinsic, of an asset other than USDT that has a supply.
abbrev pub IsLocked : {Chain : Type 0} → (ℕ → Chain → ℕ) → RuntimeCall → Chain → Type 0
IsLocked supply (assets_mint id to n) c = (id ≢ usdt_asset_id) × (0 < supply id c)
IsLocked supply (utility_batch calls) c = ⊥
IsLocked supply (any_other call) c = ⊥

module _ (t : Transactions) where
  open t use {Chain, total_supply, TransactionValidityError, invalid_custom, dispatch}

  -- The pool and the block builder decide alike: `validate` and `pre_dispatch` refuse the same
  -- calls with the same error, namely the top-level mints, of an asset other than USDT, whose
  -- supply is not zero; and they refuse no other call.
  pub restrict_iff :
      (call : RuntimeCall) (c : Chain) (e : TransactionValidityError)
      → ((validate t call c ≡ err e) ↔ (pre_dispatch t call c ≡ err e))
        × ((pre_dispatch t call c ≡ err e)
            ↔ (IsLocked t.total_supply call c × (e ≡ invalid_custom 1)))
  unfolding validate pre_dispatch
  restrict_iff (assets_mint id to n) c e =
      ((λ h. ground arith, λ h. ground arith), (λ h. ground arith, λ h. ground (arith, h.0, h.1)))
  restrict_iff (utility_batch calls) c e = ((λ h. cc, λ h. cc), (λ h. cc, λ h. absurd h.0))
  restrict_iff (any_other call) c e = ((λ h. cc, λ h. cc), (λ h. cc, λ h. absurd h.0))

  -- A signed extrinsic with `RestrictAssetMint`.
  abbrev pub apply_signed : ℕ → RuntimeCall → Chain → Chain
  apply_signed who call c = t.apply_extrinsic (pre_dispatch t) who call c

  -- Mints that are sent one after the other.
  unfoldable pub apply_mints : List MintCall → Chain → Chain
  apply_mints [] c = c
  apply_mints (m ∷ ms) c =
      apply_mints ms (apply_signed m.signer (assets_mint m.asset m.beneficiary m.amount) c)

module _ (t : Transactions) (laws : IsLawful t) where
  open t use {Chain, total_supply, dispatch}

  -- A mint that is refused, and what one that passes does.
  pub mint_locked :
      (who id to n : ℕ) (c : Chain)
      → id ≢ usdt_asset_id
      → 0 < total_supply id c
      → apply_signed t who (assets_mint id to n) c ≡ c
  unfolding pre_dispatch
  mint_locked who id to n c other positive =
      laws.apply_refused (pre_dispatch t) who (assets_mint id to n) c (t.invalid_custom 1)
        (ground arith)

  pub mint_passes :
      (who id to n x : ℕ) (c : Chain)
      → (id ≡ usdt_asset_id) ⊎ (total_supply id c ≡ 0)
      → total_supply x (apply_signed t who (assets_mint id to n) c)
        ≡ total_supply x (dispatch (assets_mint id to n) who c).1
  unfolding pre_dispatch
  mint_passes who id to n x c open_asset =
      laws.apply_passed (pre_dispatch t) who (assets_mint id to n) c x (ground arith)

  -- Whether a mint of another asset passes or not, it leaves the supply.
  pub mint_apart :
      (who id to n x : ℕ) (c : Chain)
      → x ≢ id
      → total_supply x (apply_signed t who (assets_mint id to n) c) ≡ total_supply x c
  mint_apart who id to n x c apart = elim (Result-cases (pre_dispatch t (assets_mint id to n) c)) [
    | inl (u, passed) ↦
        laws.apply_passed (pre_dispatch t) who (assets_mint id to n) c x passed
        ∙ laws.mint_other id to n who x c apart
    | inr (e, refused) ↦
        ap (total_supply x)
          (laws.apply_refused (pre_dispatch t) who (assets_mint id to n) c e refused)
  ]

  apply_signed-supply :
      (who id to n x : ℕ) (c : Chain)
      → x ≢ usdt_asset_id
      → 0 < total_supply x c
      → total_supply x (apply_signed t who (assets_mint id to n) c) ≡ total_supply x c
  apply_signed-supply who id to n x c other positive = elim (Bool-cases (x == id)) [
    | inl same ↦
        let e : x ≡ id = ground arith in
        ap (total_supply x) (mint_locked who id to n c (ground arith) (rw (sym e) positive))
    | inr apart ↦ mint_apart who id to n x c (ground arith)
  ]

  -- Once an asset other than USDT has a supply, no sequence of mints of whatever assets, each sent
  -- as the call of a signed extrinsic by whatever signer, changes that supply. The pallets behave
  -- as documented.
  pub apply_mints-supply :
      (ms : List MintCall) (x : ℕ) (c : Chain)
      → x ≢ usdt_asset_id
      → 0 < total_supply x c
      → total_supply x (apply_mints t ms c) ≡ total_supply x c
  unfolding apply_mints
  apply_mints-supply [] x c other positive = refl
  apply_mints-supply (m ∷ ms) x c other positive =
      let once = apply_signed-supply m.signer m.asset m.beneficiary m.amount x c other positive in
      apply_mints-supply ms x _ other (omega (arith, once)) ∙ once

  -- The lock does not look into batches: a mint that the assets pallet grants, of an asset other
  -- than USDT that has a supply, is refused as a call and changes the supply when the same signer
  -- sends it in a batch of one. The pallets behave as documented.
  pub batch_bypass :
      (who id to n : ℕ) (c : Chain)
      → id ≢ usdt_asset_id
      → 0 < total_supply id c
      → (dispatch (assets_mint id to n) who c).0 ≡ true
      → let call = assets_mint id to n in
        (apply_signed t who call c ≡ c)
        × (total_supply id (apply_signed t who (utility_batch (then_call call none_left)) c)
            ≡ total_supply id c + n)
  unfolding pre_dispatch
  batch_bypass who id to n c other positive granted =
      let batch = utility_batch (then_call (assets_mint id to n) none_left) in
      (
        mint_locked who id to n c other positive,
        laws.apply_passed (pre_dispatch t) who batch c id refl
            ∙ laws.batch_of_one (assets_mint id to n) who c id
            ∙ laws.mint_adds id to n who c granted,
      )
