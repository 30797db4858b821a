-- ===== src/Extension/Documented.antt =====
-- What the assets pallet documents of the operations that runtime/src/chain_extension.rs calls.
use lunes_nightly.Prelude.{ℕ, ◌+◌, ◌≤◌, ◌<◌, ◌≡◌, ◌≢◌, ◌⊎◌, Bool, true, ok, err, min, u128_max}
use lunes_nightly.Extension.{Pallets}

module _ (p : Pallets) where
  open p use {Chain, DispatchError, balance, allowance, signed, unlookup, is_admin}

  -- No balance falls from `c` to `c'`, but perhaps that of `who` in the asset.
  abbrev pub OnlyDebits : ℕ → ℕ → Chain → Chain → Type 0
  OnlyDebits asset who c c' = (x w : ℕ) → ((x ≢ asset) ⊎ (w ≢ who)) → balance x w c ≤ balance x w c'

  abbrev pub SameBalances : Chain → Chain → Type 0
  SameBalances c c' = (x w : ℕ) → balance x w c' ≡ balance x w c

  -- No allowance differs, but perhaps that of one owner and spender in the asset.
  abbrev pub OnlyAllowance : ℕ → ℕ → ℕ → Chain → Chain → Type 0
  OnlyAllowance asset owner spender c c' =
      (x o s : ℕ)
      → ((x ≢ asset) ⊎ (o ≢ owner) ⊎ (s ≢ spender))
      → allowance x o s c' ≡ allowance x o s c

  pub record IsLawful : Type 0 where
    pub allowance_fits : (a o s : ℕ) (c : Chain) → allowance a o s c ≤ u128_max
    -- Each operation checks before it writes.
    pub transfer_atomic :
        (a s d n : ℕ) (k : Bool) (c : Chain) (e : DispatchError)
        → (p.transfer a s d n k c).0 ≡ err e
        → (p.transfer a s d n k c).1 ≡ c
    pub transfer_from_atomic :
        (a o s d n : ℕ) (c : Chain) (e : DispatchError)
        → (p.transfer_from a o s d n c).0 ≡ err e
        → (p.transfer_from a o s d n c).1 ≡ c
    pub approve_atomic :
        (a o s n : ℕ) (c : Chain) (e : DispatchError)
        → (p.approve a o s n c).0 ≡ err e
        → (p.approve a o s n c).1 ≡ c
    pub cancel_atomic :
        (o a s : ℕ) (c : Chain) (e : DispatchError)
        → (p.cancel_approval (signed o) a (unlookup s) c).0 ≡ err e
        → (p.cancel_approval (signed o) a (unlookup s) c).1 ≡ c
    pub burn_atomic :
        (o a f n : ℕ) (c : Chain) (e : DispatchError)
        → (p.burn (signed o) a (unlookup f) n c).0 ≡ err e
        → (p.burn (signed o) a (unlookup f) n c).1 ≡ c
    -- A transfer debits its source, and one by a delegate needs an allowance for it.
    pub transfer_debits :
        (a s d n : ℕ) (k : Bool) (c : Chain) (m : ℕ)
        → (p.transfer a s d n k c).0 ≡ ok m
        → OnlyDebits a s c (p.transfer a s d n k c).1
    pub transfer_from_debits :
        (a o s d n : ℕ) (c : Chain)
        → (p.transfer_from a o s d n c).0 ≡ ok tt
        → (n ≤ allowance a o s c) × OnlyDebits a o c (p.transfer_from a o s d n c).1
    -- An approval adds to the allowance, and a cancelled one is zero.
    pub approve_adds :
        (a o s n : ℕ) (c : Chain)
        → (p.approve a o s n c).0 ≡ ok tt
        → let c' = (p.approve a o s n c).1 in
          (allowance a o s c' ≡ min (allowance a o s c + n) u128_max)
          × OnlyAllowance a o s c c'
          × SameBalances c c'
    pub cancel_clears :
        (o a s : ℕ) (c : Chain)
        → (p.cancel_approval (signed o) a (unlookup s) c).0 ≡ ok tt
        → let c' = (p.cancel_approval (signed o) a (unlookup s) c).1 in
          (allowance a o s c' ≡ 0) × OnlyAllowance a o s c c' × SameBalances c c'
    -- Only an admin of the asset burns it; a burn of nothing is let pass, and moves nothing.
    pub burn_debits :
        (o a f n : ℕ) (c : Chain)
        → (p.burn (signed o) a (unlookup f) n c).0 ≡ ok tt
        → (0 < n → is_admin a o c ≡ true)
          × OnlyDebits a f c (p.burn (signed o) a (unlookup f) n c).1
    pub burn_nothing :
        (o a f n : ℕ) (c : Chain)
        → n ≡ 0
        → (p.burn (signed o) a (unlookup f) n c).0 ≡ ok tt
        → SameBalances c (p.burn (signed o) a (unlookup f) n c).1
