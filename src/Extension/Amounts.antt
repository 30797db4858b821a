-- ===== src/Extension/Amounts.antt =====
-- What the assets pallet documents of the amounts that its operations move, beside
-- `Extension.Documented` (for runtime/src/chain_extension.rs).
use lunes_nightly.Prelude.{ℕ, ◌+◌, ◌-◌, ◌≤◌, ◌<◌, ◌≡◌, ◌≢◌, ◌⊎◌, true, ok, List}
use lunes_nightly.Extension.{Pallets, Metadata}
use lunes_nightly.Extension.Documented.{OnlyAllowance}

module _ (p : Pallets) where
  open p use {Chain, balance, allowance, total_issuance, signed, unlookup}

  -- The metadata of an asset, encoded.
  unfoldable pub described : Metadata → ℕ → Chain → List ℕ
  described Metadata.name asset c = p.encode_bytes (p.asset_name asset c)
  described Metadata.symbol asset c = p.encode_bytes (p.asset_symbol asset c)
  described Metadata.decimals asset c = p.encode_u8 (p.asset_decimals asset c)

  abbrev pub SameMetadata : Chain → Chain → Type 0
  SameMetadata c c' = (k : Metadata) (x : ℕ) → described k x c' ≡ described k x c

  abbrev pub SameSupply : Chain → Chain → Type 0
  SameSupply c c' = (x : ℕ) → total_issuance x c' ≡ total_issuance x c

  abbrev pub SameAllowances : Chain → Chain → Type 0
  SameAllowances c c' = (x o s : ℕ) → allowance x o s c' ≡ allowance x o s c

  -- `n` of the asset goes from one account to another; a transfer to oneself moves nothing.
  pub record Moves (asset from to n : ℕ) (c c' : Chain) : Type 0 where
    pub enough : n ≤ balance asset from c
    pub debited : from ≢ to → balance asset from c' + n ≡ balance asset from c
    pub credited : from ≢ to → balance asset to c' ≡ balance asset to c + n
    pub itself : from ≡ to → balance asset from c' ≡ balance asset from c
    pub others :
        (x w : ℕ) → ((x ≢ asset) ⊎ ((w ≢ from) × (w ≢ to))) → balance x w c' ≡ balance x w c
    pub supply : SameSupply c c'
    pub metadata : SameMetadata c c'

  -- `n` of the asset leaves an account and the issuance.
  pub record Burns (asset from n : ℕ) (c c' : Chain) : Type 0 where
    pub debited : balance asset from c' + n ≡ balance asset from c
    pub others : (x w : ℕ) → ((x ≢ asset) ⊎ (w ≢ from)) → balance x w c' ≡ balance x w c
    pub shrunk : total_issuance asset c' + n ≡ total_issuance asset c
    pub other_assets : (x : ℕ) → x ≢ asset → total_issuance x c' ≡ total_issuance x c
    pub metadata : SameMetadata c c'
    pub allowances : SameAllowances c c'

  pub record IsExact : Type 0 where
    -- A transfer that keeps its source alive moves just what was asked for.
    pub transfer_moves :
        (a s d n : ℕ) (c : Chain) (m : ℕ)
        → (p.transfer a s d n true c).0 ≡ ok m
        → Moves a s d n c (p.transfer a s d n true c).1
          × SameAllowances c (p.transfer a s d n true c).1
    -- One by a delegate moves the whole balance where less than the minimum would be left.
    pub transfer_from_moves :
        (a o s d n : ℕ) (c : Chain)
        → (p.transfer_from a o s d n c).0 ≡ ok tt
        → let c' = (p.transfer_from a o s d n c).1 in
          ((m : ℕ) × ((m ≡ n) ⊎ ((n < m) × (m ≡ balance a o c))) × Moves a o d m c c')
          × (allowance a o s c' ≡ allowance a o s c - n)
          × OnlyAllowance p a o s c c'
    -- A burn takes what there is, up to what was asked for, or the whole balance likewise.
    pub burn_burns :
        (o a f n : ℕ) (c : Chain)
        → (p.burn (signed o) a (unlookup f) n c).0 ≡ ok tt
        → (m : ℕ) × ((m ≤ n) ⊎ (m ≡ balance a f c))
          × Burns a f m c (p.burn (signed o) a (unlookup f) n c).1
    pub approve_keeps :
        (a o s n : ℕ) (c : Chain)
        → (p.approve a o s n c).0 ≡ ok tt
        → SameSupply c (p.approve a o s n c).1 × SameMetadata c (p.approve a o s n c).1
    pub cancel_keeps :
        (o a s : ℕ) (c : Chain)
        → (p.cancel_approval (signed o) a (unlookup s) c).0 ≡ ok tt
        → let c' = (p.cancel_approval (signed o) a (unlookup s) c).1 in
          SameSupply c c' × SameMetadata c c'
