-- ===== src/Mint/Open.antt =====
-- What `RestrictAssetMint` (runtime/src/lib.rs) leaves open: every mint of USDT, and one mint of an
-- asset without a supply.
use lunes_nightly.Prelude.{
  ℕ, ◌+◌, ◌≡◌, ◌≢◌, Bool, ◌&&◌, List, [], ◌∷◌, ◌⊎◌, arith, Bool-cases, ◌==◌, ltb, inl, inr,
  if◌then◌else◌, sym,
}
use lunes_nightly.Mint.{assets_mint, Transactions, usdt_asset_id}
use lunes_nightly.Mint.Lock.{
  IsLawful, MintCall, apply_signed, apply_mints, apply_mints-supply, mint_passes, mint_apart,
}

module _ (t : Transactions) where
  open t use {Chain, total_supply, dispatch}

  -- Whether the assets pallet grants a mint in a state.
  abbrev pub granted : MintCall → Chain → Bool
  granted m c = (dispatch (assets_mint m.asset m.beneficiary m.amount) m.signer c).0

  abbrev pub mint_step : MintCall → Chain → Chain
  mint_step m c = apply_signed t m.signer (assets_mint m.asset m.beneficiary m.amount) c

  -- What the mints of an asset add up to that are granted in the state that they come upon.
  unfoldable pub granted_amount : ℕ → List MintCall → Chain → ℕ
  granted_amount x [] c = 0
  granted_amount x (m ∷ ms) c =
      let rest = granted_amount x ms (mint_step m c) in
      if m.asset == x && granted m c then m.amount + rest else rest

  -- The amount of the first of them that is granted and not zero.
  unfoldable pub first_granted : ℕ → List MintCall → Chain → ℕ
  first_granted x [] c = 0
  first_granted x (m ∷ ms) c =
      let rest = first_granted x ms (mint_step m c) in
      if m.asset == x && granted m c && ltb 0 m.amount then m.amount else rest

module _ (t : Transactions) (laws : IsLawful t) where
  open t use {Chain, total_supply, dispatch}

  -- A mint that the lock lets pass adds its amount where it is granted.
  open_step :
      (m : MintCall) (c : Chain)
      → (m.asset ≡ usdt_asset_id) ⊎ (total_supply m.asset c ≡ 0)
      → total_supply m.asset (mint_step t m c)
        ≡ total_supply m.asset c + (if granted t m c then m.amount else 0)
  open_step m c open_asset =
      let passes =
        mint_passes t laws m.signer m.asset m.beneficiary m.amount m.asset c open_asset in
      elim (Bool-cases (granted t m c)) [
        | inl grants ↦
            ground (
              arith,
              passes,
              grants,
              laws.mint_adds m.asset m.beneficiary m.amount m.signer c grants,
            )
        | inr refuses ↦ ground (
          arith,
          passes,
          refuses,
          laws.mint_fails m.asset m.beneficiary m.amount m.signer c refuses,
        )
      ]

  -- A mint of USDT adds its amount where it is granted, and any other mint leaves USDT.
  usdt_step :
      (m : MintCall) (c : Chain)
      → total_supply usdt_asset_id (mint_step t m c)
        ≡ total_supply usdt_asset_id c
          + (if m.asset == usdt_asset_id && granted t m c then m.amount else 0)
  usdt_step m c = elim (Bool-cases (m.asset == usdt_asset_id)) [
    | inl same ↦
        let e : m.asset ≡ usdt_asset_id = ground arith in rw (same, sym e) (open_step m c (inl e))
    | inr apart ↦
        let kept =
          mint_apart t laws m.signer m.asset m.beneficiary m.amount usdt_asset_id c
            (ground arith) in
        ground (arith, kept, apart)
  ]

  usdt_supply :
      (ms : List MintCall) (c : Chain)
      → total_supply usdt_asset_id (apply_mints t ms c)
        ≡ total_supply usdt_asset_id c + granted_amount t usdt_asset_id ms c
  unfolding apply_mints granted_amount
  usdt_supply [] c = omega arith
  usdt_supply (m ∷ ms) c = ground (arith, usdt_step m c, usdt_supply ms (mint_step t m c))

  -- A mint upon no supply.
  fresh_step :
      (x : ℕ) (m : MintCall) (c : Chain)
      → total_supply x c ≡ 0
      → total_supply x (mint_step t m c) ≡ (if m.asset == x && granted t m c then m.amount else 0)
  fresh_step x m c none_yet = elim (Bool-cases (m.asset == x)) [
    | inl same ↦
        let e : m.asset ≡ x = ground arith in
        let step = open_step m c (inr (rw e none_yet)) in ground (arith, step, e, same, none_yet)
    | inr apart ↦
        let kept = mint_apart t laws m.signer m.asset m.beneficiary m.amount x c (ground arith) in
        ground (arith, kept, apart, none_yet)
  ]

  fresh_supply :
      (x : ℕ) (ms : List MintCall) (c : Chain)
      → x ≢ usdt_asset_id
      → total_supply x c ≡ 0
      → total_supply x (apply_mints t ms c) ≡ first_granted t x ms c
  unfolding apply_mints first_granted
  fresh_supply x [] c other none_yet = none_yet
  fresh_supply x (m ∷ ms) c other none_yet =
      let step = fresh_step x m c none_yet in
      elim (Bool-cases (m.asset == x && granted t m c && ltb 0 m.amount)) [
        | inl takes ↦
            let first : total_supply x (mint_step t m c) ≡ m.amount = ground (arith, step) in
            let kept =
              apply_mints-supply t laws ms x (mint_step t m c) other (ground (arith, first)) in
            ground (arith, kept, first)
        | inr not_yet ↦
            let still : total_supply x (mint_step t m c) ≡ 0 = ground (arith, step) in
            ground (arith, fresh_supply x ms (mint_step t m c) other still)
      ]

  -- The supply of every asset after any sequence of mints that are sent as the calls of signed
  -- extrinsics, from any state: USDT has grown by all the mints that the assets pallet grants in the
  -- state that they come upon; another asset keeps the supply that it had, and if it had none it
  -- has the amount of the first mint of a positive amount that is granted. The libraries behave as
  -- documented.
  pub apply_mints_open :
      (x : ℕ) (ms : List MintCall) (c : Chain)
      → total_supply x (apply_mints t ms c) ≡ (
          if x == usdt_asset_id
          then total_supply x c + granted_amount t x ms c
          else if ltb 0 (total_supply x c)
          then total_supply x c
          else first_granted t x ms c)
  apply_mints_open x ms c = elim (Bool-cases (x == usdt_asset_id)) [
    | inl usdt ↦ let e : x ≡ usdt_asset_id = ground arith in rw (usdt, e) (usdt_supply ms c)
    | inr other ↦ elim (Bool-cases (ltb 0 (total_supply x c))) [
      | inl positive ↦
          ground (arith, apply_mints-supply t laws ms x c (ground arith) (ground arith))
      | inr none_yet ↦ ground (arith, fresh_supply x ms c (ground arith) (ground arith))
    ]
  ]
