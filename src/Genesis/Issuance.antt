-- ===== src/Genesis/Issuance.antt =====
-- The balances of the genesis state (node/src/chain_spec.rs, `mainnet_genesis`) against the initial
-- issuance.
use lunes_nightly.Prelude.{
  ℕ, ◌+◌, ◌-◌, ◌^◌, ◌≤◌, ◌<◌, ◌≡◌, Bool, true, false, none, some, List, [], ◌∷◌, ◌++◌, arith, ◌⊎◌,
  leb, Bool-cases, inl, inr, sym, ◌∙◌, Option-cases,
}
use mathlib.Core.Option.{some-injective}
use lunes_nightly.Genesis.{
  GenesisConfig, Authority, sub_assign, deduct, initial_issuance, build_genesis, mainnet_genesis,
}

abbrev pub total : List (ℕ × ℕ) → ℕ
total [] = 0
total ((who, amount) ∷ rest) = amount + total rest

pub total-append : (xs ys : List (ℕ × ℕ)) → total (xs ++ ys) ≡ total xs + total ys
total-append [] ys = omega arith
total-append (x ∷ xs) ys = omega (arith, total-append xs ys)

pub deduct_fits :
    (checks : Bool) (issuance : ℕ) (es : List (ℕ × ℕ))
    → total es ≤ issuance
    → deduct checks issuance es ≡ some (issuance - total es)
unfolding deduct sub_assign
deduct_fits checks issuance [] h = ground arith
deduct_fits checks issuance ((who, n) ∷ es) h =
    ground (arith, deduct_fits checks (issuance - n) es (omega arith))

deduct_panics :
    (issuance : ℕ) (es : List (ℕ × ℕ)) → issuance < total es → deduct true issuance es ≡ none
unfolding deduct sub_assign
deduct_panics issuance [] h = absurd (omega arith)
deduct_panics issuance ((who, n) ∷ es) h = elim (Bool-cases (leb n issuance)) [
  | inl fits ↦ ground (arith, deduct_panics (issuance - n) es (ground arith))
  | inr over ↦ ground arith
]

deduct_wraps :
    (issuance : ℕ) (es : List (ℕ × ℕ))
    → issuance < total es
    → total es ≤ 2 ^ 128
    → deduct false issuance es ≡ some (issuance + 2 ^ 128 - total es)
unfolding deduct sub_assign
deduct_wraps issuance [] h fit = absurd (omega arith)
deduct_wraps issuance ((who, n) ∷ es) h fit = elim (Bool-cases (leb n issuance)) [
  | inl fits ↦ ground (arith, deduct_wraps (issuance - n) es (ground arith) (omega arith))
  | inr over ↦ ground (arith, deduct_fits false (issuance + 2 ^ 128 - n) es (ground arith))
]

module _ (checks testnet : Bool) (wasm : List ℕ) (auths : List Authority) (root : ℕ)
    (es : List (ℕ × ℕ)) where
  pub genesis_built :
      (left : ℕ)
      → deduct checks (initial_issuance testnet) es ≡ some left
      → mainnet_genesis checks wasm auths root es testnet
        ≡ some (build_genesis wasm auths root es left)
  unfolding mainnet_genesis
  genesis_built left e = rw (e, mainnet_genesis)

  genesis_panics :
      deduct checks (initial_issuance testnet) es ≡ none
      → mainnet_genesis checks wasm auths root es testnet ≡ none
  unfolding mainnet_genesis
  genesis_panics e = rw (e, mainnet_genesis)

  -- What `mainnet_genesis` returns is built from what is left of the issuance.
  pub genesis_from :
      (g : GenesisConfig)
      → mainnet_genesis checks wasm auths root es testnet ≡ some g
      → (left : ℕ) × (g ≡ build_genesis wasm auths root es left)
  genesis_from g e = elim (Option-cases (deduct checks (initial_issuance testnet) es)) [
    | inl panics ↦ absurd (ground (arith, genesis_panics panics))
    | inr (left, fits) ↦ (left, some-injective _ _ (sym e ∙ genesis_built left fits))
  ]

-- If the endowments do not exceed the initial issuance, then `mainnet_genesis` returns a state, with
-- and without overflow checks, and its balances, the root key's rest among them, add up to exactly
-- the initial issuance.
genesis_total :
    (checks testnet : Bool) (wasm : List ℕ) (auths : List Authority) (root : ℕ) (es : List (ℕ × ℕ))
    → total es ≤ initial_issuance testnet
    → (g : GenesisConfig) × (mainnet_genesis checks wasm auths root es testnet ≡ some g)
      × (total g.balances ≡ initial_issuance testnet)
unfolding build_genesis
genesis_total checks testnet wasm auths root es h =
    let left = initial_issuance testnet - total es in
    (
      build_genesis wasm auths root es left,
      genesis_built checks testnet wasm auths root es left
          (deduct_fits checks (initial_issuance testnet) es h),
      omega (arith, total-append es ((root, left) ∷ [])),
    )

-- If the endowments exceed the initial issuance, and their sum is at most 2 ^ 128, then a build with
-- overflow checks panics, and one without them returns a state whose balances add up to 2 ^ 128
-- more than the initial issuance.
genesis_overspent :
    (testnet : Bool) (wasm : List ℕ) (auths : List Authority) (root : ℕ) (es : List (ℕ × ℕ))
    → initial_issuance testnet < total es
    → total es ≤ 2 ^ 128
    → (mainnet_genesis true wasm auths root es testnet ≡ none)
      × ((g : GenesisConfig) × (mainnet_genesis false wasm auths root es testnet ≡ some g)
          × (total g.balances ≡ initial_issuance testnet + 2 ^ 128))
unfolding build_genesis
genesis_overspent testnet wasm auths root es over fit =
    let issuance = initial_issuance testnet in
    let left = issuance + 2 ^ 128 - total es in
    (
      genesis_panics true testnet wasm auths root es (deduct_panics issuance es over),
      (
        build_genesis wasm auths root es left,
        genesis_built false testnet wasm auths root es left (deduct_wraps issuance es over fit),
        omega (arith, total-append es ((root, left) ∷ [])),
      ),
    )

-- What the balances of a genesis add up to, for endowments that add up to at most 2 ^ 128. Either the
-- endowments do not exceed the initial issuance: then `mainnet_genesis` returns a state, with and
-- without overflow checks, and its balances, the root key's rest among them, add up to exactly the
-- issuance. Or they exceed it: then a build with overflow checks panics, and one without them
-- returns a state whose balances add up to 2 ^ 128 more than the issuance.
pub genesis_issuance :
    (checks testnet : Bool) (wasm : List ℕ) (auths : List Authority) (root : ℕ) (es : List (ℕ × ℕ))
    → total es ≤ 2 ^ 128
    → ((total es ≤ initial_issuance testnet)
        × (g : GenesisConfig) × (mainnet_genesis checks wasm auths root es testnet ≡ some g)
        × (total g.balances ≡ initial_issuance testnet))
      ⊎ ((initial_issuance testnet < total es)
          × (mainnet_genesis true wasm auths root es testnet ≡ none)
          × ((g : GenesisConfig) × (mainnet_genesis false wasm auths root es testnet ≡ some g)
              × (total g.balances ≡ initial_issuance testnet + 2 ^ 128)))
genesis_issuance checks testnet wasm auths root es fit =
    elim (Bool-cases (leb (total es) (initial_issuance testnet))) [
      | inl within ↦
          let h : total es ≤ initial_issuance testnet = ground arith in
          let (g, built, sum) = genesis_total checks testnet wasm auths root es h in
          inl (h, g, built, sum)
      | inr beyond ↦
          let h : initial_issuance testnet < total es = ground arith in
          let (panics, wraps) = genesis_overspent testnet wasm auths root es h fit in
          inr (h, panics, wraps)
    ]
