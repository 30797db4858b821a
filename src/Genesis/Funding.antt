-- ===== src/Genesis/Funding.antt =====
-- The built-in chain specifications (node/src/chain_spec.rs) reach a genesis state in which every
-- bond is covered.
use lunes_nightly.Prelude.{
  ℕ, String, ◌-◌, ◌≤◌, ◌≡◌, ◌⊎◌, inl, inr, refl, Bool, true, false, Option, some, ok, List, [], ◌∷◌,
  ◌++◌, arith, map, All,
}
use lunes_nightly.Constants.{min_validator_bond}
use lunes_nightly.Genesis.{
  GenesisConfig, Authority, staker_of, initial_issuance, build_genesis, mainnet_genesis,
}
use lunes_nightly.Genesis.RootKey.{get_root_key}
use lunes_nightly.Genesis.Issuance.{total, total-append, genesis_built, deduct_fits}
use lunes_nightly.Genesis.Roles.{stash_of, bond_of}
use lunes_nightly.Genesis.Specs.{
  Host, ChainSpec, get_account_id_from_seed, authority_keys_from_seed, dev_balances,
  development_spec, local_testnet_spec, development_config, local_testnet_config,
  staging_authorities, staging_endowed, staging_test_authorities, staging_test_endowed,
  staging_network_config, staging_testnet_network_config, staging_network_config_genesis,
  staging_test_network_config_genesis, load_spec,
}

-- The account has an entry of at least `n` among the balances.
abbrev pub Funds : ℕ → ℕ → List (ℕ × ℕ) → Type 0
Funds who n [] = ⊥
Funds who n ((w, amount) ∷ rest) = ((w ≡ who) × (n ≤ amount)) ⊎ Funds who n rest

-- Every staker can pay its bond from its genesis balance.
abbrev pub IsFunded : GenesisConfig → Type 0
IsFunded g = All (λ s. Funds (stash_of s) (bond_of s) g.balances) g.stakers

stakers-funded :
    (bs : List (ℕ × ℕ)) (auths : List Authority)
    → All (λ x. Funds x.account min_validator_bond bs) auths
    → All (λ s. Funds (stash_of s) (bond_of s) bs) (map staker_of auths)
stakers-funded bs [] h = tt
stakers-funded bs (x ∷ xs) h = (h.0, stakers-funded bs xs h.1)

-- What the theorem says of one genesis closure.
abbrev pub Builds : (Bool → Option GenesisConfig) → Bool → Type 0
Builds genesis testnet =
    (checks : Bool)
    → (g : GenesisConfig) × (genesis checks ≡ some g)
      × IsFunded g
      × (total g.balances ≡ initial_issuance testnet)

mainnet-Builds :
    (testnet : Bool) (wasm : List ℕ) (auths : List Authority) (root : ℕ) (es : List (ℕ × ℕ))
    → total es ≤ initial_issuance testnet
    → All
        (λ x.
          Funds x.account min_validator_bond
            (es ++ (root, initial_issuance testnet - total es) ∷ []))
        auths
    → Builds (λ checks. mainnet_genesis checks wasm auths root es testnet) testnet
unfolding build_genesis
mainnet-Builds testnet wasm auths root es fits funded checks =
    let left = initial_issuance testnet - total es in
    (
      build_genesis wasm auths root es left,
      genesis_built checks testnet wasm auths root es left
          (deduct_fits checks (initial_issuance testnet) es fits),
      stakers-funded _ auths funded,
      omega (arith, total-append es ((root, left) ∷ [])),
    )

-- The ids that `load_spec` knows.
pub data BuiltIn : Type 0 where
  dev unnamed local staging staging_test : BuiltIn

abbrev pub id_of : BuiltIn → String
id_of dev = "dev"
id_of unnamed = ""
id_of local = "local"
id_of staging = "staging"
id_of staging_test = "staging-test"

-- Only "staging" starts with the issuance of the main net.
abbrev pub is_testnet : BuiltIn → Bool
is_testnet staging = false
is_testnet _ = true

module _ (h : Host) (wasm : List ℕ) where
  dev-Builds : Builds (development_spec h wasm).genesis true
  unfolding authority_keys_from_seed
  dev-Builds =
      mainnet-Builds true wasm (authority_keys_from_seed h "Alice" ∷ [])
        (get_account_id_from_seed h "Alice") (dev_balances h) (omega arith)
        (inr (inr (inr (inl (refl, omega arith)))), tt)

  local-Builds : Builds (local_testnet_spec h wasm).genesis true
  unfolding authority_keys_from_seed
  local-Builds =
      mainnet-Builds true wasm
        (authority_keys_from_seed h "Alice" ∷ authority_keys_from_seed h "Bob" ∷ [])
        (get_account_id_from_seed h "Alice") (dev_balances h) (omega arith)
        (inr (inr (inr (inl (refl, omega arith)))), (inl (refl, omega arith), tt))

module _ (h : Host) (wasm : List ℕ) (root : ℕ) (binary : h.wasm_binary ≡ some wasm)
    (key : get_root_key h.hex_decode (get_account_id_from_seed h) h.lunes_root_key
      ≡ some root) where
  staging_opens :
      (checks : Bool)
      → (staging_network_config h).genesis checks
        ≡ mainnet_genesis checks wasm (staging_authorities h) root (staging_endowed h) false
  unfolding staging_network_config staging_network_config_genesis
  staging_opens checks = rw (binary, staging_network_config_genesis) (rw key)

  staging_test_opens :
      (checks : Bool)
      → (staging_testnet_network_config h).genesis checks
        ≡ mainnet_genesis checks wasm
            (staging_test_authorities h)
            root
            (staging_test_endowed h)
            true
  unfolding staging_testnet_network_config staging_test_network_config_genesis
  staging_test_opens checks = rw (binary, staging_test_network_config_genesis) (rw key)

  staging-Builds : Builds (staging_network_config h).genesis false
  staging-Builds checks = rw (staging_opens checks) (
      mainnet-Builds false wasm (staging_authorities h) root (staging_endowed h) (omega arith)
        (
          inl (refl, omega arith),
          (
            inr (inl (refl, omega arith)),
            (inr (inr (inl (refl, omega arith))), (inr (inr (inr (inl (refl, omega arith)))), tt)),
          ),
        )
        checks)

  staging_test-Builds : Builds (staging_testnet_network_config h).genesis true
  staging_test-Builds checks = rw (staging_test_opens checks) (
      mainnet-Builds true wasm (staging_test_authorities h) root (staging_test_endowed h)
        (omega arith) (inl (refl, omega arith), (inr (inl (refl, omega arith)), tt)) checks)

  -- With a compiled runtime and a valid root key, each of the five built-in ids of `load_spec`
  -- gives a specification whose genesis closure returns a state, with and without overflow checks;
  -- there every staker's bond is covered by an entry of its own, and the balances add up to the
  -- initial issuance, of the main net for "staging" and of the test net for the other four.
  pub load_spec-Builds :
      (b : BuiltIn)
      → (spec : ChainSpec) × (load_spec h (id_of b) ≡ ok spec) × Builds spec.genesis (is_testnet b)
  unfolding load_spec development_config local_testnet_config
  load_spec-Builds dev = (development_spec h wasm, rw binary, dev-Builds h wasm)
  load_spec-Builds unnamed = (local_testnet_spec h wasm, rw binary, local-Builds h wasm)
  load_spec-Builds local = (local_testnet_spec h wasm, rw binary, local-Builds h wasm)
  load_spec-Builds staging = (staging_network_config h, refl, staging-Builds)
  load_spec-Builds staging_test = (staging_testnet_network_config h, refl, staging_test-Builds)
