-- ===== src/Genesis.antt =====
-- The genesis state of a chain (node/src/chain_spec.rs, `mainnet_genesis`), the root key
-- (`Genesis.RootKey`) and the chain specifications that use it (`Genesis.Specs`, with `load_spec`
-- of node/src/command.rs).
pub mod RootKey
pub mod Issuance
pub mod Roles
pub mod Specs
pub mod Funding
mod Tests
use lunes_nightly.Prelude.{
  ℕ, ◌+◌, ◌-◌, ◌%◌, ◌^◌, Bool, Option, none, some, List, [], ◌∷◌, ◌++◌, map, leb, if◌then◌else◌,
  length,
}
use lunes_nightly.Constants.{
  total_initial_issuance_lunes, total_initial_issuance_lunes_test, min_validator_bond,
  min_nominator_bond,
}

pub record SessionKeys : Type 0 where
  pub aura : ℕ
  pub grandpa : ℕ

-- An initial authority: its account and its two consensus keys.
pub record Authority : Type 0 where
  pub account : ℕ
  pub aura_id : ℕ
  pub grandpa_id : ℕ

-- `session_keys`
abbrev pub session_keys : ℕ → ℕ → SessionKeys
session_keys aura grandpa = record { aura = aura; grandpa = grandpa }

-- A staker with the status `StakerStatus::Validator`: stash, controller and bond.
pub data Staker : Type 0 where
  validator : ℕ → ℕ → ℕ → Staker

-- The fields of `GenesisConfig` that `mainnet_genesis` fills itself; the others are defaults.
pub record GenesisConfig : Type 0 where
  pub code : List ℕ
  pub balances : List (ℕ × ℕ)
  pub keys : List (ℕ × ℕ × SessionKeys)
  pub validator_count : ℕ
  pub minimum_validator_count : ℕ
  pub invulnerables : List ℕ
  pub slash_reward_percent : ℕ
  pub validator_bond_minimum : ℕ
  pub nominator_bond_minimum : ℕ
  pub stakers : List Staker
  pub technical_members : List ℕ
  pub sudo_key : Option ℕ

-- `a -= b` on `u128`: where it does not fit, a build with overflow checks panics (`none`), and one
-- without them, such as the release profile, wraps round.
unfoldable pub sub_assign : Bool → ℕ → ℕ → Option ℕ
sub_assign checks a b =
    if leb b a then some (a - b) else if checks then none else some (a + 2 ^ 128 - b)

-- The loop that takes each endowment off the issuance.
unfoldable pub deduct : Bool → ℕ → List (ℕ × ℕ) → Option ℕ
deduct checks issuance [] = some issuance
deduct checks issuance ((who, amount) ∷ rest) = elim (sub_assign checks issuance amount) [
  | none ↦ none
  | some left ↦ deduct checks left rest
]

abbrev pub initial_issuance : Bool → ℕ
initial_issuance testnet =
    if testnet then total_initial_issuance_lunes_test else total_initial_issuance_lunes

abbrev pub staker_of : Authority → Staker
staker_of x = validator x.account x.account min_validator_bond

abbrev pub keys_of : Authority → ℕ × ℕ × SessionKeys
keys_of x = (x.account, x.account, session_keys x.aura_id x.grandpa_id)

abbrev pub account_of_entry : ℕ × ℕ → ℕ
account_of_entry (who, amount) = who

-- `mainnet_genesis` below its loop, with what is left of the issuance.
unfoldable pub build_genesis : List ℕ → List Authority → ℕ → List (ℕ × ℕ) → ℕ → GenesisConfig
build_genesis wasm_binary initial_authorities root_key endowed genesis_issuance =
    let endowed_accounts = endowed ++ (root_key, genesis_issuance) ∷ [] in
    record {
      code = wasm_binary;
      balances = endowed_accounts;
      keys = map keys_of initial_authorities;
      validator_count = length initial_authorities % 2 ^ 32;
      minimum_validator_count = length initial_authorities % 2 ^ 32;
      invulnerables = map (λ x. x.account) initial_authorities;
      slash_reward_percent = 10;
      validator_bond_minimum = min_validator_bond;
      nominator_bond_minimum = min_nominator_bond;
      stakers = map staker_of initial_authorities;
      technical_members = map account_of_entry endowed_accounts;
      sudo_key = some root_key;
    }

-- `mainnet_genesis`, in a build with or without overflow checks; `none` is a panic.
unfoldable pub mainnet_genesis :
    Bool → List ℕ → List Authority → ℕ → List (ℕ × ℕ) → Bool → Option GenesisConfig
mainnet_genesis checks wasm_binary initial_authorities root_key endowed enable_testnet =
    elim (deduct checks (initial_issuance enable_testnet) endowed) [
      | none ↦ none
      | some left ↦ some (build_genesis wasm_binary initial_authorities root_key endowed left)
    ]
