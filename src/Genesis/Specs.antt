-- ===== src/Genesis/Specs.antt =====
-- The chain specifications (node/src/chain_spec.rs) and the choice among them by `load_spec`
-- (node/src/command.rs). Key derivation, the compiled runtime, the environment and the file reader
-- are parameters.
use Prim.Native.String.{◌++◌ as str_append}
use text.Mathlib.Text.{◌==◌ as str_eq}
use lunes_nightly.Prelude.{
  ℕ, String, Bool, true, false, ◌||◌, Option, none, some, Result, ok, err, List, [], ◌∷◌,
  if◌then◌else◌,
}
use lunes_nightly.Constants.{initial_collator_staking}
use lunes_nightly.Genesis.{GenesisConfig, Authority, mainnet_genesis}
use lunes_nightly.Genesis.RootKey.{EnvVar, get_root_key}

pub data ChainType : Type 0 where
  development local live : ChainType

pub record Properties : Type 0 where
  pub token_symbol : String
  pub token_decimals : ℕ
  pub ss58_format : ℕ

pub record ChainSpec : Type 0 where
  pub name : String
  pub id : String
  pub chain_type : ChainType
  -- The closure that builds the genesis state, for a build with or without overflow checks; `none`
  -- is a panic.
  pub genesis : Bool → Option GenesisConfig
  pub telemetry : Option String
  pub protocol_id : Option String
  pub properties : Option Properties

-- What the specifications take from elsewhere: the public keys of a secret's address, the binary
-- that the build script makes, the environment, the hexadecimal decoder and the file reader.
pub record Host : Type 0 where
  pub sr25519_public : String → ℕ
  pub aura_public : String → ℕ
  pub grandpa_public : String → ℕ
  pub wasm_binary : Option (List ℕ)
  pub lunes_root_key : EnvVar
  pub hex_decode : List ℕ → Option (List ℕ)
  pub from_json_file : String → Result String ChainSpec

-- `get_from_seed`, over the public key of the address "//seed".
unfoldable pub get_from_seed : (String → ℕ) → String → ℕ
get_from_seed public seed = public (str_append "//" seed)

module _ (h : Host) where
  open h use {sr25519_public, aura_public, grandpa_public, wasm_binary, lunes_root_key, hex_decode}

  unfoldable pub get_account_id_from_seed : String → ℕ
  get_account_id_from_seed seed = get_from_seed sr25519_public seed

  unfoldable pub authority_keys_from_seed : String → Authority
  authority_keys_from_seed s = record {
    account = get_account_id_from_seed s;
    aura_id = get_from_seed aura_public s;
    grandpa_id = get_from_seed grandpa_public s;
  }

  -- The accounts that the development and the local chain endow.
  abbrev pub dev_balances : List (ℕ × ℕ)
  dev_balances =
      (get_account_id_from_seed "Bob", initial_collator_staking)
      ∷ (get_account_id_from_seed "Alice//stash", initial_collator_staking)
      ∷ (get_account_id_from_seed "Bob//stash", initial_collator_staking)
      ∷ []

  abbrev ok_or : {A : Type 0} → Option A → String → Result String A
  ok_or none e = err e
  ok_or (some a) e = ok a

  abbrev lunes_properties : ℕ → Properties
  lunes_properties ss58 = record { token_symbol = "LUNES"; token_decimals = 8; ss58_format = ss58 }

  abbrev pub development_spec : List ℕ → ChainSpec
  development_spec wasm = record {
    name = "Development";
    id = "dev";
    chain_type = development;
    genesis = λ checks.
        mainnet_genesis checks wasm (authority_keys_from_seed "Alice" ∷ [])
          (get_account_id_from_seed "Alice") dev_balances true;
    telemetry = none;
    protocol_id = some "lunes-development";
    properties = some (lunes_properties 42);
  }

  unfoldable pub development_config : Result String ChainSpec
  development_config = elim (ok_or wasm_binary "Development wasm not available") [
    | err e ↦ err e
    | ok wasm ↦ ok (development_spec wasm)
  ]

  abbrev pub local_testnet_spec : List ℕ → ChainSpec
  local_testnet_spec wasm = record {
    name = "Local Testnet";
    id = "local_testnet";
    chain_type = local;
    genesis = λ checks.
        mainnet_genesis checks wasm
          (authority_keys_from_seed "Alice" ∷ authority_keys_from_seed "Bob" ∷ [])
          (get_account_id_from_seed "Alice") dev_balances true;
    telemetry = none;
    protocol_id = none;
    properties = none;
  }

  unfoldable pub local_testnet_config : Result String ChainSpec
  local_testnet_config = elim (ok_or wasm_binary "Development wasm not available") [
    | err e ↦ err e
    | ok wasm ↦ ok (local_testnet_spec wasm)
  ]

  abbrev pub authority : ℕ → ℕ → ℕ → Authority
  authority account aura grandpa = record {
    account = account;
    aura_id = aura;
    grandpa_id = grandpa;
  }

  -- The initial authorities and endowments of `staging_network_config_genesis`.
  abbrev pub staging_authorities : List Authority
  staging_authorities =
      authority 0x663061efaa2334649267572ad07bf9004e0343bccba8569fdab0bddf570a5249
        0xfa6df89070c009cb37e2baef97b1fb6c34e46618983bad35b307d16b89f57a57
        0xf25c62b6981a74e4be39f79e3d7a164614ea8ee7323d32530fdd80f1c5be10e4
      ∷ authority 0x6aac7cb8ad6554a15672cb6be4e7fce3d98bb0c12acf4c88e68a71bcf3fdbc30
          0x94f51898dda2d6492edad1149b81d6f7ee71eeec661dfc7852a74a6d75480b7c
          0x1d465b3e1a8cbd4eead242c27483708f2c6ed185c07ba27f6ad5560d7dfad341
      ∷ authority 0x6c2caa79eda8d94521bf988d7b8ac8a7e0182490f342ec62bfb5b5c17745be0b
          0xa2d18494091952ffb86f0820e53f2c192d2cbf87cdb774aeb60fac90ab393664
          0xb81226445c97abb8db94a3d46ac0c82ec9ecd216f864c9abd4a1427862d16e0d
      ∷ authority 0x60d4d2d5638cfd111a3159ca4e9aa9efb5b841f5f06442bafcc242200c3ed544
          0x269901cb7f727e506d402b858622a08b0dd9203144abfb8364af21e523d95d4c
          0xa20c5fa77833dc4d607b3416da5eaec272afc52117d3fcd600c4012822c8b670
      ∷ []

  abbrev pub staging_endowed : List (ℕ × ℕ)
  staging_endowed =
      (0x663061efaa2334649267572ad07bf9004e0343bccba8569fdab0bddf570a5249, initial_collator_staking)
      ∷ (
        0x6aac7cb8ad6554a15672cb6be4e7fce3d98bb0c12acf4c88e68a71bcf3fdbc30,
        initial_collator_staking,
      )
      ∷ (
        0x6c2caa79eda8d94521bf988d7b8ac8a7e0182490f342ec62bfb5b5c17745be0b,
        initial_collator_staking,
      )
      ∷ (
        0x60d4d2d5638cfd111a3159ca4e9aa9efb5b841f5f06442bafcc242200c3ed544,
        initial_collator_staking,
      )
      ∷ []

  -- The two panics: no binary, and no valid root key.
  unfoldable pub staging_network_config_genesis : Bool → Option GenesisConfig
  staging_network_config_genesis checks = elim wasm_binary [
    | none ↦ none
    | some wasm ↦ elim (get_root_key hex_decode get_account_id_from_seed lunes_root_key) [
      | none ↦ none
      | some root_key ↦
          mainnet_genesis checks wasm staging_authorities root_key staging_endowed false
    ]
  ]

  -- The initial authorities and endowments of `staging_test_network_config_genesis`.
  abbrev pub staging_test_authorities : List Authority
  staging_test_authorities =
      authority 0x663061efaa2334649267572ad07bf9004e0343bccba8569fdab0bddf570a5249
        0xfa6df89070c009cb37e2baef97b1fb6c34e46618983bad35b307d16b89f57a57
        0xf25c62b6981a74e4be39f79e3d7a164614ea8ee7323d32530fdd80f1c5be10e4
      ∷ authority 0x6aac7cb8ad6554a15672cb6be4e7fce3d98bb0c12acf4c88e68a71bcf3fdbc30
          0x94f51898dda2d6492edad1149b81d6f7ee71eeec661dfc7852a74a6d75480b7c
          0x1d465b3e1a8cbd4eead242c27483708f2c6ed185c07ba27f6ad5560d7dfad341
      ∷ []

  abbrev pub staging_test_endowed : List (ℕ × ℕ)
  staging_test_endowed =
      (0x663061efaa2334649267572ad07bf9004e0343bccba8569fdab0bddf570a5249, initial_collator_staking)
      ∷ (
        0x6aac7cb8ad6554a15672cb6be4e7fce3d98bb0c12acf4c88e68a71bcf3fdbc30,
        initial_collator_staking,
      )
      ∷ []

  -- The two panics: no binary, and no valid root key.
  unfoldable pub staging_test_network_config_genesis : Bool → Option GenesisConfig
  staging_test_network_config_genesis checks = elim wasm_binary [
    | none ↦ none
    | some wasm ↦ elim (get_root_key hex_decode get_account_id_from_seed lunes_root_key) [
      | none ↦ none
      | some root_key ↦
          mainnet_genesis checks wasm staging_test_authorities root_key staging_test_endowed true
    ]
  ]

  abbrev staging_telemetry_url : String
  staging_telemetry_url = "wss://telemetry.polkadot.io/submit/"

  unfoldable pub staging_network_config : ChainSpec
  staging_network_config = record {
    name = "Lunes Nigthly";
    id = "lunes";
    chain_type = live;
    genesis = staging_network_config_genesis;
    telemetry = some staging_telemetry_url;
    protocol_id = some "lunes-mainnet";
    properties = some (lunes_properties 57);
  }

  unfoldable pub staging_testnet_network_config : ChainSpec
  staging_testnet_network_config = record {
    name = "Lunes Nigthly";
    id = "testnet_node";
    chain_type = live;
    genesis = staging_test_network_config_genesis;
    telemetry = some staging_telemetry_url;
    protocol_id = some "lunes-testnet";
    properties = some (lunes_properties 57);
  }

  -- `load_spec`
  unfoldable pub load_spec : String → Result String ChainSpec
  load_spec id =
      if str_eq id "dev"
      then development_config
      else if str_eq id "" || str_eq id "local"
      then local_testnet_config
      else if str_eq id "staging"
      then ok staging_network_config
      else if str_eq id "staging-test"
      then ok staging_testnet_network_config
      else h.from_json_file id
