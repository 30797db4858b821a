-- ===== src/Genesis/Tests.antt =====
-- The tests of node/src/chain_spec.rs for the root key, and the theorems about the genesis state
-- at concrete inputs.
use lunes_nightly.Prelude.{
  ℕ, String, ◌+◌, ◌^◌, ◌≡◌, ◌≤◌, ◌<◌, ◌⊎◌, ◌≢◌, refl, true, false, Option, none, some, ok, err,
  List, [], ◌∷◌, ◌++◌, arith, length, if◌then◌else◌, ◌==◌, ◌*◌, zero, suc, Option-cases, inl, inr,
}
use lunes_nightly.Genesis.{GenesisConfig, Authority, mainnet_genesis, initial_issuance}
use lunes_nightly.Genesis.RootKey.{
  value, not_present, not_unicode, get_root_key, account_of, trim, trim_start, strip_0x,
}
use lunes_nightly.Genesis.RootKey.Parse.{
  IsHexDecoder, AllHex, prefixed, get_root_key_parses, get_root_key_fallback,
}
use lunes_nightly.Genesis.Issuance.{total, genesis_issuance}
use lunes_nightly.Genesis.Specs.{Host, ChainSpec, load_spec}
use lunes_nightly.Genesis.Funding.{staging, Builds, load_spec-Builds}

-- A decoder that knows one text, of 64 zeros.
abbrev zeros : ℕ → List ℕ
zeros zero = []
zeros (suc n) = 0x30 ∷ zeros n

abbrev null_bytes : ℕ → List ℕ
null_bytes zero = []
null_bytes (suc n) = 0 ∷ null_bytes n

-- Takes pairs of zeros.
abbrev zero_pairs : List ℕ → Option (List ℕ)
zero_pairs [] = some []
zero_pairs (a ∷ []) = none
zero_pairs (a ∷ b ∷ rest) = elim (zero_pairs rest) [
  | none ↦ none
  | some bytes ↦ if a == 0x30 then (if b == 0x30 then some (0 ∷ bytes) else none) else none
]

zero_pairs-digits : (text bytes : List ℕ) → zero_pairs text ≡ some bytes → AllHex text
zero_pairs-digits [] bytes e = tt
zero_pairs-digits (a ∷ []) bytes e = cc
zero_pairs-digits (a ∷ b ∷ rest) bytes e = elim (Option-cases (zero_pairs rest)) [
  | inl none_left ↦ absurd (ground arith)
  | inr (bytes', f) ↦ (ground arith, (ground arith, zero_pairs-digits rest bytes' f))
]

zero_pairs-halves :
    (text bytes : List ℕ) → zero_pairs text ≡ some bytes → length text ≡ 2 * length bytes
zero_pairs-halves [] bytes e = ground arith
zero_pairs-halves (a ∷ []) bytes e = cc
zero_pairs-halves (a ∷ b ∷ rest) bytes e = elim (Option-cases (zero_pairs rest)) [
  | inl none_left ↦ absurd (ground arith)
  | inr (bytes', f) ↦ ground (arith, zero_pairs-halves rest bytes' f)
]

zero_pairs-IsHexDecoder : IsHexDecoder zero_pairs
zero_pairs-IsHexDecoder = record { digits = zero_pairs-digits; halves = zero_pairs-halves }

abbrev seed_key : String → ℕ
seed_key seed = 77

-- " 0x00…00" with a line feed behind it.
abbrev padded : List ℕ
padded = (0x20 ∷ []) ++ (0x30 ∷ 0x78 ∷ zeros 64) ++ (0x0a ∷ [])

root_key_of_padded : get_root_key zero_pairs seed_key (value padded) ≡ some 0
unfolding get_root_key account_of trim trim_start strip_0x
root_key_of_padded = refl

root_key_too_short : get_root_key zero_pairs seed_key (value (zeros 62)) ≡ none
unfolding get_root_key account_of trim trim_start strip_0x
root_key_too_short = refl

root_key_unset : get_root_key zero_pairs seed_key not_present ≡ some 77
unfolding get_root_key
root_key_unset = refl

get_root_key_parses_example :
    get_root_key zero_pairs seed_key
      (value ((0x20 ∷ []) ++ (prefixed zero_pairs seed_key true (zeros 64) ++ (0x0a ∷ []))))
    ≡ some 0
get_root_key_parses_example =
    get_root_key_parses zero_pairs seed_key zero_pairs-IsHexDecoder true (0x20 ∷ []) (zeros 64)
      (0x0a ∷ []) (null_bytes 32) (refl, tt) (refl, tt) refl refl

get_root_key_fallback_example :
    (get_root_key zero_pairs seed_key (value padded)
      ≡ get_root_key zero_pairs (λ s. 5) (value padded))
    × (((bytes : List ℕ) → zero_pairs (strip_0x (trim padded)) ≡ some bytes → length bytes ≢ 32)
        → get_root_key zero_pairs seed_key (value padded) ≡ none)
    × (get_root_key zero_pairs seed_key not_unicode ≡ get_root_key zero_pairs seed_key not_present)
get_root_key_fallback_example = get_root_key_fallback zero_pairs seed_key (λ s. 5) padded

abbrev auth : Authority
auth = record { account = 3; aura_id = 30; grandpa_id = 300 }

-- Two endowments of 150,000,000 LUNES each.
abbrev rich : List (ℕ × ℕ)
rich = (3, 15_000_000_000_000_000) ∷ (4, 15_000_000_000_000_000) ∷ []

genesis_issuance_example :
    ((total rich ≤ initial_issuance false)
      × (g : GenesisConfig) × (mainnet_genesis true [] (auth ∷ []) 9 rich false ≡ some g)
      × (total g.balances ≡ initial_issuance false))
    ⊎ ((initial_issuance false < total rich)
        × (mainnet_genesis true [] (auth ∷ []) 9 rich false ≡ none)
        × ((g : GenesisConfig) × (mainnet_genesis false [] (auth ∷ []) 9 rich false ≡ some g)
            × (total g.balances ≡ initial_issuance false + 2 ^ 128)))
genesis_issuance_example = genesis_issuance true false [] (auth ∷ []) 9 rich (omega arith)

abbrev host : Host
host = record {
  sr25519_public = seed_key;
  aura_public = seed_key;
  grandpa_public = seed_key;
  wasm_binary = some [];
  lunes_root_key = value (zeros 64);
  hex_decode = zero_pairs;
  from_json_file = λ path. err "no such file";
}

load_spec-Builds_example :
    (spec : ChainSpec) × (load_spec host "staging" ≡ ok spec) × Builds spec.genesis false
unfolding get_root_key account_of trim trim_start strip_0x
load_spec-Builds_example = load_spec-Builds host [] 0 refl refl staging
