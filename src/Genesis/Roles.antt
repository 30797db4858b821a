-- ===== src/Genesis/Roles.antt =====
-- Who is what in the genesis state of `mainnet_genesis` (node/src/chain_spec.rs).
use lunes_nightly.Prelude.{
  ℕ, ◌^◌, ◌<◌, ◌≡◌, refl, Bool, some, List, [], ◌∷◌, ◌++◌, arith, map, length, ap, length-map, All,
  sym,
}
use mathlib.Core.List.{map-append}
use mathlib.Core.Path.{subst}
use lunes_nightly.Genesis.Issuance.{genesis_from}
use lunes_nightly.Genesis.{
  GenesisConfig, Authority, SessionKeys, Staker, validator, staker_of, keys_of, account_of_entry,
  build_genesis, mainnet_genesis,
}
use lunes_nightly.Constants.{min_validator_bond}

abbrev accounts : List Authority → List ℕ
accounts auths = map (λ x. x.account) auths

abbrev pub bond_of : Staker → ℕ
bond_of (validator stash controller bond) = bond

abbrev pub stash_of : Staker → ℕ
stash_of (validator stash controller bond) = stash

abbrev key_owner : ℕ × ℕ × SessionKeys → ℕ
key_owner (who, controller, keys) = who

abbrev keys_in : ℕ × ℕ × SessionKeys → ℕ × ℕ
keys_in (who, controller, keys) = (keys.aura, keys.grandpa)

map-keys_in :
    (auths : List Authority)
    → map keys_in (map keys_of auths) ≡ map (λ x. (x.aura_id, x.grandpa_id)) auths
map-keys_in [] = refl
map-keys_in (x ∷ xs) = ap (◌∷◌ (x.aura_id, x.grandpa_id)) (map-keys_in xs)

map-staker_of : (auths : List Authority) → map stash_of (map staker_of auths) ≡ accounts auths
map-staker_of [] = refl
map-staker_of (x ∷ xs) = ap (◌∷◌ x.account) (map-staker_of xs)

map-keys_of : (auths : List Authority) → map key_owner (map keys_of auths) ≡ accounts auths
map-keys_of [] = refl
map-keys_of (x ∷ xs) = ap (◌∷◌ x.account) (map-keys_of xs)

bonds : (auths : List Authority) → All (λ s. bond_of s ≡ min_validator_bond) (map staker_of auths)
bonds [] = tt
bonds (x ∷ xs) = (refl, bonds xs)

-- The roles of a genesis state that was built for the authorities, the root key and the
-- endowments.
record HasRoles (auths : List Authority) (root : ℕ) (es : List (ℕ × ℕ)) (g : GenesisConfig)
    : Type 0 where
  -- The same accounts, in the same order, stake, hold session keys and cannot be slashed.
  pub staking : map stash_of g.stakers ≡ accounts auths
  pub validating : map key_owner g.keys ≡ accounts auths
  -- Each with its own two keys, for Aura and for Grandpa.
  pub keyed : map keys_in g.keys ≡ map (λ x. (x.aura_id, x.grandpa_id)) auths
  pub invulnerable : g.invulnerables ≡ accounts auths
  -- The number of validators asked for is theirs.
  pub counted : g.validator_count ≡ length g.stakers
  pub minimum : g.minimum_validator_count ≡ length g.stakers
  -- Each bonds exactly the smallest bond that the staking pallet takes.
  pub bonded : All (λ s. bond_of s ≡ g.validator_bond_minimum) g.stakers
  -- The root key is the sudo key, and sits on the technical committee after all endowed accounts.
  pub rooted : g.sudo_key ≡ some root
  pub committee : g.technical_members ≡ map account_of_entry es ++ root ∷ []

built :
    (wasm : List ℕ) (auths : List Authority) (root : ℕ) (es : List (ℕ × ℕ)) (left : ℕ)
    → length auths < 2 ^ 32
    → HasRoles auths root es (build_genesis wasm auths root es left)
unfolding build_genesis
built wasm auths root es left few = record {
  staking = map-staker_of auths;
  validating = map-keys_of auths;
  keyed = map-keys_in auths;
  invulnerable = refl;
  counted = omega (arith, length-map staker_of auths);
  minimum = omega (arith, length-map staker_of auths);
  bonded = bonds auths;
  rooted = refl;
  committee = map-append account_of_entry es ((root, left) ∷ []);
}

-- In every state that `mainnet_genesis` returns for fewer than 2 ^ 32 authorities, the authorities'
-- accounts stake, hold session keys, their own two, and are invulnerable, in the same order, each with the smallest
-- bond that is allowed and all of them counted; and the root key is the sudo key and sits on the
-- technical committee after the endowed accounts.
genesis-HasRoles :
    (checks testnet : Bool) (wasm : List ℕ) (auths : List Authority) (root : ℕ) (es : List (ℕ × ℕ))
    {g : GenesisConfig}
    → length auths < 2 ^ 32
    → mainnet_genesis checks wasm auths root es testnet ≡ some g
    → HasRoles auths root es g
genesis-HasRoles checks testnet wasm auths root es few e =
    let (left, same) = genesis_from checks testnet wasm auths root es _ e in
    subst (HasRoles auths root es) (sym same) (built wasm auths root es left few)
