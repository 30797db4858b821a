-- ===== src/RuntimeApi/Queries.antt =====
-- The APIs of runtime/src/lib.rs that only read: `AuraApi`, `SessionKeys`, `GrandpaApi`,
-- `AccountNonceApi`, `AssetsApi` and `NftsApi`. The pallets are parameters; an account, a collection
-- and an item are numbers.
use lunes_nightly.Prelude.{ℕ, ◌/◌, ◌≡◌, Option, none, List, u64_max, saturating_mul}
use lunes_nightly.Constants.{slot_duration, millisecs_per_block}

-- `MinimumPeriod`
abbrev pub minimum_period : ℕ
minimum_period = slot_duration / 2

-- `NativeOrEncoded` values such as keys and attributes are bytes.
abbrev Bytes : Type 0
Bytes = List ℕ

pub record Pallets : Type 1 where
  pub Chain : Type 0
  pub AuraId : Type 0
  pub GrandpaId : Type 0
  pub KeyTypeId : Type 0
  pub EquivocationProof : Type 0
  pub OpaqueKeyOwnershipProof : Type 0
  -- `Aura::slot_duration`, for the minimum period of the timestamp pallet
  pub aura_slot_duration : ℕ → ℕ
  pub aura_authorities : Chain → List AuraId
  pub generate : Option Bytes → Chain → Bytes
  pub decode_into_raw_public_keys : Bytes → Option (List (Bytes × KeyTypeId))
  pub grandpa_authorities : Chain → List (GrandpaId × ℕ)
  pub current_set_id : Chain → ℕ
  pub account_nonce : ℕ → Chain → ℕ
  pub account_balances : ℕ → Chain → List (ℕ × ℕ)
  -- `Inspect` of the pallet of collections
  pub nft_owner : ℕ → ℕ → Chain → Option ℕ
  pub nft_collection_owner : ℕ → Chain → Option ℕ
  pub nft_attribute : ℕ → ℕ → Bytes → Chain → Option Bytes
  pub nft_custom_attribute : ℕ → ℕ → ℕ → Bytes → Chain → Option Bytes
  pub nft_system_attribute : ℕ → ℕ → Bytes → Chain → Option Bytes
  pub nft_collection_attribute : ℕ → Bytes → Chain → Option Bytes

module _ (p : Pallets) where
  open p use {Chain, AuraId, GrandpaId, KeyTypeId, EquivocationProof, OpaqueKeyOwnershipProof}

  -- `AuraApi`, in milliseconds
  unfoldable pub aura_slot : ℕ
  aura_slot = p.aura_slot_duration minimum_period

  abbrev pub authorities : Chain → List AuraId
  authorities c = p.aura_authorities c

  -- `SessionKeys`
  abbrev pub generate_session_keys : Option Bytes → Chain → Bytes
  generate_session_keys seed c = p.generate seed c

  abbrev pub decode_session_keys : Bytes → Option (List (Bytes × KeyTypeId))
  decode_session_keys encoded = p.decode_into_raw_public_keys encoded

  -- `GrandpaApi`. No report is made and no proof of ownership given, whatever is asked.
  abbrev pub grandpa_authorities : Chain → List (GrandpaId × ℕ)
  grandpa_authorities c = p.grandpa_authorities c

  abbrev pub current_set_id : Chain → ℕ
  current_set_id c = p.current_set_id c

  abbrev pub submit_report_equivocation_unsigned_extrinsic :
      EquivocationProof → OpaqueKeyOwnershipProof → Chain → Option (Unit {0})
  submit_report_equivocation_unsigned_extrinsic proof key_owner_proof c = none

  abbrev pub generate_key_ownership_proof : ℕ → GrandpaId → Chain → Option OpaqueKeyOwnershipProof
  generate_key_ownership_proof set_id authority_id c = none

  -- `AccountNonceApi`
  abbrev pub account_nonce : ℕ → Chain → ℕ
  account_nonce account c = p.account_nonce account c

  -- `AssetsApi`
  abbrev pub account_balances : ℕ → Chain → List (ℕ × ℕ)
  account_balances account c = p.account_balances account c

  -- `NftsApi`
  abbrev pub owner : ℕ → ℕ → Chain → Option ℕ
  owner collection item c = p.nft_owner collection item c

  abbrev pub collection_owner : ℕ → Chain → Option ℕ
  collection_owner collection c = p.nft_collection_owner collection c

  abbrev pub attribute : ℕ → ℕ → Bytes → Chain → Option Bytes
  attribute collection item key c = p.nft_attribute collection item key c

  abbrev pub custom_attribute : ℕ → ℕ → ℕ → Bytes → Chain → Option Bytes
  custom_attribute account collection item key c =
      p.nft_custom_attribute account collection item key c

  abbrev pub system_attribute : ℕ → ℕ → Bytes → Chain → Option Bytes
  system_attribute collection item key c = p.nft_system_attribute collection item key c

  abbrev pub collection_attribute : ℕ → Bytes → Chain → Option Bytes
  collection_attribute collection key c = p.nft_collection_attribute collection key c

  -- Where Aura takes twice the minimum period between two timestamps for a slot, as it documents,
  -- a slot is a block's time, so halving the slot duration for the minimum period loses nothing.
  slot_is_block_time :
      ((period : ℕ) → p.aura_slot_duration period ≡ saturating_mul u64_max period 2)
      → (aura_slot ≡ millisecs_per_block) × (aura_slot ≡ slot_duration)
  unfolding aura_slot
  slot_is_block_time law = (law minimum_period, law minimum_period)
