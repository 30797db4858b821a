-- ===== src/Governance.antt =====
-- Who may do what in the governance of the chain (the pallet configurations of runtime/src/lib.rs):
-- each right is a check of an origin, put together from the checks of the system and the collective
-- pallets, which are a parameter.
pub mod Ranks
pub mod Coalitions
mod Tests
use lunes_nightly.Prelude.{ℕ, ◌*◌, ◌≤◌, ◌<◌, ◌≡◌, ◌↔◌, ◌⊎◌, Bool, true, ◌||◌}

-- `CouncilCollective`, `TechnicalCollective` and `AllianceCollective`
pub data Collective : Type 0 where
  council technical alliance : Collective

-- An origin as the checks see it: root, a signed account, the members of a collective that have
-- voted for a motion with the number of its seats, one member of a collective, or none of these.
pub data RawOrigin : Type 0 where
  root : RawOrigin
  signed : ℕ → RawOrigin
  members : Collective → ℕ → ℕ → RawOrigin
  member : Collective → ℕ → RawOrigin
  none_of_these : RawOrigin

-- The checks of the pallets: `EnsureRoot`, `EnsureSigned`, `EnsureProportionAtLeast`,
-- `EnsureProportionMoreThan` and `EnsureMember`.
pub record Checks : Type 0 where
  pub ensure_root : RawOrigin → Bool
  pub ensure_signed : RawOrigin → Bool
  pub proportion_at_least : Collective → ℕ → ℕ → RawOrigin → Bool
  pub proportion_more_than : Collective → ℕ → ℕ → RawOrigin → Bool
  pub ensure_member : Collective → RawOrigin → Bool

-- The rights: of democracy, of the treasury, of identity, of the collectives and the other pallets
-- that the configuration gives to root or to any signed account.
pub data Right : Type 0 where
  external_origin external_majority_origin external_default_origin submit_origin : Right
  fast_track_origin instant_origin cancellation_origin cancel_proposal_origin : Right
  blacklist_origin veto_origin : Right
  approve_origin reject_origin spend_origin : Right
  identity_force_origin registrar_origin : Right
  set_members_origin : Collective → Right
  election_force_origin staking_admin_origin preimage_manager_origin schedule_origin : Right
  asset_create_origin asset_force_origin nft_create_origin nft_force_origin nick_force_origin :
      Right
  pool_kick_origin pool_score_origin : Right

module _ (k : Checks) where
  open k use {ensure_root, ensure_signed, proportion_at_least, proportion_more_than, ensure_member}

  -- `EitherOfDiverse`
  abbrev either : (RawOrigin → Bool) → (RawOrigin → Bool) → RawOrigin → Bool
  either f g o = f o || g o

  -- `EnsureRootOrHalfCouncil`
  unfoldable pub root_or_half_council : RawOrigin → Bool
  root_or_half_council = either ensure_root (proportion_more_than council 1 2)

  -- `ApproveOrigin` and `RejectOrigin` of `pallet_treasury::Config`
  abbrev treasury_approve : RawOrigin → Bool
  treasury_approve = either ensure_root (proportion_at_least council 3 5)

  abbrev treasury_reject : RawOrigin → Bool
  treasury_reject = either ensure_root (proportion_more_than council 1 2)

  -- The origins that the other pallets have, each by its own `Config`: elections, staking, preimages,
  -- the scheduler, the treasury, assets, collections, identity, nicknames and the scored pool.
  abbrev election_force : RawOrigin → Bool
  election_force = ensure_root

  abbrev staking_admin : RawOrigin → Bool
  staking_admin = ensure_root

  abbrev preimage_manager : RawOrigin → Bool
  preimage_manager = ensure_root

  abbrev schedule_check : RawOrigin → Bool
  schedule_check = ensure_root

  abbrev treasury_spend : RawOrigin → Bool
  treasury_spend = ensure_root

  abbrev asset_create : RawOrigin → Bool
  asset_create = ensure_signed

  abbrev asset_force : RawOrigin → Bool
  asset_force = ensure_root

  abbrev nft_force : RawOrigin → Bool
  nft_force = ensure_root

  abbrev nft_create : RawOrigin → Bool
  nft_create = ensure_signed

  abbrev identity_force : RawOrigin → Bool
  identity_force = root_or_half_council

  abbrev identity_registrar : RawOrigin → Bool
  identity_registrar = root_or_half_council

  abbrev nick_force : RawOrigin → Bool
  nick_force = ensure_root

  abbrev pool_kick : RawOrigin → Bool
  pool_kick = ensure_signed

  abbrev pool_score : RawOrigin → Bool
  pool_score = ensure_signed

  -- The origins of `pallet_democracy::Config`, and for the other rights those above.
  unfoldable pub allows : Right → RawOrigin → Bool
  allows external_origin = proportion_at_least council 1 2
  allows external_majority_origin = proportion_at_least council 3 4
  allows external_default_origin = proportion_at_least council 1 1
  allows submit_origin = ensure_signed
  allows fast_track_origin = proportion_at_least technical 2 3
  allows instant_origin = proportion_at_least technical 1 1
  allows cancellation_origin = proportion_at_least council 2 3
  allows cancel_proposal_origin = either ensure_root (proportion_at_least technical 1 1)
  allows blacklist_origin = ensure_root
  allows veto_origin = ensure_member technical
  allows approve_origin = treasury_approve
  allows reject_origin = treasury_reject
  allows spend_origin = treasury_spend
  allows identity_force_origin = identity_force
  allows registrar_origin = identity_registrar
  allows (set_members_origin c) = ensure_root
  allows election_force_origin = election_force
  allows staking_admin_origin = staking_admin
  allows preimage_manager_origin = preimage_manager
  allows schedule_origin = schedule_check
  allows asset_create_origin = asset_create
  allows asset_force_origin = asset_force
  allows nft_create_origin = nft_create
  allows nft_force_origin = nft_force
  allows nick_force_origin = nick_force
  allows pool_kick_origin = pool_kick
  allows pool_score_origin = pool_score

-- The checks as the pallets document them: a motion passes a proportion if its ayes are at least, or
-- more than, that part of all seats.
pub record IsLawful (k : Checks) : Type 0 where
  pub root_iff : (o : RawOrigin) → (k.ensure_root o ≡ true) ↔ (o ≡ root)
  pub signed_iff : (o : RawOrigin) → (k.ensure_signed o ≡ true) ↔ ((who : ℕ) × (o ≡ signed who))
  pub at_least_iff :
      (c : Collective) (n d : ℕ) (o : RawOrigin)
      → (k.proportion_at_least c n d o ≡ true)
        ↔ ((ayes : ℕ) × (seats : ℕ) × (o ≡ members c ayes seats) × (n * seats ≤ d * ayes))
  pub more_than_iff :
      (c : Collective) (n d : ℕ) (o : RawOrigin)
      → (k.proportion_more_than c n d o ≡ true)
        ↔ ((ayes : ℕ) × (seats : ℕ) × (o ≡ members c ayes seats) × (n * seats < d * ayes))
  pub member_iff :
      (c : Collective) (o : RawOrigin)
      → (k.ensure_member c o ≡ true) ↔ ((who : ℕ) × (o ≡ member c who))
