-- ===== src/Pallets.antt =====
-- The pallets of the runtime (`construct_runtime!` of runtime/src/lib.rs) in their order, which gives
-- each pallet its index, and the pallets that are benchmarked.
pub mod Index
pub mod Listed
use lunes_nightly.Prelude.{ℕ, String, zero, suc, List, [], ◌∷◌, Option, none, some}

pub data Pallet : Type 0 where
  system timestamp aura grandpa balances transaction_payment sudo authorship utility : Pallet
  offences election_provider_multi_phase historical staking session voter_list : Pallet
  democracy council technical_committee alliance_motion treasury bounties : Pallet
  child_bounties scheduler preimage contracts randomness_collective_flip assets nfts : Pallet
  recovery identity indices nicks scored_pool swap : Pallet

-- The pallets in the order of the source.
abbrev pub pallets : List Pallet
pallets =
    system ∷ timestamp ∷ aura ∷ grandpa ∷ balances ∷ transaction_payment ∷ sudo ∷ authorship
    ∷ utility ∷ offences ∷ election_provider_multi_phase ∷ historical ∷ staking ∷ session
    ∷ voter_list ∷ democracy ∷ council ∷ technical_committee ∷ alliance_motion ∷ treasury ∷ bounties
    ∷ child_bounties ∷ scheduler ∷ preimage ∷ contracts ∷ randomness_collective_flip ∷ assets ∷ nfts
    ∷ recovery ∷ identity ∷ indices ∷ nicks ∷ scored_pool ∷ swap ∷ []

-- The index that the macro documents for a pallet without one of its own is its place in the list.
-- The first byte of an encoded call is such an index.
abbrev pub at : List Pallet → ℕ → Option Pallet
at [] n = none
at (p ∷ ps) zero = some p
at (p ∷ ps) (suc n) = at ps n

unfoldable pub pallet_at : ℕ → Option Pallet
pallet_at n = at pallets n

-- The crate of each pallet, and the instance of a crate that is used more than once or with one.
abbrev pub crate_of : Pallet → String
crate_of system = "frame_system"
crate_of timestamp = "pallet_timestamp"
crate_of aura = "pallet_aura"
crate_of grandpa = "pallet_grandpa"
crate_of balances = "pallet_balances"
crate_of transaction_payment = "pallet_transaction_payment"
crate_of sudo = "pallet_sudo"
crate_of authorship = "pallet_authorship"
crate_of utility = "pallet_utility"
crate_of offences = "pallet_offences"
crate_of election_provider_multi_phase = "pallet_election_provider_multi_phase"
crate_of historical = "pallet_session::historical"
crate_of staking = "pallet_staking"
crate_of session = "pallet_session"
crate_of voter_list = "pallet_bags_list"
crate_of democracy = "pallet_democracy"
crate_of council = "pallet_collective"
crate_of technical_committee = "pallet_collective"
crate_of alliance_motion = "pallet_collective"
crate_of treasury = "pallet_treasury"
crate_of bounties = "pallet_bounties"
crate_of child_bounties = "pallet_child_bounties"
crate_of scheduler = "pallet_scheduler"
crate_of preimage = "pallet_preimage"
crate_of contracts = "pallet_contracts"
crate_of randomness_collective_flip = "pallet_insecure_randomness_collective_flip"
crate_of assets = "pallet_assets"
crate_of nfts = "pallet_nfts"
crate_of recovery = "pallet_recovery"
crate_of identity = "pallet_identity"
crate_of indices = "pallet_indices"
crate_of nicks = "pallet_nicks"
crate_of scored_pool = "pallet_scored_pool"
crate_of swap = "pallet_atomic_swap"

abbrev pub instance_of : Pallet → Option ℕ
instance_of voter_list = some 1
instance_of council = some 1
instance_of technical_committee = some 2
instance_of alliance_motion = some 3
instance_of _ = none

-- What runs a benchmark: a pallet of the runtime, or the harness of a crate.
pub data Runner : Type 0 where
  runs : Pallet → Runner
  baseline_bench system_bench offences_bench : Runner

-- `define_benchmarks!`: the name that is asked for and what runs it.
abbrev pub benchmarks : List (String × Runner)
benchmarks =
    ("frame_benchmarking", baseline_bench)
    ∷ ("frame_system", system_bench)
    ∷ ("pallet_balances", runs balances)
    ∷ ("pallet_timestamp", runs timestamp)
    ∷ ("pallet_utility", runs utility)
    ∷ ("pallet_offences", offences_bench)
    ∷ ("pallet_democracy", runs democracy)
    ∷ ("pallet_collective", runs council)
    ∷ ("pallet_treasury", runs treasury)
    ∷ ("pallet_bounties", runs bounties)
    ∷ ("pallet_child_bounties", runs child_bounties)
    ∷ ("pallet_scheduler", runs scheduler)
    ∷ ("pallet_preimage", runs preimage)
    ∷ ("pallet_contracts", runs contracts)
    ∷ ("pallet_assets", runs assets)
    ∷ ("pallet_nfts", runs nfts)
    ∷ ("pallet_recovery", runs recovery)
    ∷ ("pallet_identity", runs identity)
    ∷ ("pallet_indices", runs indices)
    ∷ ("pallet_nicks", runs nicks)
    ∷ ("pallet_scored_pool", runs scored_pool)
    ∷ ("pallet_atomic_swap", runs swap)
    ∷ []
