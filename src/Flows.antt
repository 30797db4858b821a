-- ===== src/Flows.antt =====
-- Where the pallets send the money that they take (runtime/src/lib.rs): fees, slashes, burns and dust,
-- each to the handler that the pallet's `Config` names.
pub mod Split
mod Tests
use lunes_nightly.Prelude.{ℕ, List, [], ◌∷◌}
use lunes_nightly.Fees.Deal.{Currency, on_unbalanceds, treasury_unbalanced}

-- What is taken: the fee of a transaction, the part of an era's payout that is not rewarded, the
-- slashes of staking, of the election, of democracy, of bounties (`OnSlash` of the treasury), of
-- identity and of nicknames, what the treasury burns of its own, and what is left of accounts below
-- the existential deposit.
pub data Flow : Type 0 where
  transaction_fee reward_remainder staking_slash election_slash democracy_slash : Flow
  treasury_on_slash treasury_burn identity_slash nick_slash dust : Flow

-- `DealWithFees`, `TreasuryLunes`, the pallet `Treasury`, and `()`.
pub data Handler : Type 0 where
  deal_with_fees treasury_lunes treasury_pallet unit_handler : Handler

-- The handlers of the configuration.
abbrev on_charge_transaction : Handler
on_charge_transaction = deal_with_fees

abbrev staking_reward_remainder : Handler
staking_reward_remainder = treasury_lunes

abbrev staking_on_slash : Handler
staking_on_slash = treasury_lunes

abbrev election_slash_handler : Handler
election_slash_handler = unit_handler

abbrev democracy_on_slash : Handler
democracy_on_slash = treasury_pallet

abbrev treasury_slash_handler : Handler
treasury_slash_handler = unit_handler

abbrev burn_destination : Handler
burn_destination = unit_handler

abbrev identity_slashed : Handler
identity_slashed = treasury_pallet

abbrev nicks_slashed : Handler
nicks_slashed = treasury_pallet

abbrev dust_removal : Handler
dust_removal = unit_handler

unfoldable pub handler_of : Flow → Handler
handler_of transaction_fee = on_charge_transaction
handler_of reward_remainder = staking_reward_remainder
handler_of staking_slash = staking_on_slash
handler_of election_slash = election_slash_handler
handler_of democracy_slash = democracy_on_slash
handler_of treasury_on_slash = treasury_slash_handler
handler_of treasury_burn = burn_destination
handler_of identity_slash = identity_slashed
handler_of nick_slash = nicks_slashed
handler_of dust = dust_removal

-- `TreasuryPalletId`: the eight bytes of "py/trsry".
abbrev pub treasury_pallet_id : ℕ
treasury_pallet_id = 0x70792f7472737279

-- The treasury pallet as a handler, and the account of a pallet.
pub record Treasury (b : Currency) : Type 0 where
  -- `PalletId::into_account_truncating`
  pub into_account : ℕ → ℕ
  pub on_nonzero_unbalanced : b.Imbalance → b.Chain → b.Chain

module _ (b : Currency) (t : Treasury b) where
  open b use {Chain, Imbalance, on_unbalanced, drop}

  -- An imbalance at its handler.
  unfoldable pub handle : Handler → Imbalance → Chain → Chain
  handle deal_with_fees i c = on_unbalanceds b (i ∷ []) c
  handle treasury_lunes i c = on_unbalanced (treasury_unbalanced b) i c
  handle treasury_pallet i c = on_unbalanced t.on_nonzero_unbalanced i c
  handle unit_handler i c = drop i c
