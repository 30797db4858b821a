-- ===== src/Deposits.antt =====
-- What is reserved for things that are kept on the chain: the deposits that the `parameter_types` of
-- runtime/src/lib.rs hand to the pallets.
mod Floor
use lunes_nightly.Prelude.{ℕ, ◌*◌, ◌+◌}
use lunes_nightly.Constants.{unit, nanounit, contract_deposit_per_byte}

-- Deposits for one thing, as they are named in the source.
abbrev signed_deposit_base : ℕ
signed_deposit_base = 1 * unit

abbrev preimage_base_deposit : ℕ
preimage_base_deposit = 1 * unit

abbrev democracy_minimum_deposit : ℕ
democracy_minimum_deposit = 100 * unit

abbrev proposal_bond_minimum : ℕ
proposal_bond_minimum = 1 * unit

abbrev tip_report_deposit_base : ℕ
tip_report_deposit_base = 1 * unit

abbrev bounty_deposit_base : ℕ
bounty_deposit_base = 1 * unit

abbrev curator_deposit_min : ℕ
curator_deposit_min = 1 * unit

abbrev asset_deposit : ℕ
asset_deposit = 100 * unit

abbrev approval_deposit : ℕ
approval_deposit = 1 * unit

abbrev metadata_deposit_base : ℕ
metadata_deposit_base = 10 * unit

abbrev asset_account_deposit : ℕ
asset_account_deposit = unit

abbrev collection_deposit : ℕ
collection_deposit = 100 * unit

abbrev item_deposit : ℕ
item_deposit = 1 * unit

abbrev config_deposit_base : ℕ
config_deposit_base = 5 * unit

abbrev recovery_deposit : ℕ
recovery_deposit = 5 * unit

abbrev basic_deposit : ℕ
basic_deposit = 10 * unit

abbrev sub_account_deposit : ℕ
sub_account_deposit = 2 * unit

abbrev index_deposit : ℕ
index_deposit = 1 * unit

abbrev nick_reservation_fee : ℕ
nick_reservation_fee = 1 * unit

abbrev candidate_deposit : ℕ
candidate_deposit = 25

-- Deposits that are taken for each byte, item, friend or field.
abbrev pub signed_deposit_byte : ℕ
signed_deposit_byte = 1 * nanounit

abbrev pub contract_deposit_per_item : ℕ
contract_deposit_per_item = contract_deposit_per_byte

abbrev pub contract_byte_deposit : ℕ
contract_byte_deposit = contract_deposit_per_byte

abbrev pub preimage_byte_deposit : ℕ
preimage_byte_deposit = 1 * nanounit

abbrev pub data_deposit_per_byte : ℕ
data_deposit_per_byte = 1 * nanounit

abbrev pub metadata_deposit_per_byte : ℕ
metadata_deposit_per_byte = 1 * unit

abbrev pub friend_deposit_factor : ℕ
friend_deposit_factor = 50 * nanounit

abbrev pub field_deposit : ℕ
field_deposit = 250 * nanounit

-- What a deposit is for.
pub data Kept : Type 0 where
  signed_solution preimage referendum spending_proposal tip_report bounty curator asset approval
        metadata :
      Kept
  asset_account collection item recovery_config recovery identity sub_account index nick
        pool_candidate :
      Kept

unfoldable pub base_deposit : Kept → ℕ
base_deposit signed_solution = signed_deposit_base
base_deposit preimage = preimage_base_deposit
base_deposit referendum = democracy_minimum_deposit
base_deposit spending_proposal = proposal_bond_minimum
base_deposit tip_report = tip_report_deposit_base
base_deposit bounty = bounty_deposit_base
base_deposit curator = curator_deposit_min
base_deposit asset = asset_deposit
base_deposit approval = approval_deposit
base_deposit metadata = metadata_deposit_base
base_deposit asset_account = asset_account_deposit
base_deposit collection = collection_deposit
base_deposit item = item_deposit
base_deposit recovery_config = config_deposit_base
base_deposit recovery = recovery_deposit
base_deposit identity = basic_deposit
base_deposit sub_account = sub_account_deposit
base_deposit index = index_deposit
base_deposit nick = nick_reservation_fee
base_deposit pool_candidate = candidate_deposit
