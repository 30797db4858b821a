-- ===== src/Extension.antt =====
-- The PSP22 chain extension (runtime/src/chain_extension.rs): a contract calls it with a function
-- id and a memory to read its input from; it reads or changes the assets pallet and writes the
-- answer back. `Extension.Ids` holds the ids, `Extension.Pallet` what the repository does not.
mod Ids
mod Pallet
pub mod Documented
pub mod Errors
pub mod Allowance
pub mod Authority
pub mod Rollback
pub mod Token
pub mod Amounts
mod View
mod Changes
mod Approvals
mod Movements
pub mod Refines
pub mod Supply
mod Tests
pub use Ids.{FuncId, Metadata, Query, selector, try_from_iff}
unfoldable pub use Ids.{try_from}
pub use Pallet.*
use lunes_nightly.Prelude.{
  ℕ, String, List, Result, Action, pure, lift, gets, ◌>>=◌, ◌>>◌, map_error, true, saturating_sub,
  ◌==◌, if◌then◌else◌,
}

-- The call's environment, but for the memory: the function id and the calling contract.
pub record Env : Type 0 where
  pub func_id : ℕ
  pub caller : ℕ

module _ (p : Pallets) where
  open p use {
    DispatchError, other, RetVal, converging, encode_bytes, encode_u8, encode_balance, Memory,
    read_asset_id, read_balance_of, read_allowance, read_transfer, read_transfer_from, read_approve,
    read_burn, Chain, asset_name, asset_symbol, asset_decimals, signed, unlookup,
  }

  -- What a call works on.
  pub record Host : Type 0 where
    pub chain : Chain
    pub memory : Memory

  abbrev pub Handler : Type 0 → Type 0
  Handler A = Action Host DispatchError A

  abbrev read : {A : Type 0} → (Memory → Result DispatchError A) → Handler A
  read f s = (f s.memory, s)

  abbrev inspect : {A : Type 0} → (Chain → A) → Handler A
  inspect f s = pure (f s.chain) s

  abbrev on_chain : {A : Type 0} → Action Chain DispatchError A → Handler A
  on_chain m s = let (r, c) = m s.chain in (r, record s { chain = c })

  abbrev write_output : List ℕ → Handler (Unit {0})
  write_output bytes s = let (r, m) = p.write bytes s.memory in (r, record s { memory = m })

  -- `convert_err`: the pallet's error gives way to a text.
  unfoldable pub convert_err : String → DispatchError → DispatchError
  convert_err err_msg _err = other err_msg

  unfoldable pub metadata : Metadata → Handler (Unit {0})
  metadata func_id = do
    asset_id ← read read_asset_id
    result ← inspect λ c. elim func_id [
      | Metadata.name ↦ encode_bytes (asset_name asset_id c)
      | Metadata.symbol ↦ encode_bytes (asset_symbol asset_id c)
      | Metadata.decimals ↦ encode_u8 (asset_decimals asset_id c)
    ]
    map_error (convert_err "ChainExtension failed to call PSP22Metadata") (write_output result)

  -- The three arms of the match in `query`.
  unfoldable pub query_result : Query → Handler ℕ
  query_result Query.total_supply = do
    asset_id ← read read_asset_id
    inspect (p.total_issuance asset_id)
  query_result Query.balance_of = do
    input ← read read_balance_of
    inspect (p.balance input.asset_id input.owner)
  query_result Query.allowance = do
    input ← read read_allowance
    inspect (p.allowance input.asset_id input.owner input.spender)

  unfoldable pub query : Query → Handler (Unit {0})
  query func_id = do
    result ← query_result func_id
    map_error (convert_err "ChainExtension failed to call PSP22 query")
        (write_output (encode_balance result))

  unfoldable pub transfer : Env → Handler (Unit {0})
  transfer env = do
    input ← read read_transfer
    _moved ←
        map_error (convert_err "ChainExtension failed to call transfer")
          (on_chain (p.transfer input.asset_id env.caller input.to input.value true))
    pure tt

  unfoldable pub transfer_from : Env → Handler (Unit {0})
  transfer_from env = do
    input ← read read_transfer_from
    map_error (convert_err "ChainExtension failed to call transfer_from")
        (on_chain (p.transfer_from input.asset_id input.from env.caller input.to input.value))

  unfoldable pub approve : Env → Handler (Unit {0})
  approve env = do
    input ← read read_approve
    map_error (convert_err "ChainExtension failed to call approve")
        (on_chain (p.approve input.asset_id env.caller input.spender input.value))

  -- The end of `decrease_allowance`, with what is left of the allowance.
  unfoldable pub approve_rest : Env → ApproveInput → ℕ → Handler (Unit {0})
  approve_rest env input allowance =
      if allowance == 0
      then pure tt
      else map_error (convert_err "ChainExtension failed to call decrease_allowance")
          (on_chain (p.approve input.asset_id env.caller input.spender allowance))

  -- `decrease_allowance` behind its early return.
  unfoldable pub cancel_and_approve : Env → ApproveInput → Handler (Unit {0})
  cancel_and_approve env input = do
    allowance ← inspect (p.allowance input.asset_id env.caller input.spender)
    map_error (convert_err "ChainExtension failed to call decrease_allowance")
        (on_chain (p.cancel_approval (signed env.caller) input.asset_id (unlookup input.spender)))
    approve_rest env input (saturating_sub allowance input.value)

  unfoldable pub decrease_allowance : Env → Handler (Unit {0})
  decrease_allowance env = do
    input ← read read_approve
    if input.value == 0 then pure tt else cancel_and_approve env input

  unfoldable pub burn : Env → Handler (Unit {0})
  burn env = do
    input ← read read_burn
    map_error (convert_err "ChainExtension failed to call burn")
        (on_chain (p.burn (signed env.caller) input.asset_id (unlookup input.from) input.value))

  -- The body of `mint` is commented out.
  unfoldable pub mint : Env → Handler (Unit {0})
  mint env = pure tt

  -- The match of `call`.
  unfoldable pub dispatch : FuncId → Env → Handler (Unit {0})
  dispatch (FuncId.metadata func_id) env = metadata func_id
  dispatch (FuncId.query func_id) env = query func_id
  dispatch FuncId.transfer env = transfer env
  dispatch FuncId.transfer_from env = transfer_from env
  dispatch FuncId.approve env = approve env
  dispatch FuncId.increase_allowance env = approve env
  dispatch FuncId.decrease_allowance env = decrease_allowance env
  dispatch FuncId.burn env = burn env
  dispatch FuncId.mint env = mint env

  -- `ChainExtension::call`
  unfoldable pub call : Env → Handler RetVal
  call env = do
    func_id ← lift (try_from other env.func_id)
    dispatch func_id env
    pure (converging 0)
