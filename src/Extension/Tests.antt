-- ===== src/Extension/Tests.antt =====
-- Runs of the chain extension, and the theorems about it at the small pallet of `Mock`.
mod Mock
use lunes_nightly.Prelude.{
  ℕ, ◌+◌, ◌≡◌, ◌≢◌, ◌↔◌, ◌⊎◌, inl, inr, refl, String, Result, ok, err, List, [], ◌∷◌, arith,
  if◌then◌else◌, ◌==◌, ◌&&◌,
}
use lunes_nightly.Extension.{
  Env, Host, FuncId, Metadata, Query, selector, ApproveInput, call, dispatch, metadata, query,
  query_result, transfer, transfer_from, approve, decrease_allowance, cancel_and_approve,
  approve_rest, burn, mint, convert_err, try_from, try_from_iff,
}
use lunes_nightly.Extension.Errors.{Visible, Misread, call-Visible}
use lunes_nightly.Extension.Allowance.{SetsAllowance, decrease_allowance-Sets, approve-Adds}
use lunes_nightly.Extension.Authority.{Authorised, call-Authorised}
use lunes_nightly.Extension.Rollback.{Lost, call_err}
use lunes_nightly.Extension.View.{Granted}
use lunes_nightly.Extension.Refines.{call_refines}
use lunes_nightly.Extension.View.{token}
use lunes_nightly.Extension.Supply.{Conserved, after_calls, after_calls-Conserved}
use Mock.{Ledger, Memory, mock, mock-IsLawful, mock-IsExact}

-- Contract 5 holds 100 of asset 9, and has let account 7 spend 40 of it.
abbrev ledger : Ledger
ledger = record {
  balances = λ x w. if x == 9 && w == 5 then 100 else 0;
  approvals = λ x o s. if x == 9 && o == 5 && s == 7 then 40 else 0;
  issuance = λ x. if x == 9 then 100 else 0;
}

abbrev host : ℕ → ℕ → ℕ → Host mock
host a b c = record { chain = ledger; memory = record { args = a ∷ b ∷ c ∷ []; out = [] } }

abbrev by : ℕ → FuncId → Env
by who f = record { func_id = selector f; caller = who }

abbrev input : ApproveInput
input = record { asset_id = 9; spender = 7; value = 15 }

balance_of_answer :
    (call mock (by 5 (FuncId.query Query.balance_of)) (host 9 5 0)).1.memory.out ≡ 100 ∷ []
unfolding call dispatch query query_result try_from
balance_of_answer = refl

unknown_func_id :
    call mock (record { func_id = 7; caller = 5 }) (host 9 5 0)
    ≡ (err "Unimplemented func_id", host 9 5 0)
unfolding call try_from
unknown_func_id = refl

decrease_without_approval :
    (call mock (by 5 FuncId.decrease_allowance) (host 9 8 1)).0
    ≡ err "ChainExtension failed to call decrease_allowance"
unfolding call dispatch decrease_allowance cancel_and_approve approve_rest try_from convert_err
decrease_without_approval = refl

try_from_iff_example :
    ((f : FuncId) → (try_from {E = String} (λ t. t) 0xdb20 ≡ ok f) ↔ (0xdb20 ≡ selector f))
    × (((f : FuncId) → 0xdb20 ≢ selector f)
        → try_from {E = String} (λ t. t) 0xdb20 ≡ err "Unimplemented func_id")
try_from_iff_example = try_from_iff {E = String} (λ t. t) 0xdb20

-- Contract 5 asks to send more than it has.
call-Visible_example :
    ((call mock (by 5 FuncId.transfer) (host 9 7 101)).0
        ≡ err "ChainExtension failed to call transfer"
      → Visible mock
          (by 5 FuncId.transfer)
          (host 9 7 101).memory
          "ChainExtension failed to call transfer")
    × ((f : FuncId)
        → selector FuncId.transfer ≡ selector f
        → Misread mock (host 9 7 101).memory "ChainExtension failed to call transfer" f
        → (call mock (by 5 FuncId.transfer) (host 9 7 101)).0
          ≡ err "ChainExtension failed to call transfer")
call-Visible_example =
    call-Visible mock (by 5 FuncId.transfer) (host 9 7 101) "ChainExtension failed to call transfer"

overdrawn :
    (call mock (by 5 FuncId.transfer) (host 9 7 101)).0
    ≡ err "ChainExtension failed to call transfer"
unfolding call dispatch transfer try_from convert_err
overdrawn = refl

decrease_allowance-Sets_example :
    SetsAllowance mock mock-IsLawful 9 5 7 25 ledger
      (call mock (by 5 FuncId.decrease_allowance) (host 9 7 15)).1.chain
unfolding call dispatch decrease_allowance cancel_and_approve approve_rest try_from
decrease_allowance-Sets_example =
    decrease_allowance-Sets mock mock-IsLawful (by 5 FuncId.decrease_allowance) input (host 9 7 15)
      refl refl refl

approve-Adds_example :
    SetsAllowance mock mock-IsLawful 9 5 7 55 ledger
      (call mock (by 5 FuncId.approve) (host 9 7 15)).1.chain
unfolding call dispatch approve try_from
approve-Adds_example =
    approve-Adds mock mock-IsLawful (by 5 FuncId.approve) input (host 9 7 15) (inl refl) refl refl

-- Account 7 takes 40 from contract 5.
abbrev fetching : Host mock
fetching = record { chain = ledger; memory = record { args = 9 ∷ 5 ∷ 6 ∷ 40 ∷ []; out = [] } }

call-Authorised_example : Authorised mock (by 7 FuncId.transfer_from) fetching 9 5
unfolding call dispatch transfer_from try_from
call-Authorised_example =
    call-Authorised mock mock-IsLawful (by 7 FuncId.transfer_from) fetching 9 5 (omega arith)

call_refines_example :
    (mock.converging 0 ≡ mock.converging 0)
    × ((f : FuncId) × (selector FuncId.transfer_from ≡ selector f)
        × Granted mock 7 f fetching (call mock (by 7 FuncId.transfer_from) fetching).1)
unfolding call dispatch transfer_from try_from
call_refines_example =
    call_refines mock mock-IsLawful mock-IsExact (by 7 FuncId.transfer_from) fetching 0 refl

-- Account 7 takes 40 from contract 5 for account 6; the admin burns 10 of them; contract 5 asks to
-- send more than it has left, which fails.
abbrev calls : List (Env × Memory)
calls =
    (by 7 FuncId.transfer_from, fetching.memory)
    ∷ (by 1 FuncId.burn, record { args = 9 ∷ 6 ∷ 10 ∷ []; out = [] })
    ∷ (by 5 FuncId.transfer, record { args = 9 ∷ 8 ∷ 61 ∷ []; out = [] })
    ∷ []

after_calls_balances :
    let c = after_calls mock calls ledger in
    (c.balances 9 5 ≡ 60) × (c.balances 9 6 ≡ 30) × (c.issuance 9 ≡ 90)
unfolding call dispatch transfer transfer_from burn try_from
after_calls_balances = (refl, refl, refl)

after_calls-Conserved_example :
    Conserved 9 (token mock ledger) (token mock (after_calls mock calls ledger))
after_calls-Conserved_example = after_calls-Conserved mock mock-IsLawful mock-IsExact 9 calls ledger

-- An allowance so large that the pallet of `Mock` does not approve it anew.
abbrev rich : Host mock
rich = record {
  chain = record ledger { approvals = λ x o s. 2_000_000 };
  memory = record { args = 9 ∷ 7 ∷ 15 ∷ []; out = [] };
}

call_err_example :
    let s' = (call mock (by 5 FuncId.decrease_allowance) rich).1 in
    (s'.chain ≡ rich.chain)
    ⊎ ((selector FuncId.decrease_allowance ≡ selector FuncId.decrease_allowance)
        × Lost mock (by 5 FuncId.decrease_allowance) rich s'.chain)
unfolding call dispatch decrease_allowance cancel_and_approve approve_rest try_from convert_err
call_err_example =
    call_err mock mock-IsLawful (by 5 FuncId.decrease_allowance) rich
      "ChainExtension failed to call decrease_allowance" refl
