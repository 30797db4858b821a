-- ===== src/Extension/Errors.antt =====
-- How a call of the chain extension (runtime/src/chain_extension.rs) fails, and what is left of the
-- state when it does.
use lunes_nightly.Prelude.{
  ℕ, ◌≡◌, ◌≢◌, ◌⊎◌, ok, err, arith, inl, inr, String, Option, none, some, refl, Result-cases, ◌+◌,
  ◌<◌,
}
use lunes_nightly.Extension.{
  Pallets, Env, Host, FuncId, Metadata, Query, selector, metadata, query, query_result, transfer,
  transfer_from, approve, decrease_allowance, cancel_and_approve, approve_rest, burn, mint,
  dispatch, call, convert_err,
}
use lunes_nightly.Extension.Ids.{try_from_cases, try_from-selector_eq}
use lunes_nightly.Extension.Allowance.{call-dispatch}

-- The text of a function's error where its input has been read and the pallet or the write fails;
-- `mint` has none.
unfoldable pub text_of : FuncId → Option String
text_of (FuncId.metadata k) = some "ChainExtension failed to call PSP22Metadata"
text_of (FuncId.query q) = some "ChainExtension failed to call PSP22 query"
text_of FuncId.transfer = some "ChainExtension failed to call transfer"
text_of FuncId.transfer_from = some "ChainExtension failed to call transfer_from"
text_of FuncId.approve = some "ChainExtension failed to call approve"
text_of FuncId.increase_allowance = some "ChainExtension failed to call approve"
text_of FuncId.decrease_allowance = some "ChainExtension failed to call decrease_allowance"
text_of FuncId.burn = some "ChainExtension failed to call burn"
text_of FuncId.mint = none

module _ (p : Pallets) where
  open p use {DispatchError, Memory, other}

  -- `e` is the error of a failed read of a function's input from the memory `m`.
  pub data Misread (m : Memory) (e : DispatchError) : FuncId → Type 0 where
    metadata_input : (k : Metadata) → p.read_asset_id m ≡ err e → Misread m e (FuncId.metadata k)
    supply_input : p.read_asset_id m ≡ err e → Misread m e (FuncId.query Query.total_supply)
    balance_input : p.read_balance_of m ≡ err e → Misread m e (FuncId.query Query.balance_of)
    allowance_input : p.read_allowance m ≡ err e → Misread m e (FuncId.query Query.allowance)
    transfer_input : p.read_transfer m ≡ err e → Misread m e FuncId.transfer
    transfer_from_input : p.read_transfer_from m ≡ err e → Misread m e FuncId.transfer_from
    approve_input : p.read_approve m ≡ err e → Misread m e FuncId.approve
    increase_input : p.read_approve m ≡ err e → Misread m e FuncId.increase_allowance
    decrease_input : p.read_approve m ≡ err e → Misread m e FuncId.decrease_allowance
    burn_input : p.read_burn m ≡ err e → Misread m e FuncId.burn

  -- The error of a handler: that of the read, or the function's own text after a read.
  pub data Fails (m : Memory) (f : FuncId) (e : DispatchError) : Type 0 where
    unread : Misread m e f → Fails m f e
    refused :
        (text : String)
        → ((e' : DispatchError) → ¬ Misread m e' f)
        → text_of f ≡ some text
        → e ≡ other text
        → Fails m f e

  -- The error of a call.
  abbrev pub Visible : Env → Memory → DispatchError → Type 0
  Visible env m e =
      (((f : FuncId) → env.func_id ≢ selector f) × (e ≡ other "Unimplemented func_id"))
      ⊎ ((f : FuncId) × (env.func_id ≡ selector f) × Fails m f e)

  metadata_read :
      (k : Metadata) (m : Memory)
      → ((e : DispatchError) → p.read_asset_id m ≢ err e)
      → (e : DispatchError) → ¬ Misread m e (FuncId.metadata k)
  metadata_read _ m ok_read e (metadata_input k h) = ok_read e h

  supply_read :
      (m : Memory)
      → ((e : DispatchError) → p.read_asset_id m ≢ err e)
      → (e : DispatchError) → ¬ Misread m e (FuncId.query Query.total_supply)
  supply_read m ok_read e (supply_input h) = ok_read e h

  balance_read :
      (m : Memory)
      → ((e : DispatchError) → p.read_balance_of m ≢ err e)
      → (e : DispatchError) → ¬ Misread m e (FuncId.query Query.balance_of)
  balance_read m ok_read e (balance_input h) = ok_read e h

  allowance_read :
      (m : Memory)
      → ((e : DispatchError) → p.read_allowance m ≢ err e)
      → (e : DispatchError) → ¬ Misread m e (FuncId.query Query.allowance)
  allowance_read m ok_read e (allowance_input h) = ok_read e h

  transfer_read :
      (m : Memory)
      → ((e : DispatchError) → p.read_transfer m ≢ err e)
      → (e : DispatchError) → ¬ Misread m e FuncId.transfer
  transfer_read m ok_read e (transfer_input h) = ok_read e h

  transfer_from_read :
      (m : Memory)
      → ((e : DispatchError) → p.read_transfer_from m ≢ err e)
      → (e : DispatchError) → ¬ Misread m e FuncId.transfer_from
  transfer_from_read m ok_read e (transfer_from_input h) = ok_read e h

  approve_read :
      (m : Memory)
      → ((e : DispatchError) → p.read_approve m ≢ err e)
      → (e : DispatchError) → ¬ Misread m e FuncId.approve
  approve_read m ok_read e (approve_input h) = ok_read e h

  increase_read :
      (m : Memory)
      → ((e : DispatchError) → p.read_approve m ≢ err e)
      → (e : DispatchError) → ¬ Misread m e FuncId.increase_allowance
  increase_read m ok_read e (increase_input h) = ok_read e h

  decrease_read :
      (m : Memory)
      → ((e : DispatchError) → p.read_approve m ≢ err e)
      → (e : DispatchError) → ¬ Misread m e FuncId.decrease_allowance
  decrease_read m ok_read e (decrease_input h) = ok_read e h

  burn_read :
      (m : Memory)
      → ((e : DispatchError) → p.read_burn m ≢ err e)
      → (e : DispatchError) → ¬ Misread m e FuncId.burn
  burn_read m ok_read e (burn_input h) = ok_read e h

  metadata-Fails :
      (k : Metadata) (s : Host p) (e : DispatchError)
      → (metadata p k s).0 ≡ err e
      → Fails s.memory (FuncId.metadata k) e
  unfolding metadata convert_err text_of
  metadata-Fails k s e h = elim (Result-cases (p.read_asset_id s.memory)) [
    | inl (a, r) ↦
        refused _ (metadata_read k s.memory (λ e' w. ground (arith, r, w))) refl (ground arith)
    | inr (f, r) ↦ unread (metadata_input k (ground arith))
  ]

  query-Fails :
      (q : Query) (s : Host p) (e : DispatchError)
      → (query p q s).0 ≡ err e
      → Fails s.memory (FuncId.query q) e
  unfolding query query_result convert_err text_of
  query-Fails Query.total_supply s e h = elim (Result-cases (p.read_asset_id s.memory)) [
    | inl (a, r) ↦
        refused _ (supply_read s.memory (λ e' w. ground (arith, r, w))) refl (ground arith)
    | inr (f, r) ↦ unread (supply_input (ground arith))
  ]
  query-Fails Query.balance_of s e h = elim (Result-cases (p.read_balance_of s.memory)) [
    | inl (a, r) ↦
        refused _ (balance_read s.memory (λ e' w. ground (arith, r, w))) refl (ground arith)
    | inr (f, r) ↦ unread (balance_input (ground arith))
  ]
  query-Fails Query.allowance s e h = elim (Result-cases (p.read_allowance s.memory)) [
    | inl (a, r) ↦
        refused _ (allowance_read s.memory (λ e' w. ground (arith, r, w))) refl (ground arith)
    | inr (f, r) ↦ unread (allowance_input (ground arith))
  ]

  dispatch-Fails :
      (f : FuncId) (env : Env) (s : Host p) (e : DispatchError)
      → (dispatch p f env s).0 ≡ err e
      → Fails s.memory f e
  unfolding dispatch transfer transfer_from approve decrease_allowance cancel_and_approve
      approve_rest burn mint convert_err text_of
  dispatch-Fails (FuncId.metadata m) env s e h = metadata-Fails m s e h
  dispatch-Fails (FuncId.query q) env s e h = query-Fails q s e h
  dispatch-Fails FuncId.transfer env s e h = elim (Result-cases (p.read_transfer s.memory)) [
    | inl (a, r) ↦
        refused _ (transfer_read s.memory (λ e' w. ground (arith, r, w))) refl (ground arith)
    | inr (f, r) ↦ unread (transfer_input (ground arith))
  ]
  dispatch-Fails FuncId.transfer_from env s e h =
      elim (Result-cases (p.read_transfer_from s.memory)) [
        | inl (a, r) ↦
            refused _ (transfer_from_read s.memory (λ e' w. ground (arith, r, w))) refl
              (ground arith)
        | inr (f, r) ↦ unread (transfer_from_input (ground arith))
      ]
  dispatch-Fails FuncId.approve env s e h = elim (Result-cases (p.read_approve s.memory)) [
    | inl (a, r) ↦
        refused _ (approve_read s.memory (λ e' w. ground (arith, r, w))) refl (ground arith)
    | inr (f, r) ↦ unread (approve_input (ground arith))
  ]
  dispatch-Fails FuncId.increase_allowance env s e h =
      elim (Result-cases (p.read_approve s.memory)) [
        | inl (a, r) ↦
            refused _ (increase_read s.memory (λ e' w. ground (arith, r, w))) refl (ground arith)
        | inr (f, r) ↦ unread (increase_input (ground arith))
      ]
  dispatch-Fails FuncId.decrease_allowance env s e h =
      elim (Result-cases (p.read_approve s.memory)) [
        | inl (a, r) ↦
            refused _ (decrease_read s.memory (λ e' w. ground (arith, r, w))) refl (ground arith)
        | inr (f, r) ↦ unread (decrease_input (ground arith))
      ]
  dispatch-Fails FuncId.burn env s e h = elim (Result-cases (p.read_burn s.memory)) [
    | inl (a, r) ↦ refused _ (burn_read s.memory (λ e' w. ground (arith, r, w))) refl (ground arith)
    | inr (f, r) ↦ unread (burn_input (ground arith))
  ]
  dispatch-Fails FuncId.mint env s e h = ground arith

  Misread-err :
      (f : FuncId) (env : Env) (s : Host p) (e : DispatchError)
      → Misread s.memory e f
      → (dispatch p f env s).0 ≡ err e
  unfolding dispatch metadata query query_result transfer transfer_from approve decrease_allowance
      burn
  Misread-err (FuncId.metadata _) env s e (metadata_input k r) = ground (arith, r)
  Misread-err (FuncId.query Query.total_supply) env s e (supply_input r) = ground (arith, r)
  Misread-err (FuncId.query Query.balance_of) env s e (balance_input r) = ground (arith, r)
  Misread-err (FuncId.query Query.allowance) env s e (allowance_input r) = ground (arith, r)
  Misread-err FuncId.transfer env s e (transfer_input r) = ground (arith, r)
  Misread-err FuncId.transfer_from env s e (transfer_from_input r) = ground (arith, r)
  Misread-err FuncId.approve env s e (approve_input r) = ground (arith, r)
  Misread-err FuncId.increase_allowance env s e (increase_input r) = ground (arith, r)
  Misread-err FuncId.decrease_allowance env s e (decrease_input r) = ground (arith, r)
  Misread-err FuncId.burn env s e (burn_input r) = ground (arith, r)
  Misread-err FuncId.mint env s e w = elim w [ ]

  -- Whatever the id and the state, a call fails for one of three reasons: its id is no function's,
  -- with "Unimplemented func_id"; or the function's input cannot be read, with the error of that read;
  -- or the input has been read, and the error is the text of that function in place of what the
  -- assets pallet or the write has answered. And an input that cannot be read always fails the call,
  -- with the error of the read.
  pub call-Visible :
      (env : Env) (s : Host p) (e : DispatchError)
      → ((call p env s).0 ≡ err e → Visible env s.memory e)
        × ((f : FuncId)
            → env.func_id ≡ selector f
            → Misread s.memory e f
            → (call p env s).0 ≡ err e)
  unfolding call
  call-Visible env s e = (
    λ h. elim (try_from_cases other env.func_id) [
      | inl (f, known, id) ↦ inr (f, id, dispatch-Fails f env s e (ground arith))
      | inr unknown ↦ inl (
        λ f id. ground (arith, unknown, try_from-selector_eq other env.func_id f id),
        ground arith,
      )
    ],
    λ f id misread.
        ground (arith, Misread-err f env s e misread, try_from-selector_eq other env.func_id f id),
  )

  -- `mint` does not mint: with its id every call succeeds and changes nothing, so no positive
  -- amount is ever added to a balance.
  call_mint_idle :
      (env : Env) (s : Host p) (asset to value : ℕ)
      → env.func_id ≡ selector FuncId.mint
      → 0 < value
      → (call p env s ≡ (ok (p.converging 0), s))
        × (p.balance asset to (call p env s).1.chain ≢ p.balance asset to s.chain + value)
  unfolding dispatch mint
  call_mint_idle env s asset to value id positive =
      rw (call-dispatch p FuncId.mint env s id) (refl, omega arith)
