-- ===== src/Extension/Rollback.antt =====
-- What a failed call of the chain extension (runtime/src/chain_extension.rs) leaves of the chain
-- before its caller is rolled back.
use lunes_nightly.Prelude.{
  ℕ, ◌-◌, ◌<◌, ◌≡◌, ◌⊎◌, true, ok, err, arith, inl, inr, Bool-cases, ◌==◌, Result-cases, refl, ◌∙◌,
  ap,
}
use lunes_nightly.Extension.{
  Pallets, Env, Host, FuncId, Query, selector, ApproveInput, metadata, query, query_result,
  transfer, transfer_from, approve, decrease_allowance, cancel_and_approve, approve_rest, burn,
  mint, dispatch, call,
}
use lunes_nightly.Extension.Ids.{try_from_cases}
use lunes_nightly.Extension.Documented.{IsLawful}

-- From `s` to the chain `c` the whole allowance of the input that `s` holds is gone, although only
-- a smaller value was to be taken off it.
pub record Lost (p : Pallets) (env : Env) (s : Host p) (c : p.Chain) : Type 0 where
  pub input : ApproveInput
  pub read : p.read_approve s.memory ≡ ok input
  pub smaller : input.value < p.allowance input.asset_id env.caller input.spender s.chain
  pub gone : p.allowance input.asset_id env.caller input.spender c ≡ 0

module _ (p : Pallets) (laws : IsLawful p) where
  open p use {Chain, DispatchError}

  transfer_err :
      (env : Env) (s : Host p) (e : DispatchError)
      → (transfer p env s).0 ≡ err e
      → (transfer p env s).1.chain ≡ s.chain
  unfolding transfer
  transfer_err env s e h = elim (Result-cases (p.read_transfer s.memory)) [
    | inr (f, r) ↦ ground arith
    | inl (i, r) ↦
        elim (Result-cases (p.transfer i.asset_id env.caller i.to i.value true s.chain).0) [
          | inl (m, done) ↦ absurd (ground arith)
          | inr (f, failed) ↦
              ground (
                arith,
                laws.transfer_atomic i.asset_id env.caller i.to i.value true s.chain f failed,
              )
        ]
  ]

  transfer_from_err :
      (env : Env) (s : Host p) (e : DispatchError)
      → (transfer_from p env s).0 ≡ err e
      → (transfer_from p env s).1.chain ≡ s.chain
  unfolding transfer_from
  transfer_from_err env s e h = elim (Result-cases (p.read_transfer_from s.memory)) [
    | inr (f, r) ↦ ground arith
    | inl (i, r) ↦
        elim (Result-cases (p.transfer_from i.asset_id i.from env.caller i.to i.value s.chain).0) [
          | inl (m, done) ↦ absurd (ground arith)
          | inr (f, failed) ↦ ground (
            arith,
            laws.transfer_from_atomic i.asset_id i.from env.caller i.to i.value s.chain f failed,
          )
        ]
  ]

  burn_err :
      (env : Env) (s : Host p) (e : DispatchError)
      → (burn p env s).0 ≡ err e
      → (burn p env s).1.chain ≡ s.chain
  unfolding burn
  burn_err env s e h = elim (Result-cases (p.read_burn s.memory)) [
    | inr (f, r) ↦ ground arith
    | inl (i, r) ↦
        elim (Result-cases
          (p.burn (p.signed env.caller) i.asset_id (p.unlookup i.from) i.value s.chain).0) [
            | inl (m, done) ↦ absurd (ground arith)
            | inr (f, failed) ↦
                ground
                  (arith, laws.burn_atomic env.caller i.asset_id i.from i.value s.chain f failed)
          ]
  ]

  approve_err :
      (env : Env) (s : Host p) (e : DispatchError)
      → (approve p env s).0 ≡ err e
      → (approve p env s).1.chain ≡ s.chain
  unfolding approve
  approve_err env s e h = elim (Result-cases (p.read_approve s.memory)) [
    | inr (f, r) ↦ ground arith
    | inl (i, r) ↦
        elim (Result-cases (p.approve i.asset_id env.caller i.spender i.value s.chain).0) [
          | inl (m, done) ↦ absurd (ground arith)
          | inr (f, failed) ↦
              ground (
                arith,
                laws.approve_atomic i.asset_id env.caller i.spender i.value s.chain f failed,
              )
        ]
  ]

  approve_rest_err :
      (env : Env) (i : ApproveInput) (n : ℕ) (s : Host p) (e : DispatchError)
      → (approve_rest p env i n s).0 ≡ err e
      → (0 < n) × ((approve_rest p env i n s).1.chain ≡ s.chain)
  unfolding approve_rest
  approve_rest_err env i n s e h =
      elim (Result-cases (p.approve i.asset_id env.caller i.spender n s.chain).0) [
        | inl (m, done) ↦ absurd (ground arith)
        | inr (f, failed) ↦
            ground (arith, laws.approve_atomic i.asset_id env.caller i.spender n s.chain f failed)
      ]

  decrease_err :
      (env : Env) (s : Host p) (e : DispatchError)
      → (decrease_allowance p env s).0 ≡ err e
      → ((decrease_allowance p env s).1.chain ≡ s.chain)
        ⊎ Lost p env s (decrease_allowance p env s).1.chain
  unfolding decrease_allowance cancel_and_approve
  decrease_err env s e h = elim (Result-cases (p.read_approve s.memory)) [
    | inr (f, r) ↦ inl (ground arith)
    | inl (i, r) ↦
        let a = i.asset_id in
        let o = env.caller in
        let t = i.spender in
        let cancelled = p.cancel_approval (p.signed o) a (p.unlookup t) s.chain in
        let s' : Host p = record s { chain = cancelled.1 } in
        let left = p.allowance a o t s.chain - i.value in
        elim (Bool-cases (i.value == 0)) [
          | inl idle ↦ absurd (ground arith)
          | inr busy ↦ elim (Result-cases cancelled.0) [
            | inr (f, failed) ↦ inl (ground (arith, laws.cancel_atomic o a t s.chain f failed))
            | inl (m, done) ↦
                let (positive, kept) = approve_rest_err env i left s' e (ground arith) in
                inr (record {
                  input = i;
                  read = r;
                  smaller = omega arith;
                  gone = ground (arith, (laws.cancel_clears o a t s.chain done).0);
                })
          ]
        ]
  ]

  dispatch_err :
      (f : FuncId) (env : Env) (s : Host p) (e : DispatchError)
      → (dispatch p f env s).0 ≡ err e
      → ((dispatch p f env s).1.chain ≡ s.chain)
        ⊎ ((f ≡ FuncId.decrease_allowance) × Lost p env s (dispatch p f env s).1.chain)
  unfolding dispatch metadata query query_result mint
  dispatch_err (FuncId.metadata m) env s e h = inl (ground arith)
  dispatch_err (FuncId.query Query.total_supply) env s e h = inl (ground arith)
  dispatch_err (FuncId.query Query.balance_of) env s e h = inl (ground arith)
  dispatch_err (FuncId.query Query.allowance) env s e h = inl (ground arith)
  dispatch_err FuncId.transfer env s e h = inl (transfer_err env s e h)
  dispatch_err FuncId.transfer_from env s e h = inl (transfer_from_err env s e h)
  dispatch_err FuncId.approve env s e h = inl (approve_err env s e h)
  dispatch_err FuncId.increase_allowance env s e h = inl (approve_err env s e h)
  dispatch_err FuncId.decrease_allowance env s e h = elim (decrease_err env s e h) [
    | inl kept ↦ inl kept
    | inr lost ↦ inr (refl, lost)
  ]
  dispatch_err FuncId.burn env s e h = inl (burn_err env s e h)
  dispatch_err FuncId.mint env s e h = absurd (ground arith)

  -- A call that fails leaves the chain as it was; or it is a `decrease_allowance` by less than the
  -- allowance, whose cancellation went through and whose new approval did not, and then the whole
  -- allowance is gone until the caller is rolled back. The assets pallet behaves as documented.
  pub call_err :
      (env : Env) (s : Host p) (e : DispatchError)
      → (call p env s).0 ≡ err e
      → ((call p env s).1.chain ≡ s.chain)
        ⊎ ((env.func_id ≡ selector FuncId.decrease_allowance) × Lost p env s (call p env s).1.chain)
  unfolding call
  call_err env s e h = elim (try_from_cases p.other env.func_id) [
    | inr refused ↦ inl (ground arith)
    | inl (f, known, id) ↦
        let same : (call p env s).1 ≡ (dispatch p f env s).1 = ground arith in
        elim (dispatch_err f env s e (ground arith)) [
          | inl kept ↦ inl (rw same kept)
          | inr (this, lost) ↦ inr (id ∙ ap selector this, rw same lost)
        ]
  ]
