-- ===== src/Extension/Refines.antt =====
-- The calls of runtime/src/chain_extension.rs keep to the abstract token of `Extension.Token`.
use lunes_nightly.Prelude.{ℕ, ◌≡◌, ok, arith, inl, inr, Result-cases, refl}
use lunes_nightly.Extension.{
  Pallets, Env, Host, FuncId, Metadata, Query, selector, metadata, query, query_result, mint,
  dispatch, call,
}
use lunes_nightly.Extension.Ids.{try_from_cases}
use lunes_nightly.Extension.Documented.{IsLawful}
use lunes_nightly.Extension.Amounts.{described, IsExact}
use lunes_nightly.Extension.Token.{Request, Answer, Step}
use lunes_nightly.Extension.View.{
  Granted, metadata_input, supply_input, balance_input, allowance_input, approve_input,
  increase_input, no_input,
}
use lunes_nightly.Extension.Approvals.{approve-Granted, decrease-Granted}
use lunes_nightly.Extension.Movements.{transfer-Granted, transfer_from-Granted, burn-Granted}

module _ (p : Pallets) (laws : IsLawful p) (exact : IsExact p) where
  open p use {Chain, DispatchError, balance, allowance, total_issuance}

  metadata_memory :
      (k : Metadata) (a : ℕ) (s : Host p)
      → p.read_asset_id s.memory ≡ ok a
      → (metadata p k s).1 ≡ record s { memory = (p.write (described p k a s.chain) s.memory).1 }
  unfolding metadata described
  metadata_memory Metadata.name a s r = ground arith
  metadata_memory Metadata.symbol a s r = ground arith
  metadata_memory Metadata.decimals a s r = ground arith

  metadata-Granted :
      (caller : ℕ) (k : Metadata) (s : Host p)
      → (metadata p k s).0 ≡ ok tt
      → Granted p caller (FuncId.metadata k) s (metadata p k s).1
  unfolding metadata
  metadata-Granted caller k s h = elim (Result-cases (p.read_asset_id s.memory)) [
    | inr (e, r) ↦ absurd (ground arith)
    | inl (a, r) ↦
        let bytes = described p k a s.chain in
        let same : (metadata p k s).1 ≡ record s { memory = (p.write bytes s.memory).1 } =
          metadata_memory k a s r in
        rw same (record {
          request = Request.describe k a;
          answer = Answer.text bytes;
          asked = metadata_input k a r;
          step = Step.described k a;
          written = refl;
        })
  ]

  query-Granted :
      (caller : ℕ) (q : Query) (s : Host p)
      → (query p q s).0 ≡ ok tt
      → Granted p caller (FuncId.query q) s (query p q s).1
  unfolding query query_result
  query-Granted caller Query.total_supply s h = elim (Result-cases (p.read_asset_id s.memory)) [
    | inr (e, r) ↦ absurd (ground arith)
    | inl (a, r) ↦
        let bytes = p.encode_balance (total_issuance a s.chain) in
        let same : (query p Query.total_supply s).1
            ≡ record s { memory = (p.write bytes s.memory).1 } =
          ground arith in
        rw same (record {
          request = Request.total_supply a;
          answer = Answer.number (total_issuance a s.chain);
          asked = supply_input a r;
          step = Step.counted a;
          written = refl;
        })
  ]
  query-Granted caller Query.balance_of s h = elim (Result-cases (p.read_balance_of s.memory)) [
    | inr (e, r) ↦ absurd (ground arith)
    | inl (i, r) ↦
        let n = balance i.asset_id i.owner s.chain in
        let bytes = p.encode_balance n in
        let same : (query p Query.balance_of s).1
            ≡ record s { memory = (p.write bytes s.memory).1 } =
          ground arith in
        rw same (record {
          request = Request.balance_of i.asset_id i.owner;
          answer = Answer.number n;
          asked = balance_input i.asset_id i.owner r;
          step = Step.held i.asset_id i.owner;
          written = refl;
        })
  ]
  query-Granted caller Query.allowance s h = elim (Result-cases (p.read_allowance s.memory)) [
    | inr (e, r) ↦ absurd (ground arith)
    | inl (i, r) ↦
        let n = allowance i.asset_id i.owner i.spender s.chain in
        let bytes = p.encode_balance n in
        let same : (query p Query.allowance s).1
            ≡ record s { memory = (p.write bytes s.memory).1 } =
          ground arith in
        rw same (record {
          request = Request.allowance i.asset_id i.owner i.spender;
          answer = Answer.number n;
          asked = allowance_input i.asset_id i.owner i.spender r;
          step = Step.permitted i.asset_id i.owner i.spender;
          written = refl;
        })
  ]

  dispatch-Granted :
      (f : FuncId) (env : Env) (s : Host p)
      → (dispatch p f env s).0 ≡ ok tt
      → Granted p env.caller f s (dispatch p f env s).1
  unfolding dispatch mint
  dispatch-Granted (FuncId.metadata k) env s h = metadata-Granted env.caller k s h
  dispatch-Granted (FuncId.query q) env s h = query-Granted env.caller q s h
  dispatch-Granted FuncId.transfer env s h = transfer-Granted p laws exact env s h
  dispatch-Granted FuncId.transfer_from env s h = transfer_from-Granted p laws exact env s h
  dispatch-Granted FuncId.approve env s h =
      approve-Granted p laws exact FuncId.approve env s
        (λ i r. approve_input i.asset_id i.spender i.value r) h
  dispatch-Granted FuncId.increase_allowance env s h =
      approve-Granted p laws exact FuncId.increase_allowance env s
        (λ i r. increase_input i.asset_id i.spender i.value r) h
  dispatch-Granted FuncId.decrease_allowance env s h = decrease-Granted p laws exact env s h
  dispatch-Granted FuncId.burn env s h = burn-Granted p laws exact env s h
  dispatch-Granted FuncId.mint env s h = record {
    request = Request.mint;
    answer = Answer.silent;
    asked = no_input;
    step = Step.unminted;
    written = refl;
  }

  -- A call that succeeds returns zero; its id is that of a function, its memory holds that
  -- function's input, and it has done just the step that the abstract token makes of the request
  -- by the caller: the metadata, the supplies, the balances and the allowances of all assets are
  -- afterwards those of the token, and the token's answer, if any, is what has been written to the
  -- memory. The assets pallet behaves and moves amounts as documented.
  pub call_refines :
      (env : Env) (s : Host p) (v : p.RetVal)
      → (call p env s).0 ≡ ok v
      → (v ≡ p.converging 0)
        × ((f : FuncId) × (env.func_id ≡ selector f) × Granted p env.caller f s (call p env s).1)
  unfolding call
  call_refines env s v h = elim (try_from_cases p.other env.func_id) [
    | inr refused ↦ absurd (ground arith)
    | inl (f, known, id) ↦
        let same : (call p env s).1 ≡ (dispatch p f env s).1 = ground arith in
        (ground arith, (f, id, rw same (dispatch-Granted f env s (ground arith))))
  ]
