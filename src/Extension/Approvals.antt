-- ===== src/Extension/Approvals.antt =====
-- The approvals of runtime/src/chain_extension.rs as steps of the abstract token.
use lunes_nightly.Prelude.{
  ℕ, ◌+◌, ◌-◌, ◌≡◌, ok, arith, inl, inr, Bool-cases, ◌==◌, Result-cases, min, u128_max,
}
use lunes_nightly.Extension.{
  Pallets, Env, Host, FuncId, ApproveInput, metadata, approve, decrease_allowance,
  cancel_and_approve, approve_rest,
}
use lunes_nightly.Extension.Documented.{IsLawful}
use lunes_nightly.Extension.Allowance.{cancel_and_approve-Sets, approve_handler-Adds}
use lunes_nightly.Extension.Amounts.{SameMetadata, SameSupply, IsExact}
use lunes_nightly.Extension.Token.{Request, Answer, Step}
use lunes_nightly.Extension.View.{token, Asks, Granted, decrease_input}
use lunes_nightly.Extension.Changes.{Sets-allowed}

module _ (p : Pallets) (laws : IsLawful p) (exact : IsExact p) where
  open p use {Chain, DispatchError, balance, allowance, total_issuance}

  approve_token :
      (env : Env) (i : ApproveInput) (s : Host p)
      → p.read_approve s.memory ≡ ok i
      → (approve p env s).0 ≡ ok tt
      → Step env.caller
          (token p s.chain)
          (Request.raise_allowance i.asset_id i.spender i.value)
          (token p (approve p env s).1.chain)
          Answer.silent
  unfolding approve
  approve_token env i s r h =
      let a = i.asset_id in
      let t = i.spender in
      let n = min (allowance a env.caller t s.chain + i.value) u128_max in
      let (supply, metadata) = exact.approve_keeps a env.caller t i.value s.chain (ground arith) in
      Step.raised a t i.value (token p (approve p env s).1.chain) (
        Sets-allowed p laws exact a env.caller t n s.chain (approve p env s).1.chain
          (approve_handler-Adds p laws env i s r h) (λ x. ground (arith, supply x))
          (λ k x. ground (arith, metadata k x)))

  approve_memory : (env : Env) (s : Host p) → (approve p env s).1.memory ≡ s.memory
  unfolding approve
  approve_memory env s = ground arith

  approve_rest_keeps :
      (env : Env) (i : ApproveInput) (n : ℕ) (s : Host p)
      → (approve_rest p env i n s).0 ≡ ok tt
      → SameSupply p s.chain (approve_rest p env i n s).1.chain
        × SameMetadata p s.chain (approve_rest p env i n s).1.chain
  unfolding approve_rest
  approve_rest_keeps env i n s h = elim (Bool-cases (n == 0)) [
    | inl zero_left ↦ (λ x. ground arith, λ k x. ground arith)
    | inr some_left ↦
        let (supply, metadata) =
          exact.approve_keeps i.asset_id env.caller i.spender n s.chain (ground arith) in
        (λ x. ground (arith, supply x), λ k x. ground (arith, metadata k x))
  ]

  cancel_and_approve_keeps :
      (env : Env) (i : ApproveInput) (s : Host p)
      → (cancel_and_approve p env i s).0 ≡ ok tt
      → SameSupply p s.chain (cancel_and_approve p env i s).1.chain
        × SameMetadata p s.chain (cancel_and_approve p env i s).1.chain
  unfolding cancel_and_approve
  cancel_and_approve_keeps env i s h =
      let a = i.asset_id in
      let o = env.caller in
      let t = i.spender in
      let cancelled = p.cancel_approval (p.signed o) a (p.unlookup t) s.chain in
      let s' : Host p = record s { chain = cancelled.1 } in
      let (supply, metadata) = exact.cancel_keeps o a t s.chain (ground arith) in
      let (supply', metadata') =
        approve_rest_keeps env i (allowance a o t s.chain - i.value) s' (ground arith) in
      (λ x. ground (arith, supply x, supply' x), λ k x. ground (arith, metadata k x, metadata' k x))

  decrease_token :
      (env : Env) (i : ApproveInput) (s : Host p)
      → p.read_approve s.memory ≡ ok i
      → (decrease_allowance p env s).0 ≡ ok tt
      → Step env.caller
          (token p s.chain)
          (Request.lower_allowance i.asset_id i.spender i.value)
          (token p (decrease_allowance p env s).1.chain)
          Answer.silent
  unfolding decrease_allowance
  decrease_token env i s r h =
      let a = i.asset_id in
      let o = env.caller in
      let t = i.spender in
      let left = allowance a o t s.chain - i.value in
      let c' = (decrease_allowance p env s).1.chain in
      elim (Bool-cases (i.value == 0)) [
        | inl none_asked ↦ Step.lowered a t i.value (token p c') (
            Sets-allowed p laws exact a o t left s.chain c'
              (ground arith, λ x w v d. ground arith, λ x w. ground arith) (λ x. ground arith)
              (λ k x. ground arith))
        | inr asked ↦
            let (set, others, balances) = cancel_and_approve-Sets p laws env i s (ground arith) in
            let (supply, metadata) = cancel_and_approve_keeps env i s (ground arith) in
            Step.lowered a t i.value (token p c') (
              Sets-allowed p laws exact a o t left s.chain c'
                (
                  ground (arith, set),
                  λ x w v d. ground (arith, others x w v d),
                  λ x w. ground (arith, balances x w),
                )
                (λ x. ground (arith, supply x)) (λ k x. ground (arith, metadata k x)))
      ]

  decrease_memory : (env : Env) (s : Host p) → (decrease_allowance p env s).1.memory ≡ s.memory
  unfolding decrease_allowance cancel_and_approve approve_rest
  decrease_memory env s = ground arith

  pub approve-Granted :
      (f : FuncId) (env : Env) (s : Host p)
      → ((i : ApproveInput)
          → p.read_approve s.memory ≡ ok i
          → Asks p s.memory f (Request.raise_allowance i.asset_id i.spender i.value))
      → (approve p env s).0 ≡ ok tt
      → Granted p env.caller f s (approve p env s).1
  unfolding approve
  approve-Granted f env s asks h = elim (Result-cases (p.read_approve s.memory)) [
    | inr (e, r) ↦ absurd (ground arith)
    | inl (i, r) ↦ record {
      request = Request.raise_allowance i.asset_id i.spender i.value;
      answer = Answer.silent;
      asked = asks i r;
      step = approve_token env i s r h;
      written = approve_memory env s;
    }
  ]

  pub decrease-Granted :
      (env : Env) (s : Host p)
      → (decrease_allowance p env s).0 ≡ ok tt
      → Granted p env.caller FuncId.decrease_allowance s (decrease_allowance p env s).1
  unfolding decrease_allowance
  decrease-Granted env s h = elim (Result-cases (p.read_approve s.memory)) [
    | inr (e, r) ↦ absurd (ground arith)
    | inl (i, r) ↦ record {
      request = Request.lower_allowance i.asset_id i.spender i.value;
      answer = Answer.silent;
      asked = decrease_input i.asset_id i.spender i.value r;
      step = decrease_token env i s r h;
      written = decrease_memory env s;
    }
  ]
