-- ===== src/Extension/Allowance.antt =====
-- The allowances under `approve`, `increase_allowance` and `decrease_allowance` of
-- runtime/src/chain_extension.rs.
use lunes_nightly.Prelude.{
  ℕ, ◌+◌, ◌-◌, ◌≤◌, ◌≡◌, ◌⊎◌, ok, arith, min, u128_max, inl, inr, Bool-cases, ◌==◌, pure, ◌>>=◌,
}
use lunes_nightly.Extension.{
  Pallets, Env, Host, FuncId, selector, ApproveInput, approve, decrease_allowance,
  cancel_and_approve, approve_rest, dispatch, call,
}
use lunes_nightly.Extension.Ids.{try_from-selector_eq}
use lunes_nightly.Extension.Documented.{IsLawful, OnlyAllowance, SameBalances}

module _ (p : Pallets) where
  -- A call with the id of a function is that function's handler.
  pub call-dispatch :
      (f : FuncId) (env : Env) (s : Host p)
      → env.func_id ≡ selector f
      → call p env s ≡ (dispatch p f env >>= λ _. pure (p.converging 0)) s
  unfolding call
  call-dispatch f env s e = rw (try_from-selector_eq p.other env.func_id f e)

module _ (p : Pallets) (laws : IsLawful p) where
  open p use {Chain, DispatchError, balance, allowance, read_approve}

  -- From `c` to `c'` one allowance has become `n`, and no other allowance and no balance differs.
  abbrev pub SetsAllowance : ℕ → ℕ → ℕ → ℕ → Chain → Chain → Type 0
  SetsAllowance asset owner spender n c c' =
      (allowance asset owner spender c' ≡ n)
      × OnlyAllowance p asset owner spender c c'
      × SameBalances p c c'

  approve_rest-Sets :
      (env : Env) (input : ApproveInput) (n : ℕ) (s : Host p)
      → (approve_rest p env input n s).0 ≡ ok tt
      → allowance input.asset_id env.caller input.spender s.chain ≡ 0
      → n ≤ u128_max
      → SetsAllowance input.asset_id env.caller input.spender n s.chain
          (approve_rest p env input n s).1.chain
  unfolding approve_rest
  approve_rest-Sets env input n s h cleared fits =
      let a = input.asset_id in
      let done = laws.approve_adds a env.caller input.spender n s.chain in
      elim (Bool-cases (n == 0)) [
        | inl e ↦ (ground arith, λ x o t d. ground arith, λ x w. ground arith)
        | inr e ↦
            let (sum, others, balances) = done (ground arith) in
            (
              ground arith,
              λ x o t d. ground (arith, others x o t d),
              λ x w. ground (arith, balances x w),
            )
      ]

  pub cancel_and_approve-Sets :
      (env : Env) (input : ApproveInput) (s : Host p)
      → (cancel_and_approve p env input s).0 ≡ ok tt
      → SetsAllowance input.asset_id env.caller input.spender
          (allowance input.asset_id env.caller input.spender s.chain - input.value)
          s.chain
          (cancel_and_approve p env input s).1.chain
  unfolding cancel_and_approve
  cancel_and_approve-Sets env input s h =
      let a = input.asset_id in
      let o = env.caller in
      let t = input.spender in
      let rest = allowance a o t s.chain - input.value in
      let cancelled = p.cancel_approval (p.signed o) a (p.unlookup t) s.chain in
      let s' : Host p = record s { chain = cancelled.1 } in
      let (zero_left, others, balances) = laws.cancel_clears o a t s.chain (ground arith) in
      let (set, others', balances') =
        approve_rest-Sets env input rest s' (ground arith) zero_left
          (omega (arith, laws.allowance_fits a o t s.chain)) in
      (
        ground arith,
        λ x w v d. ground (arith, others x w v d, others' x w v d),
        λ x w. ground (arith, balances x w, balances' x w),
      )

  -- A successful call of `decrease_allowance` whose input is read leaves the allowance of the
  -- caller and the spender smaller by the value, or at zero if it was not larger, and it changes
  -- no other allowance and no balance; the assets pallet behaves as documented.
  pub decrease_allowance-Sets :
      (env : Env) (input : ApproveInput) (s : Host p)
      → env.func_id ≡ selector FuncId.decrease_allowance
      → read_approve s.memory ≡ ok input
      → (call p env s).0 ≡ ok (p.converging 0)
      → SetsAllowance input.asset_id env.caller input.spender
          (allowance input.asset_id env.caller input.spender s.chain - input.value)
          s.chain
          (call p env s).1.chain
  unfolding dispatch decrease_allowance
  decrease_allowance-Sets env input s id e =
      rw (call-dispatch p FuncId.decrease_allowance env s id) λ h.
        elim (Bool-cases (input.value == 0)) [
          | inl none_asked ↦ (ground arith, λ x w v d. ground arith, λ x w. ground arith)
          | inr asked ↦
              let (set, others, balances) = cancel_and_approve-Sets env input s (ground arith) in
              (
                ground arith,
                λ x w v d. ground (arith, others x w v d),
                λ x w. ground (arith, balances x w),
              )
        ]

  pub approve_handler-Adds :
      (env : Env) (input : ApproveInput) (s : Host p)
      → read_approve s.memory ≡ ok input
      → (approve p env s).0 ≡ ok tt
      → SetsAllowance input.asset_id env.caller input.spender
          (min (allowance input.asset_id env.caller input.spender s.chain + input.value) u128_max)
          s.chain
          (approve p env s).1.chain
  unfolding approve
  approve_handler-Adds env input s e h =
      let (sum, others, balances) =
        laws.approve_adds input.asset_id env.caller input.spender input.value s.chain
          (ground arith) in
      (ground arith, λ x w v d. ground (arith, others x w v d), λ x w. ground (arith, balances x w))

  -- A successful call of `approve` or of `increase_allowance`, whose input is read, adds the value
  -- to the allowance of the caller and the spender, up to the largest `u128`, and changes no other
  -- allowance and no balance; the assets pallet behaves as documented.
  pub approve-Adds :
      (env : Env) (input : ApproveInput) (s : Host p)
      → ((env.func_id ≡ selector FuncId.approve)
          ⊎ (env.func_id ≡ selector FuncId.increase_allowance))
      → read_approve s.memory ≡ ok input
      → (call p env s).0 ≡ ok (p.converging 0)
      → SetsAllowance input.asset_id env.caller input.spender
          (min (allowance input.asset_id env.caller input.spender s.chain + input.value) u128_max)
          s.chain
          (call p env s).1.chain
  unfolding dispatch
  approve-Adds env input s (inl id) e = rw (call-dispatch p FuncId.approve env s id) λ h.
      let (sum, others, balances) = approve_handler-Adds env input s e (ground arith) in
      (ground arith, λ x w v d. ground (arith, others x w v d), λ x w. ground (arith, balances x w))
  approve-Adds env input s (inr id) e = rw (call-dispatch p FuncId.increase_allowance env s id) λ h.
      let (sum, others, balances) = approve_handler-Adds env input s e (ground arith) in
      (ground arith, λ x w v d. ground (arith, others x w v d), λ x w. ground (arith, balances x w))
