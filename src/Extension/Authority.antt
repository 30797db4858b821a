-- ===== src/Extension/Authority.antt =====
-- Who can take assets from whom through the chain extension (runtime/src/chain_extension.rs), and
-- what a failed call leaves behind.
use lunes_nightly.Prelude.{
  ℕ, ◌≤◌, ◌<◌, ◌≡◌, true, ok, arith, inl, inr, Bool-cases, ◌==◌, Result-cases, sym, refl, ◌-◌,
}
use lunes_nightly.Extension.{
  Pallets, Env, Host, FuncId, Query, selector, ApproveInput, TransferFromInput, BurnInput, metadata,
  query, query_result, transfer, transfer_from, approve, decrease_allowance, cancel_and_approve,
  approve_rest, burn, mint, dispatch, call,
}
use lunes_nightly.Extension.Ids.{try_from_cases}
use lunes_nightly.Extension.Documented.{IsLawful, OnlyDebits, SameBalances}

-- What entitles a call to lower the balance of `who` in the asset.
pub data Authorised (p : Pallets) (env : Env) (s : Host p) (asset who : ℕ) : Type 0 where
  own : who ≡ env.caller → Authorised p env s asset who
  delegated :
      (input : TransferFromInput)
      → env.func_id ≡ selector FuncId.transfer_from
      → p.read_transfer_from s.memory ≡ ok input
      → (input.asset_id ≡ asset) × (input.from ≡ who)
      → input.value ≤ p.allowance asset who env.caller s.chain
      → Authorised p env s asset who
  administered :
      (input : BurnInput)
      → env.func_id ≡ selector FuncId.burn
      → p.read_burn s.memory ≡ ok input
      → (input.asset_id ≡ asset) × (input.from ≡ who)
      → p.is_admin asset env.caller s.chain ≡ true
      → Authorised p env s asset who

module _ (p : Pallets) (laws : IsLawful p) where
  open p use {Chain, DispatchError, balance}

  debited :
      (a o x w : ℕ) (c c' : Chain)
      → OnlyDebits p a o c c'
      → balance x w c' < balance x w c
      → (x ≡ a) × (w ≡ o)
  debited a o x w c c' only less = elim (Bool-cases (x == a)) [
    | inl same ↦ elim (Bool-cases (w == o)) [
      | inl also ↦ (ground arith, ground arith)
      | inr other ↦ absurd (omega (arith, only x w (inr (ground arith))))
    ]
    | inr other ↦ absurd (omega (arith, only x w (inl (ground arith))))
  ]

  transfer-Authorised :
      (env : Env) (s : Host p) (asset who : ℕ)
      → balance asset who (transfer p env s).1.chain < balance asset who s.chain
      → who ≡ env.caller
  unfolding transfer
  transfer-Authorised env s asset who less = elim (Result-cases (p.read_transfer s.memory)) [
    | inl (i, r) ↦
        let moved = p.transfer i.asset_id env.caller i.to i.value true s.chain in
        elim (Result-cases moved.0) [
          | inl (m, done) ↦
              let only =
                laws.transfer_debits i.asset_id env.caller i.to i.value true s.chain m done in
              (debited i.asset_id env.caller asset who s.chain moved.1 only (ground arith)).1
          | inr (e, failed) ↦ absurd (
              ground (
                arith,
                laws.transfer_atomic i.asset_id env.caller i.to i.value true s.chain e failed,
              ))
        ]
    | inr (e, r) ↦ absurd (ground arith)
  ]

  transfer_from-Authorised :
      (env : Env) (s : Host p) (asset who : ℕ)
      → env.func_id ≡ selector FuncId.transfer_from
      → balance asset who (transfer_from p env s).1.chain < balance asset who s.chain
      → Authorised p env s asset who
  unfolding transfer_from
  transfer_from-Authorised env s asset who id less =
      elim (Result-cases (p.read_transfer_from s.memory)) [
        | inl (i, r) ↦
            let moved = p.transfer_from i.asset_id i.from env.caller i.to i.value s.chain in
            elim (Result-cases moved.0) [
              | inl (m, done) ↦
                  let (enough, only) =
                    laws.transfer_from_debits i.asset_id i.from env.caller i.to i.value s.chain
                      done in
                  let (this, his) =
                    debited i.asset_id i.from asset who s.chain moved.1 only (ground arith) in
                  delegated i id r (sym this, sym his) (rw (this, his) enough)
              | inr (e, failed) ↦ absurd (
                  ground (
                    arith,
                    laws.transfer_from_atomic i.asset_id i.from env.caller i.to i.value s.chain e
                        failed,
                  ))
            ]
        | inr (e, r) ↦ absurd (ground arith)
      ]

  burn-Authorised :
      (env : Env) (s : Host p) (asset who : ℕ)
      → env.func_id ≡ selector FuncId.burn
      → balance asset who (burn p env s).1.chain < balance asset who s.chain
      → Authorised p env s asset who
  unfolding burn
  burn-Authorised env s asset who id less = elim (Result-cases (p.read_burn s.memory)) [
    | inl (i, r) ↦
        let burned = p.burn (p.signed env.caller) i.asset_id (p.unlookup i.from) i.value s.chain in
        elim (Result-cases burned.0) [
          | inl (m, done) ↦
              let (admin, only) =
                laws.burn_debits env.caller i.asset_id i.from i.value s.chain done in
              let (this, his) =
                debited i.asset_id i.from asset who s.chain burned.1 only (ground arith) in
              elim (Bool-cases (i.value == 0)) [
                | inl none_asked ↦
                    let kept =
                      laws.burn_nothing env.caller i.asset_id i.from i.value s.chain (ground arith)
                        done asset who in
                    absurd (ground (arith, kept))
                | inr asked ↦
                    administered i id r (sym this, sym his) (rw this (admin (ground arith)))
              ]
          | inr (e, failed) ↦ absurd (
              ground
                (arith, laws.burn_atomic env.caller i.asset_id i.from i.value s.chain e failed))
        ]
    | inr (e, r) ↦ absurd (ground arith)
  ]

  approve_balances : (a o t n : ℕ) (c : Chain) → SameBalances p c (p.approve a o t n c).1
  approve_balances a o t n c x w = elim (Result-cases (p.approve a o t n c).0) [
    | inl (m, done) ↦ (laws.approve_adds a o t n c done).2 x w
    | inr (e, failed) ↦ rw (laws.approve_atomic a o t n c e failed) refl
  ]

  cancel_balances :
      (o a t : ℕ) (c : Chain)
      → SameBalances p c (p.cancel_approval (p.signed o) a (p.unlookup t) c).1
  cancel_balances o a t c x w =
      elim (Result-cases (p.cancel_approval (p.signed o) a (p.unlookup t) c).0) [
        | inl (m, done) ↦ (laws.cancel_clears o a t c done).2 x w
        | inr (e, failed) ↦ rw (laws.cancel_atomic o a t c e failed) refl
      ]

  approve_handler_balances :
      (env : Env) (s : Host p) → SameBalances p s.chain (approve p env s).1.chain
  unfolding approve
  approve_handler_balances env s x w = elim (Result-cases (p.read_approve s.memory)) [
    | inl (i, r) ↦
        ground (arith, approve_balances i.asset_id env.caller i.spender i.value s.chain x w)
    | inr (e, r) ↦ ground arith
  ]

  approve_rest_balances :
      (env : Env) (i : ApproveInput) (n : ℕ) (s : Host p)
      → SameBalances p s.chain (approve_rest p env i n s).1.chain
  unfolding approve_rest
  approve_rest_balances env i n s x w =
      ground (arith, approve_balances i.asset_id env.caller i.spender n s.chain x w)

  decrease_balances :
      (env : Env) (s : Host p) → SameBalances p s.chain (decrease_allowance p env s).1.chain
  unfolding decrease_allowance cancel_and_approve
  decrease_balances env s x w = elim (Result-cases (p.read_approve s.memory)) [
    | inl (i, r) ↦
        let a = i.asset_id in
        let c = (p.cancel_approval (p.signed env.caller) a (p.unlookup i.spender) s.chain).1 in
        let s' : Host p = record s { chain = c } in
        let left = p.allowance a env.caller i.spender s.chain - i.value in
        ground (
          arith,
          cancel_balances env.caller a i.spender s.chain x w,
          approve_rest_balances env i left s' x w,
        )
    | inr (e, r) ↦ ground arith
  ]

  dispatch-Authorised :
      (f : FuncId) (env : Env) (s : Host p) (asset who : ℕ)
      → env.func_id ≡ selector f
      → balance asset who (dispatch p f env s).1.chain < balance asset who s.chain
      → Authorised p env s asset who
  unfolding dispatch metadata query query_result mint
  dispatch-Authorised (FuncId.metadata m) env s asset who id less = absurd (ground arith)
  dispatch-Authorised (FuncId.query Query.total_supply) env s asset who id less =
      absurd (ground arith)
  dispatch-Authorised (FuncId.query Query.balance_of) env s asset who id less =
      absurd (ground arith)
  dispatch-Authorised (FuncId.query Query.allowance) env s asset who id less = absurd (ground arith)
  dispatch-Authorised FuncId.transfer env s asset who id less =
      own (transfer-Authorised env s asset who less)
  dispatch-Authorised FuncId.transfer_from env s asset who id less =
      transfer_from-Authorised env s asset who id less
  dispatch-Authorised FuncId.approve env s asset who id less =
      absurd (omega (arith, approve_handler_balances env s asset who))
  dispatch-Authorised FuncId.increase_allowance env s asset who id less =
      absurd (omega (arith, approve_handler_balances env s asset who))
  dispatch-Authorised FuncId.decrease_allowance env s asset who id less =
      absurd (omega (arith, decrease_balances env s asset who))
  dispatch-Authorised FuncId.burn env s asset who id less = burn-Authorised env s asset who id less
  dispatch-Authorised FuncId.mint env s asset who id less = absurd (ground arith)

  -- If a call, successful or not, lowers an account's balance of an asset, then the account is the
  -- caller; or the call is a `transfer_from` from that account in that asset, within the allowance
  -- that the account had given the caller; or it is a `burn` from it by an admin of the asset. The
  -- assets pallet behaves as documented.
  pub call-Authorised :
      (env : Env) (s : Host p) (asset who : ℕ)
      → balance asset who (call p env s).1.chain < balance asset who s.chain
      → Authorised p env s asset who
  unfolding call
  call-Authorised env s asset who less = elim (try_from_cases p.other env.func_id) [
    | inl (f, known, id) ↦ dispatch-Authorised f env s asset who id (ground arith)
    | inr refused ↦ absurd (ground arith)
  ]
