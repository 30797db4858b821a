-- ===== src/Extension/Movements.antt =====
-- The transfers and the burn of runtime/src/chain_extension.rs as steps of the abstract token.
use lunes_nightly.Prelude.{◌-◌, ◌≡◌, true, ok, arith, inl, inr, Result-cases, refl}
use lunes_nightly.Extension.{Pallets, Env, Host, FuncId, transfer, transfer_from, burn}
use lunes_nightly.Extension.Documented.{IsLawful}
use lunes_nightly.Extension.Amounts.{IsExact}
use lunes_nightly.Extension.Token.{Request, Answer, Step}
use lunes_nightly.Extension.View.{token, Granted, transfer_input, transfer_from_input, burn_input}
use lunes_nightly.Extension.Changes.{Moves-moved, Moves-spent, Burns-burnt}

module _ (p : Pallets) (laws : IsLawful p) (exact : IsExact p) where
  open p use {Chain, DispatchError, balance, allowance, total_issuance}

  pub transfer-Granted :
      (env : Env) (s : Host p)
      → (transfer p env s).0 ≡ ok tt
      → Granted p env.caller FuncId.transfer s (transfer p env s).1
  unfolding transfer
  transfer-Granted env s h = elim (Result-cases (p.read_transfer s.memory)) [
    | inr (e, r) ↦ absurd (ground arith)
    | inl (i, r) ↦
        let sent_by = p.transfer i.asset_id env.caller i.to i.value true s.chain in
        let same : (transfer p env s).1 ≡ record s { chain = sent_by.1 } = ground arith in
        elim (Result-cases sent_by.0) [
          | inr (e, failed) ↦ absurd (ground arith)
          | inl (n, done) ↦
              let (moves, kept) =
                exact.transfer_moves i.asset_id env.caller i.to i.value s.chain n done in
              rw same (record {
                request = Request.transfer i.asset_id i.to i.value;
                answer = Answer.silent;
                asked = transfer_input i.asset_id i.to i.value r;
                step = Step.sent i.asset_id i.to i.value (token p sent_by.1) moves.enough (
                    Moves-moved p laws exact i.asset_id env.caller i.to i.value s.chain sent_by.1
                      moves kept);
                written = refl;
              })
        ]
  ]

  pub burn-Granted :
      (env : Env) (s : Host p)
      → (burn p env s).0 ≡ ok tt
      → Granted p env.caller FuncId.burn s (burn p env s).1
  unfolding burn
  burn-Granted env s h = elim (Result-cases (p.read_burn s.memory)) [
    | inr (e, r) ↦ absurd (ground arith)
    | inl (i, r) ↦
        let after = p.burn (p.signed env.caller) i.asset_id (p.unlookup i.from) i.value s.chain in
        let same : (burn p env s).1 ≡ record s { chain = after.1 } = ground arith in
        let (n, some_or_all, burns) =
          exact.burn_burns env.caller i.asset_id i.from i.value s.chain (ground arith) in
        rw same (record {
          request = Request.burn i.asset_id i.from i.value;
          answer = Answer.silent;
          asked = burn_input i.asset_id i.from i.value r;
          step =
              Step.burned i.asset_id i.from i.value n (token p after.1)
                (omega (arith, burns.debited)) (omega (arith, burns.shrunk)) some_or_all
                (Burns-burnt p laws exact i.asset_id i.from n s.chain after.1 burns);
          written = refl;
        })
  ]

  pub transfer_from-Granted :
      (env : Env) (s : Host p)
      → (transfer_from p env s).0 ≡ ok tt
      → Granted p env.caller FuncId.transfer_from s (transfer_from p env s).1
  unfolding transfer_from
  transfer_from-Granted env s h = elim (Result-cases (p.read_transfer_from s.memory)) [
    | inr (e, r) ↦ absurd (ground arith)
    | inl (i, r) ↦
        let a = i.asset_id in
        let t = env.caller in
        let after = p.transfer_from a i.from t i.to i.value s.chain in
        let same : (transfer_from p env s).1 ≡ record s { chain = after.1 } = ground arith in
        let done : after.0 ≡ ok tt = ground arith in
        let ((n, all_or_asked, moves), set, others) =
          exact.transfer_from_moves a i.from t i.to i.value s.chain done in
        let left = allowance a i.from t s.chain - i.value in
        rw same (record {
          request = Request.transfer_from a i.from i.to i.value;
          answer = Answer.silent;
          asked = transfer_from_input a i.from i.to i.value r;
          step =
              Step.fetched a i.from i.to i.value n (token p after.1)
                (laws.transfer_from_debits a i.from t i.to i.value s.chain done).0 moves.enough
                all_or_asked
                (Moves-spent p laws exact a i.from t i.to n left s.chain after.1 moves set others);
          written = refl;
        })
  ]
