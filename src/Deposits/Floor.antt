-- ===== src/Deposits/Floor.antt =====
-- The deposits of runtime/src/lib.rs against the existential deposit and against each other.
use lunes_nightly.Prelude.{◌*◌, ◌≤◌, ◌<◌, ◌≡◌, ◌⊎◌, inl, inr, refl, arith}
use lunes_nightly.Command.{existential_deposit}
use lunes_nightly.Deposits.{
  Kept, base_deposit, field_deposit, identity, sub_account, pool_candidate,
}

-- Every deposit that is taken once is at least the existential deposit, but for that of a
-- candidate of the scored pool, which is below it.
deposits_floor :
    (k : Kept)
    → ((k ≡ pool_candidate) × (base_deposit k < existential_deposit))
      ⊎ (existential_deposit ≤ base_deposit k)
unfolding base_deposit
deposits_floor Kept.pool_candidate = inl (refl, omega arith)
deposits_floor Kept.signed_solution = inr (omega arith)
deposits_floor Kept.preimage = inr (omega arith)
deposits_floor Kept.referendum = inr (omega arith)
deposits_floor Kept.spending_proposal = inr (omega arith)
deposits_floor Kept.tip_report = inr (omega arith)
deposits_floor Kept.bounty = inr (omega arith)
deposits_floor Kept.curator = inr (omega arith)
deposits_floor Kept.asset = inr (omega arith)
deposits_floor Kept.approval = inr (omega arith)
deposits_floor Kept.metadata = inr (omega arith)
deposits_floor Kept.asset_account = inr (omega arith)
deposits_floor Kept.collection = inr (omega arith)
deposits_floor Kept.item = inr (omega arith)
deposits_floor Kept.recovery_config = inr (omega arith)
deposits_floor Kept.recovery = inr (omega arith)
deposits_floor Kept.identity = inr (omega arith)
deposits_floor Kept.sub_account = inr (omega arith)
deposits_floor Kept.index = inr (omega arith)
deposits_floor Kept.nick = inr (omega arith)

-- By the bytes that the source's comments give, 258, 53 and 66, an identity and a sub-account pay
-- more than a thousand times as much for a byte as a further field of an identity does.
identity_rates :
    (1000 * (field_deposit * 258) < base_deposit identity * 66)
    × (990 * (field_deposit * 53) < base_deposit sub_account * 66)
unfolding base_deposit
identity_rates = (omega arith, omega arith)
