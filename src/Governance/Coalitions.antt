-- ===== src/Governance/Coalitions.antt =====
-- Two groups of one council against each other (the proportions of runtime/src/lib.rs).
use mathlib.Core.Path.{subst}
use lunes_nightly.Prelude.{
  ℕ, ◌+◌, ◌*◌, ◌≤◌, ◌<◌, ◌≡◌, ◌≢◌, sym, ◌∙◌, true, false, arith, ◌⊎◌, inl, inr, Bool-cases,
}
use lunes_nightly.Governance.{
  council, members, Checks, Right, external_origin, external_majority_origin,
  external_default_origin, cancellation_origin, approve_origin, reject_origin,
  identity_force_origin, registrar_origin, allows, root_or_half_council, IsLawful,
}
use lunes_nightly.Governance.Ranks.{at_least_vote, more_than_vote, either_vote}

-- The rights of the council that ask for more than half of its seats.
pub data IsMajorityRight : Right → Type 0 where
  majority : IsMajorityRight external_majority_origin
  unanimous : IsMajorityRight external_default_origin
  cancellation : IsMajorityRight cancellation_origin
  approve : IsMajorityRight approve_origin
  reject : IsMajorityRight reject_origin
  identity_force : IsMajorityRight identity_force_origin
  registrar : IsMajorityRight registrar_origin

module _ (k : Checks) (laws : IsLawful k) where
  open k use {proportion_at_least, proportion_more_than}

  root_or_half_vote :
      (ayes seats : ℕ)
      → root_or_half_council k (members council ayes seats) ≡ true
      → seats < 2 * ayes
  unfolding root_or_half_council
  root_or_half_vote a s h =
      let votes =
        (more_than_vote k laws council 1 2 a s).0
          (sym (either_vote k laws (proportion_more_than council 1 2) council a s) ∙ h) in
      omega (arith, votes)

  more_than_half :
      {r : Right}
      → IsMajorityRight r
      → (ayes seats : ℕ) → 0 < seats
      → allows k r (members council ayes seats) ≡ true
      → seats < 2 * ayes
  unfolding allows root_or_half_council
  more_than_half majority a s some_seat h =
      let votes = (at_least_vote k laws council 3 4 a s).0 h in omega (arith, votes)
  more_than_half unanimous a s some_seat h =
      let votes = (at_least_vote k laws council 1 1 a s).0 h in omega (arith, votes)
  more_than_half cancellation a s some_seat h =
      let votes = (at_least_vote k laws council 2 3 a s).0 h in omega (arith, votes)
  more_than_half approve a s some_seat h =
      let votes =
        (at_least_vote k laws council 3 5 a s).0
          (sym (either_vote k laws (proportion_at_least council 3 5) council a s) ∙ h) in
      omega (arith, votes)
  more_than_half reject a s some_seat h = root_or_half_vote a s h
  more_than_half identity_force a s some_seat h = root_or_half_vote a s h
  more_than_half registrar a s some_seat h = root_or_half_vote a s h

  -- A group of the council that has a majority right leaves no other group of it, with no member in
  -- common, a majority right or the right to propose what the next motion is. The checks behave as
  -- documented.
  coalitions_exclude :
      {r t : Right}
      → IsMajorityRight r
      → (t ≡ external_origin) ⊎ IsMajorityRight t
      → (a b seats : ℕ) → 0 < seats
      → a + b ≤ seats
      → allows k r (members council a seats) ≡ true
      → allows k t (members council b seats) ≢ true
  unfolding allows
  coalitions_exclude {t = t} m (inl external) a b s some_seat apart h other =
      let first = more_than_half m a s some_seat h in
      let second =
        (at_least_vote k laws council 1 2 b s).0
          (subst (λ t. allows k t (members council b s) ≡ true) external other) in
      omega (arith, first, second)
  coalitions_exclude m (inr n) a b s some_seat apart h other =
      let first = more_than_half m a s some_seat h in
      let second = more_than_half n b s some_seat other in omega (arith, first, second)

  -- One half of an even council has the right to propose what the next motion is, and so has the
  -- other half: that right does not ask for a majority. The checks behave as documented.
  half_council_proposes :
      (n : ℕ)
      → (allows k external_origin (members council n (n + n)) ≡ true)
        × (allows k reject_origin (members council n (n + n)) ≡ false)
  unfolding allows
  half_council_proposes n = (
    (at_least_vote k laws council 1 2 n (n + n)).1 (omega arith),
    elim (Bool-cases (allows k reject_origin (members council n (n + n)))) [
      | inl h ↦
          let votes =
            (more_than_vote k laws council 1 2 n (n + n)).0
              (sym (either_vote k laws (proportion_more_than council 1 2) council n (n + n)) ∙ h) in
          absurd (omega (arith, votes))
      | inr h ↦ h
    ],
  )

  -- A group of the council that has a majority right leaves no other group of it, with no member in
  -- common, a majority right or the right to propose what the next motion is. The line between them
  -- is at one half: one half of an even council has the right to propose, and has not the right to
  -- reject a spending, which asks for a majority. The checks behave as documented.
  pub council_divided :
      {r t : Right}
      → IsMajorityRight r
      → (t ≡ external_origin) ⊎ IsMajorityRight t
      → (a b seats n : ℕ) → 0 < seats
      → a + b ≤ seats
      → allows k r (members council a seats) ≡ true
      → (allows k t (members council b seats) ≢ true)
        × (allows k external_origin (members council n (n + n)) ≡ true)
        × (allows k reject_origin (members council n (n + n)) ≡ false)
  council_divided m other a b seats n some_seat apart h =
      let (proposes, rejects) = half_council_proposes n in
      (coalitions_exclude m other a b seats some_seat apart h, proposes, rejects)
