-- ===== src/Governance/Ranks.antt =====
-- Which rights of runtime/src/lib.rs a vote gives, and which every signed account has.
use lunes_nightly.Prelude.{
  ℕ, ◌*◌, ◌≤◌, ◌<◌, ◌≡◌, ◌↔◌, inl, inr, refl, Bool, true, false, ◌||◌, arith, sym, ◌∙◌, Bool-cases,
}
use lunes_nightly.Governance.{
  Collective, council, technical, RawOrigin, signed, members, Checks, Right, external_origin,
  external_majority_origin, external_default_origin, submit_origin, fast_track_origin,
  instant_origin, cancellation_origin, cancel_proposal_origin, blacklist_origin, veto_origin,
  approve_origin, reject_origin, spend_origin, identity_force_origin, registrar_origin,
  set_members_origin, election_force_origin, staking_admin_origin, preimage_manager_origin,
  schedule_origin, asset_create_origin, asset_force_origin, nft_create_origin, nft_force_origin,
  nick_force_origin, pool_kick_origin, pool_score_origin, allows, root_or_half_council, IsLawful,
}

module _ (k : Checks) (laws : IsLawful k) where
  open k use {ensure_root, ensure_signed, proportion_at_least, proportion_more_than, ensure_member}

  -- A vote passes a proportion exactly if the numbers say so.
  pub at_least_vote :
      (c : Collective) (n d ayes seats : ℕ)
      → (proportion_at_least c n d (members c ayes seats) ≡ true) ↔ (n * seats ≤ d * ayes)
  at_least_vote c n d ayes seats = (
    λ h.
        let (a, s, same, enough) = (laws.at_least_iff c n d (members c ayes seats)).0 h in
        ground (arith, same, enough),
    λ enough. (laws.at_least_iff c n d (members c ayes seats)).1 (ayes, seats, refl, enough),
  )

  pub more_than_vote :
      (c : Collective) (n d ayes seats : ℕ)
      → (proportion_more_than c n d (members c ayes seats) ≡ true) ↔ (n * seats < d * ayes)
  more_than_vote c n d ayes seats = (
    λ h.
        let (a, s, same, enough) = (laws.more_than_iff c n d (members c ayes seats)).0 h in
        ground (arith, same, enough),
    λ enough. (laws.more_than_iff c n d (members c ayes seats)).1 (ayes, seats, refl, enough),
  )

  root_vote : (c : Collective) (ayes seats : ℕ) → ensure_root (members c ayes seats) ≡ false
  root_vote c ayes seats = elim (Bool-cases (ensure_root (members c ayes seats))) [
    | inl h ↦ let same = (laws.root_iff (members c ayes seats)).0 h in cc
    | inr h ↦ h
  ]

  -- A vote is not root, so a right that either gives is the vote's.
  pub either_vote :
      (f : RawOrigin → Bool) (c : Collective) (ayes seats : ℕ)
      → (ensure_root (members c ayes seats) || f (members c ayes seats)) ≡ f (members c ayes seats)
  either_vote f c ayes seats = rw (root_vote c ayes seats) refl

-- The rights of one collective in the order of the votes that they ask for: whatever gives the
-- first gives the second.
pub data Implies : Collective → Right → Right → Type 0 where
  unanimous_majority : Implies council external_default_origin external_majority_origin
  majority_cancellation : Implies council external_majority_origin cancellation_origin
  cancellation_approve : Implies council cancellation_origin approve_origin
  approve_reject : Implies council approve_origin reject_origin
  reject_identity : Implies council reject_origin identity_force_origin
  identity_registrar : Implies council identity_force_origin registrar_origin
  registrar_external : Implies council registrar_origin external_origin
  instant_fast_track : Implies technical instant_origin fast_track_origin
  instant_cancel : Implies technical instant_origin cancel_proposal_origin
  in_turn : {c : Collective} {r t u : Right} → Implies c r t → Implies c t u → Implies c r u

-- The rights that every signed account has.
abbrev pub open_to_all : Right → Bool
open_to_all submit_origin = true
open_to_all asset_create_origin = true
open_to_all nft_create_origin = true
open_to_all pool_kick_origin = true
open_to_all pool_score_origin = true
open_to_all _ = false

module _ (k : Checks) (laws : IsLawful k) where
  open k use {ensure_root, ensure_signed, proportion_at_least, proportion_more_than, ensure_member}

  -- A vote that gives a right of a collective gives every right below it in the order `Implies`,
  -- in a collective with at least one seat: from the unanimous council down over three quarters,
  -- two thirds, three fifths and more than a half to one half, and from the unanimous technical
  -- committee to its two thirds. The checks behave as documented.
  pub implied_right :
      {c : Collective} {r t : Right}
      → Implies c r t
      → (ayes seats : ℕ) → 0 < seats
      → allows k r (members c ayes seats) ≡ true
      → allows k t (members c ayes seats) ≡ true
  unfolding allows root_or_half_council
  implied_right unanimous_majority a s some_seat h =
      let votes = (at_least_vote k laws council 1 1 a s).0 h in
      (at_least_vote k laws council 3 4 a s).1 (omega (arith, votes))
  implied_right majority_cancellation a s some_seat h =
      let votes = (at_least_vote k laws council 3 4 a s).0 h in
      (at_least_vote k laws council 2 3 a s).1 (omega (arith, votes))
  implied_right cancellation_approve a s some_seat h =
      let votes = (at_least_vote k laws council 2 3 a s).0 h in
      either_vote k laws (proportion_at_least council 3 5) council a s
      ∙ (at_least_vote k laws council 3 5 a s).1 (omega (arith, votes))
  implied_right approve_reject a s some_seat h =
      let votes =
        (at_least_vote k laws council 3 5 a s).0
          (sym (either_vote k laws (proportion_at_least council 3 5) council a s) ∙ h) in
      either_vote k laws (proportion_more_than council 1 2) council a s
      ∙ (more_than_vote k laws council 1 2 a s).1 (omega (arith, votes))
  implied_right reject_identity a s some_seat h = h
  implied_right identity_registrar a s some_seat h = h
  implied_right registrar_external a s some_seat h =
      let votes =
        (more_than_vote k laws council 1 2 a s).0
          (sym (either_vote k laws (proportion_more_than council 1 2) council a s) ∙ h) in
      (at_least_vote k laws council 1 2 a s).1 (omega (arith, votes))
  implied_right instant_fast_track a s some_seat h =
      let votes = (at_least_vote k laws technical 1 1 a s).0 h in
      (at_least_vote k laws technical 2 3 a s).1 (omega (arith, votes))
  implied_right instant_cancel a s some_seat h =
      either_vote k laws (proportion_at_least technical 1 1) technical a s ∙ h
  implied_right (in_turn first second) a s some_seat h =
      implied_right second a s some_seat (implied_right first a s some_seat h)

  is_signed : (who : ℕ) → ensure_signed (signed who) ≡ true
  is_signed who = (laws.signed_iff (signed who)).1 (who, refl)

  not_root : (who : ℕ) → ensure_root (signed who) ≡ false
  not_root who = elim (Bool-cases (ensure_root (signed who))) [
    | inl h ↦ let same = (laws.root_iff (signed who)).0 h in cc
    | inr h ↦ h
  ]

  not_at_least : (c : Collective) (n d who : ℕ) → proportion_at_least c n d (signed who) ≡ false
  not_at_least c n d who = elim (Bool-cases (proportion_at_least c n d (signed who))) [
    | inl h ↦ let (a, s, same, _) = (laws.at_least_iff c n d (signed who)).0 h in cc
    | inr h ↦ h
  ]

  not_more_than : (c : Collective) (n d who : ℕ) → proportion_more_than c n d (signed who) ≡ false
  not_more_than c n d who = elim (Bool-cases (proportion_more_than c n d (signed who))) [
    | inl h ↦ let (a, s, same, _) = (laws.more_than_iff c n d (signed who)).0 h in cc
    | inr h ↦ h
  ]

  not_member : (c : Collective) (who : ℕ) → ensure_member c (signed who) ≡ false
  not_member c who = elim (Bool-cases (ensure_member c (signed who))) [
    | inl h ↦ let (a, same) = (laws.member_iff c (signed who)).0 h in cc
    | inr h ↦ h
  ]

  -- A signed account that is no more than that has exactly these rights: to submit proposals, to
  -- create assets and collections, and to kick the candidates of the scored pool and to score
  -- them. So every account can kick and score. The checks behave as documented.
  pub signed_rights : (r : Right) (who : ℕ) → allows k r (signed who) ≡ open_to_all r
  unfolding allows root_or_half_council
  signed_rights external_origin who = not_at_least council 1 2 who
  signed_rights external_majority_origin who = not_at_least council 3 4 who
  signed_rights external_default_origin who = not_at_least council 1 1 who
  signed_rights submit_origin who = is_signed who
  signed_rights fast_track_origin who = not_at_least technical 2 3 who
  signed_rights instant_origin who = not_at_least technical 1 1 who
  signed_rights cancellation_origin who = not_at_least council 2 3 who
  signed_rights cancel_proposal_origin who = rw (not_root who) (not_at_least technical 1 1 who)
  signed_rights blacklist_origin who = not_root who
  signed_rights veto_origin who = not_member technical who
  signed_rights approve_origin who = rw (not_root who) (not_at_least council 3 5 who)
  signed_rights reject_origin who = rw (not_root who) (not_more_than council 1 2 who)
  signed_rights spend_origin who = not_root who
  signed_rights identity_force_origin who = rw (not_root who) (not_more_than council 1 2 who)
  signed_rights registrar_origin who = rw (not_root who) (not_more_than council 1 2 who)
  signed_rights (set_members_origin c) who = not_root who
  signed_rights election_force_origin who = not_root who
  signed_rights staking_admin_origin who = not_root who
  signed_rights preimage_manager_origin who = not_root who
  signed_rights schedule_origin who = not_root who
  signed_rights asset_create_origin who = is_signed who
  signed_rights asset_force_origin who = not_root who
  signed_rights nft_create_origin who = is_signed who
  signed_rights nft_force_origin who = not_root who
  signed_rights nick_force_origin who = not_root who
  signed_rights pool_kick_origin who = is_signed who
  signed_rights pool_score_origin who = is_signed who
