-- ===== src/Governance/Tests.antt =====
-- The rights of runtime/src/lib.rs with the proportions computed, for a council of seven.
use lunes_nightly.Prelude.{
  ℕ, ◌*◌, ◌≤◌, ◌<◌, ◌≡◌, ◌≢◌, ◌↔◌, refl, ap, Bool, true, false, ◌&&◌, ltb, leb, arith, inr,
}
use lunes_nightly.Governance.{
  Collective, council, technical, alliance, RawOrigin, root, signed, members, member, none_of_these,
  Checks, external_origin, external_default_origin, approve_origin, reject_origin,
  cancellation_origin, pool_kick_origin, allows, IsLawful,
}
use lunes_nightly.Governance.Ranks.{
  implied_right, unanimous_majority, majority_cancellation, in_turn, signed_rights,
}
use lunes_nightly.Governance.Coalitions.{council_divided, approve, cancellation}

abbrev same : Collective → Collective → Bool
same council council = true
same technical technical = true
same alliance alliance = true
same _ _ = false

same_iff : (c d : Collective) → (same c d ≡ true) ↔ (c ≡ d)
same_iff council council = (λ h. refl, λ h. refl)
same_iff council technical = (λ h. cc, λ h. cc)
same_iff council alliance = (λ h. cc, λ h. cc)
same_iff technical council = (λ h. cc, λ h. cc)
same_iff technical technical = (λ h. refl, λ h. refl)
same_iff technical alliance = (λ h. cc, λ h. cc)
same_iff alliance council = (λ h. cc, λ h. cc)
same_iff alliance technical = (λ h. cc, λ h. cc)
same_iff alliance alliance = (λ h. refl, λ h. refl)

abbrev is_root : RawOrigin → Bool
is_root root = true
is_root _ = false

abbrev is_signed : RawOrigin → Bool
is_signed (signed who) = true
is_signed _ = false

abbrev at_least : Collective → ℕ → ℕ → RawOrigin → Bool
at_least c n d (members e ayes seats) = same e c && leb (n * seats) (d * ayes)
at_least c n d _ = false

abbrev more_than : Collective → ℕ → ℕ → RawOrigin → Bool
more_than c n d (members e ayes seats) = same e c && ltb (n * seats) (d * ayes)
more_than c n d _ = false

abbrev is_member : Collective → RawOrigin → Bool
is_member c (member e who) = same e c
is_member c _ = false

abbrev computed : Checks
computed = record {
  ensure_root = is_root;
  ensure_signed = is_signed;
  proportion_at_least = at_least;
  proportion_more_than = more_than;
  ensure_member = is_member;
}

root_lem : (o : RawOrigin) → (is_root o ≡ true) ↔ (o ≡ root)
root_lem root = (λ h. refl, λ h. refl)
root_lem (signed who) = (λ h. cc, λ h. cc)
root_lem (members e a s) = (λ h. cc, λ h. cc)
root_lem (member e who) = (λ h. cc, λ h. cc)
root_lem none_of_these = (λ h. cc, λ h. cc)

signed_lem : (o : RawOrigin) → (is_signed o ≡ true) ↔ ((who : ℕ) × (o ≡ signed who))
signed_lem root = (λ h. cc, λ h. let (who, e) = h in cc)
signed_lem (signed who) = (λ h. (who, refl), λ h. refl)
signed_lem (members e a s) = (λ h. cc, λ h. let (who, e) = h in cc)
signed_lem (member e who) = (λ h. cc, λ h. let (who, e) = h in cc)
signed_lem none_of_these = (λ h. cc, λ h. let (who, e) = h in cc)

at_least_lem :
    (c : Collective) (n d : ℕ) (o : RawOrigin)
    → (at_least c n d o ≡ true)
      ↔ ((ayes : ℕ) × (seats : ℕ) × (o ≡ members c ayes seats) × (n * seats ≤ d * ayes))
at_least_lem c n d root = (λ h. cc, λ h. let (a, s, e, _) = h in cc)
at_least_lem c n d (signed who) = (λ h. cc, λ h. let (a, s, e, _) = h in cc)
at_least_lem c n d (members e a s) = (
  λ h.
      let same_one = (same_iff e c).0 (ground arith) in
      (a, s, ap (λ x. members x a s) same_one, ground arith),
  λ h.
      let (a', s', same_vote, enough) = h in
      let same_one = (same_iff e c).1 (ground arith) in ground arith,
)
at_least_lem c n d (member e who) = (λ h. cc, λ h. let (a, s, e, _) = h in cc)
at_least_lem c n d none_of_these = (λ h. cc, λ h. let (a, s, e, _) = h in cc)

more_than_lem :
    (c : Collective) (n d : ℕ) (o : RawOrigin)
    → (more_than c n d o ≡ true)
      ↔ ((ayes : ℕ) × (seats : ℕ) × (o ≡ members c ayes seats) × (n * seats < d * ayes))
more_than_lem c n d root = (λ h. cc, λ h. let (a, s, e, _) = h in cc)
more_than_lem c n d (signed who) = (λ h. cc, λ h. let (a, s, e, _) = h in cc)
more_than_lem c n d (members e a s) = (
  λ h.
      let same_one = (same_iff e c).0 (ground arith) in
      (a, s, ap (λ x. members x a s) same_one, ground arith),
  λ h.
      let (a', s', same_vote, enough) = h in
      let same_one = (same_iff e c).1 (ground arith) in ground arith,
)
more_than_lem c n d (member e who) = (λ h. cc, λ h. let (a, s, e, _) = h in cc)
more_than_lem c n d none_of_these = (λ h. cc, λ h. let (a, s, e, _) = h in cc)

member_lem :
    (c : Collective) (o : RawOrigin) → (is_member c o ≡ true) ↔ ((who : ℕ) × (o ≡ member c who))
member_lem c root = (λ h. cc, λ h. let (a, e) = h in cc)
member_lem c (signed who) = (λ h. cc, λ h. let (a, e) = h in cc)
member_lem c (members e a s) = (λ h. cc, λ h. let (a, e) = h in cc)
member_lem c (member e who) = (
  λ h. (who, ap (λ x. member x who) ((same_iff e c).0 h)),
  λ h. let (a, same_member) = h in (same_iff e c).1 (ground arith),
)
member_lem c none_of_these = (λ h. cc, λ h. let (a, e) = h in cc)

computed-IsLawful : IsLawful computed
computed-IsLawful = record {
  root_iff = root_lem;
  signed_iff = signed_lem;
  at_least_iff = at_least_lem;
  more_than_iff = more_than_lem;
  member_iff = member_lem;
}

seven_of_seven : allows computed external_default_origin (members council 7 7) ≡ true
unfolding allows
seven_of_seven = refl

five_of_seven : allows computed approve_origin (members council 5 7) ≡ true
unfolding allows
five_of_seven = refl

implied_right_example : allows computed cancellation_origin (members council 7 7) ≡ true
implied_right_example =
    implied_right computed computed-IsLawful (in_turn unanimous_majority majority_cancellation) 7 7
      (omega arith) seven_of_seven

signed_rights_example : allows computed pool_kick_origin (signed 5) ≡ true
signed_rights_example = signed_rights computed computed-IsLawful pool_kick_origin 5

council_divided_example :
    (allows computed cancellation_origin (members council 2 7) ≢ true)
    × (allows computed external_origin (members council 3 6) ≡ true)
    × (allows computed reject_origin (members council 3 6) ≡ false)
council_divided_example =
    council_divided computed computed-IsLawful approve (inr cancellation) 5 2 7 3 (omega arith)
      (omega arith) five_of_seven
