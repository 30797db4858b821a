-- ===== src/Pallets/Index.antt =====
-- The indices of the pallets and the pallets correspond to each other (runtime/src/lib.rs).
use std.Equiv.{IsEquiv, Iso, iso_to_equiv}
use mathlib.Core.Option.{some-injective}
use mathlib.Core.HLevel.{Σ_prop_path}
use native.Mathlib.Bridge.{le_prop}
use lunes_nightly.Prelude.{
  ℕ, zero, suc, ◌+◌, ◌≤◌, ◌<◌, ◌↔◌, ◌≡◌, refl, sym, ap, ◌∙◌, arith, List, [], ◌∷◌, none, some,
  length,
}
use lunes_nightly.Pallets.{
  Pallet, system, timestamp, aura, grandpa, balances, transaction_payment, sudo, authorship,
  utility, offences, election_provider_multi_phase, historical, staking, session, voter_list,
  democracy, council, technical_committee, alliance_motion, treasury, bounties, child_bounties,
  scheduler, preimage, contracts, randomness_collective_flip, assets, nfts, recovery, identity,
  indices, nicks, scored_pool, swap, pallets, at, pallet_at,
}

-- The indices below a bound.
abbrev pub Below : ℕ → Type 0
Below n = (i : ℕ) × (i < n)

-- The pallet at an index within the list.
abbrev nth : (ps : List Pallet) (i : ℕ) → i < length ps → Pallet
nth [] i h = absurd (omega (arith, h))
nth (p ∷ ps) zero h = p
nth (p ∷ ps) (suc i) h = nth ps i (omega (arith, h))

abbrev pub pallet_below : Below (length pallets) → Pallet
pallet_below (i, h) = nth pallets i h

-- The index of each pallet, which the calls of the chain's clients carry.
pub index_of : Pallet → ℕ
index_of system = 0
index_of timestamp = 1
index_of aura = 2
index_of grandpa = 3
index_of balances = 4
index_of transaction_payment = 5
index_of sudo = 6
index_of authorship = 7
index_of utility = 8
index_of offences = 9
index_of election_provider_multi_phase = 10
index_of historical = 11
index_of staking = 12
index_of session = 13
index_of voter_list = 14
index_of democracy = 15
index_of council = 16
index_of technical_committee = 17
index_of alliance_motion = 18
index_of treasury = 19
index_of bounties = 20
index_of child_bounties = 21
index_of scheduler = 22
index_of preimage = 23
index_of contracts = 24
index_of randomness_collective_flip = 25
index_of assets = 26
index_of nfts = 27
index_of recovery = 28
index_of identity = 29
index_of indices = 30
index_of nicks = 31
index_of scored_pool = 32
index_of swap = 33

-- The place of each pallet in the list.
place : (p : Pallet) → pallet_at (index_of p) ≡ some p
unfolding pallet_at index_of
place system = refl
place timestamp = refl
place aura = refl
place grandpa = refl
place balances = refl
place transaction_payment = refl
place sudo = refl
place authorship = refl
place utility = refl
place offences = refl
place election_provider_multi_phase = refl
place historical = refl
place staking = refl
place session = refl
place voter_list = refl
place democracy = refl
place council = refl
place technical_committee = refl
place alliance_motion = refl
place treasury = refl
place bounties = refl
place child_bounties = refl
place scheduler = refl
place preimage = refl
place contracts = refl
place randomness_collective_flip = refl
place assets = refl
place nfts = refl
place recovery = refl
place identity = refl
place indices = refl
place nicks = refl
place scored_pool = refl
place swap = refl

-- From `k` on, the elements of a list are in their places.
abbrev Numbered : ℕ → List Pallet → Type 0
Numbered k [] = Unit
Numbered k (p ∷ ps) = (index_of p ≡ k) × Numbered (k + 1) ps

pallets-Numbered : Numbered 0 pallets
unfolding index_of
pallets-Numbered = ground arith

place-nth :
    (ps : List Pallet) (k i : ℕ) (h : i < length ps) → Numbered k ps → index_of (nth ps i h) ≡ k + i
place-nth [] k i h numbered = absurd (omega (arith, h))
place-nth (p ∷ ps) k zero h (here, rest) = omega (arith, here)
place-nth (p ∷ ps) k (suc i) h (here, rest) =
    omega (arith, place-nth ps (k + 1) i (omega (arith, h)) rest)

at-nth : (ps : List Pallet) (i : ℕ) (h : i < length ps) → at ps i ≡ some (nth ps i h)
at-nth [] i h = absurd (omega (arith, h))
at-nth (p ∷ ps) zero h = refl
at-nth (p ∷ ps) (suc i) h = at-nth ps i (omega (arith, h))

at-bound : (ps : List Pallet) (i : ℕ) (p : Pallet) → at ps i ≡ some p → i < length ps
at-bound [] i p e = ground (arith, e)
at-bound (q ∷ ps) zero p e = omega arith
at-bound (q ∷ ps) (suc i) p e = omega (arith, at-bound ps i p e)

at-none_iff : (ps : List Pallet) (i : ℕ) → (at ps i ≡ none) ↔ (length ps ≤ i)
at-none_iff [] i = (λ e. omega arith, λ h. refl)
at-none_iff (p ∷ ps) zero = (λ e. ground (arith, e), λ h. absurd (omega (arith, h)))
at-none_iff (p ∷ ps) (suc i) =
    ((λ e. omega (arith, (at-none_iff ps i).0 e)), (λ h. (at-none_iff ps i).1 (omega (arith, h))))

numbering : Iso (Below (length pallets)) Pallet
unfolding pallet_at
numbering = record {
  fun = pallet_below;
  inv = λ p. (index_of p, at-bound pallets (index_of p) p (place p));
  rinv = λ p.
      let h = at-bound pallets (index_of p) p (place p) in
      some-injective _ _ (sym (at-nth pallets (index_of p) h) ∙ place p);
  linv =
      λ b. Σ_prop_path (λ n. le_prop) (omega (arith, place-nth pallets 0 b.0 b.1 pallets-Numbered));
}

-- What an index is decoded to is the pallet that the table `index_of` gives it, and no pallet for an
-- index that the table does not have.
pallet_at_iff : (i : ℕ) (p : Pallet) → (pallet_at i ≡ some p) ↔ (i ≡ index_of p)
unfolding pallet_at
pallet_at_iff i p = (
  λ e.
      let h = at-bound pallets i p e in
      let same = some-injective _ _ (sym (at-nth pallets i h) ∙ e) in
      omega (arith, place-nth pallets 0 i h pallets-Numbered, ap index_of same),
  λ e. rw e (place p),
)

-- The first byte of a call says which pallet it is for: an index is decoded to a pallet exactly if
-- it is the pallet's in the table `index_of`, from 0 for `System` to 33 for `Swap`; the indices below
-- the number of pallets are equivalent to the pallets, by the place in the list and, back, by that
-- table; and no index from that number on is decoded.
pub pallet_below-IsEquiv :
    ((i : ℕ) (p : Pallet) → (pallet_at i ≡ some p) ↔ (i ≡ index_of p))
    × IsEquiv pallet_below
    × ((b : Below (length pallets)) → index_of (pallet_below b) ≡ b.0)
    × ((i : ℕ) → (pallet_at i ≡ none) ↔ (length pallets ≤ i))
unfolding pallet_at numbering
pallet_below-IsEquiv = (
  pallet_at_iff,
  (iso_to_equiv numbering).1,
  (λ b. omega (arith, place-nth pallets 0 b.0 b.1 pallets-Numbered)),
  at-none_iff pallets,
)
