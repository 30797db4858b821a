-- ===== src/VoterBags/Cover.antt =====
-- Every score has one bag of runtime/src/voter_bags.rs.
use lunes_nightly.Prelude.{
  ℕ, ◌≤◌, ◌<◌, ◌≡◌, refl, ap, Bool, true, ◌&&◌, List, [], ◌∷◌, ◌++◌, All, ltb, arith, u64_max, inl,
  inr, ◌⊎◌,
}
use lunes_nightly.VoterBags.{thresholds}

-- Each number of a list lies above the one before it.
abbrev ascending : ℕ → List ℕ → Bool
ascending x [] = true
ascending x (y ∷ ys) = ltb x y && ascending y ys

abbrev last_of : ℕ → List ℕ → ℕ
last_of x [] = x
last_of x (y ∷ ys) = last_of y ys

-- The bag of a score: the thresholds below the score, the first that is not, and the larger ones.
pub record Bag (score : ℕ) (table : List ℕ) : Type 0 where
  pub below : List ℕ
  pub upper : ℕ
  pub above : List ℕ
  pub parts : below ++ upper ∷ above ≡ table
  pub below_small : All (λ t. t < score) below
  pub fits : score ≤ upper
  pub above_large : All (λ t. upper < t) above

ascending_head : (x y : ℕ) (ys : List ℕ) → ascending x (y ∷ ys) ≡ true → x < y
ascending_head x y ys h = ground (arith, h)

ascending_tail : (x y : ℕ) (ys : List ℕ) → ascending x (y ∷ ys) ≡ true → ascending y ys ≡ true
ascending_tail x y ys h = ground (arith, h)

All-above : (x z : ℕ) (ys : List ℕ) → z ≤ x → ascending x ys ≡ true → All (λ t. z < t) ys
All-above x z [] small h = tt
All-above x z (y ∷ ys) small h =
    let first = ascending_head x y ys h in
    (omega (arith, first), All-above y z ys (omega (arith, first)) (ascending_tail x y ys h))

ordered : (a b : ℕ) → (a ≤ b) ⊎ (b < a)
ordered a b = ground arith

ascending-Bag :
    (score x : ℕ) (xs : List ℕ) → ascending x xs ≡ true → score ≤ last_of x xs → Bag score (x ∷ xs)
ascending-Bag score x [] rising reached = record {
  below = [];
  upper = x;
  above = [];
  parts = refl;
  below_small = tt;
  fits = reached;
  above_large = tt;
}
ascending-Bag score x (y ∷ ys) rising reached = elim (ordered score x) [
  | inl fits ↦ record {
    below = [];
    upper = x;
    above = y ∷ ys;
    parts = refl;
    below_small = tt;
    fits = fits;
    above_large = All-above x x (y ∷ ys) (omega arith) rising;
  }
  | inr over ↦
      let bag = ascending-Bag score y ys (ascending_tail x y ys rising) reached in
      record {
        below = x ∷ bag.below;
        upper = bag.upper;
        above = bag.above;
        parts = ap (λ t. x ∷ t) bag.parts;
        below_small = (over, bag.below_small);
        fits = bag.fits;
        above_large = bag.above_large;
      }
]

-- Every `u64` score has its bag: the table is the thresholds below the score, one that the score
-- does not exceed, and larger ones.
pub thresholds-Bag : (score : ℕ) → score ≤ u64_max → Bag score thresholds
unfolding thresholds
thresholds-Bag score small = ascending-Bag score _ _ refl small
