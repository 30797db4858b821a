-- ===== src/VoterBags/Ratio.antt =====
-- How the thresholds of runtime/src/voter_bags.rs are spaced.
use lunes_nightly.Prelude.{ℕ, ◌+◌, ◌*◌, ◌≡◌, refl, Bool, true, ◌&&◌, List, [], ◌∷◌, leb, length}
use lunes_nightly.VoterBags.{thresholds, constant_ratio, existential_weight}

-- Each number of a list is the one before it times the ratio, but for one unit and two parts in
-- 10 ^ 16, the precision of the floating point numbers that the table has been made with.
abbrev geometric : ℕ → List ℕ → Bool
geometric x [] = true
geometric x (y ∷ ys) =
    let wanted = x * constant_ratio.0 in
    let given = y * constant_ratio.1 in
    let slack = constant_ratio.1 + 2 * x in
    leb wanted (given + slack) && leb given (wanted + slack) && geometric y ys

-- There are 200 thresholds; they begin with the existential weight and grow by the ratio, up to
-- the slack of `geometric`.
thresholds-Geometric :
    (length thresholds ≡ 200)
    × ((rest : List ℕ) × (thresholds ≡ existential_weight ∷ rest)
        × (geometric existential_weight rest ≡ true))
unfolding thresholds
thresholds-Geometric = (refl, (_, refl, refl))
