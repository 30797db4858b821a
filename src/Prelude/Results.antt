-- ===== src/Prelude/Results.antt =====
-- `Result<A, E>` with `?`, and calls that change a state and may fail. After an error the state is
-- what had been written by then.
use mathlib.Core.Path.{◌≡◌, refl}
use mathlib.Core.Logic.{◌⊎◌, inl, inr}

pub data Result {ℓ κ} (E : Type ℓ) (A : Type κ) : Type (ℓ ⊔ κ) where
  ok : A → Result E A
  err : E → Result E A

-- `r.map_err(f)`
abbrev pub map_err {ℓ κ μ} :
    {E : Type ℓ} {F : Type κ} {A : Type μ} → (E → F) → Result E A → Result F A
map_err f (ok a) = ok a
map_err f (err e) = err (f e)

pub Result-cases {ℓ κ} :
    {E : Type ℓ} {A : Type κ} (r : Result E A) → ((a : A) × (r ≡ ok a)) ⊎ ((e : E) × (r ≡ err e))
Result-cases (ok a) = inl (a, refl)
Result-cases (err e) = inr (e, refl)

-- A call: it takes the state and gives back its result and the new state.
abbrev pub Action : Type 0 → Type 0 → Type 0 → Type 0
Action S E A = S → Result E A × S

module _ {S E : Type 0} where
  abbrev pub pure : {A : Type 0} → A → Action S E A
  pure a s = (ok a, s)

  abbrev pub raise : {A : Type 0} → E → Action S E A
  raise e s = (err e, s)

  -- A value that is computed from the state.
  abbrev pub gets : {A : Type 0} → (S → A) → Action S E A
  gets f s = (ok (f s), s)

  -- A result that does not touch the state.
  abbrev pub lift : {A : Type 0} → Result E A → Action S E A
  lift r s = (r, s)

  infixl 5 ◌>>=◌ ◌>>◌
  abbrev pub ◌>>=◌ : {A B : Type 0} → Action S E A → (A → Action S E B) → Action S E B
  ◌>>=◌ m f s = let (r, s') = m s in elim r [ ok a ↦ f a s' | err e ↦ (err e, s') ]

  abbrev pub ◌>>◌ : {A B : Type 0} → Action S E A → Action S E B → Action S E B
  m >> k = m >>= λ _. k

  -- `m.map_err(f)`
  abbrev pub map_error : {A : Type 0} → (E → E) → Action S E A → Action S E A
  map_error f m s = let (r, s') = m s in (map_err f r, s')
