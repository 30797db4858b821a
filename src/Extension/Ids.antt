-- ===== src/Extension/Ids.antt =====
-- The function ids of the PSP22 chain extension (runtime/src/chain_extension.rs): the enums
-- `FuncId`, `Metadata` and `Query`, and `FuncId::try_from`.
use lunes_nightly.Prelude.{
  ℕ, ◌≡◌, ◌≢◌, ◌↔◌, refl, Result, ok, err, String, arith, ◌==◌, if◌then◌else◌, ◌⊎◌, inl, inr,
  Result-cases, ◌∙◌, ap,
}

pub data Metadata : Type 0 where
  name symbol decimals : Metadata

pub data Query : Type 0 where
  total_supply balance_of allowance : Query

pub data FuncId : Type 0 where
  metadata : Metadata → FuncId
  query : Query → FuncId
  transfer transfer_from approve increase_allowance decrease_allowance burn mint : FuncId

-- `FuncId::try_from`, over the variant `DispatchError::Other`.
module _ {E : Type 0} (other : String → E) where
  unfoldable pub try_from : ℕ → Result E FuncId
  try_from func_id =
      if func_id == 0x3d26
      then ok (metadata Metadata.name)
      else if func_id == 0x3420
      then ok (metadata symbol)
      else if func_id == 0x7271
      then ok (metadata decimals)
      else if func_id == 0x162d
      then ok (query total_supply)
      else if func_id == 0x6568
      then ok (query balance_of)
      else if func_id == 0x4d47
      then ok (query allowance)
      else if func_id == 0xdb20
      then ok transfer
      else if func_id == 0x54b3
      then ok transfer_from
      else if func_id == 0xb20f
      then ok approve
      else if func_id == 0x96d6
      then ok increase_allowance
      else if func_id == 0xfecb
      then ok decrease_allowance
      else if func_id == 0x9e55
      then ok burn
      else if func_id == 0x6bba
      then ok mint
      else err (other "Unimplemented func_id")

-- The first two bytes of each PSP22 selector, by function.
abbrev pub selector : FuncId → ℕ
selector (metadata Metadata.name) = 0x3d26
selector (metadata symbol) = 0x3420
selector (metadata decimals) = 0x7271
selector (query total_supply) = 0x162d
selector (query balance_of) = 0x6568
selector (query allowance) = 0x4d47
selector transfer = 0xdb20
selector transfer_from = 0x54b3
selector approve = 0xb20f
selector increase_allowance = 0x96d6
selector decrease_allowance = 0xfecb
selector burn = 0x9e55
selector mint = 0x6bba

module _ {E : Type 0} (other : String → E) where
  try_from-selector : (f : FuncId) → try_from other (selector f) ≡ ok f
  unfolding try_from
  try_from-selector (metadata Metadata.name) = refl
  try_from-selector (metadata symbol) = refl
  try_from-selector (metadata decimals) = refl
  try_from-selector (query total_supply) = refl
  try_from-selector (query balance_of) = refl
  try_from-selector (query allowance) = refl
  try_from-selector transfer = refl
  try_from-selector transfer_from = refl
  try_from-selector approve = refl
  try_from-selector increase_allowance = refl
  try_from-selector decrease_allowance = refl
  try_from-selector burn = refl
  try_from-selector mint = refl

  selector-try_from : (n : ℕ) (f : FuncId) → try_from other n ≡ ok f → n ≡ selector f
  unfolding try_from
  selector-try_from n f h = ground arith

  try_from_err : (n : ℕ) (e : E) → try_from other n ≡ err e → e ≡ other "Unimplemented func_id"
  unfolding try_from
  try_from_err n e h = ground arith

  pub try_from_cases :
      (n : ℕ)
      → ((f : FuncId) × (try_from other n ≡ ok f) × (n ≡ selector f))
        ⊎ (try_from other n ≡ err (other "Unimplemented func_id"))
  try_from_cases n = elim (Result-cases (try_from other n)) [
    | inl (f, e) ↦ inl (f, e, selector-try_from n f e)
    | inr (e, h) ↦ inr (h ∙ ap err (try_from_err n e h))
  ]

  pub try_from-selector_eq : (n : ℕ) (f : FuncId) → n ≡ selector f → try_from other n ≡ ok f
  try_from-selector_eq n f e = rw e (try_from-selector f)

  -- An id is taken for a function exactly when it is that function's selector, so the thirteen
  -- selectors differ; and every other id is refused with "Unimplemented func_id".
  pub try_from_iff :
      (n : ℕ)
      → ((f : FuncId) → (try_from other n ≡ ok f) ↔ (n ≡ selector f))
        × (((f : FuncId) → n ≢ selector f) → try_from other n ≡ err (other "Unimplemented func_id"))
  try_from_iff n = (
    λ f. (selector-try_from n f, try_from-selector_eq n f),
    λ unknown. elim (try_from_cases n) [
      | inl (f, _, known) ↦ absurd (unknown f known)
      | inr refused ↦ refused
    ],
  )
