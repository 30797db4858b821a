-- ===== src/Template.antt =====
-- The pallet of pallets/common/src/lib.rs: one stored number, a call that sets it and a call that
-- increments it or fails. What the pallet uses of `frame_system` is a record of operations.
pub mod Laws
pub mod Spec
mod Tests
use lunes_nightly.Prelude.{
  ℕ, Option, none, some, Result, err, Action, pure, lift, ◌>>=◌, ◌>>◌, checked_add, u32_max,
}

pub data Error : Type 0 where
  none_value storage_overflow : Error

pub data Event (AccountId : Type 0) : Type 0 where
  something_stored : ℕ → AccountId → Event AccountId

pub record System : Type 1 where
  pub RuntimeOrigin : Type 0
  pub AccountId : Type 0
  pub DispatchError : Type 0
  -- The state of the system pallet, with the events.
  pub SystemState : Type 0
  pub ensure_signed : RuntimeOrigin → Result DispatchError AccountId
  pub deposit_event : Event AccountId → SystemState → SystemState
  -- `Error::<T>::e.into()`
  pub error_into : Error → DispatchError

-- The storage item `Something` beside the state of the system pallet.
pub record Storage (SystemState : Type 0) : Type 0 where
  pub something : Option ℕ
  pub system : SystemState

-- The calls that the macro `pallet::call` makes of the two functions.
pub data Call : Type 0 where
  do_something : ℕ → Call
  cause_error : Call

module _ (t : System) where
  open t use {
    RuntimeOrigin, AccountId, DispatchError, SystemState, ensure_signed, deposit_event, error_into,
  }

  abbrev pub DispatchResult : Type 0
  DispatchResult = Action (Storage SystemState) DispatchError (Unit {0})

  -- `<Something<T>>::put(value)`
  abbrev put : ℕ → DispatchResult
  put value s = pure tt (record s { something = some value })

  abbrev emit : Event AccountId → DispatchResult
  emit event s = pure tt (record s { system = deposit_event event s.system })

  unfoldable pub do_something_call : RuntimeOrigin → ℕ → DispatchResult
  do_something_call origin something = do
    who ← lift (ensure_signed origin)
    put something
    emit (something_stored something who)

  -- The match of `cause_error` on the value that is stored.
  unfoldable pub increment : Option ℕ → DispatchResult
  increment none = lift (err (error_into none_value))
  increment (some old) = elim (checked_add u32_max old 1) [
    | none ↦ lift (err (error_into storage_overflow))
    | some new ↦ put new
  ]

  unfoldable pub cause_error_call : RuntimeOrigin → DispatchResult
  cause_error_call origin = do _who ← lift (ensure_signed origin); λ s. increment s.something s

  unfoldable pub dispatch : Call → RuntimeOrigin → DispatchResult
  dispatch (do_something something) origin = do_something_call origin something
  dispatch cause_error origin = cause_error_call origin
