-- ===== src/Template/Tests.antt =====
-- The tests of pallets/common/src/tests.rs, and the theorems at a small system pallet.
use lunes_nightly.Prelude.{ℕ, ◌≡◌, ◌↔◌, refl, Option, none, some, Result, ok, err, List, [], ◌∷◌}
use lunes_nightly.Template.{
  System, Storage, Call, Event, Error, something_stored, none_value, storage_overflow, do_something,
  cause_error, dispatch, do_something_call, cause_error_call, increment,
}
use lunes_nightly.Template.Spec.{dispatch_all, dispatch_all_refines, Run, deposit_all}

abbrev sign : Option ℕ → Result ℕ ℕ
sign none = err 0
sign (some who) = ok who

abbrev code_of : Error → ℕ
code_of none_value = 1
code_of storage_overflow = 2

-- An origin is a signer or none; an error is a number; the system's state is its list of events.
abbrev mock : System
mock = record {
  RuntimeOrigin = Option ℕ;
  AccountId = ℕ;
  DispatchError = ℕ;
  SystemState = List (Event ℕ);
  ensure_signed = sign;
  deposit_event = λ e es. e ∷ es;
  error_into = code_of;
}

abbrev State : Type 0
State = Storage (List (Event ℕ))

abbrev empty : State
empty = record { something = none; system = [] }

abbrev near_top : State
near_top = record { something = some 4_294_967_294; system = [] }

-- `it_works_for_default_value`
stores_42 :
    dispatch mock (do_something 42) (some 1) empty
    ≡ (ok tt, record { something = some 42; system = something_stored 42 1 ∷ [] })
unfolding dispatch do_something_call
stores_42 = refl

-- `correct_error_for_none_value`
none_value_error : dispatch mock cause_error (some 1) empty ≡ (err 1, empty)
unfolding dispatch cause_error_call increment
none_value_error = refl

-- Two increments by a signer, the second too many, one by nobody, and a call that sets the number.
abbrev sequence : List (Option ℕ × Call)
sequence =
    (some 1, cause_error)
    ∷ (some 1, cause_error)
    ∷ (none, cause_error)
    ∷ (some 4, do_something 9)
    ∷ []

abbrev results : List (Result ℕ (Unit {0}))
results = ok tt ∷ err 2 ∷ err 0 ∷ ok tt ∷ []

dispatch_all_refines_example :
    (((fs : List (Event ℕ)) × Run mock near_top.something sequence results fs (some 9))
      ↔ ((results ≡ results) × (◌≡◌ {A = Option ℕ} (some 9) (some 9))))
    × ((es : List (Event ℕ)) × Run mock near_top.something sequence results es (some 9)
        × ((dispatch_all mock sequence near_top).1.system ≡ deposit_all mock es []))
unfolding dispatch_all dispatch do_something_call cause_error_call increment
dispatch_all_refines_example = dispatch_all_refines mock sequence near_top results (some 9)
