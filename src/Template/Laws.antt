-- ===== src/Template/Laws.antt =====
-- The calls of pallets/common/src/lib.rs: their results on every branch, and runs of many calls.
use lunes_nightly.Prelude.{
  ℕ, zero, suc, ◌+◌, ◌≤◌, ◌<◌, ◌≡◌, ◌≢◌, ◌↔◌, Option, none, some, ok, err, arith, min, u32_max, inl,
  inr, Option-cases,
}
use lunes_nightly.Template.{
  System, Storage, Call, do_something, cause_error, none_value, storage_overflow, dispatch,
  do_something_call, cause_error_call, increment,
}

-- What is stored is a `u32`.
abbrev pub IsU32 : Option ℕ → Type 0
IsU32 none = Unit
IsU32 (some v) = v ≤ u32_max

-- What a call carries is a `u32`.
abbrev pub IsCall : Call → Type 0
IsCall (do_something v) = v ≤ u32_max
IsCall cause_error = Unit

module _ (t : System) where
  open t use {
    RuntimeOrigin, AccountId, DispatchError, SystemState, ensure_signed, deposit_event, error_into,
  }

  -- A call that returns an error has changed neither the stored number nor the system's state.
  dispatch_atomic :
      (c : Call) (o : RuntimeOrigin) (s : Storage SystemState) (e : DispatchError)
      → (dispatch t c o s).0 ≡ err e
      → (dispatch t c o s).1 ≡ s
  unfolding dispatch do_something_call cause_error_call increment
  dispatch_atomic (do_something v) o s e h = ground arith
  dispatch_atomic cause_error o s e h = ground arith

  -- From a stored number that is absent or a `u32`, a call whose argument is a `u32` leaves the
  -- stored number absent or a `u32`.
  dispatch-IsU32 :
      (c : Call) (o : RuntimeOrigin) (s : Storage SystemState)
      → IsCall c
      → IsU32 s.something
      → IsU32 (dispatch t c o s).1.something
  unfolding dispatch do_something_call cause_error_call increment
  dispatch-IsU32 (do_something v) o s hc h = ground arith
  dispatch-IsU32 cause_error o s hc h = ground arith

  -- An origin that is not signed is refused with the error of `ensure_signed` by both calls, and
  -- nothing changes.
  dispatch_unsigned :
      (c : Call) (o : RuntimeOrigin) (s : Storage SystemState) (e : DispatchError)
      → ensure_signed o ≡ err e
      → dispatch t c o s ≡ (err e, s)
  unfolding dispatch do_something_call cause_error_call
  dispatch_unsigned (do_something v) o s e h = ground arith
  dispatch_unsigned cause_error o s e h = ground arith

  -- For a signed origin: the increment fails with `NoneValue` exactly when nothing is stored, and
  -- with `StorageOverflow` exactly when the successor of what is stored is no `u32`; for these the
  -- two errors must differ. Otherwise it stores the successor, and no event is deposited.
  cause_error_branches :
      (o : RuntimeOrigin) (s : Storage SystemState) {who : AccountId}
      → error_into none_value ≢ error_into storage_overflow
      → ensure_signed o ≡ ok who
      → let (r, s') = dispatch t cause_error o s in
        ((r ≡ err (error_into none_value)) ↔ (s.something ≡ none))
        × ((r ≡ err (error_into storage_overflow))
            ↔ ((v : ℕ) × (s.something ≡ some v) × (u32_max < v + 1)))
        × ((v : ℕ)
            → s.something ≡ some v
            → v + 1 ≤ u32_max
            → (r ≡ ok tt) × (s'.something ≡ some (v + 1)) × (s'.system ≡ s.system))
  unfolding dispatch cause_error_call increment
  cause_error_branches o s differ h = elim (Option-cases s.something) [
    | inl empty ↦ (ground arith, ground arith, λ v e k. ground arith)
    | inr (old, stored) ↦ (
      ground arith,
      (λ r. (old, stored, ground arith), λ r. ground (arith, r.1, r.2)),
      λ v e k. ground arith,
    )
  ]

  -- `n` calls of `cause_error` by one origin, whatever they return.
  increments : ℕ → RuntimeOrigin → Storage SystemState → Storage SystemState
  increments zero o s = s
  increments (suc n) o s = increments n o (dispatch t cause_error o s).1

  -- One increment counts up to the largest `u32` and stays there.
  cause_error_step :
      (o : RuntimeOrigin) (s : Storage SystemState) (v : ℕ) {who : AccountId}
      → ensure_signed o ≡ ok who
      → s.something ≡ some v
      → v ≤ u32_max
      → ((dispatch t cause_error o s).1.something ≡ some (min (v + 1) u32_max))
        × ((dispatch t cause_error o s).1.system ≡ s.system)
  unfolding dispatch cause_error_call increment
  cause_error_step o s v h e k = ground arith

  -- From a stored `u32` `v`, any number `n` of increments by a signed origin, failing ones among
  -- them, leaves the smaller of `v + n` and the largest `u32` stored, and the system's state as it
  -- was.
  increments_count :
      (n : ℕ) (o : RuntimeOrigin) (s : Storage SystemState) (v : ℕ) {who : AccountId}
      → ensure_signed o ≡ ok who
      → s.something ≡ some v
      → v ≤ u32_max
      → ((increments n o s).something ≡ some (min (v + n) u32_max))
        × ((increments n o s).system ≡ s.system)
  unfolding increments
  increments_count zero o s v h e k = ground arith
  increments_count (suc n) o s v h e k =
      let (counted, kept) = cause_error_step o s v h e k in
      let s' = (dispatch t cause_error o s).1 in
      ground (arith, increments_count n o s' (min (v + 1) u32_max) h counted (omega arith))
