-- ===== src/Template/Spec.antt =====
-- What the pallet of pallets/common/src/lib.rs promises, as a step relation on the stored number
-- that knows neither the storage nor the order of its writes, and that the calls keep to it.
use lunes_nightly.Prelude.{
  ℕ, ◌+◌, ◌≤◌, ◌<◌, ◌≡◌, ◌↔◌, Option, none, some, Result, ok, err, List, [], ◌∷◌, arith, u32_max,
  refl, sym, Result-cases, inl, inr, leb, Bool-cases, ◌++◌,
}
use lunes_nightly.Template.{
  System, Storage, Call, Event, something_stored, do_something, cause_error, none_value,
  storage_overflow, dispatch, do_something_call, cause_error_call, increment,
}

module _ (t : System) where
  open t use {
    RuntimeOrigin, AccountId, DispatchError, SystemState, ensure_signed, deposit_event, error_into,
  }

  -- From a stored number, a call by an origin has an outcome, posts events and leaves a number.
  pub data Step (o : RuntimeOrigin)
      : Option ℕ
        → Call
        → Result DispatchError (Unit {0})
        → List (Event AccountId)
        → Option ℕ
        → Type 0 where
    refuse :
        {n : Option ℕ} {c : Call} (e : DispatchError)
        → ensure_signed o ≡ err e
        → Step o n c (err e) [] n
    set :
        {n : Option ℕ} (v : ℕ) (who : AccountId)
        → ensure_signed o ≡ ok who
        → Step o n (do_something v) (ok tt) (something_stored v who ∷ []) (some v)
    count :
        (v : ℕ) (who : AccountId)
        → ensure_signed o ≡ ok who
        → v < u32_max
        → Step o (some v) cause_error (ok tt) [] (some (v + 1))
    overflow :
        (v : ℕ) (who : AccountId)
        → ensure_signed o ≡ ok who
        → u32_max ≤ v
        → Step o (some v) cause_error (err (error_into storage_overflow)) [] (some v)
    missing :
        (who : AccountId)
        → ensure_signed o ≡ ok who
        → Step o none cause_error (err (error_into none_value)) [] none

  pub deposit_all : List (Event AccountId) → SystemState → SystemState
  deposit_all [] s = s
  deposit_all (e ∷ es) s = deposit_all es (deposit_event e s)

  -- A step of the relation is the one that the code makes.
  Step-dispatch :
      {o : RuntimeOrigin} {n n' : Option ℕ} {c : Call} {r : Result DispatchError (Unit {0})}
      {es : List (Event AccountId)} (s : Storage SystemState)
      → s.something ≡ n
      → Step o n c r es n'
      → ((dispatch t c o s).0 ≡ r)
        × ((dispatch t c o s).1.something ≡ n')
        × ((dispatch t c o s).1.system ≡ deposit_all es s.system)
  unfolding dispatch do_something_call cause_error_call increment deposit_all
  Step-dispatch {c = do_something v} s k (refuse e h) = ground arith
  Step-dispatch {c = cause_error} s k (refuse e h) = ground arith
  Step-dispatch s k (set v who h) = ground arith
  Step-dispatch s k (count v who h l) = ground arith
  Step-dispatch s k (overflow v who h l) = ground arith
  Step-dispatch s k (missing who h) = ground arith

  -- An outcome, the events and the number that is left.
  abbrev Outcome : Type 0
  Outcome = Result DispatchError (Unit {0}) × List (Event AccountId) × Option ℕ

  -- The relation has a step for a signed origin, whatever the call and the stored number.
  signed_step :
      (o : RuntimeOrigin) (who : AccountId)
      → ensure_signed o ≡ ok who
      → (n : Option ℕ) (c : Call) → (x : Outcome) × Step o n c x.0 x.1 x.2
  signed_step o who h n (do_something v) =
      ((ok tt, something_stored v who ∷ [], some v), set v who h)
  signed_step o who h none cause_error = ((err (error_into none_value), [], none), missing who h)
  signed_step o who h (some v) cause_error = elim (Bool-cases (leb u32_max v)) [
    | inl full ↦ ((err (error_into storage_overflow), [], some v), overflow v who h (ground arith))
    | inr room ↦ ((ok tt, [], some (v + 1)), count v who h (ground arith))
  ]

  Step-total :
      (o : RuntimeOrigin) (n : Option ℕ) (c : Call) → (x : Outcome) × Step o n c x.0 x.1 x.2
  Step-total o n c = elim (Result-cases (ensure_signed o)) [
    | inl (who, h) ↦ signed_step o who h n c
    | inr (e, h) ↦ ((err e, [], n), refuse e h)
  ]

  dispatch-Step :
      (o : RuntimeOrigin) (c : Call) (s : Storage SystemState)
      → (es : List (Event AccountId)) × Step o s.something c
          (dispatch t c o s).0
          es
          (dispatch t c o s).1.something
        × ((dispatch t c o s).1.system ≡ deposit_all es s.system)
  dispatch-Step o c s =
      let (x, step) = Step-total o s.something c in
      let (result, left, posted) = Step-dispatch s refl step in
      (x.1, rw (result, left) step, posted)

  -- The calls of a sequence of extrinsics, with their origins.
  abbrev pub Calls : Type 0
  Calls = List (RuntimeOrigin × Call)

  -- The calls dispatched one after the other, whatever they return: the results and the state.
  unfoldable pub dispatch_all :
      Calls → Storage SystemState → List (Result DispatchError (Unit {0})) × Storage SystemState
  dispatch_all [] s = ([], s)
  dispatch_all ((o, c) ∷ cs) s =
      let (r, s') = dispatch t c o s in let (rs, end) = dispatch_all cs s' in (r ∷ rs, end)

  -- The steps of a sequence of calls: the results, the events in their order and what is left.
  pub data Run
      : Option ℕ
        → Calls
        → List (Result DispatchError (Unit {0}))
        → List (Event AccountId)
        → Option ℕ
        → Type 0 where
    done : {n : Option ℕ} → Run n [] [] [] n
    then :
        {n m n' : Option ℕ} {o : RuntimeOrigin} {c : Call} {cs : Calls}
        {r : Result DispatchError (Unit {0})} {rs : List (Result DispatchError (Unit {0}))}
        {es fs : List (Event AccountId)}
        → Step o n c r es m
        → Run m cs rs fs n'
        → Run n ((o, c) ∷ cs) (r ∷ rs) (es ++ fs) n'

  deposit_all-append :
      (es fs : List (Event AccountId)) (s : SystemState)
      → deposit_all (es ++ fs) s ≡ deposit_all fs (deposit_all es s)
  unfolding deposit_all
  deposit_all-append [] fs s = refl
  deposit_all-append (e ∷ es) fs s = deposit_all-append es fs (deposit_event e s)

  dispatch_all-Run :
      (cs : Calls) (s : Storage SystemState)
      → let (rs, end) = dispatch_all cs s in
        (es : List (Event AccountId)) × Run s.something cs rs es end.something
        × (end.system ≡ deposit_all es s.system)
  unfolding dispatch_all deposit_all
  dispatch_all-Run [] s = ([], done, refl)
  dispatch_all-Run ((o, c) ∷ cs) s =
      let (es, step, posted) = dispatch-Step o c s in
      let s' = (dispatch t c o s).1 in
      let (fs, run, rest) = dispatch_all-Run cs s' in
      (es ++ fs, then step run, rw (deposit_all-append es fs s.system, ← posted) rest)

  Run-dispatch_all :
      {n n' : Option ℕ} {cs : Calls} {rs : List (Result DispatchError (Unit {0}))}
      {es : List (Event AccountId)} (s : Storage SystemState)
      → s.something ≡ n
      → Run n cs rs es n'
      → let (ran, end) = dispatch_all cs s in
        (ran ≡ rs) × (end.something ≡ n') × (end.system ≡ deposit_all es s.system)
  unfolding dispatch_all deposit_all
  Run-dispatch_all s k done = (refl, k, refl)
  Run-dispatch_all s k (then {es = es} {fs = fs} step run) =
      let (result, left, posted) = Step-dispatch s k step in
      let (results, end, rest) = Run-dispatch_all _ left run in
      (rw (result, results) refl, end, rw (deposit_all-append es fs s.system, ← posted) rest)

  -- The calls of the pallet are exactly the step relation, over whole sequences of calls by whatever
  -- origins, failing calls among them. From any state, the relation has a run over the calls with
  -- some results that leaves some number just where these are the results of the code and the number
  -- that it leaves stored. And the events of one such run, deposited in their order, are all that
  -- happens to the system's state.
  pub dispatch_all_refines :
      (cs : Calls) (s : Storage SystemState) (qs : List (Result DispatchError (Unit {0})))
      (n : Option ℕ)
      → let (rs, end) = dispatch_all cs s in
        (((fs : List (Event AccountId)) × Run s.something cs qs fs n)
          ↔ ((qs ≡ rs) × (n ≡ end.something)))
        × ((es : List (Event AccountId)) × Run s.something cs rs es end.something
            × (end.system ≡ deposit_all es s.system))
  dispatch_all_refines cs s qs n =
      let (es, run, posted) = dispatch_all-Run cs s in
      (
        (
          (λ r. let (results, end, rest) = Run-dispatch_all s refl r.1 in (sym results, sym end)),
          (λ e. (es, rw (e.0, e.1) run)),
        ),
        (es, run, posted),
      )
