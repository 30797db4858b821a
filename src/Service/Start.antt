-- ===== src/Service/Start.antt =====
-- What a start of the service does, and in which order (node/src/service.rs).
use lunes_nightly.Prelude.{
  ◌≡◌, refl, sym, Bool, true, false, Option, none, some, err, List, [], ◌∷◌, ◌++◌, String,
  if◌then◌else◌,
}
use lunes_nightly.Service.{
  Libraries, Event, telemetry_made, parts_built, telemetry_spawned, pool_built, block_import_built,
  import_queue_built, is_some, filled, Configuration, Node, Reporter, make_telemetry,
  spawn_telemetry, build_partial, new_partial, pure, raise, Step,
}
use lunes_nightly.Service.Trace.{
  Adds, Adds-bind, Adds-pure, Adds-noting, Adds-calling, Adds-raise, Returned, Adds-bind_returning,
  Returned-bind, Returned-pure,
}

abbrev pub when : Bool → List Event → List Event
when asked events = if asked then events else []

module _ {W E : Type 0} where
  -- A step that is taken where it is asked for.
  pub Adds-when :
      (asked : Bool) (m : Step W E (Unit {0})) (events : List Event)
      → Adds m events
      → Adds (if asked then m else pure tt) (when asked events)
  Adds-when true m events h = h
  Adds-when false m events h = Adds-pure W E tt

  -- A step behind an early return with an error.
  pub Adds-refused :
      {A : Type 0} (refused : Bool) (e : E) (m : Step W E A) (events : List Event)
      → Adds m events
      → Adds (if refused then raise e else m) events
  Adds-refused {A = A} true e m events h = Adds-raise W E A e events
  Adds-refused false e m events h = h

  -- A step that only an enabled feature allows.
  pub Adds-enabled :
      {A : Type 0} (enabled : Bool) (e : E) (m : Step W E A) (events : List Event)
      → Adds m events
      → Adds (if enabled then m else raise e) (when enabled events)
  Adds-enabled true e m events h = h
  Adds-enabled {A = A} false e m events h = Adds-raise W E A e []

module _ (l : Libraries) where
  open l use {World, ServiceError, service_other, Parts, Network}

  -- The events of `new_partial`.
  abbrev pub partial_events : Configuration l → List Event
  partial_events config =
      let telemetry = is_some (filled l config.telemetry_endpoints) in
      when telemetry (telemetry_made ∷ [])
      ++ (parts_built
          ∷ (when telemetry (telemetry_spawned ∷ [])
              ++ (pool_built config.authority ∷ block_import_built ∷ import_queue_built ∷ [])))

  make_telemetry-Adds :
      (endpoints : Option (List String))
      → Adds (make_telemetry l endpoints) (when (is_some endpoints) (telemetry_made ∷ []))
  unfolding make_telemetry
  make_telemetry-Adds none = Adds-pure World ServiceError none
  make_telemetry-Adds (some endpoints) =
      Adds-bind _ _ (telemetry_made ∷ []) [] (Adds-noting telemetry_made l.new_worker)
        (λ worker. Adds-pure World ServiceError _)

  -- With endpoints a reporter is made, and without none is.
  make_telemetry-Returned :
      (endpoints : Option (List String)) (s : Node World)
      → Returned (λ reporter. is_some reporter ≡ is_some endpoints) (make_telemetry l endpoints s)
  unfolding make_telemetry
  make_telemetry-Returned none s = Returned-pure World ServiceError _ none refl s
  make_telemetry-Returned (some endpoints) s =
      Returned-bind _ _ _ (λ worker. Returned-pure World ServiceError _ (some _) refl) s

  spawn_telemetry-Adds :
      (parts : Parts) (reporter : Option (Reporter l))
      → Adds (spawn_telemetry l parts reporter) (when (is_some reporter) (telemetry_spawned ∷ []))
  unfolding spawn_telemetry
  spawn_telemetry-Adds parts none = Adds-pure World ServiceError none
  spawn_telemetry-Adds parts (some (worker, telemetry)) =
      Adds-bind _ _ (telemetry_spawned ∷ []) [] (Adds-noting telemetry_spawned _)
        (λ _. Adds-pure World ServiceError _)

  build_partial-Adds :
      (config : Configuration l) → Adds (build_partial l config) (partial_events config)
  unfolding build_partial
  build_partial-Adds config =
      let endpoints = filled l config.telemetry_endpoints in
      Adds-bind_returning (λ reporter. is_some reporter ≡ is_some endpoints) _ _ _ _
        (make_telemetry-Adds endpoints) (make_telemetry-Returned endpoints)
        (λ reporter same. Adds-bind _ _ (parts_built ∷ []) _ (Adds-noting parts_built _) (λ parts.
          Adds-bind _ _ (when (is_some endpoints) (telemetry_spawned ∷ [])) _
            (rw (sym same) (spawn_telemetry-Adds parts reporter))
            (λ telemetry.
              Adds-bind _ _ (pool_built config.authority ∷ []) _ (Adds-noting _ _) (λ pool.
                Adds-bind _ _ (block_import_built ∷ []) _ (Adds-noting _ _) (λ imports.
                  Adds-bind _ _ [] _ (Adds-calling _) (λ slot.
                    Adds-bind _ _ (import_queue_built ∷ []) [] (Adds-noting _ _)
                      (λ queue. Adds-pure World ServiceError _)))))))

  -- With a remote keystore `new_partial` fails before it has done anything.
  pub new_partial_remote :
      (config : Configuration l) (url : String) (s : Node World)
      → config.keystore_remote ≡ some url
      → new_partial l config s ≡ (err (service_other "Remote Keystores are not supported."), s)
  unfolding new_partial raise
  new_partial_remote config url s h = rw h refl

  pub new_partial-Adds :
      (config : Configuration l) → Adds (new_partial l config) (partial_events config)
  unfolding new_partial
  new_partial-Adds config =
      Adds-refused (is_some config.keystore_remote) _ _ _ (build_partial-Adds config)
