-- ===== src/Service/Steps.antt =====
-- The steps of a start of the service (node/src/service.rs): calls that may fail, over the world of
-- the libraries and the list of what has been done, in order.
use lunes_nightly.Prelude.{Bool, ok, err, List, [], ◌∷◌, ◌++◌, Action, map_err}

-- What a start has done: each event is a call of a library that has succeeded.
pub data Event : Type 0 where
  telemetry_made parts_built telemetry_spawned : Event
  -- For an authority or not.
  pool_built : Bool → Event
  block_import_built import_queue_built network_built offchain_workers_built : Event
  tasks_spawned : Event
  -- With `force_authoring`.
  aura_started : Bool → Event
  aura_spawned : Event
  -- With a keystore or without.
  voter_made : Bool → Event
  voter_spawned network_started : Event

pub record Node (W : Type 0) : Type 0 where
  pub world : W
  pub events : List Event

abbrev pub Step : Type 0 → Type 0 → Type 0 → Type 0
Step W E A = Action (Node W) E A

module _ {W E : Type 0} where
  unfoldable pub pure : {A : Type 0} → A → Step W E A
  pure a s = (ok a, s)

  unfoldable pub raise : {A : Type 0} → E → Step W E A
  raise e s = (err e, s)

  -- A step, and what follows it where it succeeds (`?`).
  infixl 5 ◌>>=◌ ◌>>◌
  unfoldable pub ◌>>=◌ : {A B : Type 0} → Step W E A → (A → Step W E B) → Step W E B
  ◌>>=◌ m f s = let (r, s') = m s in elim r [ ok a ↦ f a s' | err e ↦ (err e, s') ]

  abbrev pub ◌>>◌ : {A B : Type 0} → Step W E A → Step W E B → Step W E B
  m >> k = m >>= λ _. k

  -- A library's call, noted where it succeeds.
  unfoldable pub noting : {A : Type 0} → Event → Action W E A → Step W E A
  noting e m s =
      let (r, w) = m s.world in
      elim r [
        | ok a ↦ (ok a, record { world = w; events = s.events ++ e ∷ [] })
        | err x ↦ (err x, record s { world = w })
      ]

  -- A call that cannot fail.
  abbrev pub doing : Event → (W → W) → Step W E (Unit {0})
  doing e f = noting e λ w. (ok tt, f w)

  -- A call that is not noted.
  unfoldable pub calling : {A : Type 0} → Action W E A → Step W E A
  calling m s = let (r, w) = m s.world in (r, record s { world = w })

-- A step whose error is converted into that of another library (`?`, `map_err`).
unfoldable pub converting : {W E F A : Type 0} → (E → F) → Step W E A → Step W F A
converting convert m s = let (r, s') = m s in (map_err convert r, s')
