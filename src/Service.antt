-- ===== src/Service.antt =====
-- The start of the node's service (node/src/service.rs): `new_partial` builds the parts of a node,
-- `new_full` builds its network and starts the tasks that the configuration asks for. Beside the
-- world of the libraries the model keeps the list of what has been done, in order.
mod External
mod Steps
pub mod Full
pub mod Trace
pub mod Start
pub mod Order
pub mod Success
pub mod Mock
mod Tests
pub use External.{Libraries}
pub use Steps.{
  Event, telemetry_made, parts_built, telemetry_spawned, pool_built, block_import_built,
  import_queue_built, network_built, offchain_workers_built, tasks_spawned, aura_started,
  aura_spawned, voter_made, voter_spawned, network_started, Node, Step,
}
unfoldable pub use Steps.{pure, raise, noting, calling, converting, ◌>>=◌}
pub use Steps.{◌>>◌, doing}
use lunes_nightly.Prelude.{
  ℕ, Bool, true, false, not, String, Option, none, some, Result, ok, err, List, [], ◌∷◌, ◌++◌,
  if◌then◌else◌,
}

abbrev pub is_some : {A : Type 0} → Option A → Bool
is_some none = false
is_some (some a) = true

module _ (l : Libraries) where
  open l use {
    World, ServiceError, service_other, panicked, Settings, SetConfig, Worker, Telemetry, Parts,
    Keystore, Future, SelectChain, Pool, BlockImport, Link, ImportQueue, Network,
  }

  pub record Configuration : Type 0 where
    pub keystore_remote : Option String
    pub telemetry_endpoints : Option (List String)
    -- `role.is_authority()`
    pub authority : Bool
    pub offchain_worker : Bool
    pub force_authoring : Bool
    pub disable_grandpa : Bool
    pub node_name : String
    pub extra_sets : List SetConfig
    pub settings : Settings

  abbrev pub Start : Type 0 → Type 0
  Start A = Step World ServiceError A

  -- `telemetry_endpoints.filter(|x| !x.is_empty())`
  abbrev pub filled : Option (List String) → Option (List String)
  filled none = none
  filled (some []) = none
  filled (some (e ∷ es)) = some (e ∷ es)

  abbrev pub Reporter : Type 0
  Reporter = Worker × Telemetry

  unfoldable pub make_telemetry : Option (List String) → Start (Option Reporter)
  make_telemetry none = pure none
  make_telemetry (some endpoints) = do
    worker ← noting telemetry_made l.new_worker
    pure (some (worker, l.new_telemetry worker endpoints))

  abbrev pub telemetry_of : Option Reporter → Option Telemetry
  telemetry_of none = none
  telemetry_of (some (worker, telemetry)) = some telemetry

  unfoldable pub spawn_telemetry : Parts → Option Reporter → Start (Option Telemetry)
  spawn_telemetry parts none = pure none
  spawn_telemetry parts (some (worker, telemetry)) = do
    doing telemetry_spawned (l.spawn parts "telemetry" none (l.worker_run worker))
    pure (some telemetry)

  pub record PartialComponents : Type 0 where
    pub parts : Parts
    pub import_queue : ImportQueue
    pub select_chain : SelectChain
    pub pool : Pool
    pub block_import : BlockImport
    pub link : Link
    pub telemetry : Option Telemetry

  -- `new_partial` behind its early return.
  unfoldable pub build_partial : Configuration → Start PartialComponents
  build_partial config = do
    reporter ← make_telemetry (filled config.telemetry_endpoints)
    parts ←
        noting parts_built (
          l.new_full_parts config.settings (telemetry_of reporter) (l.new_executor config.settings))
    telemetry ← spawn_telemetry parts reporter
    pool ← noting (pool_built config.authority) (l.new_pool config.settings config.authority parts)
    imports ←
        noting block_import_built (l.grandpa_block_import parts (l.longest_chain parts) telemetry)
    slot_duration ← calling (l.slot_duration parts)
    import_queue ←
        noting import_queue_built (l.aura_import_queue imports.0 parts slot_duration telemetry)
    pure (record {
      parts = parts;
      import_queue = import_queue;
      select_chain = l.longest_chain parts;
      pool = pool;
      block_import = imports.0;
      link = imports.1;
      telemetry = telemetry;
    })

  unfoldable pub new_partial : Configuration → Start PartialComponents
  new_partial config =
      if is_some config.keystore_remote
      then raise (service_other "Remote Keystores are not supported.")
      else build_partial config
