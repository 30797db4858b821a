-- ===== src/Service/External.antt =====
-- What the service of node/src/service.rs uses of the client, consensus, network and telemetry
-- libraries, which the repository does not hold. A call that may fail is an action on the world.
use lunes_nightly.Prelude.{ℕ, Bool, String, Option, List, Action}

pub record Libraries : Type 1 where
  -- All state that the libraries keep.
  pub World : Type 0
  pub ServiceError : Type 0
  -- `ServiceError::Other`
  pub service_other : String → ServiceError
  -- A panic of `expect`, which ends the start as an error does.
  pub panicked : String → ServiceError
  -- What the configuration holds beside the fields that the service reads itself.
  pub Settings : Type 0
  pub SetConfig : Type 0
  pub Worker : Type 0
  pub Telemetry : Type 0
  pub new_worker : Action World ServiceError Worker
  pub new_telemetry : Worker → List String → Telemetry
  pub Executor : Type 0
  pub new_executor : Settings → Executor
  -- Client, backend, keystore container and task manager.
  pub Parts : Type 0
  pub new_full_parts : Settings → Option Telemetry → Executor → Action World ServiceError Parts
  pub Keystore : Type 0
  pub sync_keystore : Parts → Keystore
  pub set_remote_keystore : Keystore → Parts → Parts
  pub block_hash_zero : Parts → World → Option ℕ
  pub Future : Type 0
  pub worker_run : Worker → Future
  -- `spawn name group future`, on the ordinary and on the essential handle.
  pub spawn : Parts → String → Option String → Future → World → World
  pub spawn_essential_blocking : Parts → String → Option String → Future → World → World
  pub SelectChain : Type 0
  pub longest_chain : Parts → SelectChain
  pub Pool : Type 0
  -- `BasicPool::new_full` for a node that is an authority or not.
  pub new_pool : Settings → Bool → Parts → Action World ServiceError Pool
  pub BlockImport : Type 0
  pub Link : Type 0
  pub grandpa_block_import :
      Parts → SelectChain → Option Telemetry → Action World ServiceError (BlockImport × Link)
  pub slot_duration : Parts → Action World ServiceError ℕ
  pub ImportQueue : Type 0
  pub aura_import_queue :
      BlockImport → Parts → ℕ → Option Telemetry → Action World ServiceError ImportQueue
  pub protocol_standard_name : ℕ → Settings → String
  pub grandpa_peers_set_config : String → SetConfig
  pub WarpSync : Type 0
  pub warp_sync_provider : Parts → Link → WarpSync
  -- The network with its starter and its synchronisation.
  pub Network : Type 0
  pub build_network :
      Settings
      → List SetConfig
      → Parts
      → Pool
      → ImportQueue
      → WarpSync
      → Action World ServiceError Network
  pub build_offchain_workers : Settings → Parts → Network → World → World
  pub spawn_tasks :
      Settings → Parts → Pool → Network → Option Telemetry → Action World ServiceError (Unit {0})
  pub start_network : Network → World → World
