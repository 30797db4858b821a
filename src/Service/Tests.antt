-- ===== src/Service/Tests.antt =====
-- A start on concrete libraries, whose world counts the calls, and the theorems at it
-- (node/src/service.rs).
use lunes_nightly.Prelude.{ℕ, ◌≡◌, refl, true, false, String, some, ok, err, [], ◌∷◌, ◌++◌}
use lunes_nightly.Service.{
  telemetry_made, parts_built, telemetry_spawned, pool_built, block_import_built,
  import_queue_built, network_built, offchain_workers_built, tasks_spawned, aura_started,
  aura_spawned, voter_made, voter_spawned, network_started, Configuration, Node,
}
use lunes_nightly.Service.Mock.{counted, libraries, consensus, validator, fresh}
use lunes_nightly.Service.Full.{Consensus, new_full}
use lunes_nightly.Service.Order.{Started, full_events, new_full_order}
use lunes_nightly.Service.Success.{IsWorking, new_full_succeeds}

-- The same, but for a voter that cannot be made.
abbrev broken : Consensus libraries
broken = record {
  start_aura = λ params. counted "aura";
  run_grandpa_voter = λ params calls. (err "no voter", calls);
}

abbrev remote : Configuration libraries
remote = record validator { keystore_remote = some "http://keys" }

working : IsWorking libraries consensus
working = record {
  new_worker = λ w. (_, _, refl);
  new_full_parts = λ settings telemetry executor w. (_, _, refl);
  block_hash_zero = λ parts w. (_, refl);
  new_pool = λ settings authority parts w. (_, _, refl);
  grandpa_block_import = λ parts chain telemetry w. (_, _, refl);
  slot_duration = λ parts w. (_, _, refl);
  aura_import_queue = λ block_import parts slot telemetry w. (_, _, refl);
  build_network = λ settings sets parts pool queue warp w. (_, _, refl);
  spawn_tasks = λ settings parts pool network telemetry w. (_, _, refl);
  start_aura = λ params w. (_, _, refl);
  run_grandpa_voter = λ params w. (_, _, refl);
}

validator_events :
    full_events libraries validator
    ≡ telemetry_made
      ∷ parts_built
      ∷ telemetry_spawned
      ∷ pool_built true
      ∷ block_import_built
      ∷ import_queue_built
      ∷ network_built
      ∷ offchain_workers_built
      ∷ tasks_spawned
      ∷ aura_started false
      ∷ aura_spawned
      ∷ voter_made true
      ∷ voter_spawned
      ∷ []
validator_events = refl

observer_events :
    full_events libraries (record validator { authority = false; telemetry_endpoints = some [] })
    ≡ parts_built
      ∷ pool_built false
      ∷ block_import_built
      ∷ import_queue_built
      ∷ network_built
      ∷ offchain_workers_built
      ∷ tasks_spawned
      ∷ voter_made false
      ∷ voter_spawned
      ∷ []
observer_events = refl

new_full_order_example :
    Started libraries broken []
      (full_events libraries validator)
      (new_full libraries broken validator fresh)
new_full_order_example = new_full_order libraries broken validator fresh

new_full_succeeds_example :
    (parts : String) × (s : Node ℕ) × (new_full libraries consensus validator fresh ≡ (ok parts, s))
    × (s.events ≡ [] ++ (full_events libraries validator ++ (network_started ∷ [])))
new_full_succeeds_example = new_full_succeeds libraries consensus working validator fresh refl
