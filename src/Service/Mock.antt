-- ===== src/Service/Mock.antt =====
-- Concrete libraries of a node (node/src/service.rs), whose world counts the calls, and the
-- configuration of a validator.
use Prim.Native.String.{◌++◌ as str_append}
use lunes_nightly.Prelude.{ℕ, suc, true, false, Bool, String, none, some, ok, List, [], ◌∷◌, Action}
use lunes_nightly.Service.{Libraries, Configuration, Node}
use lunes_nightly.Service.Full.{Consensus}

abbrev pub counted : {A : Type 0} → A → Action ℕ String A
counted a calls = (ok a, suc calls)

abbrev pub libraries : Libraries
libraries = record {
  World = ℕ;
  ServiceError = String;
  service_other = λ text. str_append "Other: " text;
  panicked = λ text. str_append "panicked: " text;
  Settings = String;
  SetConfig = String;
  Worker = ℕ;
  Telemetry = List String;
  new_worker = counted 16;
  new_telemetry = λ worker endpoints. endpoints;
  Executor = String;
  new_executor = λ settings. settings;
  Parts = String;
  new_full_parts = λ settings telemetry executor. counted settings;
  Keystore = String;
  sync_keystore = λ parts. "keystore";
  set_remote_keystore = λ keystore parts. parts;
  block_hash_zero = λ parts calls. some 42;
  Future = String;
  worker_run = λ worker. "worker";
  spawn = λ parts name group future calls. suc calls;
  spawn_essential_blocking = λ parts name group future calls. suc calls;
  SelectChain = String;
  longest_chain = λ parts. parts;
  Pool = Bool;
  new_pool = λ settings authority parts. counted authority;
  BlockImport = String;
  Link = String;
  grandpa_block_import = λ parts chain telemetry. counted ("import", "link");
  slot_duration = λ parts. counted 1000;
  ImportQueue = ℕ;
  aura_import_queue = λ block_import parts slot telemetry. counted slot;
  protocol_standard_name = λ hash settings. "/grandpa/1";
  grandpa_peers_set_config = λ name. name;
  WarpSync = String;
  warp_sync_provider = λ parts link. link;
  Network = List String;
  build_network = λ settings sets parts pool queue warp. counted sets;
  build_offchain_workers = λ settings parts network calls. suc calls;
  spawn_tasks = λ settings parts pool network telemetry. counted tt;
  start_network = λ network calls. suc calls;
}

abbrev pub consensus : Consensus libraries
consensus = record {
  start_aura = λ params. counted "aura";
  run_grandpa_voter = λ params. counted "voter";
}

abbrev pub validator : Configuration libraries
validator = record {
  keystore_remote = none;
  telemetry_endpoints = some ("wss://telemetry" ∷ []);
  authority = true;
  offchain_worker = true;
  force_authoring = false;
  disable_grandpa = false;
  node_name = "node";
  extra_sets = [];
  settings = "settings";
}

abbrev pub fresh : Node ℕ
fresh = record { world = 0; events = [] }
