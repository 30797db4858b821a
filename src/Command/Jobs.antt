-- ===== src/Command/Jobs.antt =====
-- The subcommands of node/src/cli.rs, and what the command libraries are asked to run for them.
use lunes_nightly.Prelude.{ℕ, String, List, Action}
use lunes_nightly.Service.{Libraries, Configuration}

-- Which benchmark is asked for, with its arguments.
pub data BenchmarkCmd (Args : Type 0) : Type 0 where
  pallet block storage overhead extrinsic machine : Args → BenchmarkCmd Args

pub data Subcommand (Args : Type 0) : Type 0 where
  key build_spec check_block export_blocks export_state import_blocks : Args → Subcommand Args
  purge_chain revert : Args → Subcommand Args
  benchmark : BenchmarkCmd Args → Subcommand Args
  try_runtime chain_info : Args → Subcommand Args

abbrev pub benchmark_args : {Args : Type 0} → BenchmarkCmd Args → Args
benchmark_args (pallet a) = a
benchmark_args (block a) = a
benchmark_args (storage a) = a
benchmark_args (overhead a) = a
benchmark_args (extrinsic a) = a
benchmark_args (machine a) = a

abbrev pub args_of : {Args : Type 0} → Subcommand Args → Args
args_of (key a) = a
args_of (build_spec a) = a
args_of (check_block a) = a
args_of (export_blocks a) = a
args_of (export_state a) = a
args_of (import_blocks a) = a
args_of (purge_chain a) = a
args_of (revert a) = a
args_of (benchmark cmd) = benchmark_args cmd
args_of (try_runtime a) = a
args_of (chain_info a) = a

-- The builders of extrinsics of node/src/benchmarking.rs, as a command gets them; the second has
-- its destination and its amount.
pub data Builder : Type 0 where
  remark_builder : Builder
  transfer_keep_alive_builder : ℕ → ℕ → Builder

-- A call `cmd.run(...)`: the command's arguments, the configuration or the parts of it that the
-- command reads, and the parts of the node that were built.
pub data JobOf (Args Config Parts Queue Inherents : Type 0) : Type 0 where
  key_job : Args → JobOf Args Config Parts Queue Inherents
  build_spec_job : Args → Config → JobOf Args Config Parts Queue Inherents
  check_block_job : Args → Parts → Queue → JobOf Args Config Parts Queue Inherents
  export_blocks_job : Args → Parts → Config → JobOf Args Config Parts Queue Inherents
  export_state_job : Args → Parts → Config → JobOf Args Config Parts Queue Inherents
  import_blocks_job : Args → Parts → Queue → JobOf Args Config Parts Queue Inherents
  purge_chain_job : Args → Config → JobOf Args Config Parts Queue Inherents
  -- With the reversal of GRANDPA's data.
  revert_job : Args → Parts → JobOf Args Config Parts Queue Inherents
  benchmark_pallet : Args → Config → JobOf Args Config Parts Queue Inherents
  benchmark_block : Args → Parts → JobOf Args Config Parts Queue Inherents
  benchmark_storage : Args → Config → Parts → JobOf Args Config Parts Queue Inherents
  benchmark_overhead :
      Args → Config → Parts → Inherents → Builder → JobOf Args Config Parts Queue Inherents
  benchmark_extrinsic :
      Args → Parts → Inherents → List Builder → JobOf Args Config Parts Queue Inherents
  benchmark_machine : Args → Config → JobOf Args Config Parts Queue Inherents
  -- With the block time, in milliseconds, of the inherents that are made up.
  try_runtime_job : Args → ℕ → JobOf Args Config Parts Queue Inherents
  chain_info_job : Args → Config → JobOf Args Config Parts Queue Inherents

-- What the command line uses of the command libraries.
pub record Commands (l : Libraries) : Type 1 where
  pub CliError : Type 0
  pub from_service : l.ServiceError → CliError
  -- `Error::Input`
  pub input : String → CliError
  pub Args : Type 0
  pub Runner : Type 0
  -- Loads the chain specification and makes the configuration.
  pub create_runner : Args → Action l.World CliError Runner
  pub config_of : Runner → Configuration l
  pub Inherents : Type 0
  -- `provide_inherent_data` of a timestamp, in milliseconds, into empty inherent data; and `{:?}` of
  -- its error.
  pub InherentError : Type 0
  pub provide_timestamp : ℕ → Action l.World InherentError Inherents
  pub debug : InherentError → String
  -- The account of `Sr25519Keyring::Alice`.
  pub alice : ℕ
  pub new_task_manager : Configuration l → Action l.World CliError (Unit {0})
  pub run_job :
      JobOf Args (Configuration l) l.Parts l.ImportQueue Inherents
      → Action l.World CliError (Unit {0})
  -- The end of `run_node_until_exit`.
  pub run_until_exit : l.Parts → Action l.World CliError (Unit {0})

abbrev pub Job : (l : Libraries) → Commands l → Type 0
Job l c = JobOf c.Args (Configuration l) l.Parts l.ImportQueue c.Inherents
