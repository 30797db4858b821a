-- ===== src/Command.antt =====
-- The command line of the node (node/src/command.rs `run`, node/src/cli.rs): which command of the
-- libraries each subcommand runs, on which parts of a node. The service's parts are those of
-- `Service`; what the command libraries do is a parameter.
mod Jobs
pub mod Access
pub mod Refused
mod Tests
pub use Jobs.*
use Prim.Native.String.{◌++◌ as str_append}
use lunes_nightly.Prelude.{ℕ, Bool, String, Option, none, some, not, if◌then◌else◌, List, [], ◌∷◌}
use lunes_nightly.Service.{
  Libraries, Configuration, Step, PartialComponents, new_partial, pure, raise, ◌>>=◌, ◌>>◌, calling,
  converting,
}
use lunes_nightly.Service.Full.{Consensus, new_full}

-- `EXISTENTIAL_DEPOSIT` (runtime/src/lib.rs)
abbrev pub existential_deposit : ℕ
existential_deposit = 500

-- The two features of the build that the command line asks for.
pub record BuildFeatures : Type 0 where
  pub runtime_benchmarks : Bool
  pub try_runtime : Bool

module _ (l : Libraries) (consensus : Consensus l) (c : Commands l) where
  open l use {World}
  open c use {CliError, from_service, input, Args, Runner, create_runner, config_of}

  abbrev pub Run : Type 0 → Type 0
  Run A = Step World CliError A

  -- `service::new_partial(&config)?`
  unfoldable pub parts_of : Configuration l → Run (PartialComponents l)
  parts_of config = converting from_service (new_partial l config)

  -- `cmd.run(...)`
  abbrev pub run_job : Job l c → Run (Unit {0})
  run_job job = calling (c.run_job job)

  -- `inherent_benchmark_data` of node/src/benchmarking.rs
  unfoldable pub inherent_benchmark_data : Run c.Inherents
  inherent_benchmark_data =
      converting (λ e. input (str_append "creating inherent data: " (c.debug e)))
        (calling (c.provide_timestamp 0))

  -- The closure that `Subcommand::Benchmark` hands to its runner.
  unfoldable pub run_benchmark :
      BuildFeatures → BenchmarkCmd Args → Configuration l → Run (Unit {0})
  run_benchmark features (pallet args) config =
      if not features.runtime_benchmarks
      then raise (
          input
            "Runtime benchmarking wasn't enabled when building the node. You can enable it with `--features runtime-benchmarks`.")
      else run_job (benchmark_pallet args config)
  run_benchmark features (block args) config = do
    built ← parts_of config
    run_job (benchmark_block args built.parts)
  run_benchmark features (storage args) config =
      if features.runtime_benchmarks
      then (do built ← parts_of config; run_job (benchmark_storage args config built.parts))
      else raise (input "Storage benchmarking can be enabled with `--features runtime-benchmarks`.")
  run_benchmark features (overhead args) config = do
    built ← parts_of config
    inherents ← inherent_benchmark_data
    run_job (benchmark_overhead args config built.parts inherents remark_builder)
  run_benchmark features (extrinsic args) config = do
    built ← parts_of config
    inherents ← inherent_benchmark_data
    run_job (
        benchmark_extrinsic args built.parts inherents
          (remark_builder ∷ transfer_keep_alive_builder c.alice existential_deposit ∷ []))
  run_benchmark features (machine args) config = run_job (benchmark_machine args config)

  -- The closure that each subcommand hands to its runner, for the configuration that it gets.
  unfoldable pub run_with : BuildFeatures → Subcommand Args → Configuration l → Run (Unit {0})
  run_with features (key args) config = run_job (key_job args)
  run_with features (build_spec args) config = run_job (build_spec_job args config)
  run_with features (check_block args) config = do
    built ← parts_of config
    run_job (check_block_job args built.parts built.import_queue)
  run_with features (export_blocks args) config = do
    built ← parts_of config
    run_job (export_blocks_job args built.parts config)
  run_with features (export_state args) config = do
    built ← parts_of config
    run_job (export_state_job args built.parts config)
  run_with features (import_blocks args) config = do
    built ← parts_of config
    run_job (import_blocks_job args built.parts built.import_queue)
  run_with features (purge_chain args) config = run_job (purge_chain_job args config)
  run_with features (revert args) config = do
    built ← parts_of config
    run_job (revert_job args built.parts)
  run_with features (benchmark cmd) config = run_benchmark features cmd config
  run_with features (try_runtime args) config = do
    calling (c.new_task_manager config)
    run_job (try_runtime_job args 6000)
  run_with features (chain_info args) config = run_job (chain_info_job args config)

  -- The refusal of `try-runtime` in a build without that feature, and the subcommands that make no
  -- runner.
  unfoldable pub run_subcommand : BuildFeatures → Subcommand Args → Run (Unit {0})
  run_subcommand features (key args) = run_job (key_job args)
  run_subcommand features (try_runtime args) =
      if features.try_runtime
      then (do
        runner ← calling (create_runner args)
        run_with features (try_runtime args) (config_of runner))
      else raise (
          input
            "TryRuntime wasn't enabled when building the node. You can enable it with `--features try-runtime`.")
  run_subcommand features cmd = do
    runner ← calling (create_runner (args_of cmd))
    run_with features cmd (config_of runner)

  -- `run`, for the parsed subcommand and the arguments of a plain run.
  unfoldable pub run : BuildFeatures → Option (Subcommand Args) → Args → Run (Unit {0})
  run features (some cmd) plain = run_subcommand features cmd
  run features none plain = do
    runner ← calling (create_runner plain)
    task_manager ← converting from_service (new_full l consensus (config_of runner))
    calling (c.run_until_exit task_manager)
