-- ===== src/Command/Refused.antt =====
-- What a build without its optional features refuses (node/src/command.rs).
use lunes_nightly.Prelude.{◌≡◌, refl, false, some, ok, err}
use lunes_nightly.Service.{Libraries, Node, raise}
use lunes_nightly.Service.Full.{Consensus}
use lunes_nightly.Service.Trace.{called}
use lunes_nightly.Command.{
  Commands, pallet, storage, benchmark, try_runtime, BuildFeatures, run_benchmark, run_with,
  run_subcommand, run,
}

-- A build without any of the two features, such as a release.
abbrev pub release : BuildFeatures
release = record { runtime_benchmarks = false; try_runtime = false }

module _ (l : Libraries) (consensus : Consensus l) (c : Commands l) where
  open c use {Args, input, create_runner}

  -- In a build without the optional features, `try-runtime` fails before a runner is made; and
  -- `benchmark pallet` and `benchmark storage` fail as soon as their runner is made, before any
  -- part of a node is built. Each names the feature that is missing.
  run_refused :
      (a plain : Args) (runner : c.Runner) (s : Node l.World) (w : l.World)
      → create_runner a s.world ≡ (ok runner, w)
      → (run l consensus c release (some (try_runtime a)) plain s ≡ (
        err (
            input
              "TryRuntime wasn't enabled when building the node. You can enable it with `--features try-runtime`."),
        s,
      ))
        × (run l consensus c release (some (benchmark (pallet a))) plain s ≡ (
          err (
              input
                "Runtime benchmarking wasn't enabled when building the node. You can enable it with `--features runtime-benchmarks`."),
          record s { world = w },
        ))
        × (run l consensus c release (some (benchmark (storage a))) plain s ≡ (
          err (input "Storage benchmarking can be enabled with `--features runtime-benchmarks`."),
          record s { world = w },
        ))
  unfolding run run_subcommand run_with run_benchmark raise
  run_refused a plain runner s w made =
      (refl, called _ _ s runner w made, called _ _ s runner w made)
