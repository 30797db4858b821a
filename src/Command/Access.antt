-- ===== src/Command/Access.antt =====
-- Which subcommands open a node's database and which start a network (node/src/command.rs).
use mathlib.Core.Path.{subst}
use mathlib.Core.List.{append-nil}
use lunes_nightly.Prelude.{
  ◌≡◌, Bool, true, false, not, Option, none, some, ok, List, [], ◌∷◌, ◌++◌, if◌then◌else◌,
}
use lunes_nightly.Service.{
  Libraries, Event, network_started, Configuration, Node, calling, ◌>>=◌, raise, converting,
  PartialComponents,
}
use lunes_nightly.Service.Full.{Consensus, new_full}
use lunes_nightly.Service.Start.{when, partial_events, new_partial-Adds, Adds-refused, Adds-enabled}
use lunes_nightly.Service.Order.{full_events, new_full-Adds}
use lunes_nightly.Service.Trace.{
  Added, Adds, Adds-bind, Adds-calling, Adds-raise, Adds-converting, Added-called,
}
use lunes_nightly.Command.{
  Commands, Subcommand, BenchmarkCmd, pallet, block, storage, overhead, extrinsic, machine, key,
  build_spec, check_block, export_blocks, export_state, import_blocks, purge_chain, revert,
  benchmark, try_runtime, chain_info, args_of, BuildFeatures, parts_of, run_benchmark, run_with,
  run_subcommand, run, Run, inherent_benchmark_data,
}

-- The subcommands that build the parts of a node, the database among them.
abbrev pub opens : {Args : Type 0} → BuildFeatures → Subcommand Args → Bool
opens features (key a) = false
opens features (build_spec a) = false
opens features (check_block a) = true
opens features (export_blocks a) = true
opens features (export_state a) = true
opens features (import_blocks a) = true
opens features (purge_chain a) = false
opens features (revert a) = true
opens features (benchmark (pallet a)) = false
opens features (benchmark (block a)) = true
opens features (benchmark (storage a)) = features.runtime_benchmarks
opens features (benchmark (overhead a)) = true
opens features (benchmark (extrinsic a)) = true
opens features (benchmark (machine a)) = false
opens features (try_runtime a) = false
opens features (chain_info a) = false

-- The arguments that the runner is made of.
abbrev pub runner_args : {Args : Type 0} → Option (Subcommand Args) → Args → Args
runner_args none plain = plain
runner_args (some cmd) plain = args_of cmd

module _ (l : Libraries) (consensus : Consensus l) (c : Commands l) where
  open l use {World}
  open c use {CliError, from_service, Args, create_runner, config_of}

  -- The events of a run by its subcommand, for the configuration of its runner.
  abbrev pub run_events : BuildFeatures → Option (Subcommand Args) → Configuration l → List Event
  run_events features (some cmd) config = when (opens features cmd) (partial_events l config)
  run_events features none config = full_events l config ++ (network_started ∷ [])

  parts_of-Adds :
      (config : Configuration l) → Adds (parts_of l consensus c config) (partial_events l config)
  unfolding parts_of
  parts_of-Adds config = Adds-converting _ _ (partial_events l config) (new_partial-Adds l config)

  with_parts :
      {A : Type 0} (config : Configuration l) (f : PartialComponents l → Run l consensus c A)
      → ((built : PartialComponents l) → Adds (f built) [])
      → Adds (parts_of l consensus c config >>= f) (partial_events l config)
  with_parts {A = A} config f h =
      subst (λ t. Adds {A = A} (parts_of l consensus c config >>= f) t)
        (append-nil (partial_events l config))
        (Adds-bind _ f (partial_events l config) [] (parts_of-Adds config) h)

  inherents-Adds : Adds (inherent_benchmark_data l consensus c) []
  unfolding inherent_benchmark_data
  inherents-Adds = Adds-converting _ _ [] (Adds-calling _)

  run_benchmark-Adds :
      (features : BuildFeatures) (cmd : BenchmarkCmd Args) (config : Configuration l)
      → Adds
          (run_benchmark l consensus c features cmd config)
          (when (opens features (benchmark cmd)) (partial_events l config))
  unfolding run_benchmark
  run_benchmark-Adds features (pallet a) config =
      Adds-refused (not features.runtime_benchmarks) _ _ [] (Adds-calling _)
  run_benchmark-Adds features (block a) config = with_parts config _ (λ built. Adds-calling _)
  run_benchmark-Adds features (storage a) config =
      Adds-enabled features.runtime_benchmarks _ _ (partial_events l config)
        (with_parts config _ (λ built. Adds-calling _))
  run_benchmark-Adds features (overhead a) config =
      with_parts config _
        (λ built. Adds-bind _ _ [] [] inherents-Adds (λ inherents. Adds-calling _))
  run_benchmark-Adds features (extrinsic a) config =
      with_parts config _
        (λ built. Adds-bind _ _ [] [] inherents-Adds (λ inherents. Adds-calling _))
  run_benchmark-Adds features (machine a) config = Adds-calling _

  run_with-Adds :
      (features : BuildFeatures) (cmd : Subcommand Args) (config : Configuration l)
      → Adds
          (run_with l consensus c features cmd config)
          (when (opens features cmd) (partial_events l config))
  unfolding run_with
  run_with-Adds features (key a) config = Adds-calling _
  run_with-Adds features (build_spec a) config = Adds-calling _
  run_with-Adds features (check_block a) config = with_parts config _ (λ built. Adds-calling _)
  run_with-Adds features (export_blocks a) config = with_parts config _ (λ built. Adds-calling _)
  run_with-Adds features (export_state a) config = with_parts config _ (λ built. Adds-calling _)
  run_with-Adds features (import_blocks a) config = with_parts config _ (λ built. Adds-calling _)
  run_with-Adds features (purge_chain a) config = Adds-calling _
  run_with-Adds features (revert a) config = with_parts config _ (λ built. Adds-calling _)
  run_with-Adds features (benchmark cmd) config = run_benchmark-Adds features cmd config
  run_with-Adds features (try_runtime a) config =
      Adds-bind _ _ [] [] (Adds-calling _) (λ made. Adds-calling _)
  run_with-Adds features (chain_info a) config = Adds-calling _

  plain_run-Adds :
      (config : Configuration l)
      → Adds
          (converting (from_service) (new_full l consensus config)
            >>= (λ t. calling (c.run_until_exit t)))
          (full_events l config ++ (network_started ∷ []))
  plain_run-Adds config =
      let started = full_events l config ++ (network_started ∷ []) in
      subst
        (λ t.
          Adds {A = Unit {0}}
            (converting from_service (new_full l consensus config)
              >>= (λ t. calling (c.run_until_exit t)))
            t)
        (append-nil started)
        (Adds-bind _ _ started [] (Adds-converting _ _ started (new_full-Adds l consensus config))
          (λ manager. Adds-calling _))

  Added-enabled :
      (enabled : Bool) (e : CliError) (m : Run l consensus c (Unit {0})) (s : Node World)
      → Added {A = Unit {0}} s.events [] (m s)
      → Added {A = Unit {0}} s.events [] ((if enabled then m else raise e) s)
  unfolding Adds
  Added-enabled true e m s h = h
  Added-enabled false e m s h = Adds-raise World CliError (Unit {0}) e [] s

  with_runner :
      (features : BuildFeatures) (cmd : Subcommand Args) (runner : c.Runner) (s : Node World)
      (w : World)
      → create_runner (args_of cmd) s.world ≡ (ok runner, w)
      → Added {A = Unit {0}} s.events
          (when (opens features cmd) (partial_events l (config_of runner)))
          ((calling (create_runner (args_of cmd))
              >>= (λ r. run_with l consensus c features cmd (config_of r)))
            s)
  with_runner features cmd runner s w made =
      Added-called _ _ s runner w _ made (run_with-Adds features cmd (config_of runner))

  -- A run that has got its runner, with the configuration of that runner: a subcommand that works
  -- on a node's parts does the steps of `new_partial`, and any other does none of the steps of a
  -- start; with no subcommand a whole node is started. A success has done all of these steps, and
  -- a failure some first part of them. So no subcommand starts the network.
  pub run_order :
      (features : BuildFeatures) (sub : Option (Subcommand Args)) (plain : Args) (runner : c.Runner)
      (s : Node World) (w : World)
      → create_runner (runner_args sub plain) s.world ≡ (ok runner, w)
      → Added s.events
          (run_events features sub (config_of runner))
          (run l consensus c features sub plain s)
  unfolding run run_subcommand Adds
  run_order features none plain runner s w made =
      Added-called _ _ s runner w _ made (plain_run-Adds (config_of runner))
  run_order features (some (key a)) plain runner s w made = Adds-calling _ s
  run_order features (some (try_runtime a)) plain runner s w made =
      Added-enabled features.try_runtime _ _ s
        (with_runner features (try_runtime a) runner s w made)
  run_order features (some (build_spec a)) plain runner s w made =
      with_runner features (build_spec a) runner s w made
  run_order features (some (check_block a)) plain runner s w made =
      with_runner features (check_block a) runner s w made
  run_order features (some (export_blocks a)) plain runner s w made =
      with_runner features (export_blocks a) runner s w made
  run_order features (some (export_state a)) plain runner s w made =
      with_runner features (export_state a) runner s w made
  run_order features (some (import_blocks a)) plain runner s w made =
      with_runner features (import_blocks a) runner s w made
  run_order features (some (purge_chain a)) plain runner s w made =
      with_runner features (purge_chain a) runner s w made
  run_order features (some (revert a)) plain runner s w made =
      with_runner features (revert a) runner s w made
  run_order features (some (benchmark a)) plain runner s w made =
      with_runner features (benchmark a) runner s w made
  run_order features (some (chain_info a)) plain runner s w made =
      with_runner features (chain_info a) runner s w made
