-- ===== src/Command/Tests.antt =====
-- Runs of the command line (node/src/command.rs) on the libraries of a node that count the calls.
use lunes_nightly.Prelude.{ℕ, suc, refl, String, some, ok, []}
use lunes_nightly.Service.Mock.{counted, libraries, consensus, validator, fresh}
use lunes_nightly.Service.Trace.{Added}
use lunes_nightly.Command.{Commands, check_block, run}
use lunes_nightly.Command.Access.{run_events, run_order}
use lunes_nightly.Command.Refused.{release}

abbrev commands : Commands libraries
commands = record {
  CliError = String;
  from_service = λ e. e;
  input = λ e. e;
  Args = ℕ;
  Runner = ℕ;
  create_runner = λ args. counted args;
  config_of = λ runner. validator;
  Inherents = ℕ;
  InherentError = String;
  provide_timestamp = λ at calls. (ok at, suc calls);
  debug = λ e. e;
  alice = 1;
  new_task_manager = λ config. counted tt;
  run_job = λ job. counted tt;
  run_until_exit = λ parts. counted tt;
}

run_order_example :
    Added []
      (run_events libraries consensus commands release (some (check_block 3)) validator)
      (run libraries consensus commands release (some (check_block 3)) 0 fresh)
run_order_example =
    run_order libraries consensus commands release (some (check_block 3)) 0 3 fresh 1 refl
