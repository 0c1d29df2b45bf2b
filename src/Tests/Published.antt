-- ===== src/Tests/Published.antt =====
-- The theorem on a whole run of osmdbt-create-diff at a concrete input.
use osmdbt.Common.{◌+◌, ◌≡◌, refl, true, false, List, [], some, codes, bytes_eq, ok, arith}
use osmdbt.Number.{to_string}
use osmdbt.Number.Digits.{print}
use osmdbt.State.{state_path, osc_path, path, write_state}
use osmdbt.Files.{Disk, Op, run_ops, run_op}
use osmdbt.Files.Prefix.{Done, run_ops-Done}
use osmdbt.CreateDiff.Publish.{
  prepare, move_change, move_pbf, move_state, move_current, finish, rename_logs, publish,
  change_file, state_file, current_state,
}
use osmdbt.CreateDiff.Select.{get_state}
use osmdbt.CreateDiff.App.{Options, run_state}
use osmdbt.CreateDiff.App.Published.{new_text, run_state_publishes}
use osmdbt.Tests.Sample.{sample, sample-IsDocumented}
use osmdbt.Tests.Runs.{config, state, done_files, done_files-Separate, no_db, outside, log_disk}

abbrev real_options : Options
real_options = record {
  log_file_names = [];
  init_state = 0;
  max_changes = 100;
  with_comment = true;
  dry_run = false;
  with_pbf_output = true;
}

abbrev whole_run : List Op
whole_run =
    (run_state sample no_db outside log_disk config real_options [] done_files (ok state)).ops

abbrev left : Disk
left = (run_ops whole_run log_disk).0

whole_run-Done : Done whole_run log_disk left
unfolding run_state run_ops run_op write_state publish bytes_eq prepare move_change move_pbf
    move_state move_current finish rename_logs state_path osc_path path print to_string
whole_run-Done = run_ops-Done whole_run log_disk refl

run_state_publishes_example :
    (left (change_file config state (codes ".gz")) ≡ some (codes "gz"))
    × (left (state_file config state)
        ≡ some (new_text sample no_db outside log_disk config real_options state))
    × (left (current_state config state)
        ≡ some (new_text sample no_db outside log_disk config real_options state))
    × (get_state sample left config.changes_dir 0 99
        ≡ ok (record { sequence_number = state.sequence_number + 1; timestamp = 99 }))
run_state_publishes_example =
    run_state_publishes sample no_db outside log_disk config real_options [] done_files state
      (codes "l/a.log") 99 sample-IsDocumented refl done_files-Separate (omega arith) (omega arith)
      (omega arith) whole_run-Done
