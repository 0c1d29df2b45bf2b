-- ===== src/Tests/Runs.antt =====
-- The theorems on the file operations of a run of osmdbt-create-diff at concrete inputs.
use osmdbt.Common.{
  ◌≡◌, ◌⊎◌, refl, true, false, Bool, not, ◌&&◌, List, [], ◌∷◌, ◌++◌, none, some, Bytes, codes,
  bytes_eq, if◌then◌else◌, ◌||◌,
}
use osmdbt.State.{State, state_path, osc_path, path}
use osmdbt.Number.{to_string}
use osmdbt.Number.Digits.{print}
use osmdbt.Files.{Disk, Op, run_ops, run_op}
use osmdbt.Files.Prefix.{touches, Spares, Done, run_ops-Cut}
use osmdbt.CreateDiff.Query.{Database}
use osmdbt.CreateDiff.Publish.{
  Config, publish, prepare, move_change, move_pbf, move_state, move_current, finish, rename_logs,
  current_state, state_file, change_file, lock_file, new_change, new_state,
}
use osmdbt.CreateDiff.Publish.Order.{Separate, publish_order}
use osmdbt.CreateDiff.Publish.Lock.{critical_section, publish-Done}
use osmdbt.PidFile.{pid_path}
use osmdbt.CreateDiff.App.{Options, Outside, create_diff}
use osmdbt.CreateDiff.App.Laws.{create_diff_dry_run}
use osmdbt.Tests.Sample.{sample}

-- Whether no operation touches a path.
unfoldable spares : Bytes → List Op → Bool
spares p [] = true
spares p (op ∷ ops) = not (touches p op) && spares p ops

parts : (a b : Bool) → (not a && b) ≡ true → (a ≡ false) × (b ≡ true)
parts true b h = cc
parts false b h = (refl, h)

spares-Spares : (p : Bytes) (ops : List Op) → spares p ops ≡ true → Spares p ops
unfolding spares
spares-Spares p [] h = tt
spares-Spares p (op ∷ ops) h =
    let (untouched, rest) = parts (touches p op) (spares p ops) h in
    (untouched, spares-Spares p ops rest)

abbrev pub config : Config
config = record {
  log_dir = codes "l/";
  changes_dir = codes "c/";
  tmp_dir = codes "t/";
  run_dir = codes "r/";
}

abbrev pub state : State
state = record { sequence_number = 42; timestamp = 77 }

abbrev pub done_files : List Bytes
done_files = codes "a.log" ∷ []

pub done_files-Separate : Separate config state true 3 done_files (codes "l/a.log")
unfolding spares prepare move_change move_pbf move_state move_current finish bytes_eq state_path
    osc_path path print to_string
done_files-Separate = record {
  log_prepare = spares-Spares (codes "l/a.log") (prepare config state 3 done_files) refl;
  log_change = spares-Spares (codes "l/a.log") (move_change config state) refl;
  log_pbf = spares-Spares (codes "l/a.log") (move_pbf config state true) refl;
  log_state = spares-Spares (codes "l/a.log") (move_state config state) refl;
  current_prepare =
      spares-Spares (current_state config state) (prepare config state 3 done_files) refl;
  current_change = spares-Spares (current_state config state) (move_change config state) refl;
  current_pbf = spares-Spares (current_state config state) (move_pbf config state true) refl;
  current_move_state = spares-Spares (current_state config state) (move_state config state) refl;
  current_finish = spares-Spares (current_state config state) (finish config state done_files) refl;
  change_pbf =
      spares-Spares (change_file config state (codes ".gz")) (move_pbf config state true) refl;
  change_state =
      spares-Spares (change_file config state (codes ".gz")) (move_state config state) refl;
  change_current =
      spares-Spares (change_file config state (codes ".gz")) (move_current config state) refl;
  change_finish =
      spares-Spares (change_file config state (codes ".gz")) (finish config state done_files) refl;
  state_current = spares-Spares (state_file config state) (move_current config state) refl;
  state_finish = spares-Spares (state_file config state) (finish config state done_files) refl;
  new_change_prepare =
      spares-Spares (new_change config state ++ codes ".gz") (prepare config state 3 done_files)
        refl;
  new_state_prepare =
      spares-Spares (new_state config state) (prepare config state 3 done_files) refl;
  new_state_change = spares-Spares (new_state config state) (move_change config state) refl;
  new_state_pbf = spares-Spares (new_state config state) (move_pbf config state true) refl;
  copy_prepare =
      spares-Spares (new_state config state ++ codes ".copy") (prepare config state 3 done_files)
        refl;
  copy_change =
      spares-Spares (new_state config state ++ codes ".copy") (move_change config state) refl;
  copy_pbf =
      spares-Spares (new_state config state ++ codes ".copy") (move_pbf config state true) refl;
  copy_state =
      spares-Spares (new_state config state ++ codes ".copy") (move_state config state) refl;
}

-- The four files that the run has prepared, and the old state.
abbrev disk : Disk
disk path =
    if bytes_eq path (codes "t/new-change.osc.gz")
    then some (codes "gz")
    else if bytes_eq path (codes "t/new-change.osc.pbf")
    then some (codes "pbf")
    else if bytes_eq path (codes "t/new-state.txt") || bytes_eq path (codes "t/new-state.txt.copy")
    then some (codes "42")
    else if bytes_eq path (codes "c/state.txt")
    then some (codes "41")
    else if bytes_eq path (codes "l/a.log")
    then some (codes "log")
    else none

abbrev publish_ops : List Op
publish_ops = publish config state true 3 done_files

-- The run is not cut off before its end.
publish_ends : (run_ops publish_ops disk).1 ≡ true
unfolding run_ops run_op publish bytes_eq prepare move_change move_pbf move_state move_current
    finish
publish_ends = refl

abbrev published : Disk
published = (run_ops publish_ops disk).0

publish_order_example :
    ((published (codes "c/state.txt") ≡ disk (codes "c/state.txt"))
      × (published (codes "l/a.log") ≡ disk (codes "l/a.log")))
    ⊎ ((published (codes "c/state.txt") ≡ disk (codes "t/new-state.txt.copy"))
        × (published (state_file config state) ≡ disk (codes "t/new-state.txt"))
        × (published (change_file config state (codes ".gz")) ≡ disk (codes "t/new-change.osc.gz")))
publish_order_example =
    publish_order config state true 3 done_files (codes "l/a.log") disk published
      done_files-Separate (run_ops-Cut publish_ops disk)

abbrev pub no_db : Database
no_db = record {
  node_rows = λ q. [];
  way_rows = λ q. [];
  relation_rows = λ q. [];
  node_tags = λ q. [];
  way_tags = λ q. [];
  relation_tags = λ q. [];
  way_nodes = λ q. [];
  member_rows = λ q. [];
  changeset_rows = λ ids. [];
}

abbrev pub outside : Outside
outside = record {
  listing = codes "a.log" ∷ [];
  now = 5;
  pid = 3;
  strftime = λ t. codes "Fri";
  osc_gz = λ os. codes "gz";
  pbf = λ os. codes "pbf";
}

abbrev pub log_disk : Disk
log_disk path = if bytes_eq path (codes "l/a.log") then some (codes "0/0 0 N n5 v1 c7\n") else none

abbrev options : Options
options = record {
  log_file_names = [];
  init_state = 1;
  max_changes = 100;
  with_comment = false;
  dry_run = true;
  with_pbf_output = false;
}

abbrev run_ops_of : List Op
run_ops_of = (create_diff sample no_db outside log_disk config options).run.ops

abbrev exit_ops_of : List Op
exit_ops_of = (create_diff sample no_db outside log_disk config options).at_exit

abbrev run_disk : Disk
run_disk = (run_ops run_ops_of log_disk).0

abbrev exit_disk : Disk
exit_disk = (run_ops exit_ops_of run_disk).0

create_diff_dry_run_example :
    (run_disk (codes "l/a.log") ≡ log_disk (codes "l/a.log"))
    × (exit_disk (codes "l/a.log") ≡ log_disk (codes "l/a.log"))
unfolding bytes_eq pid_path
create_diff_dry_run_example =
    create_diff_dry_run sample no_db outside log_disk run_disk exit_disk config options
      (codes "l/a.log") refl refl refl refl refl refl (run_ops-Cut run_ops_of log_disk)
      (run_ops-Cut exit_ops_of run_disk)

critical-Spares : Spares (lock_file config state) (critical_section config state true 3 done_files)
unfolding spares rename_logs move_change move_pbf move_state move_current bytes_eq state_path
    osc_path path print to_string
critical-Spares =
    spares-Spares (lock_file config state) (critical_section config state true 3 done_files) refl

publish-Done_example : (published ≡ disk) ⊎ Done publish_ops disk published
unfolding run_ops run_op publish bytes_eq prepare move_change move_pbf move_state move_current
    finish
publish-Done_example =
    publish-Done config state true 3 done_files disk published critical-Spares
      (run_ops-Cut publish_ops disk) refl
