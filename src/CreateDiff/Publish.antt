-- ===== src/CreateDiff/Publish.antt =====
-- The end of the run of osmdbt-create-diff: the lock file, and the files moved to their final places.
pub mod Order
pub mod Lock
use osmdbt.Common.{ℕ, ◌≡◌, Bool, List, [], ◌∷◌, ◌++◌, if◌then◌else◌, Bytes, codes}
use osmdbt.Number.{to_string}
use osmdbt.State.{State, state_path, osc_path, dir1_path, dir2_path}
use osmdbt.Files.{Op, excl_write_open, write, rename, unlink, sync_dir, create_directories}

-- The directories of Config; each ends in a slash.
pub record Config : Type 0 where
  pub log_dir : Bytes
  pub changes_dir : Bytes
  pub tmp_dir : Bytes
  pub run_dir : Bytes

log_file_lines : List Bytes → Bytes
log_file_lines [] = []
log_file_lines (file ∷ files) = file ++ (codes "\n" ++ log_file_lines files)

unfoldable pub lock_text : ℕ → State → List Bytes → Bytes
unfolding log_file_lines
lock_text pid state log_files =
    codes "# If this file is left around osmdbt-create-diff crashed in a criticial section.\n"
    ++ (codes "# Check log, diff, and state files and clean up.\nosmdbt-create-diff-pid="
        ++ (to_string pid
            ++ (codes "\nnew-state="
                ++ (to_string state.sequence_number
                    ++ (codes "\nlog-files:\n" ++ log_file_lines log_files)))))

write_lock_file : Bytes → ℕ → State → List Bytes → List Op
write_lock_file path pid state log_files =
    excl_write_open path ∷ write path (lock_text pid state log_files) ∷ []

-- Every log file that was read gets the suffix .done.
unfoldable pub rename_logs : Bytes → List Bytes → List Op
rename_logs log_dir [] = []
rename_logs log_dir (file ∷ files) =
    rename (log_dir ++ file) (log_dir ++ (file ++ codes ".done")) ∷ rename_logs log_dir files

module _ (config : Config) (state : State) where
  abbrev pub lock_file : Bytes
  lock_file = config.tmp_dir ++ codes "osmdbt-create-diff.lock"

  abbrev pub new_change : Bytes
  new_change = config.tmp_dir ++ codes "new-change.osc"

  abbrev pub new_state : Bytes
  new_state = config.tmp_dir ++ codes "new-state.txt"

  abbrev pub change_file : Bytes → Bytes
  change_file suffix = config.changes_dir ++ (osc_path state ++ suffix)

  abbrev pub state_file : Bytes
  state_file = config.changes_dir ++ state_path state

  abbrev pub current_state : Bytes
  current_state = config.changes_dir ++ codes "state.txt"

  -- The lock, and the directories.
  unfoldable pub prepare : ℕ → List Bytes → List Op
  unfolding write_lock_file
  prepare pid log_files =
      write_lock_file lock_file pid state log_files
      ++ sync_dir config.tmp_dir ∷ create_directories (config.changes_dir ++ dir2_path state) ∷ []

  unfoldable pub move_change : List Op
  move_change = rename (new_change ++ codes ".gz") (change_file (codes ".gz")) ∷ []

  unfoldable pub move_pbf : Bool → List Op
  move_pbf with_pbf_output =
      if with_pbf_output
      then rename (new_change ++ codes ".pbf") (change_file (codes ".pbf")) ∷ []
      else []

  unfoldable pub move_state : List Op
  move_state =
      rename new_state state_file
      ∷ sync_dir (config.changes_dir ++ dir2_path state)
      ∷ sync_dir (config.changes_dir ++ dir1_path state)
      ∷ []

  unfoldable pub move_current : List Op
  move_current =
      rename (new_state ++ codes ".copy") current_state ∷ sync_dir config.changes_dir ∷ []

  unfoldable pub finish : List Bytes → List Op
  unfolding rename_logs
  finish log_files =
      rename_logs config.log_dir log_files
      ++ sync_dir config.log_dir ∷ unlink lock_file ∷ sync_dir config.tmp_dir ∷ []

  -- The block of `app` that a dry run leaves out.
  unfoldable pub publish : Bool → ℕ → List Bytes → List Op
  publish with_pbf_output pid log_files =
      prepare pid log_files
      ++ (move_change
          ++ (move_pbf with_pbf_output ++ (move_state ++ (move_current ++ finish log_files))))
