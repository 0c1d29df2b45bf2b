-- ===== src/CreateDiff/App/Laws.antt =====
-- What a run of osmdbt-create-diff leaves alone, and the number that it gives its state.
use osmdbt.Common.{
  ℕ, ◌+◌, ◌<◌, arith, ◌≡◌, ap, ◌∙◌, true, false, List, [], ◌∷◌, ◌++◌, some, Bytes, codes, bytes_eq,
  Result, ok, err, ◌>>=◌, Bool-cases, inl, inr, All-append,
}
use osmdbt.Osm.{Osmium, IsDocumented, Lacks}
use osmdbt.OsmObj.{Reading, empty}
use osmdbt.State.{State, state_text, write_state, next_state}
use osmdbt.State.RoundTrip.{IsComplete, read-state_text}
use osmdbt.Files.{Disk}
use osmdbt.Files.Prefix.{Cut, Spares, Cut-Spares}
use osmdbt.PidFile.{pid_path, pid_file_open, pid_file_close}
use osmdbt.CreateDiff.Rows.{Object}
use osmdbt.CreateDiff.Query.{Database}
use osmdbt.CreateDiff.Publish.{Config}
use osmdbt.CreateDiff.Select.{get_state, next_of_file}
use osmdbt.CreateDiff.App.{
  Options, Outside, run_state, run_processed, run_read, run_logs, create_diff,
}

pid_file_open-Spares :
    (dir name : Bytes) (pid : ℕ) (p : Bytes)
    → bytes_eq (pid_path dir name) p ≡ false
    → Spares p (pid_file_open dir name pid)
unfolding pid_file_open
pid_file_open-Spares [] name pid p h = tt
pid_file_open-Spares (c ∷ dir) name pid p h = (h, (h, tt))

pid_file_close-Spares :
    (dir name p : Bytes)
    → bytes_eq (pid_path dir name) p ≡ false
    → Spares p (pid_file_close dir name)
unfolding pid_file_close
pid_file_close-Spares [] name p h = tt
pid_file_close-Spares (c ∷ dir) name p h = (h, tt)

module _ (osm : Osmium) (db : Database) (out : Outside) (disk : Disk) (config : Config)
    (options : Options) (dry : options.dry_run ≡ true) (p : Bytes)
    (osc : bytes_eq (config.tmp_dir ++ codes "new-change.osc.gz") p ≡ false)
    (pbf : bytes_eq (config.tmp_dir ++ codes "new-change.osc.pbf") p ≡ false)
    (state_txt : bytes_eq (config.tmp_dir ++ codes "new-state.txt") p ≡ false)
    (copy : bytes_eq (config.tmp_dir ++ codes "new-state.txt.copy") p ≡ false) where
  run_state-Spares :
      (objects : List Object) (files : List Bytes) (r : Result State)
      → Spares p (run_state osm db out disk config options objects files r).ops
  unfolding run_state write_state
  run_state-Spares objects files (err e) = (osc, (pbf, (osc, (pbf, tt))))
  run_state-Spares objects files (ok s) =
      rw dry (osc, (pbf, (osc, (pbf, (state_txt, (state_txt, (copy, (copy, tt))))))))

  run_processed-Spares :
      (files : List Bytes) (r : Result (List Object × ℕ))
      → Spares p (run_processed osm db out disk config options files r).ops
  unfolding run_processed
  run_processed-Spares files (err e) = (osc, (pbf, tt))
  run_processed-Spares files (ok (objects, t)) = run_state-Spares objects files _

  run_read-Spares :
      (r : Result (Reading × List Bytes)) → Spares p (run_read osm db out disk config options r).ops
  unfolding run_read
  run_read-Spares (err e) = tt
  run_read-Spares (ok ((objects, cucache), files)) = elim (Bool-cases (empty objects)) [
    | inl e ↦ rw e tt
    | inr e ↦ rw e (run_processed-Spares files _)
  ]

  run_logs-Spares :
      (files : List Bytes) → Spares p (run_logs osm db out disk config options files).ops
  unfolding run_logs
  run_logs-Spares [] = tt
  run_logs-Spares (file ∷ files) = run_read-Spares _

  dry_run-Spares :
      bytes_eq (pid_path config.run_dir (codes "osmdbt-create-diff")) p ≡ false
      → Spares p (create_diff osm db out disk config options).run.ops
  unfolding create_diff
  dry_run-Spares pid =
      All-append _ (pid_file_open config.run_dir (codes "osmdbt-create-diff") out.pid) _
        (pid_file_open-Spares config.run_dir _ out.pid p pid) (run_logs-Spares _)

-- A dry run changes no file but its pid file, osmdbt-create-diff.pid in run_dir, and the two new change
-- files and the two new state files in tmp_dir: no file with another name `p`. This holds however far it
-- gets, be it that it is cut off at `disk'`, or that it ends there by itself or by an exception and is cut off
-- after some of the operations that the destructor of the pid file does then.
pub create_diff_dry_run :
    (osm : Osmium) (db : Database) (out : Outside) (disk disk' disk'' : Disk) (config : Config)
    (options : Options) (p : Bytes)
    → options.dry_run ≡ true
    → bytes_eq (config.run_dir ++ codes "osmdbt-create-diff.pid") p ≡ false
    → bytes_eq (config.tmp_dir ++ codes "new-change.osc.gz") p ≡ false
    → bytes_eq (config.tmp_dir ++ codes "new-change.osc.pbf") p ≡ false
    → bytes_eq (config.tmp_dir ++ codes "new-state.txt") p ≡ false
    → bytes_eq (config.tmp_dir ++ codes "new-state.txt.copy") p ≡ false
    → Cut (create_diff osm db out disk config options).run.ops disk disk'
    → Cut (create_diff osm db out disk config options).at_exit disk' disk''
    → (disk' p ≡ disk p) × (disk'' p ≡ disk p)
unfolding create_diff pid_path
create_diff_dry_run osm db out disk disk' disk'' config options p dry pid osc pbf state_txt copy c
      last =
    let worked =
      Cut-Spares p (dry_run-Spares osm db out disk config options dry p osc pbf state_txt copy pid)
        c in
    (worked, Cut-Spares p (pid_file_close-Spares config.run_dir _ p pid) last ∙ worked)

-- Without a number on the command line, the state of a run is the one after the state that stands in
-- state.txt, as State::to_string wrote it: its number is one more, and its time is that of the run. The
-- numbers of the old state fit their types and are set, its sequence number is below 999999999, as the code
-- asserts, and its comment is one line.
pub get_state_next :
    (osm : Osmium) (strftime : ℕ → Bytes) (disk : Disk) (changes_dir : Bytes) (s : State)
    (comment timestamp : ℕ)
    → IsDocumented osm
    → IsComplete s
    → s.sequence_number < 999999999
    → Lacks b'\n' (strftime comment)
    → disk (changes_dir ++ codes "state.txt") ≡ some (state_text osm strftime s comment)
    → get_state osm disk changes_dir 0 timestamp
      ≡ ok (record { sequence_number = s.sequence_number + 1; timestamp = timestamp })
unfolding get_state next_of_file next_state
get_state_next osm strftime disk changes_dir s comment timestamp documented set below one_line e =
    ap (λ o. next_of_file osm o timestamp) e
    ∙ (ap (λ r. r >>= λ state. next_state state timestamp)
          (read-state_text osm documented strftime s comment set one_line)
        ∙ ground (arith, below))
