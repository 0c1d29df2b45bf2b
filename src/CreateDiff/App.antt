-- ===== src/CreateDiff/App.antt =====
-- `app` of osmdbt-create-diff. The messages on the progress and the header of the output files are
-- left out; the text of the output files is a parameter.
pub mod Laws
pub mod Published
use osmdbt.Common.{
  ℕ, ◌^◌, ◌-◌, ◌≡◌, refl, Bool, true, false, List, [], ◌∷◌, ◌++◌, Option, none, some, if◌then◌else◌,
  Bytes, codes, Result, ok, err, bytes_eq, ◌||◌, ◌>>=◌,
}
use osmdbt.Osm.{Osmium}
use osmdbt.OsmObj.{OsmObj, OsmObjects, Cache, Reading, no_objects, empty}
use osmdbt.OsmObj.ReadLog.{Files}
use osmdbt.Options.{VariablesMap}
use osmdbt.OsmObj.Order.{sort_objects, sort_names}
use osmdbt.State.{State, write_state}
use osmdbt.Files.{Op, overwrite, Disk}
use osmdbt.PidFile.{pid_file_open, pid_file_close}
use osmdbt.CreateDiff.Rows.{Object}
use osmdbt.CreateDiff.Query.{Database, populate_changeset_cache}
use osmdbt.CreateDiff.Process.{process_nodes, process_ways, process_relations}
use osmdbt.CreateDiff.Publish.{Config, publish}
use osmdbt.CreateDiff.Select.{read_log_files, get_state}

pub record Options : Type 0 where
  pub log_file_names : List Bytes
  pub init_state : ℕ
  pub max_changes : ℕ
  pub with_comment : Bool
  pub dry_run : Bool
  pub with_pbf_output : Bool

abbrev pub create_diff_options : VariablesMap → Result Options
create_diff_options vm = ok (record {
  log_file_names = if vm.contains (codes "log-file") then vm.texts (codes "log-file") else [];
  init_state =
      if vm.contains (codes "sequence-number") then vm.number (codes "sequence-number") else 0;
  max_changes =
      if vm.contains (codes "max-changes") then vm.number (codes "max-changes") else 2 ^ 32 - 1;
  with_comment = vm.contains (codes "with-comment");
  dry_run = vm.contains (codes "dry-run");
  with_pbf_output = vm.contains (codes "with-pbf-output");
})

-- What the run takes from outside: the names of the files in log_dir, the clock, the process id, the
-- C library's strftime, and libosmium's output in the two formats.
pub record Outside : Type 0 where
  pub listing : List Bytes
  pub now : ℕ
  pub pid : ℕ
  pub strftime : ℕ → Bytes
  pub osc_gz : List Object → Bytes
  pub pbf : List Object → Bytes

-- What a run does to the disk, and how it ends.
pub record Run : Type 0 where
  pub ops : List Op
  pub result : Result Bool

-- A run, and what is done to the disk when it has ended by itself, with a result or an exception.
pub record Command : Type 0 where
  pub run : Run
  pub at_exit : List Op

-- The names with the extension .log; a name that is nothing else has no extension.
unfoldable pub has_log_extension : Bytes → Bool
has_log_extension [] = false
has_log_extension (c ∷ name) =
    let rest = has_log_extension name in bytes_eq name (codes ".log") || rest

log_names : List Bytes → List Bytes
unfolding has_log_extension
log_names [] = []
log_names (name ∷ names) =
    let rest = log_names names in if has_log_extension name then name ∷ rest else rest

-- The objects of one type, none of them if none was named in the logs.
process_type : List OsmObj → (ℕ → Result (List Object × ℕ)) → ℕ → Result (List Object × ℕ)
process_type [] process max_timestamp = ok ([], max_timestamp)
process_type (obj ∷ objs) process max_timestamp = process max_timestamp

-- The nodes, then the ways, then the relations, and the largest time seen.
unfoldable pub process_all : Osmium → Database → Cache → OsmObjects → Result (List Object × ℕ)
unfolding process_type
process_all osm db cucache objs = do
  nodes ← process_type objs.nodes (process_nodes osm db cucache objs.nodes) 0
  ways ← process_type objs.ways (process_ways osm db cucache objs.ways) nodes.1
  relations ← process_type objs.relations (process_relations osm db cucache objs.relations) ways.1
  ok (nodes.0 ++ (ways.0 ++ relations.0), relations.1)

module _ (osm : Osmium) (db : Database) (out : Outside) (disk : Disk) (config : Config)
    (options : Options) where
  -- The two output files are opened, and cleared; then they are written.
  abbrev pub opened : List Op
  opened =
      overwrite (config.tmp_dir ++ codes "new-change.osc.gz") []
      ∷ overwrite (config.tmp_dir ++ codes "new-change.osc.pbf") []
      ∷ []

  abbrev pub outputs : List Object → List Op
  outputs objects =
      overwrite (config.tmp_dir ++ codes "new-change.osc.gz") []
      ∷ overwrite (config.tmp_dir ++ codes "new-change.osc.pbf") []
      ∷ overwrite (config.tmp_dir ++ codes "new-change.osc.gz") (out.osc_gz objects)
      ∷ overwrite (config.tmp_dir ++ codes "new-change.osc.pbf") (out.pbf objects)
      ∷ []

  -- The state file and its copy.
  abbrev pub states : State → List Op
  states state =
      let comment = if options.with_comment then out.now else 0 in
      write_state osm out.strftime state (config.tmp_dir ++ codes "new-state.txt") comment
      ++ write_state osm out.strftime state (config.tmp_dir ++ codes "new-state.txt.copy") comment

  unfoldable pub run_state : List Object → List Bytes → Result State → Run
  run_state objects read_files (err e) = record { ops = outputs objects; result = err e }
  run_state objects read_files (ok state) = record {
    ops =
        outputs objects
        ++ (states state
            ++ (if options.dry_run
                then []
                else publish config state options.with_pbf_output out.pid read_files));
    result = ok true;
  }

  pub run_processed : List Bytes → Result (List Object × ℕ) → Run
  unfolding run_state
  run_processed read_files (err e) = record { ops = opened; result = err e }
  run_processed read_files (ok (objects, max_timestamp)) =
      run_state objects read_files
        (get_state osm disk config.changes_dir options.init_state max_timestamp)

  abbrev pub or_empty : Option Cache → Cache
  or_empty none = []
  or_empty (some c) = c

  pub run_read : Result (Reading × List Bytes) → Run
  unfolding run_processed
  run_read (err e) = record { ops = []; result = err e }
  run_read (ok ((objects, cucache), read_files)) =
      if empty objects
      then record { ops = []; result = ok true }
      else run_processed read_files (
          process_all osm db (populate_changeset_cache db (or_empty cucache))
            (sort_objects osm objects))

  -- The run with these log files.
  pub run_logs : List Bytes → Run
  unfolding run_read
  run_logs [] = record { ops = []; result = ok true }
  run_logs (file ∷ files) = run_read (
      read_log_files osm disk config.log_dir options.max_changes (sort_names (file ∷ files))
        (no_objects, some []) [])

  -- The log files of the command line, or else those in log_dir.
  log_files : List Bytes → List Bytes
  unfolding log_names
  log_files [] = log_names out.listing
  log_files (file ∷ files) = file ∷ files

  -- The constructor of PIDFile comes first; its destructor runs when the work has returned or thrown.
  pub create_diff : Command
  unfolding run_logs log_files
  create_diff =
      let run = run_logs (log_files options.log_file_names) in
      record {
        run = record run {
          ops = pid_file_open config.run_dir (codes "osmdbt-create-diff") out.pid ++ run.ops;
        };
        at_exit = pid_file_close config.run_dir (codes "osmdbt-create-diff");
      }
