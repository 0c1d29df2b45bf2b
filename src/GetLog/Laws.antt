-- ===== src/GetLog/Laws.antt =====
-- The log file of osmdbt-get-log: read_log reads from it what the plugin wrote.
use osmdbt.Common.{
  append-nil, map, ◌++◌, Option, none, Result, err, or_true, ℕ, ◌≡◌, refl, ap, ◌∙◌, Bool, true,
  false, List, [], ◌∷◌, some, Bytes, ok, ◌||◌,
}
use mathlib.Core.Path.{subst}
use osmdbt.Osm.{Osmium, IsDocumented}
use osmdbt.OsmObj.{OsmObj, Reading}
use osmdbt.OsmObj.Added.{add_all}
use osmdbt.OsmObj.ReadLog.{read_content, read_log}
use osmdbt.Files.{Op, Disk, write_data_to_file, create_replication_log_name}
use osmdbt.Files.Prefix.{Done}
use osmdbt.Files.WriteData.{write_data_to_file-Done}
use osmdbt.GetLog.{
  Step, on_file, advance_slot, files, files_in, then_advance, get_log_rows, PeekRow, LogState,
  log_row, log_rows, log_start, lsn_dash, write_log, get_log,
}
use osmdbt.GetLog.Lines.{
  Message, commit, version, objects_of, log_rows-content, message_text, Carries,
  read_lines-all_lines, one,
}

-- The name that osmdbt-get-log gives the log file of the rows.
abbrev pub log_name : Osmium → Bool → ℕ → List PeekRow → Bytes
log_name osm real_state now rows =
    create_replication_log_name osm (lsn_dash (log_rows real_state rows log_start).lsn) now

files_in-append :
    (ops : List Op) (steps : List Step)
    → files_in (map on_file ops ++ steps) ≡ ops ++ files_in steps
files_in-append [] steps = refl
files_in-append (op ∷ ops) steps = ap (◌∷◌ op) (files_in-append ops steps)

files_in-map : (ops : List Op) → files_in (map on_file ops) ≡ ops
files_in-map [] = refl
files_in-map (op ∷ ops) = ap (◌∷◌ op) (files_in-map ops)

pub files-then_advance :
    (ops : List Op) (r : Result (Option Bytes)) → files (then_advance ops r) ≡ ops
unfolding files then_advance
files-then_advance ops (err fault) = files_in-map ops
files-then_advance ops (ok none) = files_in-map ops
files-then_advance ops (ok (some lsn)) =
    files_in-append ops (advance_slot lsn ∷ []) ∙ append-nil ops

pub files-get_log :
    (osm : Osmium) (real_state catchup : Bool) (now : ℕ) (log_dir : Bytes) (rows : List PeekRow)
    → files (get_log osm real_state catchup now log_dir rows)
      ≡ write_log osm now log_dir (log_rows real_state rows log_start)
unfolding get_log
files-get_log osm real_state catchup now log_dir [] = unfold files in refl
files-get_log osm real_state catchup now log_dir (row ∷ rows) =
    unfold get_log_rows in files-then_advance _ _

module _ (osm : Osmium) (documented : IsDocumented osm) where
  abbrev is_some_object : List OsmObj → Bool
  is_some_object [] = false
  is_some_object (o ∷ os) = true

  log_row-has :
      (real_state : Bool) (row : PeekRow) (m : Message) (s : LogState)
      → row.message ≡ message_text osm documented m
      → (log_row real_state row s).has_actual_data
        ≡ (is_some_object (one osm documented m) || s.has_actual_data)
  unfolding log_row
  log_row-has real_state row commit s e = rw e
  log_row-has real_state row (version obj n) s e = rw e

  or_objects :
      (m : Message) (ms : List Message) (b : Bool)
      → (is_some_object (objects_of ms) || (is_some_object (one osm documented m) || b))
        ≡ (is_some_object (objects_of (m ∷ ms)) || b)
  or_objects commit ms b = refl
  or_objects (version obj n) ms b = or_true (is_some_object (objects_of ms))

  -- The log is written exactly if some message is a new version.
  log_rows-has :
      (real_state : Bool) (rows : List PeekRow) (ms : List Message) (s : LogState)
      → Carries osm documented rows ms
      → (log_rows real_state rows s).has_actual_data
        ≡ (is_some_object (objects_of ms) || s.has_actual_data)
  unfolding log_rows
  log_rows-has real_state [] [] s h = refl
  log_rows-has real_state [] (m ∷ ms) s h = absurd h
  log_rows-has real_state (row ∷ rows) [] s h = absurd h
  log_rows-has real_state (row ∷ rows) (m ∷ ms) s ((e, sane, hl, hx), h) =
      log_rows-has real_state rows ms (log_row real_state row s) h
      ∙ (ap (λ b. is_some_object (objects_of ms) || b) (log_row-has real_state row m s e)
          ∙ or_objects m ms s.has_actual_data)

  module _ (real_state catchup : Bool) (now : ℕ) (log_dir : Bytes) where
    pub read_log-get_log :
        (rows : List PeekRow) (ms : List Message) (obj : OsmObj) (objs : List OsmObj) (r : Reading)
        {disk disk' : Disk}
        → Carries osm documented rows ms
        → objects_of ms ≡ obj ∷ objs
        → Done (files (get_log osm real_state catchup now log_dir rows)) disk disk'
        → read_log osm disk' log_dir (log_name osm real_state now rows) r
          ≡ ok (add_all (obj ∷ objs) r)
    unfolding read_log
    read_log-get_log rows ms obj objs r {disk} {disk'} h some_object done =
        let s = log_rows real_state rows log_start in
        let has : s.has_actual_data ≡ true =
          log_rows-has real_state rows ms log_start h ∙ rw some_object in
        let written : write_log osm now log_dir s
            ≡ write_data_to_file s.content log_dir (log_name osm real_state now rows) =
          unfold write_log in rw has in
        let done' =
          subst (λ ops. Done ops disk disk')
            (files-get_log osm real_state catchup now log_dir rows ∙ written) done in
        ap (λ c. read_content osm c r)
          (write_data_to_file-Done s.content log_dir (log_name osm real_state now rows) done'
            ∙ ap some (log_rows-content real_state rows log_start))
        ∙ (read_lines-all_lines osm documented real_state rows ms r h
            ∙ ap (λ os. ok (add_all os r)) some_object)
