-- ===== src/Tests/Fakes.antt =====
-- The theorems on osmdbt-fake-log at concrete inputs.
use mathlib.Core.List.{Perm}
use osmdbt.Common.{
  ℕ, ◌≡◌, ◌≢◌, ◌<◌, ◌%◌, ◌^◌, refl, ap, sym, ◌∙◌, List, [], ◌∷◌, ◌++◌, none, Bytes, codes, bytes_eq,
  bytes_eq→eq, ok, arith, pos, map, All, drop, inl, inr, Bool-cases,
}
use osmdbt.Number.{strtoull, starts_number}
use osmdbt.Number.Digits.{print, digit_value}
use osmdbt.Number.RoundTrip.{strtoull-print}
use osmdbt.Osm.{Osmium, node, way, relation}
use osmdbt.OsmObj.{Reading, no_objects, is_nwr, first}
use osmdbt.OsmObj.Order.{sort}
use osmdbt.OsmObj.ReadLog.{read_log}
use osmdbt.Files.{Disk, Op, run_op, run_ops, write_data_to_file, create_replication_log_name}
use osmdbt.Files.Prefix.{Done, run_ops-Done}
use osmdbt.Catchup.{get_lsn, match_fixed}
use osmdbt.OsmObj.Added.{add_all}
use osmdbt.FakeLog.{
  LogEntry, TimeRow, TimeDatabase, ObjectsDone, minute_name, entry_ltb, fake_log_entries,
  read_changes, objects_done_of, none_done, add_done,
}
use osmdbt.FakeLog.Loop.{minutes}
use osmdbt.FakeLog.Entries.{entry_objs, IsEntry, IsAtMinute, IsAscending, all_entries}
use osmdbt.FakeLog.LogFiles.{HasNames, minute_file, read_log-fake_log}
use osmdbt.FakeLog.Filter.{
  read_changes_lem, entry_of, rows_left, AllDone, objects_done_of-AllDone, dir_of,
}
use osmdbt.FakeLog.Names.{get_lsn-minute_name}
use osmdbt.Tests.Sample.{sample, sample-IsDocumented}

abbrev clock : ℕ → ℕ
clock t = 9

abbrev log_dir : Bytes
log_dir = codes "l/"

-- The minute in the name of a file.
abbrev minute_of : Bytes → ℕ
minute_of s = (strtoull 10 (drop 13 s)).0

minute_of-minute_file :
    (t : ℕ) → t < 2 ^ 32 → minute_of (minute_file sample clock log_dir t) ≡ t % 2 ^ 32
unfolding minute_name create_replication_log_name print starts_number digit_value
minute_of-minute_file t h =
    ap (λ p. p.0)
      (strtoull-print 10 (omega arith) (omega arith) (t % 2 ^ 32) (codes ".log") (omega arith) refl
        ((λ h. omega (arith, h)), (λ h. omega (arith, h))))

names : HasNames sample clock log_dir
names t u h k =
    elim (Bool-cases
      (bytes_eq (minute_file sample clock log_dir u) (minute_file sample clock log_dir t))) [
        | inl e ↦ absurd (
            omega (
              arith,
              sym (minute_of-minute_file u k)
                  ∙ ap minute_of (bytes_eq→eq _ _ e)
                  ∙ minute_of-minute_file t (omega arith),
            ))
        | inr e ↦ e
      ]

abbrev node_entry : LogEntry
node_entry = record { time = 120; type = node; id = pos 5; version = 2; cid = 7 }

abbrev way_entry : LogEntry
way_entry = record { time = 60; type = way; id = pos 6; version = 1; cid = 8 }

node_entry-IsEntry : IsEntry node_entry
unfolding is_nwr
node_entry-IsEntry = record {
  loggable = record {
    nwr = refl;
    id = refl;
    id_lt = omega arith;
    version_lt = omega arith;
    cid_lt = omega arith;
  };
  has_time = omega arith;
  time_lt = omega arith;
}

way_entry-IsEntry : IsEntry way_entry
unfolding is_nwr
way_entry-IsEntry = record {
  loggable = record {
    nwr = refl;
    id = refl;
    id_lt = omega arith;
    version_lt = omega arith;
    cid_lt = omega arith;
  };
  has_time = omega arith;
  time_lt = omega arith;
}

abbrev entries : List LogEntry
entries = node_entry ∷ way_entry ∷ []

abbrev no_files : Disk
no_files path = none

abbrev fake_ops : List Op
fake_ops = (fake_log_entries sample clock log_dir entries).0

abbrev fake_disk : Disk
fake_disk = (run_ops fake_ops no_files).0

fake-Done : Done fake_ops no_files fake_disk
unfolding run_ops fake_log_entries write_data_to_file run_op bytes_eq create_replication_log_name
    print sort
fake-Done = run_ops-Done fake_ops no_files refl

abbrev nothing_read : Reading
nothing_read = (no_objects, none)

read_log-fake_log_example :
    let ms = minutes (sort (entry_ltb sample) entries) in
    All
      (λ m.
        read_log sample fake_disk log_dir (minute_name sample clock log_dir m.0) nothing_read
        ≡ ok (add_all (entry_objs m.1) nothing_read))
      ms
    × All IsAtMinute ms
    × IsAscending ms
    × Perm (all_entries ms) entries
read_log-fake_log_example =
    read_log-fake_log sample clock log_dir sample-IsDocumented entries nothing_read names
      (node_entry-IsEntry, (way_entry-IsEntry, tt)) fake-Done

abbrev time_rows : Bytes → List TimeRow
time_rows iso =
    record { ts = 60; id = pos 5; version = 1; changeset_id = 7 }
    ∷ record { ts = 120; id = pos 5; version = 2; changeset_id = 7 }
    ∷ []

abbrev time_db : TimeDatabase
time_db = record { node_rows = time_rows; way_rows = λ iso. []; relation_rows = time_rows }

abbrev some_done : ObjectsDone
some_done = record { nodes = record { id = pos 5; version = 1 } ∷ []; ways = []; relations = [] }

read_changes_lem_example :
    let iso = sample.to_iso 50 in
    read_changes sample clock log_dir time_db 50 some_done
    ≡ map (entry_of node) (rows_left some_done.nodes (time_db.node_rows iso))
      ++ (map (entry_of way) (rows_left some_done.ways (time_db.way_rows iso))
          ++ map (entry_of relation) (rows_left some_done.relations (time_db.relation_rows iso)))
read_changes_lem_example = read_changes_lem sample clock log_dir time_db 50 some_done

abbrev name_120 : Bytes
name_120 = minute_name sample clock log_dir 120

abbrev read_120 : Reading
read_120 = add_all (entry_objs (node_entry ∷ [])) nothing_read

read_log-name_120 :
    read_log sample fake_disk (dir_of log_dir name_120) name_120 nothing_read ≡ ok read_120
unfolding sort entry_ltb minute_name create_replication_log_name first
read_log-name_120 = read_log-fake_log_example.0.1.0

name_120-done :
    objects_done_of sample fake_disk log_dir (name_120 ∷ []) none_done
    ≡ ok (add_done read_120.0 none_done)
unfolding objects_done_of
name_120-done = rw read_log-name_120 refl

objects_done_of-AllDone_example : AllDone read_120.0 (add_done read_120.0 none_done)
objects_done_of-AllDone_example =
    objects_done_of-AllDone sample fake_disk log_dir [] [] name_120 none_done
      (add_done read_120.0 none_done) read_120 name_120-done read_log-name_120

-- A libosmium that writes all times alike.
abbrev noon : Bytes
noon = codes "2020-03-06T12:00:00Z"

abbrev sample_noon : Osmium
sample_noon = record sample { to_iso = λ t. noon; to_iso_all = λ t. noon }

get_lsn-minute_name_example :
    get_lsn (codes "a" ∷ minute_name sample_noon clock log_dir 60 ∷ codes "b.log" ∷ [])
    ≢ ok (record { lsn = 0 })
unfolding match_fixed
get_lsn-minute_name_example =
    get_lsn-minute_name sample_noon clock log_dir 60 (codes "a" ∷ []) (codes "b.log" ∷ []) b'2'
      (codes "020-03-06T12:00:00Z") (record { lsn = 0 }) refl refl (λ h. omega (arith, h))
