-- ===== src/Tests/Logs.antt =====
-- The theorems on files, log files and state files at concrete inputs.
use osmdbt.Common.{
  ℕ, ◌+◌, ◌≡◌, ◌⊎◌, refl, true, List, [], ◌∷◌, ◌++◌, none, some, Bytes, codes, bytes_eq, ok,
  if◌then◌else◌, arith, pos,
}
use osmdbt.Osm.{node}
use osmdbt.OsmObj.{OsmObj, Reading, no_objects, is_nwr, size}
use osmdbt.OsmObj.ReadLog.{read_log}
use osmdbt.OsmObj.ReadLog.Lines.{IsLoggable}
use osmdbt.State.{State, state_text, write_state, read_state}
use osmdbt.State.RoundTrip.{read_state-write_state}
use osmdbt.Files.{Disk, Op, run_op, run_ops, write_data_to_file, create_replication_log_name}
use osmdbt.Number.Digits.{print}
use osmdbt.Files.Prefix.{Done, run_ops-Cut, run_ops-Done}
use osmdbt.Files.WriteData.{write_data_to_file-atomic}
use osmdbt.GetLog.{PeekRow, get_log, write_log, log_rows, log_row, row_line, log_start, files}
use osmdbt.OsmObj.Added.{add_all}
use osmdbt.GetLog.Lines.{Message, commit, version, message_text, Carries}
use osmdbt.GetLog.Laws.{files-get_log, log_name, read_log-get_log}
use osmdbt.CreateDiff.Select.{get_state, read_log_files, Reads, read_log_files-Reads}
use osmdbt.CreateDiff.App.Laws.{get_state_next}
use osmdbt.Tests.Sample.{sample, sample-IsDocumented}

abbrev no_files : Disk
no_files path = none

-- The disk that a run of operations leaves behind.
abbrev after : List Op → Disk
after ops = (run_ops ops no_files).0

abbrev data_ops : List Op
data_ops = write_data_to_file (codes "x") (codes "log/") (codes "a")

write_data_to_file-atomic_example :
    (after data_ops (codes "log/" ++ codes "a") ≡ no_files (codes "log/" ++ codes "a"))
    ⊎ (after data_ops (codes "log/" ++ codes "a") ≡ some (codes "x"))
write_data_to_file-atomic_example =
    write_data_to_file-atomic (codes "x") (codes "log/") (codes "a") (run_ops-Cut data_ops no_files)

abbrev state_42 : State
state_42 = record { sequence_number = 42; timestamp = 77 }

abbrev date : ℕ → Bytes
date t = codes "Fri Mar 06"

abbrev state_ops : List Op
state_ops = write_state sample date state_42 (codes "state.txt") 5

state-Done : Done state_ops no_files (after state_ops)
unfolding run_ops write_state run_op
state-Done = run_ops-Done state_ops no_files refl

read_state-write_state_example :
    read_state sample (after state_ops) (codes "state.txt") ≡ ok state_42
read_state-write_state_example =
    read_state-write_state sample sample-IsDocumented date state_42 (codes "state.txt") 5
      (omega arith) (omega arith) state-Done

abbrev state_disk : Disk
state_disk path =
    if bytes_eq path (codes "c/state.txt") then some (state_text sample date state_42 5) else none

get_state_next_example :
    get_state sample state_disk (codes "c/") 0 99
    ≡ ok (record { sequence_number = 42 + 1; timestamp = 99 })
get_state_next_example =
    get_state_next sample date state_disk (codes "c/") state_42 5 99 sample-IsDocumented
      (omega arith) (omega arith) (omega arith) (unfold bytes_eq in refl)

abbrev node_5 : OsmObj
node_5 = record { type = node; id = pos 5; version = 2; cid = 7 }

node_5-IsLoggable : IsLoggable node_5 5
unfolding is_nwr
node_5-IsLoggable = record {
  nwr = refl;
  id = refl;
  id_lt = omega arith;
  version_lt = omega arith;
  cid_lt = omega arith;
}

abbrev messages : List Message
messages = version node_5 5 ∷ commit ∷ []

abbrev row_of : Message → PeekRow
row_of m = record {
  lsn = codes "0/1A";
  xid = codes "731";
  message = message_text sample sample-IsDocumented m;
}

abbrev rows : List PeekRow
rows = row_of (version node_5 5) ∷ row_of commit ∷ []

rows-Carries : Carries sample sample-IsDocumented rows messages
rows-Carries = (
  (refl, node_5-IsLoggable, omega arith, omega arith),
  ((refl, tt, omega arith, omega arith), tt),
)

abbrev log_ops : List Op
log_ops = write_log sample 9 (codes "log/") (log_rows true rows log_start)

log_written : Done log_ops no_files (after log_ops)
unfolding run_ops write_log log_rows log_row row_line write_data_to_file run_op bytes_eq
    create_replication_log_name print
log_written = run_ops-Done log_ops no_files refl

log-Done : Done (files (get_log sample true true 9 (codes "log/") rows)) no_files (after log_ops)
log-Done = rw (files-get_log sample true true 9 (codes "log/") rows) log_written

read_log-get_log_example :
    read_log sample
      (after log_ops)
      (codes "log/")
      (log_name sample true 9 rows)
      (no_objects, some [])
    ≡ ok (add_all (node_5 ∷ []) (no_objects, some []))
read_log-get_log_example =
    read_log-get_log sample sample-IsDocumented true true 9 (codes "log/") rows messages node_5 []
      (no_objects, some []) rows-Carries refl log-Done

abbrev name : Bytes
name = log_name sample true 9 rows

abbrev read_one : Reading
read_one = add_all (node_5 ∷ []) (no_objects, some [])

two_files :
    read_log_files sample
      (after log_ops)
      (codes "log/")
      0
      (name ∷ codes "b" ∷ [])
      (no_objects, some [])
      []
    ≡ ok (read_one, name ∷ [])
unfolding read_log_files size
two_files = rw read_log-get_log_example refl

read_log_files-Reads_example :
    (used : List Bytes) × (rest : List Bytes) × ((name ∷ codes "b" ∷ []) ≡ used ++ rest)
    × ((name ∷ []) ≡ [] ++ used)
    × Reads sample (after log_ops) (codes "log/") 0 used rest (no_objects, some []) read_one
read_log_files-Reads_example =
    read_log_files-Reads sample (after log_ops) (codes "log/") 0 (name ∷ codes "b" ∷ [])
      (no_objects, some []) read_one [] (name ∷ []) two_files
