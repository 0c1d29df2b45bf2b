-- ===== src/FakeLog.antt =====
-- src/osmdbt-fake-log.cpp: log files made from the recent objects of the database. The messages on the
-- progress are left out; the answers of the database are a parameter.
pub mod Loop
pub mod Entries
pub mod LogFiles
pub mod Filter
pub mod Names
use osmdbt.Common.{
  ℕ, ◌+◌, ◌%◌, ◌^◌, ◌≡◌, refl, Bool, true, false, not, ◌&&◌, ◌||◌, List, [], ◌∷◌, ◌++◌, Option,
  none, ltb, ◌==◌, ℤ, ltb_ℤ, eqb_ℤ, if◌then◌else◌, Bytes, codes, Result, ok, err, ◌>>=◌,
}
use osmdbt.Number.{to_string, to_string_ℤ}
use osmdbt.Osm.{Osmium, ItemType, node, way, relation}
use osmdbt.OsmObj.{OsmObj, OsmObjects, no_objects, first}
use osmdbt.OsmObj.ReadLog.{Files, read_log}
use osmdbt.OsmObj.Order.{sort}
use osmdbt.Db.{Rows, get_db_version}
use osmdbt.Files.{Op, write_data_to_file, create_replication_log_name}
use osmdbt.CreateDiff.Key.{Key, has_key}

-- log_entry; the minute is a time_t.
pub record LogEntry : Type 0 where
  pub time : ℕ
  pub type : ItemType
  pub id : ℤ
  pub version : ℕ
  pub cid : ℕ

-- The line that append_to adds.
pub entry_line : Osmium → LogEntry → Bytes
entry_line osm e =
    codes "0/0 0 N "
    ++ osm.item_type_to_char e.type
      ∷ (to_string_ℤ e.id
          ++ (codes " v"
              ++ (to_string e.version ++ (codes " c" ++ (to_string e.cid ++ codes "\n")))))

pub append_to : Osmium → LogEntry → Bytes → Bytes
unfolding entry_line
append_to osm e content = content ++ entry_line osm e

-- `operator<` compares the tuples (time, item type, id, version) from the left.
unfoldable pub entry_ltb : Osmium → LogEntry → LogEntry → Bool
entry_ltb osm a b =
    let s = osm.item_type_value a.type in
    let t = osm.item_type_value b.type in
    ltb a.time b.time
    || (a.time == b.time
        && (ltb s t
            || (s == t && (ltb_ℤ a.id b.id || (eqb_ℤ a.id b.id && ltb a.version b.version)))))

-- A row of one of the three queries: the minute of the object, and its id, version and changeset.
pub record TimeRow : Type 0 where
  pub ts : ℕ
  pub id : ℤ
  pub version : ℕ
  pub changeset_id : ℕ

pub record TimeDatabase : Type 0 where
  pub node_rows : Bytes → List TimeRow
  pub way_rows : Bytes → List TimeRow
  pub relation_rows : Bytes → List TimeRow

abbrev pub time_row_key : TimeRow → Key
time_row_key row = record { id = row.id; version = row.version }

abbrev pub new_entry : ItemType → TimeRow → LogEntry
new_entry t row = record {
  time = row.ts;
  type = t;
  id = row.id;
  version = row.version;
  cid = row.changeset_id;
}

-- The loop of read_objects. A std::set is a list of which only membership is asked.
pub read_objects : ItemType → List Key → List TimeRow → List LogEntry → List LogEntry
read_objects t objects_done [] entries = entries
read_objects t objects_done (row ∷ rows) entries = read_objects t objects_done rows (
    if not (has_key (time_row_key row) objects_done)
    then entries ++ new_entry t row ∷ []
    else entries)

-- The sets for the three types.
pub record ObjectsDone : Type 0 where
  pub nodes : List Key
  pub ways : List Key
  pub relations : List Key

abbrev pub none_done : ObjectsDone
none_done = record { nodes = []; ways = []; relations = [] }

pub emplace_all : List OsmObj → List Key → List Key
emplace_all [] done = done
emplace_all (obj ∷ objs) done =
    emplace_all objs (record { id = obj.id; version = obj.version } ∷ done)

pub add_done : OsmObjects → ObjectsDone → ObjectsDone
unfolding emplace_all
add_done objects done = record {
  nodes = emplace_all objects.nodes done.nodes;
  ways = emplace_all objects.ways done.ways;
  relations = emplace_all objects.relations done.relations;
}

-- read_log_files. An absolute name is not looked up in log_dir.
unfoldable pub objects_done_of :
    Osmium → Files → Bytes → List Bytes → ObjectsDone → Result ObjectsDone
unfolding add_done
objects_done_of osm files log_dir [] done = ok done
objects_done_of osm files log_dir (log ∷ log_names) done = do
  objects ← read_log osm files (if first log == b'/' then [] else log_dir) log (no_objects, none)
  objects_done_of osm files log_dir log_names (add_done objects.0 done)

-- The local variables of the loop that writes the files, and the file operations done so far.
pub record WriteState : Type 0 where
  pub last : ℕ
  pub file_name : Bytes
  pub content : Bytes
  pub ops : List Op

module _ (osm : Osmium) (clock : ℕ → ℕ) (log_dir : Bytes) where
  -- The name of the file for a minute; `clock` is the time when it is asked for. The timestamp has 32
  -- bits.
  unfoldable pub minute_name : ℕ → Bytes
  minute_name t = create_replication_log_name osm (osm.to_iso (t % 2 ^ 32)) (clock t)

  -- What happens at an entry of another minute.
  pub new_minute : ℕ → WriteState → WriteState
  unfolding minute_name
  new_minute t s = record {
    last = t;
    file_name = minute_name t;
    content = if s.last == 0 then s.content else [];
    ops = if s.last == 0 then s.ops else s.ops ++ write_data_to_file s.content log_dir s.file_name;
  }

  pub write_entry : LogEntry → WriteState → WriteState
  unfolding append_to new_minute
  write_entry e s =
      let s' = if not (s.last == e.time) then new_minute e.time s else s in
      record s' { content = append_to osm e s'.content }

  pub write_entries : List LogEntry → WriteState → WriteState
  unfolding write_entry
  write_entries [] s = s
  write_entries (e ∷ entries) s = write_entries entries (write_entry e s)

  abbrev pub write_start : WriteState
  write_start = record { last = 0; file_name = []; content = []; ops = [] }

  -- The loop, and the file of the last minute.
  pub write_logs : List LogEntry → List Op
  unfolding write_entries
  write_logs entries =
      let s = write_entries entries write_start in
      s.ops ++ write_data_to_file s.content log_dir s.file_name

  -- The objects of the database since a time, without those in the log files of the command line.
  pub read_changes : TimeDatabase → ℕ → ObjectsDone → List LogEntry
  unfolding read_objects
  read_changes db timestamp done =
      let iso = osm.to_iso timestamp in
      let nodes = read_objects node done.nodes (db.node_rows iso) [] in
      let ways = read_objects way done.ways (db.way_rows iso) nodes in
      read_objects relation done.relations (db.relation_rows iso) ways

  unfoldable pub fake_log_entries : List LogEntry → List Op × Bool
  unfolding write_logs entry_ltb
  fake_log_entries [] = ([], false)
  fake_log_entries (e ∷ entries) = (write_logs (sort (entry_ltb osm) (e ∷ entries)), true)

  -- `app` inside its pid file: the operations on files, and the value returned. `version` is the answer
  -- of the database on its version.
  pub fake_log : Files → Rows → TimeDatabase → ℕ → List Bytes → Result (List Op × Bool)
  unfolding fake_log_entries read_changes objects_done_of
  fake_log files version db timestamp log_file_names = do
    done ← objects_done_of osm files log_dir log_file_names none_done
    v ← get_db_version version
    ok (fake_log_entries (read_changes db timestamp done))
