-- ===== src/GetLog.antt =====
-- src/osmdbt-get-log.cpp: the log file and the new position of the replication slot. The messages on the
-- progress are left out.
pub mod Lines
pub mod Laws
pub mod Slot
use osmdbt.Common.{
  ℕ, ◌≡◌, refl, Bool, true, false, List, [], ◌∷◌, ◌++◌, map, Option, none, some, ◌==◌, ltb,
  if◌then◌else◌, Bytes, codes, Result, ok, err, ◌>>=◌,
}
use osmdbt.Number.{to_string}
use osmdbt.Osm.{Osmium}
use osmdbt.OsmObj.{first}
use osmdbt.Db.{Query}
use osmdbt.Lsn.{LsnType, lsn_of, str}
use osmdbt.Files.{Op, write_data_to_file, create_replication_log_name}

-- The query for the rows, with the limit of --max-changes.
pub peek_query : ℕ → Bytes → Query
peek_query max_changes replication_slot = record {
  text =
      codes "SELECT * FROM pg_logical_slot_peek_changes($1, NULL, "
      ++ ((if ltb 0 max_changes then to_string max_changes else codes "NULL") ++ codes ");");
  params = replication_slot ∷ [];
}

-- A row of pg_logical_slot_peek_changes.
pub record PeekRow : Type 0 where
  pub lsn : Bytes
  pub xid : Bytes
  pub message : Bytes

-- The variables of the loop over the rows.
pub record LogState : Type 0 where
  pub content : Bytes
  pub lsn : Bytes
  pub has_actual_data : Bool

unfoldable pub row_line : Bool → PeekRow → Bytes
row_line real_state row =
    (if real_state then row.lsn ++ b' ' ∷ (row.xid ++ codes " ") else codes "0/0 0 ")
    ++ (row.message ++ codes "\n")

unfoldable pub log_row : Bool → PeekRow → LogState → LogState
unfolding row_line first
log_row real_state row s = record {
  content = s.content ++ row_line real_state row;
  lsn = if first row.message == b'C' then row.lsn else s.lsn;
  has_actual_data = if first row.message == b'N' then true else s.has_actual_data;
}

unfoldable pub log_rows : Bool → List PeekRow → LogState → LogState
unfolding log_row
log_rows real_state [] s = s
log_rows real_state (row ∷ rows) s = log_rows real_state rows (log_row real_state row s)

abbrev pub log_start : LogState
log_start = record { content = []; lsn = []; has_actual_data = false }

-- The slash of an LSN is written as a dash in the name of the file.
abbrev pub dash : ℕ → ℕ
dash c = if c == b'/' then b'-' else c

unfoldable pub lsn_dash : Bytes → Bytes
lsn_dash lsn = codes "lsn-" ++ map dash lsn

-- What the command does to the outside, one step after another.
pub data Step : Type 0 where
  on_file : Op → Step
  -- The query of catchup_to_lsn, with the text of this position.
  advance_slot : Bytes → Step

pub record Effects : Type 0 where
  pub steps : List Step
  pub result : Result (Unit {0})

abbrev pub files_in : List Step → List Op
files_in [] = []
files_in (on_file op ∷ steps) = op ∷ files_in steps
files_in (advance_slot lsn ∷ steps) = files_in steps

-- The operations on files among the steps.
pub files : Effects → List Op
files e = files_in e.steps

abbrev pub position_in : List Step → Option Bytes
position_in [] = none
position_in (on_file op ∷ steps) = position_in steps
position_in (advance_slot lsn ∷ steps) = some lsn

-- The position to which the steps advance the slot, if they do.
unfoldable pub advanced_to : Effects → Option Bytes
advanced_to e = position_in e.steps

unfoldable pub write_log : Osmium → ℕ → Bytes → LogState → List Op
unfolding lsn_dash
write_log osm now log_dir s =
    if s.has_actual_data
    then write_data_to_file s.content log_dir (create_replication_log_name osm (lsn_dash s.lsn) now)
    else []

-- `lsn_type{lsn}.str()`, with --catchup.
unfoldable pub advance : Bool → Bytes → Result (Option Bytes)
advance true lsn = do l ← lsn_of lsn; ok (some (str l))
advance false lsn = ok none

-- The file is written first; then the slot is advanced.
unfoldable pub then_advance : List Op → Result (Option Bytes) → Effects
then_advance ops (err fault) = record { steps = map on_file ops; result = err fault }
then_advance ops (ok none) = record { steps = map on_file ops; result = ok tt }
then_advance ops (ok (some lsn)) = record {
  steps = map on_file ops ++ advance_slot lsn ∷ [];
  result = ok tt;
}

unfoldable pub get_log_rows : Osmium → Bool → Bool → ℕ → Bytes → List PeekRow → Effects
unfolding write_log log_rows
get_log_rows osm real_state catchup now log_dir rows =
    let s = log_rows real_state rows log_start in
    then_advance (write_log osm now log_dir s) (advance catchup s.lsn)

-- The command on the rows of its query, behind the check of the database version, which may throw
-- before anything is done.
unfoldable pub get_log : Osmium → Bool → Bool → ℕ → Bytes → List PeekRow → Effects
unfolding get_log_rows
get_log osm real_state catchup now log_dir [] = record { steps = []; result = ok tt }
get_log osm real_state catchup now log_dir (row ∷ rows) =
    get_log_rows osm real_state catchup now log_dir (row ∷ rows)
