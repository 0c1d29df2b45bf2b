-- ===== src/Tests/Slot.antt =====
-- The theorems on the replication slot at concrete inputs.
use osmdbt.Common.{
  map, ap, ◌∙◌, ◌≡◌, refl, ltb, take, true, false, List, [], ◌∷◌, ◌++◌, none, some, Bytes, codes,
  bytes_eq, Result, ok, err, if◌then◌else◌, arith,
}
use osmdbt.Number.Digits.{print}
use osmdbt.Number.{to_hex}
use osmdbt.Osm.{Osmium}
use osmdbt.OsmObj.{first}
use osmdbt.Lsn.{LsnType, str, upper, lower, lsn_of}
use osmdbt.Lsn.RoundTrip.{lsn_of-str}
use osmdbt.Files.{Disk, Op, run_op, run_ops, write_data_to_file, create_replication_log_name}
use osmdbt.Files.Prefix.{Done, run_ops-Done}
use osmdbt.Db.{Rows, get_db_version, starts_with, catchup_to_lsn}
use osmdbt.GetLog.{
  PeekRow, on_file, advance_slot, get_log, get_log_rows, then_advance, advance, write_log, log_rows,
  log_row, row_line, log_start, lsn_dash, files, advanced_to, position_in,
}
use osmdbt.GetLog.Laws.{files-get_log, log_name}
use osmdbt.GetLog.Slot.{Transaction, IsTransaction, rows_of, Server}
use osmdbt.GetLog.Slot.Steps.{position_in-append}
use osmdbt.GetLog.Slot.Loss.{Run}
use osmdbt.CreateDiff.App.{has_log_extension}
use osmdbt.Catchup.{match_fixed, catchup}
use osmdbt.Catchup.Run.{catchup-get_log}
use osmdbt.Tests.Sample.{sample}

abbrev noon : Bytes
noon = codes "2020-03-06T12:00:00Z"

abbrev sample_noon : Osmium
sample_noon = record sample { to_iso = λ t. noon; to_iso_all = λ t. noon }

abbrev first_lsn : LsnType
first_lsn = record { lsn = 26 }

abbrev second_lsn : LsnType
second_lsn = record { lsn = 27 }

abbrev row : LsnType → Bytes → PeekRow
row l message = record { lsn = str l; xid = codes "731"; message = message }

abbrev first_txn : Transaction
first_txn = record {
  commit = first_lsn;
  rows = row first_lsn (codes "N n5 v2 c7") ∷ row first_lsn (codes "C") ∷ [];
}

abbrev second_txn : Transaction
second_txn = record { commit = second_lsn; rows = row second_lsn (codes "C") ∷ [] }

first-IsTransaction : IsTransaction first_txn
first-IsTransaction = (omega arith, ((λ h. refl), ((λ h. refl), tt)))

abbrev waiting_txns : List Transaction
waiting_txns = first_txn ∷ second_txn ∷ []

-- A server that returns the first transaction, and drops all those up to the position to which it is told
-- to advance.
abbrev keep_after : LsnType → List Transaction → List Transaction
keep_after l [] = []
keep_after l (t ∷ ts) = if ltb l.lsn t.commit.lsn then t ∷ keep_after l ts else keep_after l ts

abbrev leave : Result LsnType → List Transaction → List Transaction
leave (err f) ts = ts
leave (ok l) ts = keep_after l ts

abbrev position : List Bytes → Bytes
position [] = []
position (slot ∷ []) = []
position (slot ∷ lsn ∷ more) = lsn

abbrev server : Server
server = record { peeked = λ q ts. take 1 ts; left = λ q ts. leave (lsn_of (position q.params)) ts }

abbrev no_files : Disk
no_files path = none

abbrev log_ops : List Op
log_ops = write_log sample_noon 9 (codes "l/") (log_rows false (rows_of (first_txn ∷ [])) log_start)

abbrev log_disk : Disk
log_disk = (run_ops log_ops no_files).0

log_written : Done log_ops no_files log_disk
unfolding run_ops write_log log_rows log_row row_line write_data_to_file run_op bytes_eq
    create_replication_log_name print str to_hex upper lower lsn_dash first
log_written = run_ops-Done log_ops no_files refl

log-Done :
    Done
      (files (get_log sample_noon false true 9 (codes "l/") (rows_of (first_txn ∷ []))))
      no_files
      log_disk
log-Done =
    rw (files-get_log sample_noon false true 9 (codes "l/") (rows_of (first_txn ∷ []))) log_written

first_steps :
    (get_log sample_noon false true 9 (codes "l/") (rows_of (first_txn ∷ []))).steps
    ≡ map on_file log_ops ++ advance_slot (str first_lsn) ∷ []
unfolding get_log get_log_rows then_advance advance log_rows log_row first
first_steps = rw (lsn_of-str first_lsn (omega arith)) refl

first-advanced :
    advanced_to (get_log sample_noon false true 9 (codes "l/") (rows_of (first_txn ∷ [])))
    ≡ some (str first_lsn)
unfolding advanced_to
first-advanced = ap position_in first_steps ∙ position_in-append log_ops _

abbrev version_rows : Rows
version_rows = (codes "PostgreSQL 17.2" ∷ []) ∷ []

catchup-get_log_example :
    catchup
      (record { lsn = 0 })
      (codes "a" ∷ log_name sample_noon false 9 (rows_of (first_txn ∷ [])) ∷ [])
      version_rows
      110000
      (codes "s")
    ≡ ok (some (catchup_to_lsn 110000 (codes "s") (str first_lsn)))
unfolding match_fixed get_db_version starts_with str upper lower to_hex print has_log_extension
    bytes_eq
catchup-get_log_example =
    catchup-get_log sample_noon false 9 (codes "l/") (first_txn ∷ []) (codes "a" ∷ []) []
      (str first_lsn) (codes "PostgreSQL 17.2") version_rows 110000 (codes "s") refl
      (first-IsTransaction, tt) (tt, tt) first-advanced (λ h. cc) (refl, tt) tt refl
