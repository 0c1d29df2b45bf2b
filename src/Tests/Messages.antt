-- ===== src/Tests/Messages.antt =====
-- The theorems on the plugin's messages, and their way to osmdbt-create-diff, at concrete inputs.
use osmdbt.Common.{
  ok, none, List, Bytes, ◌≡◌, refl, true, false, bytes_eq, [], ◌∷◌, ◌++◌, some, codes, pos, arith,
}
use osmdbt.Osm.{way}
use osmdbt.OsmObj.{OsmObj, is_nwr, no_objects}
use osmdbt.OsmObj.ReadLog.{read_log}
use osmdbt.OsmObj.ReadLog.Lines.{IsLoggable, new_version}
use osmdbt.Plugin.{Tuple, Change, Context, insert, get_attribute_by_name, table_type, change_cb}
use osmdbt.Plugin.Messages.{change_cb-new_version, Inserts, messages_in-new_version}
use osmdbt.Plugin.Laws.{transaction_lem}
use osmdbt.Number.Digits.{print}
use osmdbt.Files.{Disk, Op, run_op, run_ops, write_data_to_file, create_replication_log_name}
use osmdbt.Files.Prefix.{Done, run_ops-Done}
use osmdbt.GetLog.{PeekRow, get_log, write_log, log_rows, log_row, row_line, log_start, files}
use osmdbt.GetLog.Laws.{files-get_log, log_name}
use osmdbt.OsmObj.Added.{add_all}
use osmdbt.Pipeline.{row_messages, out_of, fresh, read_log-transaction}
use osmdbt.Tests.Sample.{sample, sample-IsDocumented}

abbrev way_12 : OsmObj
way_12 = record { type = way; id = pos 12; version = 3; cid = 7 }

way_12-IsLoggable : IsLoggable way_12 12
unfolding is_nwr
way_12-IsLoggable = record {
  nwr = refl;
  id = refl;
  id_lt = omega arith;
  version_lt = omega arith;
  cid_lt = omega arith;
}

abbrev tuple : Tuple
tuple =
    (codes "way_id", some (pos 12))
    ∷ (codes "changeset_id", some (pos 7))
    ∷ (codes "version", some (pos 3))
    ∷ []

abbrev new_way : Change
new_way = record { table = codes "ways"; action = insert; newtuple = some tuple }

abbrev start : Context
start = record { private_flag = false; out = [] }

new_way-Inserts : Inserts sample sample-IsDocumented new_way way_12 12
unfolding get_attribute_by_name bytes_eq
new_way-Inserts = record {
  tuple = tuple;
  action = refl;
  newtuple = refl;
  table = refl;
  id = refl;
  version = refl;
  cid = refl;
  loggable = way_12-IsLoggable;
}

change_cb-new_version_example : change_cb new_way start ≡ record {
  private_flag = true;
  out = [] ++ new_version sample sample-IsDocumented way_12 12 ∷ [];
}
change_cb-new_version_example =
    change_cb-new_version sample sample-IsDocumented new_way start way_12 12 new_way-Inserts

abbrev row : Bytes → PeekRow
row message = record { lsn = codes "0/1A"; xid = codes "731"; message = message }

abbrev rows : List PeekRow
rows = row (new_version sample sample-IsDocumented way_12 12) ∷ row (codes "C") ∷ []

rows_written : row_messages rows ≡ out_of ((new_way ∷ []) ∷ [])
unfolding table_type bytes_eq
rows_written =
    rw
      (
        transaction_lem (new_way ∷ []) fresh refl,
        messages_in-new_version sample sample-IsDocumented new_way way_12 12 new_way-Inserts,
      )
      refl

abbrev no_files : Disk
no_files path = none

abbrev log_ops : List Op
log_ops = write_log sample 9 (codes "l/") (log_rows false rows log_start)

abbrev log_disk : Disk
log_disk = (run_ops log_ops no_files).0

log_written : Done log_ops no_files log_disk
unfolding run_ops write_log log_rows log_row row_line write_data_to_file run_op bytes_eq
    create_replication_log_name print
log_written = run_ops-Done log_ops no_files refl

log-Done : Done (files (get_log sample false false 9 (codes "l/") rows)) no_files log_disk
log-Done = rw (files-get_log sample false false 9 (codes "l/") rows) log_written

read_log-transaction_example :
    read_log sample log_disk (codes "l/") (log_name sample false 9 rows) (no_objects, none)
    ≡ ok (add_all (way_12 ∷ []) (no_objects, none))
read_log-transaction_example =
    read_log-transaction sample sample-IsDocumented false false 9 (codes "l/") ((new_way ∷ []) ∷ [])
      (((way_12, 12) ∷ []) ∷ []) way_12 [] rows (no_objects, none)
      ((λ h. cc), (new_way-Inserts, tt), tt) refl rows_written
      ((omega arith, omega arith), ((omega arith, omega arith), tt)) log-Done
