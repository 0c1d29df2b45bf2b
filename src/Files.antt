-- ===== src/Files.antt =====
-- src/io.cpp and src/util.cpp: the operations on files, as steps on a disk that may stop between any two
-- of them.
pub mod Prefix
pub mod Steps
pub mod WriteData
use osmdbt.Common.{
  ℕ, zero, suc, ◌≡◌, refl, Bool, true, false, ◌||◌, List, [], ◌∷◌, ◌++◌, Option, none, some,
  if◌then◌else◌, Bytes, codes, bytes_eq,
}
use osmdbt.Osm.{Osmium}

-- The content of each file that there is. Directories are not modelled: every directory is there.
abbrev pub Disk : Type 0
Disk = Bytes → Option Bytes

pub update : Disk → Bytes → Option Bytes → Disk
update disk path content q = if bytes_eq path q then content else disk q

pub data Op : Type 0 where
  -- excl_write_open: O_CREAT with O_EXCL
  excl_write_open : Bytes → Op
  -- reliable_write, reliable_fsync and reliable_close on the file opened before
  write : Bytes → Bytes → Op
  -- libosmium's Writer with overwrite::allow
  overwrite : Bytes → Bytes → Op
  rename : Bytes → Bytes → Op
  unlink : Bytes → Op
  sync_dir : Bytes → Op
  create_directories : Bytes → Op

-- One operation: `none` where it throws, and the disk is as before.
pub run_rename : Bytes → Bytes → Option Bytes → Disk → Option Disk
unfolding update
run_rename old new none disk = none
run_rename old new (some content) disk = some (update (update disk old none) new (some content))

pub run_open : Bytes → Option Bytes → Disk → Option Disk
unfolding update
run_open path none disk = some (update disk path (some []))
run_open path (some content) disk = none

unfoldable pub run_op : Op → Disk → Option Disk
unfolding run_rename run_open update
run_op (excl_write_open path) disk = run_open path (disk path) disk
run_op (write path content) disk = some (update disk path (some content))
run_op (overwrite path content) disk = some (update disk path (some content))
run_op (rename old new) disk = run_rename old new (disk old) disk
run_op (unlink path) disk = some (update disk path none)
run_op (sync_dir dir) disk = some disk
run_op (create_directories dir) disk = some disk

-- The operations in their order, to the first that throws; whether none did.
unfoldable pub run_ops : List Op → Disk → Disk × Bool
run_ops [] disk = (disk, true)
run_ops (op ∷ ops) disk = elim (run_op op disk) [
  | none ↦ (disk, false)
  | some disk' ↦ run_ops ops disk'
]

-- write_data_to_file
unfoldable pub write_data_to_file : Bytes → Bytes → Bytes → List Op
write_data_to_file content dir_name file_name =
    let file_name_final = dir_name ++ file_name in
    let file_name_tmp = file_name_final ++ codes ".new" in
    excl_write_open file_name_tmp
    ∷ write file_name_tmp content
    ∷ rename file_name_tmp file_name_final
    ∷ sync_dir dir_name
    ∷ []

unfoldable pub create_replication_log_name : Osmium → Bytes → ℕ → Bytes
create_replication_log_name osm name time =
    codes "osm-repl-" ++ (osm.to_iso_all time ++ (codes "-" ++ (name ++ codes ".log")))
