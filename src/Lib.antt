-- ===== src/Lib.antt =====
-- osmdbt turns the changes of an OpenStreetMap database into replication diffs. A plugin in
-- PostgreSQL (postgresql-plugin/osm-logical.c) writes a message for each new version of an object
-- and for each commit. osmdbt-get-log peeks these messages from the replication slot, writes them
-- to a log file, and may advance the slot; osmdbt-catchup advances it to the position in the names
-- of the log files. osmdbt-fake-log makes such log files from the tables of the database.
-- osmdbt-create-diff reads log files, asks the database for the objects that they
-- name, writes a change file and a state file, moves them to their public places, and marks the log
-- files as done.
--
-- Files, and the code that they model:
--   Plugin: postgresql-plugin/osm-logical.c. pg_osmlogical_change is change_cb, pg_osmlogical_commit is
--     commit_cb; the context is a flag and the messages written.
--   Lsn: src/lsn.hpp and src/lsn.cpp. lsn_type is LsnType; its constructor is lsn_of.
--   OsmObj, OsmObj.ReadLog, OsmObj.Order: src/osmobj.hpp and src/osmobj.cpp. The constructor of osmobj
--     is osmobj_of; read_log passes the lists of objects and the changeset cache as a Reading. OsmObj.Added
--     says what a Reading is after several objects, by their types.
--   State: src/state.hpp and src/state.cpp. State::to_string is state_text, State::write is write_state,
--     the constructor that reads a file is read_state.
--   Files: src/io.cpp and src/util.cpp. An operation on files is an Op, a step on a Disk, which maps
--     names to contents; code that changes files returns the list of its operations.
--   PidFile: the class PIDFile of src/io.cpp. PidFile.System lets processes take its steps, and those of
--     their work, in any order.
--   Db, Db.Session: src/db.cpp. A statement is a Query; a command that sends several is an Asked, with the
--     statements that it has sent to its first fault.
--   GetLog: src/osmdbt-get-log.cpp. app is get_log, on the rows of the query: it returns its steps in their
--     order, on files and on the slot. GetLog.Slot has the transactions that wait in the slot,
--     GetLog.Slot.Steps and GetLog.Slot.Loss a run of the steps against it.
--   Catchup: src/osmdbt-catchup.cpp. get_lsn is the loop over the names in the log directory; its regular
--     expression is a recogniser by clauses. app is catchup.
--   FakeLog: src/osmdbt-fake-log.cpp. app is fake_log; the loop over the entries passes a WriteState.
--   Replication: src/osmdbt-enable-replication.cpp, src/osmdbt-disable-replication.cpp and
--     src/osmdbt-testdb.cpp; the text that the last one prints is a Report.
--   Settings, Settings.Load: src/config.cpp. The constructor of Config is load_config; a value of yaml-cpp
--     is a record Node, a document a record Yaml.
--   Options: src/options.cpp, the options of the commands, and app_wrapper of src/util.hpp. What
--     boost::program_options has parsed is a record VariablesMap.
--   CreateDiff: src/osmdbt-create-diff.cpp. Rows, Group, Query and Process hold the functions before
--     app; Publish, Select and App hold app. process_nodes, process_ways and process_relations share
--     the loop rows_loop.
--   Pipeline: the plugin, osmdbt-get-log and read_log, one behind the other.
--   Number: std::to_string, %lX, std::strtoull and std::strtoll, as far as the code uses them. Osm: what
--     the code uses of libosmium. Common: names, lists, integers, texts and results for all parts.
--   Tests: sample data, and the theorems at concrete inputs.
-- The files under a module hold its lemmas and theorems.
--
-- Texts are lists of bytes. Exceptions are the Faults of Result, one for each place that throws; a run
-- of file operations that throws is one that is cut off, as by a crash: Cut in Files.Prefix is the
-- relation of a disk with every disk that such a run can leave. Machine integers keep their bound
-- written out: an LSN has 64 bits, versions and changeset ids are cut to 32 bits.
--
-- Two Faults are no exceptions: assertion_failed, where an assertion of the code fails, and
-- undefined_behaviour, where the code asks for the last byte of an empty text. No exit code comes of them. The
-- assertion of State::path on numbers above nine digits is not a Fault: State.path returns there what the
-- buffer holds, and the theorem on it has the bound.
--
-- osmdbt-get-log, osmdbt-fake-log and osmdbt-catchup hold the pid file osmdbt-log around what is modelled
-- of them. osmdbt-create-diff has one of its own, which create_diff makes first and removes at its end; the
-- log files are read from the disk as it was before.
--
-- Fuel: print divides at most as often as the number's value says, which is enough, since the quotient
-- by a base of at least two is smaller. All other loops are structural.
--
-- Parameters: libosmium is a record Osmium of functions, and IsDocumented states what is used of its
-- behaviour: which letters stand for which types, how a text that is not empty is split, that a time is read
-- back from its ISO text. The database is a record Database of the answers to each query, a TimeDatabase for
-- osmdbt-fake-log, and a function Answers for the commands of Replication; the replication slot is a Server,
-- and Keeps states what is used of its behaviour. The clock, the process id,
-- strftime, the listing of a directory and libosmium's output formats are a record Outside. The sort of
-- the C++ library is modelled by insertion; it is stable, which the code does not use.
--
-- Not modelled: the parsers of boost and yaml-cpp; the declarations of the options and the versions; the
-- progress messages; directories, of which all are taken to be there; the SQL of the queries of
-- osmdbt-create-diff behind the list of wanted versions, and that of osmdbt-fake-log; that a connection to
-- the database may fail, and the check of its version in osmdbt-get-log and osmdbt-create-diff.
pub mod Common
pub mod Osm
pub mod Options
pub mod OsmObj
pub mod Number
pub mod Lsn
pub mod Pipeline
pub mod Plugin
pub mod State
pub mod Files
pub mod PidFile
pub mod GetLog
pub mod Catchup
pub mod Db
pub mod FakeLog
pub mod Replication
pub mod Settings
pub mod CreateDiff
pub mod Tests
