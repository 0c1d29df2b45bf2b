-- ===== src/Replication.antt =====
-- src/osmdbt-enable-replication.cpp, src/osmdbt-disable-replication.cpp and src/osmdbt-testdb.cpp: what
-- they ask the database, and what they say. The text of the messages is left out.
pub mod Laws
pub mod Reads
use osmdbt.Common.{
  ℕ, ◌≡◌, refl, Bool, true, false, ◌||◌, List, [], ◌∷◌, ◌++◌, ◌==◌, if◌then◌else◌, Bytes, codes,
  bytes_eq, length, Option, Result, ok, err, expected_single_result,
}
use osmdbt.OsmObj.{first}
use osmdbt.Db.{
  Query, Rows, column, version_query, get_db_version, version_num_query, get_db_major_version,
}
use osmdbt.Db.Session.{Asked, Answers, ask, compute, ◌>>=◌}

abbrev pub enable_query : Bytes → Query
enable_query slot = record {
  text = codes "SELECT * FROM pg_create_logical_replication_slot($1, 'osm-logical');";
  params = slot ∷ [];
}

-- Whether it says that replication is enabled.
pub says_enabled : Bytes → Rows → Bool
says_enabled slot [] = false
says_enabled slot (row ∷ []) = bytes_eq (column 0 row) slot
says_enabled slot (row ∷ next ∷ rows) = false

pub enable_replication : Answers → Bytes → Asked Bool
unfolding says_enabled get_db_version
enable_replication answers slot = do
  version ← ask answers version_query
  v ← compute (get_db_version version)
  result ← ask answers (enable_query slot)
  compute (ok (says_enabled slot result))

abbrev pub disable_query : Bytes → Query
disable_query slot = record {
  text = codes "SELECT * FROM pg_drop_replication_slot($1);";
  params = slot ∷ [];
}

pub says_disabled : Rows → Bool
says_disabled [] = false
says_disabled (row ∷ []) = first (column 0 row) == 0
says_disabled (row ∷ next ∷ rows) = false

pub disable_replication : Answers → Bytes → Asked Bool
unfolding says_disabled get_db_version
disable_replication answers slot = do
  version ← ask answers version_query
  v ← compute (get_db_version version)
  result ← ask answers (disable_query slot)
  compute (ok (says_disabled result))

-- print_config
abbrev pub show_query : Bytes → Query
show_query setting = record { text = codes "SHOW " ++ setting; params = [] }

unfoldable pub single : Rows → Result Bytes
single [] = err expected_single_result
single (row ∷ []) = ok (column 0 row)
single (row ∷ next ∷ rows) = err expected_single_result

unfoldable pub print_config : Answers → Bytes → Asked Bytes
unfolding single
print_config answers setting = do result ← ask answers (show_query setting); compute (single result)

abbrev pub slots_query : Query
slots_query = record {
  text =
      codes
        "SELECT slot_name, database, confirmed_flush_lsn FROM pg_replication_slots WHERE slot_type = 'logical' AND plugin = 'osm-logical';";
  params = [];
}

abbrev pub peek_all_query : Bytes → Query
peek_all_query slot = record {
  text = codes "SELECT * FROM pg_logical_slot_peek_changes($1, NULL, NULL);";
  params = slot ∷ [];
}

abbrev pub schema_query : Query
schema_query = record {
  text = codes "SELECT max(version) FROM schema_migrations WHERE char_length(version) = 14;";
  params = [];
}

-- The loop over the slots.
unfoldable pub has_configured_replication_slot : Bytes → Rows → Bool
has_configured_replication_slot slot [] = false
has_configured_replication_slot slot (row ∷ rows) =
    bytes_eq slot (column 0 row) || has_configured_replication_slot slot rows

-- What osmdbt-testdb says of the replication.
pub data Replication : Type 0 where
  not_enabled slot_not_active : Replication
  waiting : ℕ → Replication

peek_changes : Answers → Bytes → Asked Replication
peek_changes answers slot = do
  result ← ask answers (peek_all_query slot)
  compute (ok (waiting (length result)))

unfoldable pub replication_of : Answers → Bytes → Rows → Asked Replication
unfolding peek_changes
replication_of answers slot [] = compute (ok not_enabled)
replication_of answers slot (row ∷ rows) =
    if has_configured_replication_slot slot (row ∷ rows)
    then peek_changes answers slot
    else compute (ok slot_not_active)

pub record Report : Type 0 where
  pub major_version : ℕ
  pub version : Bytes
  pub wal_level : Bytes
  pub max_replication_slots : Bytes
  pub replication : Replication
  pub schema_version : Bytes

unfoldable pub testdb : (Bytes → Option ℕ) → Answers → Bytes → Asked Report
unfolding replication_of print_config
testdb as_int answers slot = do
  number ← ask answers version_num_query
  major ← compute (get_db_major_version as_int number)
  text ← ask answers version_query
  version ← compute (get_db_version text)
  wal_level ← print_config answers (codes "wal_level")
  max_slots ← print_config answers (codes "max_replication_slots")
  slots ← ask answers slots_query
  replication ← replication_of answers slot slots
  schema ← ask answers schema_query
  schema_version ← compute (single schema)
  compute (
      ok (record {
        major_version = major;
        version = version;
        wal_level = wal_level;
        max_replication_slots = max_slots;
        replication = replication;
        schema_version = schema_version;
      }))
