-- ===== src/Tests/Commands.antt =====
-- The theorems on the options and the configuration of the commands and on osmdbt-testdb at concrete
-- inputs.
use osmdbt.Common.{
  ℕ, ◌≡◌, inr, refl, Bool, true, false, [], ◌∷◌, Option, none, some, Bytes, codes, bytes_eq, All,
  Result, ok,
}
use osmdbt.OsmObj.ReadLog.{Files}
use osmdbt.Db.{Rows, get_db_version, get_db_major_version, starts_with}
use osmdbt.Db.Session.{Answers}
use osmdbt.Settings.{Node}
use osmdbt.Settings.Load.{Yaml, Config, default_database, load_config, config_text, connection}
use osmdbt.Settings.Loaded.{joined, not_empty, settings_of, connection_lem}
use osmdbt.Number.{strtoull}
use osmdbt.Tests.Sample.{sample}
use osmdbt.Options.{
  VariablesMap, Options, Parsed, parsed, FakeLogOptions, fake_log_options, check_common_options,
  parse_command_line, app_wrapper,
}
use osmdbt.Options.ExitCode.{app_wrapper-config_of}
use osmdbt.Replication.{
  enable_query, disable_query, enable_replication, disable_replication, slots_query, Report,
  waiting, testdb, print_config, single, replication_of, has_configured_replication_slot,
}
use osmdbt.Replication.Laws.{SendsChecked, enable_replication-SendsChecked, Says, testdb-Says}
use osmdbt.Replication.Reads.{IsReading, testdb-IsReading}

abbrev text_node : Bytes → Node
text_node text = record { is_defined = true; is_null = false; as_string = some text }

abbrev yaml : Yaml
yaml = record {
  database_is_defined = true;
  database_is_map = true;
  database = text_node;
  top = text_node;
}

abbrev yaml_files : Files
yaml_files path = some (codes "yaml")

abbrev load_yaml : Bytes → Result Yaml
load_yaml text = ok yaml

abbrev config : Config
config = record {
  database = record default_database {
    host = codes "host";
    port = codes "port";
    dbname = codes "dbname";
    user = codes "user";
    password = codes "password";
    replication_slot = codes "replication_slot";
  };
  log_dir = codes "log_dir/";
  changes_dir = codes "changes_dir/";
  tmp_dir = codes "tmp_dir/";
  run_dir = codes "run_dir/";
}

connection_lem_example : connection config ≡ joined (not_empty (settings_of config.database))
connection_lem_example = connection_lem config

abbrev plain_options : Options
plain_options = record { config_file = []; quiet = false }

abbrev work : Config → FakeLogOptions → Result Bool
work c options = ok false

abbrev fake_parsed : Parsed FakeLogOptions
fake_parsed = parsed plain_options (record { log_file_names = []; timestamp = 60 })

-- A command line with a time, and no configuration file.
abbrev with_timestamp : VariablesMap
with_timestamp = record {
  contains = λ name. bytes_eq name (codes "timestamp");
  text = λ name. codes "60";
  texts = λ name. [];
  number = λ name. 0;
}

app_wrapper-config_of_example :
    app_wrapper
      (parse_command_line (fake_log_options sample) (some with_timestamp))
      (load_config (λ path. none) load_yaml)
      work
    ≡ some 2
unfolding config_text check_common_options fake_log_options bytes_eq
app_wrapper-config_of_example =
    app_wrapper-config_of (fake_log_options sample) with_timestamp plain_options
      (record { log_file_names = []; timestamp = (strtoull 10 (codes "60")).0 }) (λ path. none)
      load_yaml yaml work refl refl (inr refl)

-- A database with one slot, and one row that waits in it.
abbrev one_row : Answers
one_row q = ok ((codes "PostgreSQL 17.2" ∷ []) ∷ [])

abbrev as_int : Bytes → Option ℕ
as_int text = some 170002

testdb-IsReading_example : All IsReading (testdb as_int one_row (codes "s")).queries
testdb-IsReading_example = testdb-IsReading one_row (codes "s") as_int

abbrev report : Report
report = record {
  major_version = 17;
  version = codes "PostgreSQL 17.2";
  wal_level = codes "PostgreSQL 17.2";
  max_replication_slots = codes "PostgreSQL 17.2";
  replication = waiting 1;
  schema_version = codes "PostgreSQL 17.2";
}

testdb-Says_example :
    (slots : Rows) × (one_row slots_query ≡ ok slots)
    × Says one_row (codes "PostgreSQL 17.2") slots report.replication
unfolding testdb get_db_major_version get_db_version starts_with print_config single replication_of
    has_configured_replication_slot bytes_eq
testdb-Says_example = testdb-Says one_row (codes "PostgreSQL 17.2") as_int report refl

enable_replication-SendsChecked_example :
    SendsChecked one_row (enable_query (codes "s")) (enable_replication one_row (codes "s"))
    × SendsChecked one_row (disable_query (codes "s")) (disable_replication one_row (codes "s"))
enable_replication-SendsChecked_example = enable_replication-SendsChecked one_row (codes "s")
