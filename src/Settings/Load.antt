-- ===== src/Settings/Load.antt =====
-- src/config.cpp: the constructor of Config. yaml-cpp is a parameter; the messages on what was read are
-- left out.
use osmdbt.Common.{
  Bool, [], ◌∷◌, none, some, if◌then◌else◌, Bytes, codes, Result, ok, err, or_throw, ◌>>=◌,
  yaml_exception, could_not_open_config, database_must_be_a_map,
}
use osmdbt.OsmObj.ReadLog.{Files}
use osmdbt.Settings.{Node, set_config, set_dir, db_connection}

-- A document of yaml-cpp: the entry `database` and the entries in it, and the entries beside it.
pub record Yaml : Type 0 where
  pub database_is_defined : Bool
  pub database_is_map : Bool
  pub database : Bytes → Node
  pub top : Bytes → Node

-- The text of the file. The second place is tried only without a name on the command line.
unfoldable pub config_text : Files → Bytes → Result Bytes
config_text files [] = elim (files (codes "osmdbt-config.yaml")) [
  | some text ↦ ok text
  | none ↦ or_throw (files (codes "/etc/replication/osmdbt-config.yaml")) could_not_open_config
]
config_text files (c ∷ config_file) = or_throw (files (c ∷ config_file)) could_not_open_config

-- `load` is YAML::Load, which may throw.
unfoldable pub load_config_file : Files → (Bytes → Result Yaml) → Bytes → Result Yaml
unfolding config_text
load_config_file files load config_file = do text ← config_text files config_file; load text

-- The members of Config behind m_config.
pub record Database : Type 0 where
  pub host : Bytes
  pub port : Bytes
  pub dbname : Bytes
  pub user : Bytes
  pub password : Bytes
  pub replication_slot : Bytes

abbrev pub default_database : Database
default_database = record {
  host = [];
  port = codes "5432";
  dbname = codes "osm";
  user = codes "osm";
  password = codes "osm";
  replication_slot = codes "osm_repl";
}

pub record Config : Type 0 where
  pub database : Database
  pub log_dir : Bytes
  pub changes_dir : Bytes
  pub tmp_dir : Bytes
  pub run_dir : Bytes

abbrev setting : Yaml → Bytes → Bytes → Result Bytes
setting yaml key config = or_throw (set_config (yaml.database key) config) yaml_exception

abbrev pub directory : Yaml → Bytes → Result Bytes
directory yaml key = set_dir (yaml.top key) (codes "/tmp/")

-- The entries of `database`.
set_database : Yaml → Result Database
set_database yaml = do
  host ← setting yaml (codes "host") default_database.host
  port ← setting yaml (codes "port") default_database.port
  dbname ← setting yaml (codes "dbname") default_database.dbname
  user ← setting yaml (codes "user") default_database.user
  password ← setting yaml (codes "password") default_database.password
  slot ← setting yaml (codes "replication_slot") default_database.replication_slot
  ok (record {
    host = host;
    port = port;
    dbname = dbname;
    user = user;
    password = password;
    replication_slot = slot;
  })

unfoldable pub read_database : Yaml → Result Database
unfolding set_database
read_database yaml =
    if yaml.database_is_defined
    then (if yaml.database_is_map then set_database yaml else err database_must_be_a_map)
    else ok default_database

unfoldable pub config_of : Yaml → Result Config
unfolding read_database
config_of yaml = do
  database ← read_database yaml
  log_dir ← directory yaml (codes "log_dir")
  changes_dir ← directory yaml (codes "changes_dir")
  tmp_dir ← directory yaml (codes "tmp_dir")
  run_dir ← directory yaml (codes "run_dir")
  ok (record {
    database = database;
    log_dir = log_dir;
    changes_dir = changes_dir;
    tmp_dir = tmp_dir;
    run_dir = run_dir;
  })

-- The member m_db_connection.
unfoldable pub connection : Config → Bytes
connection config =
    let d = config.database in db_connection d.host d.port d.dbname d.user d.password

-- The constructor.
unfoldable pub load_config : Files → (Bytes → Result Yaml) → Bytes → Result Config
unfolding load_config_file config_of
load_config files load config_file = do
  yaml ← load_config_file files load config_file
  config_of yaml
