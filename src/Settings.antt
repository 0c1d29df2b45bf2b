-- ===== src/Settings.antt =====
-- src/config.cpp: what becomes of the values of the configuration file. A value of yaml-cpp is a
-- parameter: whether it is there, whether it is null, and its text, `none` where as<std::string> throws.
pub mod Laws
pub mod Load
pub mod Loaded
use osmdbt.Common.{
  ℕ, ◌≡◌, refl, Bool, true, false, List, [], ◌∷◌, ◌++◌, Option, none, some, ◌==◌, if◌then◌else◌,
  Bytes, codes, Result, ok, err, yaml_exception, undefined_behaviour,
}

pub record Node : Type 0 where
  pub is_defined : Bool
  pub is_null : Bool
  pub as_string : Option Bytes

-- The new value of the variable; `none` where the code throws.
unfoldable pub set_config : Node → Bytes → Option Bytes
set_config node config =
    if node.is_defined then (if node.is_null then some [] else node.as_string) else some config

-- Whether `back()` of a text that is not empty is a slash.
unfoldable pub ends_in_slash : Bytes → Bool
ends_in_slash [] = false
ends_in_slash (c ∷ []) = c == b'/'
ends_in_slash (c ∷ d ∷ s) = ends_in_slash (d ∷ s)

-- The value of a directory that is there. as<std::string>() may throw; `back()` of an empty text is
-- undefined.
pub close_dir : Option Bytes → Result Bytes
unfolding ends_in_slash
close_dir none = err yaml_exception
close_dir (some []) = err undefined_behaviour
close_dir (some (c ∷ dir)) =
    ok (if ends_in_slash (c ∷ dir) then c ∷ dir else (c ∷ dir) ++ codes "/")

unfoldable pub set_dir : Node → Bytes → Result Bytes
unfolding close_dir
set_dir config var = if config.is_defined then close_dir config.as_string else ok var

-- The text of the connection so far, with one more setting.
pub append_setting : Bytes → Bytes → Bytes → Bytes
append_setting [] key val = key ++ b'=' ∷ val
append_setting (c ∷ str) key val = (c ∷ str) ++ b' ' ∷ (key ++ b'=' ∷ val)

pub build_conn_str : Bytes → Bytes → Bytes → Bytes
unfolding append_setting
build_conn_str str key [] = str
build_conn_str str key (c ∷ val) = append_setting str key (c ∷ val)

pub db_connection : Bytes → Bytes → Bytes → Bytes → Bytes → Bytes
unfolding build_conn_str
db_connection host port dbname user password =
    let str = build_conn_str [] (codes "host") host in
    let str' = build_conn_str str (codes "port") port in
    let str'' = build_conn_str str' (codes "dbname") dbname in
    build_conn_str (build_conn_str str'' (codes "user") user) (codes "password") password
