-- ===== src/Options.antt =====
-- src/options.cpp, the options of the commands, and app_wrapper of src/util.hpp, which turns what happens
-- into the exit code. boost::program_options is a parameter: what it has parsed, or that it throws.
pub mod ExitCode
use osmdbt.Common.{
  ℕ, ◌^◌, ◌-◌, ◌≡◌, refl, Bool, true, false, List, [], ◌∷◌, Option, none, some, if◌then◌else◌,
  Bytes, codes, Fault, Result, ok, err, or_throw, ◌>>=◌, missing_timestamp_option,
  command_line_error, yaml_exception, invalid_timestamp, assertion_failed, undefined_behaviour,
}
use osmdbt.Osm.{Osmium}
use osmdbt.Lsn.{LsnType, lsn_of}

-- A variables_map: the options that are there, and their values in the types that they are declared with.
pub record VariablesMap : Type 0 where
  pub contains : Bytes → Bool
  pub text : Bytes → Bytes
  pub texts : Bytes → List Bytes
  pub number : Bytes → ℕ

pub record Options : Type 0 where
  pub config_file : Bytes
  pub quiet : Bool

-- What comes of the command line: the program has printed its usage and exits, or it throws, or it goes
-- on with its options.
pub data Parsed (A : Type 0) : Type 0 where
  usage : Parsed A
  thrown : Fault → Parsed A
  parsed : Options → A → Parsed A

unfoldable pub check_common_options : VariablesMap → Option Options
check_common_options vm =
    if vm.contains (codes "help")
    then none
    else some (record {
      config_file = if vm.contains (codes "config") then vm.text (codes "config") else [];
      quiet = vm.contains (codes "quiet");
    })

module _ {A : Type 0} where
  with_options : Options → Result A → Parsed A
  with_options options (err fault) = thrown fault
  with_options options (ok a) = parsed options a

  check : (VariablesMap → Result A) → VariablesMap → Option Options → Parsed A
  unfolding with_options
  check check_command_options vm none = usage
  check check_command_options vm (some options) = with_options options (check_command_options vm)

  -- `none` where boost throws.
  pub parse_command_line : (VariablesMap → Result A) → Option VariablesMap → Parsed A
  unfolding check
  parse_command_line check_command_options none = thrown command_line_error
  parse_command_line check_command_options (some vm) =
      check check_command_options vm (check_common_options vm)

-- The commands without options of their own.
abbrev pub no_options : VariablesMap → Result (Unit {0})
no_options vm = ok tt

pub record GetLogOptions : Type 0 where
  pub max_changes : ℕ
  pub catchup : Bool
  pub real_state : Bool

abbrev pub get_log_options : VariablesMap → Result GetLogOptions
get_log_options vm = ok (record {
  max_changes = if vm.contains (codes "max-changes") then vm.number (codes "max-changes") else 0;
  catchup = vm.contains (codes "catchup");
  real_state = vm.contains (codes "real-state");
})

abbrev pub catchup_options : VariablesMap → Result LsnType
catchup_options vm =
    if vm.contains (codes "lsn") then lsn_of (vm.text (codes "lsn")) else ok (record { lsn = 0 })

pub record FakeLogOptions : Type 0 where
  pub log_file_names : List Bytes
  pub timestamp : ℕ

unfoldable pub fake_log_options : Osmium → VariablesMap → Result FakeLogOptions
fake_log_options osm vm = do
  timestamp ←
      if vm.contains (codes "timestamp")
      then or_throw (osm.timestamp_of (vm.text (codes "timestamp"))) invalid_timestamp
      else err missing_timestamp_option
  ok (record {
    log_file_names = if vm.contains (codes "log") then vm.texts (codes "log") else [];
    timestamp = timestamp;
  })

-- The first three handlers of app_wrapper: for argument_error, boost's errors and those of yaml-cpp.
pub is_usage_fault : Fault → Bool
is_usage_fault missing_timestamp_option = true
is_usage_fault command_line_error = true
is_usage_fault yaml_exception = true
is_usage_fault fault = false

-- No handler sees these.
pub is_abort : Fault → Bool
is_abort assertion_failed = true
is_abort undefined_behaviour = true
is_abort fault = false

-- Which handler is taken; `none` where the program does not get to one.
pub exit_code : Fault → Option ℕ
unfolding is_usage_fault is_abort
exit_code fault = if is_abort fault then none else if is_usage_fault fault then some 3 else some 2

returned : Result Bool → Option ℕ
unfolding exit_code
returned (err fault) = exit_code fault
returned (ok true) = some 0
returned (ok false) = some 1

module _ {A C : Type 0} where
  -- `app_wrapper`, with the constructor of Config and `app`.
  pub app_wrapper : Parsed A → (Bytes → Result C) → (C → A → Result Bool) → Option ℕ
  unfolding returned
  app_wrapper usage load app = some 0
  app_wrapper (thrown fault) load app = exit_code fault
  app_wrapper (parsed options a) load app =
      returned (do config ← load options.config_file; app config a)
