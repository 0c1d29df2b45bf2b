-- ===== src/Options/ExitCode.antt =====
-- What the exit code of a command says.
use osmdbt.Common.{
  some, ℕ, zero, suc, ◌≡◌, ◌⊎◌, inl, inr, refl, Bool, true, false, Bytes, Result, ok, err, Fault,
  could_not_open_config, none, Option, yaml_exception, command_line_error, missing_timestamp_option,
  assertion_failed, undefined_behaviour,
}
use osmdbt.OsmObj.ReadLog.{Files}
use osmdbt.Settings.Load.{
  Yaml, Config, load_config, load_config_file, config_of, config_text, read_database,
}
use osmdbt.Options.{
  VariablesMap, Options, Parsed, usage, thrown, parsed, check_common_options, parse_command_line,
  check, with_options, exit_code, is_usage_fault, is_abort, app_wrapper, returned,
}

-- The exceptions of three classes: argument_error for the missing option --timestamp, what boost throws, what
-- yaml-cpp throws.
abbrev pub IsUsageFault : Fault → Type 0
IsUsageFault f = (f ≡ missing_timestamp_option) ⊎ (f ≡ command_line_error) ⊎ (f ≡ yaml_exception)

-- The program does not come to an exit code.
abbrev pub IsAbort : Fault → Type 0
IsAbort f = (f ≡ assertion_failed) ⊎ (f ≡ undefined_behaviour)

module _ {A C : Type 0} (p : Parsed A) (load : Bytes → Result C) (app : C → A → Result Bool) where
  -- The command ended with this fault.
  pub data Failed (f : Fault) : Type 0 where
    in_options : p ≡ thrown f → Failed f
    in_config :
        (options : Options) (a : A)
        → p ≡ parsed options a
        → load options.config_file ≡ err f
        → Failed f
    in_app :
        (options : Options) (a : A) (config : C)
        → p ≡ parsed options a
        → load options.config_file ≡ ok config
        → app config a ≡ err f
        → Failed f

  -- The work was done, and returned this.
  abbrev pub Ran : Bool → Type 0
  Ran b =
      (options : Options) × (a : A) × (config : C) × (p ≡ parsed options a)
      × (load options.config_file ≡ ok config)
      × (app config a ≡ ok b)

  -- What happened, by the exit code.
  abbrev pub Means : Option ℕ → Type 0
  Means none = (f : Fault) × IsAbort f × Failed f
  Means (some zero) = (p ≡ usage) ⊎ Ran true
  Means (some (suc zero)) = Ran false
  Means (some (suc (suc zero))) = (f : Fault) × (IsUsageFault f → ⊥) × (IsAbort f → ⊥) × Failed f
  Means (some (suc (suc (suc zero)))) = (f : Fault) × IsUsageFault f × Failed f
  Means (some (suc (suc (suc (suc n))))) = ⊥

-- Where the entry `database` of the configuration file is not a map, a command ends with exit code 2,
-- whatever its work is; so it does where it finds no configuration file. The command line is one that its
-- options accept, without --help. The manual pages have exit code 3 for problems with the configuration file.
pub app_wrapper-config_of :
    {A : Type 0} (check_command_options : VariablesMap → Result A) (vm : VariablesMap)
    (options : Options) (a : A) (files : Files) (load : Bytes → Result Yaml) (yaml : Yaml)
    (app : Config → A → Result Bool)
    → check_common_options vm ≡ some options
    → check_command_options vm ≡ ok a
    → ((load_config_file files load options.config_file ≡ ok yaml)
        × (yaml.database_is_defined ≡ true)
        × (yaml.database_is_map ≡ false))
      ⊎ (config_text files options.config_file ≡ err could_not_open_config)
    → app_wrapper (parse_command_line check_command_options (some vm)) (load_config files load) app
      ≡ some 2
unfolding app_wrapper parse_command_line check with_options load_config config_of read_database
    returned exit_code is_usage_fault is_abort load_config_file
app_wrapper-config_of check_command_options vm options a files load yaml app common own
      (inl (e, d, m)) =
    rw (common, own, e, d, m) refl
app_wrapper-config_of check_command_options vm options a files load yaml app common own (inr e) =
    rw (common, own, e) refl
