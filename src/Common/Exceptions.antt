-- ===== src/Common/Exceptions.antt =====
-- The exceptions that the code throws, one constructor for each place that throws, and the two other ways
-- in which it does not go on; and the result of such code.
use mathlib.Core.Logic.{◌⊎◌, inl, inr}
use mathlib.Core.Option.{Option, none, some}
use mathlib.Core.Path.{◌≡◌, refl}

pub data Fault : Type 0 where
  -- osmobj::osmobj
  entry_too_short type_must_be_nwr expected_version expected_changeset : Fault
  -- read_log, State::State
  could_not_open_log could_not_open_state : Fault
  -- State::State
  invalid_sequence_number missing_sequence_number missing_timestamp : Fault
  -- State::write
  can_not_create_state : Fault
  -- lsn_type::lsn_type
  error_parsing_lsn : Fault
  -- osmdbt-catchup
  invalid_log_file_format : Fault
  -- osmdbt-create-diff
  missing_state_file changeset_not_in_cache : Fault
  -- get_db_version, get_db_major_version, libpqxx's as<int>
  expected_one_version expected_version_string conversion_error : Fault
  -- osmdbt-testdb
  expected_single_result : Fault
  -- set_config and set_dir, Config::Config
  yaml_exception could_not_open_config database_must_be_a_map : Fault
  -- the command line: boost, osmdbt-fake-log
  command_line_error missing_timestamp_option : Fault
  -- libpqxx
  sql_error : Fault
  -- libosmium's timestamps
  invalid_timestamp : Fault
  -- An assertion that fails: the program is aborted.
  assertion_failed : Fault
  -- A call whose behaviour is undefined: the development says nothing of what follows it.
  undefined_behaviour : Fault

pub data Result {ℓ} (A : Type ℓ) : Type ℓ where
  err : Fault → Result A
  ok : A → Result A

-- The value, or the exception.
abbrev pub or_throw {ℓ} : {A : Type ℓ} → Option A → Fault → Result A
or_throw none fault = err fault
or_throw (some a) fault = ok a

module _ {ℓ κ} {A : Type ℓ} {B : Type κ} where
  -- What follows a statement that may throw.
  infixl 5 ◌>>=◌
  abbrev pub ◌>>=◌ : Result A → (A → Result B) → Result B
  err fault >>= rest = err fault
  ok a >>= rest = rest a

  -- A chain that threw nothing: its first statement returned a value, and the rest went on from it.
  pub >>=-eq-ok :
      (first : Result A) (rest : A → Result B) {b : B}
      → (first >>= rest) ≡ ok b
      → (a : A) × (first ≡ ok a) × (rest a ≡ ok b)
  >>=-eq-ok (err fault) rest h = cc
  >>=-eq-ok (ok a) rest h = (a, refl, h)

pub Result-cases :
    {A : Type 0} (r : Result A) → ((f : Fault) × (r ≡ err f)) ⊎ ((a : A) × (r ≡ ok a))
Result-cases (err f) = inl (f, refl)
Result-cases (ok a) = inr (a, refl)
