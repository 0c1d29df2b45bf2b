-- ===== src/Db.antt =====
-- src/db.cpp: what the commands ask the database. The answers are a parameter of the code that asks.
pub mod Session
use osmdbt.Common.{
  ℕ, zero, suc, ◌/◌, ◌≡◌, refl, Bool, true, false, List, [], ◌∷◌, Option, none, some, leb, ◌==◌,
  ◌&&◌, if◌then◌else◌, Bytes, codes, Result, ok, err, or_throw, ◌>>=◌, expected_one_version,
  expected_version_string, conversion_error,
}

-- A statement with its parameters.
pub record Query : Type 0 where
  pub text : Bytes
  pub params : List Bytes

-- A result of the database: rows of columns.
abbrev pub Rows : Type 0
Rows = List (List Bytes)

-- The statements have the columns that are asked for.
abbrev pub column : ℕ → List Bytes → Bytes
column n [] = []
column zero (c ∷ row) = c
column (suc n) (c ∷ row) = column n row

-- std::strncmp of a whole pattern.
unfoldable pub starts_with : Bytes → Bytes → Bool
starts_with [] s = true
starts_with (p ∷ pattern) [] = false
starts_with (p ∷ pattern) (c ∷ s) = p == c && starts_with pattern s

abbrev pub version_query : Query
version_query = record { text = codes "SELECT * FROM version();"; params = [] }

unfoldable pub get_db_version : Rows → Result Bytes
unfolding starts_with
get_db_version [] = err expected_one_version
get_db_version (row ∷ []) =
    if starts_with (codes "PostgreSQL") (column 0 row)
    then ok (column 0 row)
    else err expected_version_string
get_db_version (row ∷ next ∷ rows) = err expected_one_version

abbrev pub version_num_query : Query
version_num_query = record { text = codes "SHOW server_version_num;"; params = [] }

-- `as_int` is libpqxx's as<int>, which throws where there is no number. The number is not negative.
unfoldable pub get_db_major_version : (Bytes → Option ℕ) → Rows → Result ℕ
get_db_major_version as_int [] = err expected_one_version
get_db_major_version as_int (row ∷ []) = do
  n ← or_throw (as_int (column 0 row)) conversion_error
  ok (n / 10000)
get_db_major_version as_int (row ∷ next ∷ rows) = err expected_one_version

unfoldable pub catchup_to_lsn : ℕ → Bytes → Bytes → Query
catchup_to_lsn server_version replication_slot lsn = record {
  text =
      if leb 110000 server_version
      then codes "SELECT * FROM pg_replication_slot_advance($1, CAST ($2 AS pg_lsn));"
      else codes "SELECT * FROM pg_logical_slot_get_changes($1, CAST ($2 AS pg_lsn), NULL);";
  params = replication_slot ∷ lsn ∷ [];
}
