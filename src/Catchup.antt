-- ===== src/Catchup.antt =====
-- src/osmdbt-catchup.cpp: get_lsn, the position up to which the log files reach, and the command. The
-- iteration over the directory is a list of the names in it.
pub mod Laws
pub mod Names
pub mod Run
use osmdbt.Common.{
  ℕ, ◌≡◌, refl, Bool, true, false, ◌&&◌, ◌||◌, List, [], ◌∷◌, ◌++◌, Option, none, some, leb, ◌==◌,
  if◌then◌else◌, Bytes, codes, bytes_eq, Result, ok, err, ◌>>=◌, invalid_log_file_format,
}
use osmdbt.Lsn.{LsnType, lsn_of, lsn_gtb, is_set, str}
use osmdbt.Db.{Query, Rows, get_db_version, catchup_to_lsn}
use osmdbt.CreateDiff.App.{has_log_extension}

-- \d
is_decimal : ℕ → Bool
is_decimal c = leb b'0' c && leb c b'9'

-- [0-9A-F]
pub is_hex : ℕ → Bool
unfolding is_decimal
is_hex c = is_decimal c || (leb b'A' c && leb c b'F')

-- A part of the regular expression without a repetition, `#` for \d, at the start of a text, and the
-- text behind it.
unfoldable pub match_fixed : Bytes → Bytes → Option Bytes
unfolding is_decimal
match_fixed [] s = some s
match_fixed (p ∷ pattern) [] = none
match_fixed (p ∷ pattern) (c ∷ s) =
    let rest = match_fixed pattern s in
    if p == b'#' then (if is_decimal c then rest else none) else (if p == c then rest else none)

-- [0-9A-F]*, which nothing that follows it can start with, and the text behind it.
unfoldable pub span_hex : Bytes → Bytes × Bytes
unfolding is_hex
span_hex [] = ([], [])
span_hex (c ∷ s) =
    let (digits, rest) = span_hex s in if is_hex c then (c ∷ digits, rest) else ([], c ∷ s)

abbrev pub iso_pattern : Bytes
iso_pattern = codes "####-##-##T##:##:##Z"

-- The second number, and the end of the name.
pub match_lower : Bytes → Bytes × Bytes → Option Bytes
match_lower upper_part ([], rest) = none
match_lower upper_part (d ∷ digits, rest) =
    if bytes_eq rest (codes ".log") then some (upper_part ++ b'-' ∷ d ∷ digits) else none

-- The first number, and the dash.
pub match_upper : Bytes × Bytes → Option Bytes
unfolding match_lower
match_upper ([], rest) = none
match_upper (digits, []) = none
match_upper (d ∷ digits, c ∷ rest) =
    if c == b'-' then match_lower (d ∷ digits) (span_hex rest) else none

unfoldable pub match_numbers : Option Bytes → Option Bytes
unfolding match_upper
match_numbers none = none
match_numbers (some rest) = match_upper (span_hex rest)

-- The group of the regular expression, where it matches the whole name.
unfoldable pub match_name : Bytes → Option Bytes
unfolding match_numbers
match_name fn = match_numbers (match_fixed (codes "osm-repl-" ++ (iso_pattern ++ codes "-lsn-")) fn)

pub lsn_of_match : Option Bytes → Result LsnType
lsn_of_match none = err invalid_log_file_format
lsn_of_match (some group) = lsn_of group

unfoldable pub new_lsn : Bytes → Result LsnType
unfolding lsn_of_match
new_lsn fn = lsn_of_match (match_name fn)

-- The loop over the directory, with the largest number so far.
pub lsn_of_files : List Bytes → LsnType → Result LsnType
unfolding new_lsn
lsn_of_files [] lsn = ok lsn
lsn_of_files (fn ∷ files) lsn =
    let skipped = lsn_of_files files lsn in
    if has_log_extension fn
    then (do new ← new_lsn fn; lsn_of_files files (if lsn_gtb new lsn then new else lsn))
    else skipped

unfoldable pub get_lsn : List Bytes → Result LsnType
unfolding lsn_of_files
get_lsn files = lsn_of_files files (record { lsn = 0 })

-- What the command asks the database for, if anything.
pub advance_to : LsnType → Rows → ℕ → Bytes → Result (Option Query)
advance_to lsn version server_version replication_slot =
    if is_set lsn
    then get_db_version version
      >>= (λ v. ok (some (catchup_to_lsn server_version replication_slot (str lsn))))
    else ok none

-- `app` inside its pid file. `lsn` is that of the command line, zero if there is none; `version` is the answer of the database
-- on its version.
pub catchup : LsnType → List Bytes → Rows → ℕ → Bytes → Result (Option Query)
unfolding get_lsn advance_to
catchup lsn files version server_version replication_slot = do
  l ← if is_set lsn then ok lsn else get_lsn files
  advance_to l version server_version replication_slot
