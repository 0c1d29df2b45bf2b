-- ===== src/State.antt =====
-- src/state.hpp and src/state.cpp: the state of the replication diffs.
pub mod RoundTrip
pub mod Paths
use osmdbt.Common.{
  ℕ, zero, suc, ◌+◌, ◌-◌, ◌≡◌, refl, Bool, true, false, not, ◌||◌, ◌&&◌, List, [], ◌∷◌, ◌++◌,
  Option, none, some, ltb, ◌==◌, if◌then◌else◌, Bytes, codes, bytes_eq, length, take, drop, Result,
  ok, err, ◌>>=◌, or_throw, could_not_open_state, invalid_sequence_number, missing_sequence_number,
  missing_timestamp, invalid_timestamp, assertion_failed,
}
use osmdbt.Number.{to_string, strtoull, c_str}
use osmdbt.Osm.{Osmium}
use osmdbt.OsmObj.{first}
use osmdbt.OsmObj.ReadLog.{lines, Files}
use osmdbt.Files.{Op, excl_write_open, write}

pub record State : Type 0 where
  pub sequence_number : ℕ
  pub timestamp : ℕ

-- The loop that writes the time with a backslash before each colon.
pub escape : Bytes → Bytes
escape [] = []
escape (c ∷ s) = if c == b':' then b'\\' ∷ c ∷ escape s else c ∷ escape s

pub remove_backslash : Bytes → Bytes
remove_backslash [] = []
remove_backslash (c ∷ s) = let rest = remove_backslash s in if c == b'\\' then rest else c ∷ rest

-- State::to_string. `strftime` stands for the C library: the date between # and the end of the line.
pub state_text : Osmium → (ℕ → Bytes) → State → ℕ → Bytes
unfolding escape
state_text osm strftime s comment_timestamp =
    (if ltb 0 comment_timestamp then b'#' ∷ (strftime comment_timestamp ++ codes "\n") else [])
    ++ (codes "sequenceNumber="
        ++ (to_string s.sequence_number
            ++ (codes "\ntimestamp=" ++ (escape (osm.to_iso_all s.timestamp) ++ codes "\n"))))

-- The number of a line, if std::strtoull read the whole value.
pub read_sequence_number : Bytes → ℕ × Bytes → Result ℕ
read_sequence_number value (n, []) =
    if length (c_str value) == length value then ok n else err invalid_sequence_number
read_sequence_number value (n, c ∷ rest) = err invalid_sequence_number

pub read_entry : Osmium → List Bytes → State → Result State
unfolding read_sequence_number remove_backslash
read_entry osm (key ∷ value ∷ []) s =
    if bytes_eq key (codes "sequenceNumber")
    then (do
      n ← read_sequence_number value (strtoull 10 (c_str value))
      ok (record s { sequence_number = n }))
    else if bytes_eq key (codes "timestamp")
    then (do
      t ← or_throw (osm.timestamp_of (remove_backslash value)) invalid_timestamp
      ok (record s { timestamp = t }))
    else ok s
read_entry osm parts s = ok s

-- One line. Empty lines and comments are passed over: `line[0]` of an empty line is the zero byte.
pub read_line : Osmium → Bytes → State → Result State
unfolding first
read_line osm line s =
    if first line == 0 || first line == b'#'
    then ok s
    else read_entry osm (osm.split_string line b'=') s

pub read_state_lines : Osmium → List Bytes → State → Result State
read_state_lines osm [] s = ok s
read_state_lines osm (line ∷ rest) s = do s' ← read_line osm line s; read_state_lines osm rest s'

-- The two tests at the end of the constructor.
pub check_state : State → Result State
check_state s =
    if s.sequence_number == 0
    then err missing_sequence_number
    else if s.timestamp == 0
    then err missing_timestamp
    else ok s

pub read_state_content : Osmium → Option Bytes → Result State
read_state_content osm none = err could_not_open_state
read_state_content osm (some content) = do
  s ← read_state_lines osm (lines content) (record { sequence_number = 0; timestamp = 0 })
  check_state s

-- The constructor that reads a file.
pub read_state : Osmium → Files → Bytes → Result State
unfolding read_state_content
read_state osm files filename = read_state_content osm (files filename)

-- State::write
unfoldable pub write_state : Osmium → (ℕ → Bytes) → State → Bytes → ℕ → List Op
write_state osm strftime s filename comment_timestamp =
    excl_write_open filename ∷ write filename (state_text osm strftime s comment_timestamp) ∷ []

-- State::next, with its assertion.
unfoldable pub next_state : State → ℕ → Result State
next_state s timestamp =
    if ltb s.sequence_number 999999999
    then ok (record { sequence_number = s.sequence_number + 1; timestamp = timestamp })
    else err assertion_failed

pub zeros : ℕ → Bytes
zeros zero = []
zeros (suc n) = b'0' ∷ zeros n

-- %09zu, written by snprintf to a buffer of ten bytes: nine characters and the zero byte. For a number of
-- ten digits or more the code asserts that this does not happen; the buffer then has the first nine.
pub padded : ℕ → Bytes
unfolding zeros
padded n = let text = to_string n in take 9 (zeros (9 - length text) ++ text)

-- std::string::insert of one byte
pub insert_at : ℕ → ℕ → Bytes → Bytes
insert_at i c s = take i s ++ c ∷ drop i s

-- State::path
unfoldable pub path : State → Bytes
unfolding padded insert_at
path s = insert_at 3 b'/' (insert_at 6 b'/' (padded s.sequence_number))

unfoldable pub state_path : State → Bytes
state_path s = path s ++ codes ".state.txt"

unfoldable pub osc_path : State → Bytes
osc_path s = path s ++ codes ".osc"

pub dir1_path : State → Bytes
dir1_path s = take 3 (path s)

pub dir2_path : State → Bytes
dir2_path s = let p = path s in take (length p - 4) p
