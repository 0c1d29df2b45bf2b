-- ===== src/OsmObj/ReadLog.antt =====
-- read_log: the lines of a log file, and what is taken from them.
pub mod Lines
use osmdbt.Common.{
  ℕ, ◌≡◌, refl, Bool, true, false, not, List, [], ◌∷◌, ◌++◌, Option, none, some, ltb, ◌==◌,
  if◌then◌else◌, Bytes, codes, bytes_eq, Result, ok, err, ◌>>=◌, could_not_open_log,
}
use osmdbt.Osm.{Osmium}
use osmdbt.OsmObj.{Reading, add}

-- The lines that std::getline returns one after another.
unfoldable pub cons_byte : ℕ → List Bytes → List Bytes
cons_byte c [] = (c ∷ []) ∷ []
cons_byte c (l ∷ ls) = (c ∷ l) ∷ ls

unfoldable pub lines : Bytes → List Bytes
unfolding cons_byte
lines [] = []
lines (c ∷ s) = let rest = lines s in if c == b'\n' then [] ∷ rest else cons_byte c rest

-- One line, split at the blanks. Lines that are too short, that name another action than N, or that
-- have not six parts are passed over; the warnings are left out.
unfoldable pub read_parts : Osmium → List Bytes → Reading → Result Reading
read_parts osm (lsn ∷ xid ∷ action ∷ obj ∷ version ∷ changeset ∷ []) r =
    if bytes_eq action (codes "N") then add osm obj version changeset r else ok r
read_parts osm parts r = ok r

unfoldable pub read_lines : Osmium → List Bytes → Reading → Result Reading
read_lines osm [] r = ok r
read_lines osm (line ∷ rest) r = do
  r' ← read_parts osm (osm.split_string line b' ') r
  read_lines osm rest r'

-- A file system as far as reading goes: the content of each file that there is.
abbrev pub Files : Type 0
Files = Bytes → Option Bytes

pub read_content : Osmium → Option Bytes → Reading → Result Reading
unfolding read_lines lines
read_content osm none r = err could_not_open_log
read_content osm (some content) r = read_lines osm (lines content) r

unfoldable pub read_log : Osmium → Files → Bytes → Bytes → Reading → Result Reading
unfolding read_content
read_log osm files dir_name file_name r = read_content osm (files (dir_name ++ file_name)) r
