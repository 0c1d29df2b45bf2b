-- ===== src/GetLog/Slot/Loss.antt =====
-- A run of osmdbt-get-log against the replication slot, which may be cut off anywhere.
use osmdbt.Common.{
  ℕ, ◌<◌, ◌≡◌, inl, inr, refl, Bool, true, false, List, [], ◌∷◌, ◌++◌, some, Bytes, All, ok,
  >>=-eq-ok,
}
use osmdbt.Number.{two_64}
use osmdbt.Osm.{Osmium}
use osmdbt.Lsn.{LsnType, str, lsn_of}
use osmdbt.Lsn.RoundTrip.{lsn_of-str, lsn_of_refuses}
use osmdbt.Files.{Disk}
use osmdbt.GetLog.{advanced_to, PeekRow, log_rows, log_start, peek_query, get_log, advance}
use osmdbt.GetLog.Slot.Steps.{advanced_to-then_advance, CutSteps}
use osmdbt.GetLog.Slot.{
  Transaction, IsTransaction, IsInOrder, IsAfter, rows_of, Server, IsBefore, rows_of-IsBefore,
}

module _ (osm : Osmium) (real_state catchup : Bool) (now : ℕ) (log_dir : Bytes) where
  advance_lem :
      (c : Bool) (s lsn : Bytes)
      → advance c s ≡ ok (some lsn)
      → (l : LsnType) × (lsn_of s ≡ ok l) × (lsn ≡ str l)
  unfolding advance
  advance_lem false s lsn e = cc
  advance_lem true s lsn e = let (l, read, put) = >>=-eq-ok (lsn_of s) _ e in (l, read, cc)

  -- The slot is advanced to a position that was read from the rows.
  advanced_lem :
      (rows : List PeekRow) (lsn : Bytes)
      → advanced_to (get_log osm real_state catchup now log_dir rows) ≡ some lsn
      → (l : LsnType) × (lsn_of (log_rows real_state rows log_start).lsn ≡ ok l) × (lsn ≡ str l)
  unfolding get_log
  advanced_lem [] lsn h = unfold advanced_to in cc
  advanced_lem (row ∷ rows) lsn h =
      let e = advanced_to-then_advance _ _ lsn h in
      advance_lem catchup (log_rows real_state (row ∷ rows) log_start).lsn lsn e

  -- This position is the last in the rows, and no transaction of the rest is at it or before it.
  pub advanced_position :
      (taken rest : List Transaction) (lsn : Bytes)
      → All IsTransaction taken
      → IsInOrder (taken ++ rest)
      → advanced_to (get_log osm real_state catchup now log_dir (rows_of taken)) ≡ some lsn
      → (l : LsnType) × (lsn ≡ str l)
        × ((log_rows real_state (rows_of taken) log_start).lsn ≡ str l)
        × (l.lsn < two_64)
        × All (IsAfter l) rest
  unfolding IsBefore
  advanced_position taken rest lsn h o e =
      let (l, read, put) = advanced_lem (rows_of taken) lsn e in
      elim (rows_of-IsBefore real_state taken rest log_start h o (inl refl)) [
        | inl empty ↦ cc (lsn_of_refuses [] tt)
        | inr (l', same, lt, after) ↦ (l', cc (lsn_of-str l' lt), same, lt, after)
      ]

  module _ (server : Server) (server_version max_changes : ℕ) (slot : Bytes) where
    abbrev pub rows_taken : List Transaction → List PeekRow
    rows_taken waiting = rows_of (server.peeked (peek_query max_changes slot) waiting)

    -- A run of osmdbt-get-log on the rows of its query that may be cut off anywhere.
    abbrev pub Run : Disk → List Transaction → Disk → List Transaction → Type 0
    Run disk waiting disk' waiting' =
        CutSteps server server_version slot
          (get_log osm real_state catchup now log_dir (rows_taken waiting)).steps disk waiting disk'
          waiting'
