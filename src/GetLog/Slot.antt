-- ===== src/GetLog/Slot.antt =====
-- The transactions that wait in the replication slot, and what the rows say of them.
pub mod Steps
pub mod Loss
use osmdbt.Common.{
  ℕ, ◌<◌, ◌≡◌, ◌≢◌, ◌⊎◌, inl, inr, refl, ap, sym, ◌∙◌, Bool, true, List, [], ◌∷◌, ◌++◌, some, Bytes,
  All, ok, >>=-eq-ok, ==_iff, ◌==◌, Bool-cases,
}
use mathlib.Core.Path.{subst}
use osmdbt.Number.{two_64}
use osmdbt.Osm.{Osmium}
use osmdbt.OsmObj.{first}
use osmdbt.Lsn.{LsnType, str, lsn_of}
use osmdbt.Lsn.RoundTrip.{lsn_of-str, lsn_of_refuses}
use osmdbt.Db.{Query, catchup_to_lsn}
use osmdbt.Files.{Disk, write_data_to_file}
use osmdbt.Files.Prefix.{Cut, Done}
use osmdbt.Files.WriteData.{write_data_to_file-Done}
use osmdbt.GetLog.{
  PeekRow, LogState, log_row, log_rows, log_start, peek_query, get_log, write_log, advance,
}
use osmdbt.GetLog.Lines.{all_lines, log_rows-content}
use osmdbt.GetLog.Laws.{files-get_log, log_name}

-- What waits in the slot: the decoded transactions in the order of their commits.
pub record Transaction : Type 0 where
  pub commit : LsnType
  pub rows : List PeekRow

abbrev pub rows_of : List Transaction → List PeekRow
rows_of [] = []
rows_of (t ∷ ts) = t.rows ++ rows_of ts

-- A row that tells of a commit has the position of the commit.
abbrev pub IsRowOf : LsnType → PeekRow → Type 0
IsRowOf commit row = first row.message ≡ b'C' → row.lsn ≡ str commit

abbrev pub IsTransaction : Transaction → Type 0
IsTransaction t = (t.commit.lsn < two_64) × All (IsRowOf t.commit) t.rows

abbrev pub IsAfter : LsnType → Transaction → Type 0
IsAfter l t = l.lsn < t.commit.lsn

abbrev pub IsInOrder : List Transaction → Type 0
IsInOrder [] = Unit
IsInOrder (t ∷ ts) = All (IsAfter t.commit) ts × IsInOrder ts

-- PostgreSQL: the transactions whose rows a query returns, and what is left in the slot after one.
pub record Server : Type 0 where
  pub peeked : Query → List Transaction → List Transaction
  pub left : Query → List Transaction → List Transaction

-- To advance the slot to a position leaves the transactions there that were committed behind it, in
-- their order.
pub record Keeps (server : Server) (server_version : ℕ) (slot : Bytes) : Type 0 where
  pub after :
      (l : LsnType) (before rest : List Transaction)
      → l.lsn < two_64
      → All (IsAfter l) rest
      → (kept : List Transaction) × (server.left
            (catchup_to_lsn server_version slot (str l))
            (before ++ rest)
          ≡ kept ++ rest)

-- No row tells of an object version.
abbrev pub NoData : List PeekRow → Type 0
NoData = All (λ row. first row.message ≢ b'N')

-- An LSN text that no transaction of the rest is at or before; or there is none yet.
IsBefore : List Transaction → Bytes → Type 0
IsBefore rest s = (s ≡ []) ⊎ ((l : LsnType) × (s ≡ str l) × (l.lsn < two_64) × All (IsAfter l) rest)

module _ (real_state : Bool) where
  log_row-lsn :
      (row : PeekRow) (commit : LsnType) (s : LogState)
      → IsRowOf commit row
      → ((log_row real_state row s).lsn ≡ s.lsn) ⊎ ((log_row real_state row s).lsn ≡ str commit)
  unfolding log_row
  log_row-lsn row commit s h = elim (Bool-cases (first row.message == b'C')) [
    | inl e ↦ inr (rw e (h ((==_iff _ _).0 e)))
    | inr e ↦ inl (rw e refl)
  ]

  log_rows-IsBefore :
      (rest : List Transaction) (rows : List PeekRow) (commit : LsnType) (s : LogState)
      → commit.lsn < two_64
      → All (IsRowOf commit) rows
      → All (IsAfter commit) rest
      → IsBefore rest s.lsn
      → IsBefore rest (log_rows real_state rows s).lsn
  unfolding log_rows IsBefore
  log_rows-IsBefore rest [] commit s lt h a b = b
  log_rows-IsBefore rest (row ∷ rows) commit s lt h a b =
      log_rows-IsBefore rest rows commit (log_row real_state row s) lt h.1 a
        (elim (log_row-lsn row commit s h.0) [
          | inl e ↦ subst (IsBefore rest) (sym e) b
          | inr e ↦ inr (commit, e, lt, a)
        ])

  log_rows-append :
      (rows more : List PeekRow) (s : LogState)
      → log_rows real_state (rows ++ more) s ≡ log_rows real_state more (log_rows real_state rows s)
  unfolding log_rows
  log_rows-append [] more s = refl
  log_rows-append (row ∷ rows) more s = log_rows-append rows more (log_row real_state row s)

  IsAfter-rest :
      (taken rest : List Transaction) (l : LsnType)
      → All (IsAfter l) (taken ++ rest)
      → All (IsAfter l) rest
  IsAfter-rest [] rest l h = h
  IsAfter-rest (t ∷ taken) rest l h = IsAfter-rest taken rest l h.1

  rows_of-IsBefore :
      (taken rest : List Transaction) (s : LogState)
      → All IsTransaction taken
      → IsInOrder (taken ++ rest)
      → IsBefore rest s.lsn
      → IsBefore rest (log_rows real_state (rows_of taken) s).lsn
  rows_of-IsBefore [] rest s h o b = unfold log_rows in b
  rows_of-IsBefore (t ∷ taken) rest s h o b = rw (log_rows-append t.rows (rows_of taken) s) (
      rows_of-IsBefore taken rest (log_rows real_state t.rows s) h.1 o.1 (
        log_rows-IsBefore rest t.rows t.commit s h.0.0 h.0.1 (IsAfter-rest taken rest t.commit o.0)
          b))
