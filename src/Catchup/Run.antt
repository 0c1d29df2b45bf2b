-- ===== src/Catchup/Run.antt =====
-- osmdbt-catchup behind osmdbt-get-log.
use osmdbt.Common.{
  ℕ, ◌≡◌, ◌≢◌, refl, ap, sym, ◌∙◌, Bool, true, false, List, [], ◌∷◌, ◌++◌, append-nil, some, Bytes,
  ok, All, inl, inr, ltb, ◌==◌, if◌then◌else◌, Bool-cases, arith, ==_iff, codes,
}
use mathlib.Core.Path.{subst}
use osmdbt.Osm.{Osmium}
use osmdbt.Lsn.{LsnType, str, lsn_gtb, lsn_ltb, is_set, upper, lower}
use osmdbt.Db.{Rows, get_db_version, catchup_to_lsn}
use osmdbt.CreateDiff.App.{has_log_extension}
use osmdbt.GetLog.{advanced_to, get_log, lsn_dash}
use osmdbt.Files.{create_replication_log_name}
use osmdbt.Number.{to_hex}
use osmdbt.Number.Digits.{print}
use osmdbt.GetLog.Laws.{log_name}
use osmdbt.GetLog.Slot.{Transaction, IsTransaction, IsInOrder, rows_of}
use osmdbt.GetLog.Slot.Loss.{advanced_position}
use osmdbt.Catchup.{match_fixed, iso_pattern, new_lsn, lsn_of_files, get_lsn, advance_to, catchup}
use osmdbt.Catchup.Names.{
  new_lsn-create_replication_log_name, has_log_extension-create_replication_log_name,
}

abbrev pub NoLog : List Bytes → Type 0
NoLog = All (λ fn. has_log_extension fn ≡ false)

lsn_of_files-NoLog :
    (files more : List Bytes) (lsn : LsnType)
    → NoLog files
    → lsn_of_files (files ++ more) lsn ≡ lsn_of_files more lsn
unfolding lsn_of_files
lsn_of_files-NoLog [] more lsn h = refl
lsn_of_files-NoLog (fn ∷ files) more lsn h = rw h.0 (lsn_of_files-NoLog files more lsn h.1)

larger_zero : (l : LsnType) → (if lsn_gtb l (record { lsn = 0 }) then l else record { lsn = 0 }) ≡ l
unfolding lsn_gtb lsn_ltb
larger_zero l = elim (Bool-cases (ltb 0 l.lsn)) [
  | inl e ↦ rw e refl
  | inr e ↦ rw e (ap (λ n. record { lsn = n }) (ground (arith, e)))
]

-- A single log file: its number.
get_lsn_single :
    (before after : List Bytes) (name : Bytes) (l : LsnType)
    → NoLog before
    → NoLog after
    → has_log_extension name ≡ true
    → new_lsn name ≡ ok l
    → get_lsn (before ++ name ∷ after) ≡ ok l
unfolding get_lsn lsn_of_files
get_lsn_single before after name l hb ha e en =
    lsn_of_files-NoLog before (name ∷ after) (record { lsn = 0 }) hb
    ∙ rw (e, en, larger_zero l)
        (subst (λ fs. lsn_of_files fs l ≡ ok l) (append-nil after)
          (lsn_of_files-NoLog after [] l ha))

advance_to-ok :
    (l : LsnType) (v : Bytes) (version : Rows) (server_version : ℕ) (slot : Bytes)
    → l.lsn ≢ 0
    → get_db_version version ≡ ok v
    → advance_to l version server_version slot
      ≡ ok (some (catchup_to_lsn server_version slot (str l)))
unfolding advance_to is_set
advance_to-ok l v version server_version slot set ev = elim (Bool-cases (l.lsn == 0)) [
  | inl e ↦ absurd (set ((==_iff _ _).0 e))
  | inr e ↦ rw (e, ev) refl
]

zero_text : (l : LsnType) → str l ≢ codes "0/0" → l.lsn ≢ 0
unfolding str upper lower to_hex print
zero_text l h e = h (rw e refl)

-- After osmdbt-get-log, osmdbt-catchup advances the slot exactly as osmdbt-get-log does with --catchup: if
-- the log file is the only one with the extension .log, the rows are those of transactions in the order of
-- their commits, and a row on a commit has its position. The time in the name has the form of an ISO time,
-- the position is not 0/0, and the database says its version.
pub catchup-get_log :
    (osm : Osmium) (real_state : Bool) (now : ℕ) (log_dir : Bytes) (taken : List Transaction)
    (before after : List Bytes) (lsn v : Bytes) (version : Rows) (server_version : ℕ) (slot : Bytes)
    → match_fixed iso_pattern (osm.to_iso_all now) ≡ some []
    → All IsTransaction taken
    → IsInOrder taken
    → advanced_to (get_log osm real_state true now log_dir (rows_of taken)) ≡ some lsn
    → lsn ≢ codes "0/0"
    → NoLog before
    → NoLog after
    → get_db_version version ≡ ok v
    → catchup
        (record { lsn = 0 })
        (before ++ log_name osm real_state now (rows_of taken) ∷ after)
        version
        server_version
        slot
      ≡ ok (some (catchup_to_lsn server_version slot lsn))
unfolding catchup is_set
catchup-get_log osm real_state now log_dir taken before after lsn v version server_version slot iso
      h o e set hb ha ev =
    let (l, put, same, lt, rest) =
      advanced_position osm real_state true now log_dir taken [] lsn h
        (subst IsInOrder (sym (append-nil taken)) o) e in
    let named : new_lsn (log_name osm real_state now (rows_of taken)) ≡ ok l =
      ap (λ t. new_lsn (create_replication_log_name osm (lsn_dash t) now)) same
      ∙ new_lsn-create_replication_log_name osm now l iso lt in
    let found =
      get_lsn_single before after _ l hb ha
        (has_log_extension-create_replication_log_name osm _ now) named in
    rw (found, put)
      (advance_to-ok l v version server_version slot (zero_text l (λ z. set (put ∙ z))) ev)
