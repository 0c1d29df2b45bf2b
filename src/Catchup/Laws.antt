-- ===== src/Catchup/Laws.antt =====
-- What get_lsn returns.
use osmdbt.Common.{
  ◌≤◌, ◌≡◌, ◌⊎◌, refl, inl, inr, true, false, List, [], ◌∷◌, arith, Bytes, ok, >>=-eq-ok, All,
  Bool-cases, ltb, if◌then◌else◌,
}
use mathlib.Core.Path.{subst}
use osmdbt.Lsn.{LsnType, lsn_gtb, lsn_ltb}
use osmdbt.CreateDiff.App.{has_log_extension}
use osmdbt.Catchup.{new_lsn, lsn_of_files, get_lsn}

-- The file is no log file, or the number in its name is at most `l`.
abbrev pub IsBelow : LsnType → Bytes → Type 0
IsBelow l fn =
    (has_log_extension fn ≡ false) ⊎ ((m : LsnType) × (new_lsn fn ≡ ok m) × (m.lsn ≤ l.lsn))

-- The name of a log file among these has the number `l`.
abbrev pub Names : List Bytes → LsnType → Type 0
Names [] l = ⊥
Names (fn ∷ files) l = ((has_log_extension fn ≡ true) × (new_lsn fn ≡ ok l)) ⊎ Names files l

abbrev larger : LsnType → LsnType → LsnType
larger m lsn = if lsn_gtb m lsn then m else lsn

larger_lem :
    (m lsn : LsnType)
    → (m.lsn ≤ (larger m lsn).lsn)
      × (lsn.lsn ≤ (larger m lsn).lsn)
      × ((larger m lsn ≡ m) ⊎ (larger m lsn ≡ lsn))
unfolding lsn_gtb lsn_ltb
larger_lem m lsn = elim (Bool-cases (ltb lsn.lsn m.lsn)) [
  | inl e ↦ rw e (omega arith, ground (arith, e), inl refl)
  | inr e ↦ rw e (ground (arith, e), omega arith, inr refl)
]

-- The result of the loop from a number: it is at least this, and it is this or the number in a name.
abbrev IsLargest : List Bytes → LsnType → LsnType → Type 0
IsLargest files lsn l = (lsn.lsn ≤ l.lsn) × All (IsBelow l) files × ((l ≡ lsn) ⊎ Names files l)

lsn_of_files_read :
    (fn : Bytes) (files : List Bytes) (lsn m l : LsnType)
    → has_log_extension fn ≡ true
    → new_lsn fn ≡ ok m
    → IsLargest files (larger m lsn) l
    → IsLargest (fn ∷ files) lsn l
lsn_of_files_read fn files lsn m l e em (below, all, from) =
    let (m_le, lsn_le, choice) = larger_lem m lsn in
    (
      omega arith,
      (inr (m, em, omega arith), all),
      elim from [
        | inr named ↦ inr (inr named)
        | inl same ↦ elim choice [ inl is_m ↦ inr (inl (e, cc)) | inr is_lsn ↦ inl (cc) ]
      ],
    )

lsn_of_files_lem :
    (files : List Bytes) (lsn l : LsnType) → lsn_of_files files lsn ≡ ok l → IsLargest files lsn l
unfolding lsn_of_files
lsn_of_files_lem [] lsn l h =
    let same : lsn ≡ l = cc in subst (λ x. IsLargest [] lsn x) same (omega arith, tt, inl refl)
lsn_of_files_lem (fn ∷ files) lsn l h = elim (Bool-cases (has_log_extension fn)) [
  | inl e ↦
      let (m, em, h') = >>=-eq-ok (new_lsn fn) _ (rw e at h) in
      lsn_of_files_read fn files lsn m l e em (lsn_of_files_lem files (larger m lsn) l h')
  | inr e ↦
      let (below, all, from) = lsn_of_files_lem files lsn l (rw e at h) in
      (below, (inl e, all), elim from [ inl same ↦ inl same | inr named ↦ inr (inr named) ])
]

-- If get_lsn throws nothing, every file with the extension .log has a number in its name that is at most
-- the result; and the result is zero or one of these numbers.
pub get_lsn_lem :
    (files : List Bytes) (l : LsnType)
    → get_lsn files ≡ ok l
    → All (IsBelow l) files × ((l ≡ record { lsn = 0 }) ⊎ Names files l)
unfolding get_lsn
get_lsn_lem files l h = let (below, all, from) = lsn_of_files_lem files _ l h in (all, from)
