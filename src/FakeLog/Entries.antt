-- ===== src/FakeLog/Entries.antt =====
-- The lines of osmdbt-fake-log are lines of osmdbt-get-log, and the minutes keep all entries.
use osmdbt.Common.{
  ℕ, ◌≤◌, ◌<◌, ◌^◌, ◌≡◌, ◌≢◌, refl, ap, ◌∙◌, false, List, [], ◌∷◌, ◌++◌, append_assoc, ◌==◌, All,
  Bool-cases, ==_iff, inl, inr, arith, pos_part,
}
use mathlib.Core.Path.{subst}
use osmdbt.Number.{to_string, to_string_ℤ}
use osmdbt.Osm.{Osmium, IsDocumented}
use osmdbt.OsmObj.{OsmObj}
use osmdbt.OsmObj.Order.{IsStrictWeak, IsSorted}
use osmdbt.OsmObj.ReadLog.Lines.{IsLoggable}
use osmdbt.GetLog.{PeekRow, row_line}
use osmdbt.GetLog.Lines.{Message, version, objects_of, all_lines, message_text, Carries}
use osmdbt.FakeLog.{LogEntry, entry_line, entry_ltb}
use osmdbt.FakeLog.Loop.{Minute, add_to, minutes, lines_of}

-- The object version of an entry.
abbrev pub entry_obj : LogEntry → OsmObj
entry_obj e = record { type = e.type; id = e.id; version = e.version; cid = e.cid }

abbrev pub entry_objs : List LogEntry → List OsmObj
entry_objs [] = []
entry_objs (e ∷ entries) = entry_obj e ∷ entry_objs entries

-- The numbers fit their types, and the minute is not that of 1970-01-01T00:00.
pub record IsEntry (e : LogEntry) : Type 0 where
  pub loggable : IsLoggable (entry_obj e) (pos_part e.id)
  pub has_time : e.time ≢ 0
  pub time_lt : e.time < 2 ^ 32

abbrev pub entry_messages : List LogEntry → List Message
entry_messages [] = []
entry_messages (e ∷ entries) = version (entry_obj e) (pos_part e.id) ∷ entry_messages entries

pub objects_of-entry_messages :
    (entries : List LogEntry) → objects_of (entry_messages entries) ≡ entry_objs entries
objects_of-entry_messages [] = refl
objects_of-entry_messages (e ∷ entries) = ap (◌∷◌ (entry_obj e)) (objects_of-entry_messages entries)

module _ (osm : Osmium) (documented : IsDocumented osm) where
  abbrev entry_row : LogEntry → PeekRow
  entry_row e = record {
    lsn = [];
    xid = [];
    message = message_text osm documented (version (entry_obj e) (pos_part e.id));
  }

  abbrev pub entry_rows : List LogEntry → List PeekRow
  entry_rows [] = []
  entry_rows (e ∷ entries) = entry_row e ∷ entry_rows entries

  entry_line-row_line : (e : LogEntry) → IsEntry e → entry_line osm e ≡ row_line false (entry_row e)
  unfolding entry_line row_line to_string to_string_ℤ
  entry_line-row_line e h = rw h.loggable.id (simp append_assoc)

  pub lines_of-all_lines :
      (entries : List LogEntry)
      → All IsEntry entries
      → lines_of osm entries ≡ all_lines false (entry_rows entries)
  lines_of-all_lines [] h = refl
  lines_of-all_lines (e ∷ entries) h =
      rw (entry_line-row_line e h.0, lines_of-all_lines entries h.1) refl

  pub entry_rows-Carries :
      (entries : List LogEntry)
      → All IsEntry entries
      → Carries osm documented (entry_rows entries) (entry_messages entries)
  entry_rows-Carries [] h = tt
  entry_rows-Carries (e ∷ entries) h =
      ((refl, h.0.loggable, (tt, tt), (tt, tt)), entry_rows-Carries entries h.1)

-- The entries of all minutes.
abbrev pub all_entries : List Minute → List LogEntry
all_entries [] = []
all_entries ((t, g) ∷ gs) = g ++ all_entries gs

all_entries-add_to :
    (e : LogEntry) (gs : List Minute) → all_entries (add_to e gs) ≡ e ∷ all_entries gs
all_entries-add_to e [] = refl
all_entries-add_to e ((t, g) ∷ gs) = elim (Bool-cases (t == e.time)) [
  | inl same ↦ rw same
  | inr other ↦ rw other
]

pub all_entries-minutes : (entries : List LogEntry) → all_entries (minutes entries) ≡ entries
all_entries-minutes [] = refl
all_entries-minutes (e ∷ entries) =
    all_entries-add_to e (minutes entries) ∙ ap (◌∷◌ e) (all_entries-minutes entries)

-- Every entry stands in its minute.
abbrev pub IsAtMinute : Minute → Type 0
IsAtMinute m = All (λ e. e.time ≡ m.0) m.1

add_to-IsAtMinute :
    (e : LogEntry) (gs : List Minute) → All IsAtMinute gs → All IsAtMinute (add_to e gs)
add_to-IsAtMinute e [] h = ((refl, tt), tt)
add_to-IsAtMinute e ((t, g) ∷ gs) h = elim (Bool-cases (t == e.time)) [
  | inl same ↦
      let eq = (==_iff t e.time).0 same in
      rw same ((refl, subst (λ u. All (λ x. x.time ≡ u) g) eq h.0), h.1)
  | inr other ↦ rw other ((refl, tt), h)
]

pub minutes-IsAtMinute : (entries : List LogEntry) → All IsAtMinute (minutes entries)
minutes-IsAtMinute [] = tt
minutes-IsAtMinute (e ∷ entries) =
    add_to-IsAtMinute e (minutes entries) (minutes-IsAtMinute entries)

-- Strictly ascending minutes.
abbrev pub IsAscending : List Minute → Type 0
IsAscending [] = Unit
IsAscending (m ∷ ms) = All (λ n. m.0 < n.0) ms × IsAscending ms

abbrev IsLate : ℕ → Minute → Type 0
IsLate t m = t ≤ m.0

add_to-IsLate :
    (t : ℕ) (e : LogEntry) (gs : List Minute)
    → t ≤ e.time
    → All (IsLate t) gs
    → All (IsLate t) (add_to e gs)
add_to-IsLate t e [] h k = (h, tt)
add_to-IsLate t e ((u, g) ∷ gs) h k = elim (Bool-cases (u == e.time)) [
  | inl same ↦ rw same (h, k.1)
  | inr other ↦ rw other (h, k)
]

minutes-IsLate :
    (t : ℕ) (entries : List LogEntry)
    → All (λ e. t ≤ e.time) entries
    → All (IsLate t) (minutes entries)
minutes-IsLate t [] h = tt
minutes-IsLate t (e ∷ entries) h =
    add_to-IsLate t e (minutes entries) h.0 (minutes-IsLate t entries h.1)

later : (t u : ℕ) (gs : List Minute) → t < u → All (λ n. u < n.0) gs → All (λ n. t < n.0) gs
later t u [] h k = tt
later t u (m ∷ gs) h k = (omega arith, later t u gs h k.1)

add_to-IsAscending :
    (e : LogEntry) (gs : List Minute)
    → All (IsLate e.time) gs
    → IsAscending gs
    → IsAscending (add_to e gs)
add_to-IsAscending e [] h a = (tt, tt)
add_to-IsAscending e ((t, g) ∷ gs) h a = elim (Bool-cases (t == e.time)) [
  | inl same ↦
      let eq = (==_iff t e.time).0 same in rw same (subst (λ u. All (λ n. u < n.0) gs) eq a.0, a.1)
  | inr other ↦
      let lt : e.time < t = ground (arith, h.0) in rw other ((lt, later e.time t gs lt a.0), a)
]

module _ (osm : Osmium) where
  -- The order is one that std::sort may be called with.
  pub entry_ltb-IsStrictWeak : IsStrictWeak (entry_ltb osm)
  unfolding entry_ltb
  entry_ltb-IsStrictWeak = record {
    irrefl = λ a. ground arith;
    trans = λ a b c h k. ground arith;
    not_less_trans = λ a b c h k. ground arith;
  }

  times_of_sorted :
      (e : LogEntry) (entries : List LogEntry)
      → All (λ x. entry_ltb osm x e ≡ false) entries
      → All (λ x. e.time ≤ x.time) entries
  unfolding entry_ltb
  times_of_sorted e [] h = tt
  times_of_sorted e (x ∷ entries) h = (ground (arith, h.0), times_of_sorted e entries h.1)

  pub minutes-IsAscending :
      (entries : List LogEntry) → IsSorted (entry_ltb osm) entries → IsAscending (minutes entries)
  minutes-IsAscending [] h = tt
  minutes-IsAscending (e ∷ entries) h =
      add_to-IsAscending e (minutes entries)
        (minutes-IsLate e.time entries (times_of_sorted e entries h.0))
        (minutes-IsAscending entries h.1)
