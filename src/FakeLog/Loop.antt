-- ===== src/FakeLog/Loop.antt =====
-- The loop of osmdbt-fake-log writes one file for each minute.
use osmdbt.Common.{
  ℕ, ◌≡◌, ◌≢◌, refl, ap, sym, ◌∙◌, true, false, List, [], ◌∷◌, ◌++◌, append_assoc, append-nil, ◌==◌,
  if◌then◌else◌, Bytes, All, Bool-cases, ==_iff, inl, inr, arith,
}
use osmdbt.Osm.{Osmium}
use osmdbt.Files.{Op, write_data_to_file}
use osmdbt.FakeLog.{
  LogEntry, entry_line, append_to, WriteState, minute_name, new_minute, write_entry, write_entries,
  write_start, write_logs,
}

-- The entries of a list by minutes: neighbours of the same minute stand together.
abbrev pub Minute : Type 0
Minute = ℕ × List LogEntry

abbrev pub add_to : LogEntry → List Minute → List Minute
add_to e [] = (e.time, e ∷ []) ∷ []
add_to e ((t, g) ∷ gs) =
    if t == e.time then (e.time, e ∷ g) ∷ gs else (e.time, e ∷ []) ∷ (t, g) ∷ gs

abbrev pub minutes : List LogEntry → List Minute
minutes [] = []
minutes (e ∷ entries) = add_to e (minutes entries)

module _ (osm : Osmium) where
  abbrev pub lines_of : List LogEntry → Bytes
  lines_of [] = []
  lines_of (e ∷ entries) = entry_line osm e ++ lines_of entries

  module _ (clock : ℕ → ℕ) (log_dir : Bytes) where
    abbrev write_minute : ℕ → Bytes → List Op
    write_minute t content = write_data_to_file content log_dir (minute_name osm clock log_dir t)

    -- A file for each minute, with the lines of its entries.
    abbrev pub minute_ops : List Minute → List Op
    minute_ops [] = []
    minute_ops ((t, g) ∷ gs) = write_minute t (lines_of g) ++ minute_ops gs

    -- What is left to do for a minute with some content, and the minutes behind it.
    abbrev rest_ops : ℕ → Bytes → List Minute → List Op
    rest_ops t content [] = write_minute t content
    rest_ops t content ((u, g) ∷ gs) =
        if u == t
        then write_minute t (content ++ lines_of g) ++ minute_ops gs
        else write_minute t content ++ minute_ops ((u, g) ∷ gs)

    eqb_refl : (t : ℕ) → (t == t) ≡ true
    eqb_refl t = ground arith

    rest_ops-add_to :
        (e : LogEntry) (c : Bytes) (gs : List Minute)
        → rest_ops e.time (c ++ entry_line osm e) gs ≡ rest_ops e.time c (add_to e gs)
    rest_ops-add_to e c [] = simp (eqb_refl e.time, append-nil)
    rest_ops-add_to e c ((t, g) ∷ gs) = elim (Bool-cases (t == e.time)) [
      | inl same ↦ rw (same, eqb_refl e.time, append_assoc)
      | inr other ↦ rw (other, eqb_refl e.time, append-nil)
    ]

    minute_ops-add_to :
        (e : LogEntry) (gs : List Minute)
        → rest_ops e.time (entry_line osm e) gs ≡ minute_ops (add_to e gs)
    minute_ops-add_to e [] = simp append-nil
    minute_ops-add_to e ((t, g) ∷ gs) = elim (Bool-cases (t == e.time)) [
      | inl same ↦ rw same
      | inr other ↦ rw (other, append-nil)
    ]

    add_to_other :
        (t : ℕ) (c : Bytes) (e : LogEntry) (gs : List Minute)
        → (e.time == t) ≡ false
        → rest_ops t c (add_to e gs) ≡ write_minute t c ++ minute_ops (add_to e gs)
    add_to_other t c e [] h = rw h
    add_to_other t c e ((u, g) ∷ gs) h = elim (Bool-cases (u == e.time)) [
      | inl same ↦ rw (same, h)
      | inr other ↦ rw (other, h)
    ]

    abbrev finish : WriteState → List Op
    finish s = s.ops ++ write_data_to_file s.content log_dir s.file_name

    abbrev HasTime : LogEntry → Type 0
    HasTime e = e.time ≢ 0

    eqb_comm : (a b : ℕ) → (a == b) ≡ (b == a)
    eqb_comm a b = ground arith

    -- The state in the middle of a minute.
    abbrev within : ℕ → Bytes → List Op → WriteState
    within t c ops = record {
      last = t;
      file_name = minute_name osm clock log_dir t;
      content = c;
      ops = ops;
    }

    write_entry_same :
        (e : LogEntry) (t : ℕ) (c : Bytes) (ops : List Op)
        → (t == e.time) ≡ true
        → write_entry osm clock log_dir e (within t c ops)
          ≡ within e.time (c ++ entry_line osm e) ops
    unfolding write_entry append_to
    write_entry_same e t c ops same = let eq = (==_iff t e.time).0 same in rw (same, eq) refl

    write_entry_other :
        (e : LogEntry) (t : ℕ) (c : Bytes) (ops : List Op)
        → (t == e.time) ≡ false
        → (t == 0) ≡ false
        → write_entry osm clock log_dir e (within t c ops)
          ≡ within e.time (entry_line osm e) (ops ++ write_minute t c)
    unfolding write_entry append_to new_minute
    write_entry_other e t c ops other nz = rw (other, nz) refl

    nonzero : (t : ℕ) → t ≢ 0 → (t == 0) ≡ false
    nonzero t h = ground arith

    -- Inside the loop, within a minute.
    write_entries-rest_ops :
        (entries : List LogEntry) (t : ℕ) (c : Bytes) (ops : List Op)
        → t ≢ 0
        → All HasTime entries
        → finish (write_entries osm clock log_dir entries (within t c ops))
          ≡ ops ++ rest_ops t c (minutes entries)
    unfolding write_entries
    write_entries-rest_ops [] t c ops nz h = refl
    write_entries-rest_ops (e ∷ entries) t c ops nz h = elim (Bool-cases (t == e.time)) [
      | inl same ↦
          let eq = (==_iff t e.time).0 same in
          ap (λ s. finish (write_entries osm clock log_dir entries s))
            (write_entry_same e t c ops same)
          ∙ (write_entries-rest_ops entries e.time (c ++ entry_line osm e) ops h.0 h.1
              ∙ ap (λ r. ops ++ r)
                  (rest_ops-add_to e c (minutes entries)
                    ∙ ap (λ u. rest_ops u c (add_to e (minutes entries))) (sym eq)))
      | inr other ↦
          ap (λ s. finish (write_entries osm clock log_dir entries s))
            (write_entry_other e t c ops other (nonzero t nz))
          ∙ (write_entries-rest_ops entries e.time (entry_line osm e) (ops ++ write_minute t c) h.0
                h.1
              ∙ (append_assoc ops (write_minute t c) _
                  ∙ ap (λ r. ops ++ r)
                      (ap (λ r. write_minute t c ++ r) (minute_ops-add_to e (minutes entries))
                        ∙ sym (
                            add_to_other t c e (minutes entries)
                              (sym (eqb_comm t e.time) ∙ other)))))
    ]

    write_entry_first :
        (e : LogEntry)
        → (e.time == 0) ≡ false
        → write_entry osm clock log_dir e (write_start osm clock log_dir)
          ≡ within e.time (entry_line osm e) []
    unfolding write_entry append_to new_minute
    write_entry_first e h = rw (sym (eqb_comm e.time 0) ∙ h) refl

    -- What the loop writes for one entry and more, none of them at time 0.
    pub write_logs-minutes :
        (e : LogEntry) (entries : List LogEntry)
        → All HasTime (e ∷ entries)
        → write_logs osm clock log_dir (e ∷ entries) ≡ minute_ops (minutes (e ∷ entries))
    unfolding write_logs write_entries
    write_logs-minutes e entries h =
        ap (λ s. finish (write_entries osm clock log_dir entries s))
          (write_entry_first e (nonzero e.time h.0))
        ∙ (write_entries-rest_ops entries e.time (entry_line osm e) [] h.0 h.1
            ∙ minute_ops-add_to e (minutes entries))
