-- ===== src/FakeLog/LogFiles.antt =====
-- What osmdbt-fake-log leaves in the log directory.
use mathlib.Core.List.{Perm}
use mathlib.Core.Path.{subst}
use osmdbt.Common.{
  ℕ, ◌==◌, ◌<◌, ◌%◌, ◌^◌, ◌≡◌, ◌≢◌, refl, ap, sym, ◌∙◌, false, List, [], ◌∷◌, ◌++◌, some, Bytes,
  codes, bytes_eq, bytes_eq→eq, All, Bool-cases, inl, inr, arith, ok,
}
use osmdbt.Osm.{Osmium, IsDocumented}
use osmdbt.OsmObj.{Reading}
use osmdbt.OsmObj.ReadLog.{read_content, read_log}
use osmdbt.OsmObj.Order.{sort, sort-IsSorted, sort-perm, sort-All, sort-cons}
use osmdbt.Files.{Disk, write_data_to_file, create_replication_log_name}
use osmdbt.Files.Prefix.{Done, Done-append, Done-Cut, Cut-Spares, Spares}
use osmdbt.Files.WriteData.{write_data_to_file-Done}
use osmdbt.GetLog.Lines.{read_lines-all_lines}
use osmdbt.OsmObj.Added.{add_all}
use osmdbt.FakeLog.{LogEntry, entry_ltb, minute_name, write_logs, fake_log_entries}
use osmdbt.FakeLog.Loop.{Minute, minutes, add_to, lines_of, minute_ops, write_logs-minutes}
use osmdbt.FakeLog.Entries.{
  entry_objs, IsEntry, entry_messages, objects_of-entry_messages, entry_rows, lines_of-all_lines,
  entry_rows-Carries, all_entries, all_entries-minutes, IsAtMinute, minutes-IsAtMinute, IsAscending,
  minutes-IsAscending, entry_ltb-IsStrictWeak,
}

last_byte : Bytes → ℕ
last_byte [] = 0
last_byte (c ∷ []) = c
last_byte (c ∷ d ∷ s) = last_byte (d ∷ s)

last_byte-append : (s : Bytes) (c : ℕ) (t : Bytes) → last_byte (s ++ c ∷ t) ≡ last_byte (c ∷ t)
unfolding last_byte
last_byte-append [] c t = refl
last_byte-append (a ∷ []) c t = refl
last_byte-append (a ∷ b ∷ s) c t = last_byte-append (b ∷ s) c t

-- Texts with different ends are different.
ends_differ : (s t : Bytes) → last_byte s ≢ last_byte t → bytes_eq s t ≡ false
ends_differ s t h = elim (Bool-cases (bytes_eq s t)) [
  | inl e ↦ absurd (h (ap last_byte (bytes_eq→eq s t e)))
  | inr e ↦ e
]

-- A minute in the range of timestamps, with sane entries.
abbrev IsMinute : Minute → Type 0
IsMinute m = (m.0 < 2 ^ 32) × All IsEntry m.1

add_to-IsMinute :
    (e : LogEntry) (gs : List Minute) → IsEntry e → All IsMinute gs → All IsMinute (add_to e gs)
add_to-IsMinute e [] h k = ((h.time_lt, (h, tt)), tt)
add_to-IsMinute e ((t, g) ∷ gs) h k = elim (Bool-cases (t == e.time)) [
  | inl same ↦ rw same ((h.time_lt, (h, k.0.1)), k.1)
  | inr other ↦ rw other ((h.time_lt, (h, tt)), k)
]

minutes-IsMinute : (entries : List LogEntry) → All IsEntry entries → All IsMinute (minutes entries)
minutes-IsMinute [] h = tt
minutes-IsMinute (e ∷ entries) h =
    add_to-IsMinute e (minutes entries) h.0 (minutes-IsMinute entries h.1)

has_times : (entries : List LogEntry) → All IsEntry entries → All (λ e. e.time ≢ 0) entries
has_times [] h = tt
has_times (e ∷ entries) h = (h.0.has_time, has_times entries h.1)

module _ (osm : Osmium) (clock : ℕ → ℕ) (log_dir : Bytes) where
  abbrev pub minute_file : ℕ → Bytes
  minute_file t = log_dir ++ minute_name osm clock log_dir t

  -- Files of different minutes have different names.
  abbrev pub HasNames : Type 0
  HasNames = (t u : ℕ) → t < u → u < 2 ^ 32 → bytes_eq (minute_file u) (minute_file t) ≡ false

  last_byte-minute_file : (t : ℕ) → last_byte (minute_file t) ≡ b'g'
  unfolding minute_name create_replication_log_name last_byte
  last_byte-minute_file t =
      let iso = osm.to_iso (t % 2 ^ 32) in
      last_byte-append log_dir b'o' _
      ∙ (last_byte-append (codes "osm-repl-" ++ osm.to_iso_all (clock t)) b'-' (iso ++ codes ".log")
          ∙ last_byte-append (b'-' ∷ iso) b'.' (codes "log"))

  new_name-ne : (t u : ℕ) → bytes_eq (minute_file u ++ codes ".new") (minute_file t) ≡ false
  unfolding last_byte
  new_name-ne t u = ends_differ _ _ (λ e. absurd (
      omega (
        arith,
        sym (last_byte-append (minute_file u) b'.' (codes "new")) ∙ (e ∙ last_byte-minute_file t),
      )))

  module _ (names : HasNames) where
    minute_ops-Spares :
        (t : ℕ) (gs : List Minute)
        → All (λ m. t < m.0) gs
        → All IsMinute gs
        → Spares (minute_file t) (minute_ops osm clock log_dir gs)
    unfolding write_data_to_file
    minute_ops-Spares t [] h k = tt
    minute_ops-Spares t ((u, g) ∷ gs) h k =
        let new_ne = new_name-ne t u in
        (
          new_ne,
          (new_ne, (rw (new_ne, names t u h.0 k.0.0), (refl, minute_ops-Spares t gs h.1 k.1))),
        )

    minute_ops-Done :
        (gs : List Minute) {disk disk' : Disk}
        → IsAscending gs
        → All IsMinute gs
        → Done (minute_ops osm clock log_dir gs) disk disk'
        → All (λ m. disk' (minute_file m.0) ≡ some (lines_of osm m.1)) gs
    minute_ops-Done [] a k d = tt
    minute_ops-Done ((t, g) ∷ gs) a k d =
        let name = minute_name osm clock log_dir t in
        let (mid, first, rest) =
          Done-append (write_data_to_file (lines_of osm g) log_dir name) _ d in
        (
          Cut-Spares (minute_file t) (minute_ops-Spares t gs a.0 k.1) (Done-Cut rest)
              ∙ write_data_to_file-Done (lines_of osm g) log_dir name first,
          minute_ops-Done gs a.1 k.1 rest,
        )

  module _ (documented : IsDocumented osm) where
    read_minute :
        (t : ℕ) (g : List LogEntry) (r : Reading) (disk : Disk)
        → All IsEntry g
        → disk (minute_file t) ≡ some (lines_of osm g)
        → read_log osm disk log_dir (minute_name osm clock log_dir t) r
          ≡ ok (add_all (entry_objs g) r)
    unfolding read_log
    read_minute t g r disk h e =
        ap (λ c. read_content osm c r) (e ∙ ap some (lines_of-all_lines osm documented g h))
        ∙ (read_lines-all_lines osm documented false (entry_rows osm documented g)
              (entry_messages g) r (entry_rows-Carries osm documented g h)
            ∙ ap (λ os. ok (add_all os r)) (objects_of-entry_messages g))

    read_minutes :
        (gs : List Minute) (r : Reading) (disk : Disk)
        → All IsMinute gs
        → All (λ m. disk (minute_file m.0) ≡ some (lines_of osm m.1)) gs
        → All
            (λ m.
              read_log osm disk log_dir (minute_name osm clock log_dir m.0) r
              ≡ ok (add_all (entry_objs m.1) r))
            gs
    read_minutes [] r disk k h = tt
    read_minutes ((t, g) ∷ gs) r disk k h =
        (read_minute t g r disk k.0.1 h.0, read_minutes gs r disk k.1 h.1)

    write_logs-ops :
        (entries : List LogEntry) (e : LogEntry) (rest : List LogEntry)
        → entries ≡ e ∷ rest
        → All IsEntry entries
        → write_logs osm clock log_dir entries ≡ minute_ops osm clock log_dir (minutes entries)
    write_logs-ops entries e rest same h =
        let times = has_times (e ∷ rest) (rw same at h) in
        rw same (write_logs-minutes osm clock log_dir e rest times)

    fake_log_entries-minutes :
        (entries : List LogEntry)
        → All IsEntry entries
        → (fake_log_entries osm clock log_dir entries).0
          ≡ minute_ops osm clock log_dir (minutes (sort (entry_ltb osm) entries))
    unfolding fake_log_entries
    fake_log_entries-minutes [] h = unfold sort in refl
    fake_log_entries-minutes (e ∷ entries) h =
        let (x, rest, same) = sort-cons (entry_ltb osm) e entries in
        write_logs-ops (sort (entry_ltb osm) (e ∷ entries)) x rest same
          (sort-All (entry_ltb osm) IsEntry (e ∷ entries) h)

    -- For entries whose numbers fit their types and whose minute is not 0, after a run of osmdbt-fake-log
    -- that throws nothing: read_log on the file of each minute adds exactly the objects of the entries of
    -- this minute, all entries in a file are of its minute, the minutes are different, and the files
    -- together have every entry once. Files of different minutes have different names.
    pub read_log-fake_log :
        (entries : List LogEntry) (r : Reading) {disk disk' : Disk}
        → HasNames
        → All IsEntry entries
        → Done (fake_log_entries osm clock log_dir entries).0 disk disk'
        → let ms = minutes (sort (entry_ltb osm) entries) in
          All
            (λ m.
              read_log osm disk' log_dir (minute_name osm clock log_dir m.0) r
              ≡ ok (add_all (entry_objs m.1) r))
            ms
          × All IsAtMinute ms
          × IsAscending ms
          × Perm (all_entries ms) entries
    read_log-fake_log entries r {disk} {disk'} names h done =
        let sorted = sort (entry_ltb osm) entries in
        let ms = minutes sorted in
        let sane = minutes-IsMinute sorted (sort-All (entry_ltb osm) IsEntry entries h) in
        let ascending =
          minutes-IsAscending osm sorted
            (sort-IsSorted (entry_ltb osm) (entry_ltb-IsStrictWeak osm) entries) in
        let done' = subst (λ ops. Done ops disk disk') (fake_log_entries-minutes entries h) done in
        (
          read_minutes ms r disk' sane (minute_ops-Done names ms ascending sane done'),
          minutes-IsAtMinute sorted,
          ascending,
          rw (all_entries-minutes sorted) (sort-perm (entry_ltb osm) entries),
        )
