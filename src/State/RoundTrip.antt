-- ===== src/State/RoundTrip.antt =====
-- A state file that was written is read back.
use osmdbt.Common.{
  ℕ, ◌^◌, ◌<◌, ◌≡◌, ◌⊎◌, inl, inr, refl, ap, ◌∙◌, true, false, List, [], ◌∷◌, ◌++◌, append_assoc,
  some, ltb, ◌==◌, Bytes, codes, bytes_eq, length, ok, ◌>>=◌, arith, All, All-append, Bool-cases,
  or_throw, invalid_timestamp, ◌≢◌,
}
use osmdbt.Number.{to_string, strtoull, c_str, two_64}
use osmdbt.Number.Digits.{print, digit_value}
use osmdbt.Number.RoundTrip.{print-cons}
use osmdbt.Number.Texts.{decimal-Lacks, strtoull-decimal_end, c_str_lem}
use osmdbt.Osm.{Osmium, IsDocumented, Lacks, IsIsoByte}
use osmdbt.OsmObj.ReadLog.{lines}
use osmdbt.OsmObj.ReadLog.Lines.{lines-line}
use osmdbt.Files.{Disk}
use osmdbt.Files.Prefix.{Done, then_op, end, write_lem}
use osmdbt.State.{
  write_state, State, escape, remove_backslash, state_text, read_sequence_number, read_entry,
  read_line, read_state_lines, check_state, read_state_content, read_state,
}

remove_backslash-escape : (s : Bytes) → All IsIsoByte s → remove_backslash (escape s) ≡ s
unfolding remove_backslash escape
remove_backslash-escape [] h = refl
remove_backslash-escape (c ∷ s) h = ground (arith, h.0, remove_backslash-escape s h.1)

-- The escaped time has neither a newline nor the sign that splits the line.
escape-Lacks : (b : ℕ) (s : Bytes) → (b ≡ b'\n') ⊎ (b ≡ b'=') → All IsIsoByte s → Lacks b (escape s)
unfolding escape
escape-Lacks b [] e h = tt
escape-Lacks b (c ∷ s) e h = elim (Bool-cases (c == b':')) [
  | inl colon ↦ rw colon (ground arith, (ground arith, escape-Lacks b s e h.1))
  | inr other ↦ rw other (ground (arith, h.0), escape-Lacks b s e h.1)
]

-- A text that is not empty is not empty with its backslashes.
escape_ne : (s : Bytes) → s ≢ [] → escape s ≢ []
unfolding escape
escape_ne [] h e = absurd (h refl)
escape_ne (c ∷ s) h e = elim (Bool-cases (c == b':')) [ inl colon ↦ cc | inr other ↦ cc ]

print_ne : (n : ℕ) → print 10 n ≢ []
print_ne n e = let (c, s, h) = print-cons 10 (omega arith) (omega arith) n in cc

read_sequence_number-print :
    (n : ℕ)
    → n < two_64
    → read_sequence_number (print 10 n) (strtoull 10 (c_str (print 10 n))) ≡ ok n
unfolding read_sequence_number digit_value
read_sequence_number-print n h =
    let plain = c_str_lem (print 10 n) (decimal-Lacks 0 n refl) in
    ap (λ s. read_sequence_number (print 10 n) (strtoull 10 s)) plain
    ∙ (ap (read_sequence_number (print 10 n)) (strtoull-decimal_end n h)
        ∙ rw (ap length plain) (ground arith))

-- The numbers of the state fit their types, and are set.
abbrev pub IsComplete : State → Type 0
IsComplete s =
    (0 < s.sequence_number)
    × (s.sequence_number < two_64)
    × (0 < s.timestamp)
    × (s.timestamp < 2 ^ 32)

module _ (osm : Osmium) (documented : IsDocumented osm) where
  abbrev sequence_line : ℕ → Bytes
  sequence_line n = codes "sequenceNumber" ++ b'=' ∷ print 10 n

  abbrev time_line : ℕ → Bytes
  time_line t = codes "timestamp" ++ b'=' ∷ escape (osm.to_iso_all t)

  read_sequence_line :
      (n : ℕ) (s : State)
      → n < two_64
      → read_line osm (sequence_line n) s ≡ ok (record s { sequence_number = n })
  unfolding read_line read_entry bytes_eq digit_value
  read_sequence_line n s h =
      let value = print 10 n in
      ap (λ parts. read_entry osm parts s)
        (documented.split_step b'=' (codes "sequenceNumber") value (omega arith) (print_ne n)
          ∙ ap (◌∷◌ (codes "sequenceNumber"))
              (documented.split_end b'=' value (decimal-Lacks b'=' n refl) (print_ne n)))
      ∙ ap (λ r. r >>= λ m. ok (record s { sequence_number = m })) (read_sequence_number-print n h)

  read_time_line :
      (t : ℕ) (s : State)
      → t < 2 ^ 32
      → read_line osm (time_line t) s ≡ ok (record s { timestamp = t })
  unfolding read_line read_entry bytes_eq
  read_time_line t s h =
      let bytes = documented.iso_bytes t h in
      let value = escape (osm.to_iso_all t) in
      let filled = escape_ne _ (documented.iso_some t h) in
      ap (λ parts. read_entry osm parts s)
        (documented.split_step b'=' (codes "timestamp") value (omega arith) filled
          ∙ ap (◌∷◌ (codes "timestamp"))
              (documented.split_end b'=' value (escape-Lacks b'=' _ (inr refl) bytes) filled))
      ∙ ap (λ o. or_throw o invalid_timestamp >>= λ m. ok (record s { timestamp = m }))
          (ap osm.timestamp_of (remove_backslash-escape _ bytes) ∙ documented.timestamp_of_iso t h)

  abbrev body : State → Bytes
  body s = sequence_line s.sequence_number ++ b'\n' ∷ (time_line s.timestamp ++ b'\n' ∷ [])

  abbrev start : State
  start = record { sequence_number = 0; timestamp = 0 }

  lines-body :
      (s : State)
      → IsComplete s
      → lines (body s) ≡ sequence_line s.sequence_number ∷ time_line s.timestamp ∷ []
  unfolding digit_value
  lines-body s h =
      let n = s.sequence_number in
      let bytes = documented.iso_bytes s.timestamp h.3 in
      let no_newline =
        All-append _ (codes "sequenceNumber") (b'=' ∷ print 10 n) (omega arith)
          (omega arith, decimal-Lacks b'\n' n refl) in
      let no_newline' =
        All-append _ (codes "timestamp") (b'=' ∷ escape (osm.to_iso_all s.timestamp)) (omega arith)
          (omega arith, escape-Lacks b'\n' _ (inl refl) bytes) in
      lines-line (sequence_line n) (time_line s.timestamp ++ b'\n' ∷ []) no_newline
      ∙ ap (◌∷◌ (sequence_line n))
          (lines-line (time_line s.timestamp) [] no_newline' ∙ unfold lines in refl)

  read_lines_body :
      (s : State)
      → IsComplete s
      → (read_state_lines osm (sequence_line s.sequence_number ∷ time_line s.timestamp ∷ []) start
          >>= check_state)
        ≡ ok s
  unfolding read_state_lines check_state
  read_lines_body s h =
      rw
        (
          read_sequence_line s.sequence_number start h.1,
          read_time_line s.timestamp (record start { sequence_number = s.sequence_number }) h.3,
        )
        (ground arith)

  module _ (strftime : ℕ → Bytes) where
    state_text_plain :
        (s : State) (ts : ℕ) → ltb 0 ts ≡ false → state_text osm strftime s ts ≡ body s
    unfolding state_text to_string
    state_text_plain s ts e = rw e

    state_text_comment :
        (s : State) (ts : ℕ)
        → ltb 0 ts ≡ true
        → state_text osm strftime s ts ≡ (b'#' ∷ strftime ts) ++ b'\n' ∷ body s
    unfolding state_text to_string
    state_text_comment s ts e = rw (e, append_assoc)

    comment_line :
        (text : Bytes) (rest : List Bytes) (s : State)
        → read_state_lines osm ((b'#' ∷ text) ∷ rest) s ≡ read_state_lines osm rest s
    unfolding read_state_lines read_line
    comment_line text rest s = refl

    pub read-state_text :
        (s : State) (ts : ℕ)
        → IsComplete s
        → Lacks b'\n' (strftime ts)
        → read_state_content osm (some (state_text osm strftime s ts)) ≡ ok s
    unfolding read_state_content
    read-state_text s ts h no_newline = elim (Bool-cases (ltb 0 ts)) [
      | inl e ↦
          rw
            (
              state_text_comment s ts e,
              lines-line (b'#' ∷ strftime ts) (body s) (omega arith, no_newline),
              lines-body s h,
              comment_line (strftime ts)
                  (sequence_line s.sequence_number ∷ time_line s.timestamp ∷ []) start,
            )
            (read_lines_body s h)
      | inr e ↦ rw (state_text_plain s ts e, lines-body s h) (read_lines_body s h)
    ]

    -- A state that State::write wrote to a file, with a comment or without, is read back from it by the
    -- constructor: if no operation threw, both numbers are set and fit their types, and the date of the
    -- comment holds no newline.
    pub read_state-write_state :
        (s : State) (filename : Bytes) (ts : ℕ) {disk disk' : Disk}
        → IsComplete s
        → Lacks b'\n' (strftime ts)
        → Done (write_state osm strftime s filename ts) disk disk'
        → read_state osm disk' filename ≡ ok s
    unfolding read_state write_state
    read_state-write_state s filename ts h no_newline (then_op e (then_op {disk = d} f end)) =
        ap (read_state_content osm) (write_lem filename _ d f) ∙ read-state_text s ts h no_newline
