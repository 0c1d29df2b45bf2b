-- ===== src/GetLog/Lines.antt =====
-- The lines of the log file of osmdbt-get-log, as read_log reads them.
use osmdbt.Common.{
  ℕ, ◌≡◌, refl, ap, ◌∙◌, sym, Bool, true, false, List, [], ◌∷◌, ◌++◌, append_assoc, append-nil,
  Bytes, codes, ok, ◌>>=◌, arith, All-append, append_cons_ne,
}
use osmdbt.Osm.{Osmium, IsDocumented, Lacks}
use osmdbt.OsmObj.{OsmObj, Reading}
use osmdbt.OsmObj.Added.{add_all, push_all, push_all-add_all}
use osmdbt.OsmObj.ReadLog.{lines, read_parts, read_lines}
use osmdbt.OsmObj.ReadLog.Lines.{
  lines-line, IsLoggable, new_version, read_parts-add_obj, new_version_no_newline,
}
use osmdbt.GetLog.{PeekRow, LogState, row_line, log_row, log_rows}

-- The text of all rows, and their commits and new versions one after another.
abbrev pub all_lines : Bool → List PeekRow → Bytes
all_lines real_state [] = []
all_lines real_state (row ∷ rows) = row_line real_state row ++ all_lines real_state rows

pub log_rows-content :
    (real_state : Bool) (rows : List PeekRow) (s : LogState)
    → (log_rows real_state rows s).content ≡ s.content ++ all_lines real_state rows
unfolding log_rows
log_rows-content real_state [] s = sym (append-nil s.content)
log_rows-content real_state (row ∷ rows) s =
    log_rows-content real_state rows (log_row real_state row s) ∙ unfold log_row in rw append_assoc

-- A message of the plugin on a commit, or on a new version of an object with its id.
pub data Message : Type 0 where
  commit : Message
  version : OsmObj → ℕ → Message

abbrev pub objects_of : List Message → List OsmObj
objects_of [] = []
objects_of (commit ∷ ms) = objects_of ms
objects_of (version obj n ∷ ms) = obj ∷ objects_of ms

-- A word of a line.
abbrev pub IsWord : Bytes → Type 0
IsWord w = Lacks b' ' w × Lacks b'\n' w

module _ (osm : Osmium) (documented : IsDocumented osm) where
  abbrev pub message_text : Message → Bytes
  message_text commit = codes "C"
  message_text (version obj n) = new_version osm documented obj n

  abbrev pub IsSane : Message → Type 0
  IsSane commit = Unit
  IsSane (version obj n) = IsLoggable obj n

  -- The rows carry these messages, and words for LSN and xid.
  abbrev pub Carries : List PeekRow → List Message → Type 0
  Carries [] [] = Unit
  Carries [] (m ∷ ms) = ⊥
  Carries (row ∷ rows) [] = ⊥
  Carries (row ∷ rows) (m ∷ ms) =
      ((row.message ≡ message_text m) × IsSane m × IsWord row.lsn × IsWord row.xid)
      × Carries rows ms

  message_no_newline : (m : Message) → IsSane m → Lacks b'\n' (message_text m)
  message_no_newline commit h = omega arith
  message_no_newline (version obj n) h = new_version_no_newline osm documented obj n h

  read_commit :
      (lsn xid : Bytes) (r : Reading)
      → Lacks b' ' lsn
      → Lacks b' ' xid
      → read_parts osm (osm.split_string (lsn ++ b' ' ∷ (xid ++ b' ' ∷ codes "C")) b' ') r ≡ ok r
  unfolding read_parts
  read_commit lsn xid r hl hx =
      let step = documented.split_step b' ' in
      ap (λ parts. read_parts osm parts r)
        (step lsn _ hl (append_cons_ne xid b' ' _)
          ∙ ap (◌∷◌ lsn) (
              step xid _ hx (λ e. cc)
              ∙ ap (◌∷◌ xid) (documented.split_end b' ' (codes "C") (omega arith) (λ e. cc))))

  abbrev pub one : Message → List OsmObj
  one m = objects_of (m ∷ [])

  read_message :
      (lsn xid : Bytes) (m : Message) (r : Reading)
      → Lacks b' ' lsn
      → Lacks b' ' xid
      → IsSane m
      → read_parts osm (osm.split_string (lsn ++ b' ' ∷ (xid ++ b' ' ∷ message_text m)) b' ') r
        ≡ ok (push_all (one m) r)
  read_message lsn xid commit r hl hx h = read_commit lsn xid r hl hx
  read_message lsn xid (version obj n) r hl hx h =
      read_parts-add_obj osm documented lsn xid obj n r hl hx h

  abbrev line_text : Bytes → Bytes → Bytes → Bytes
  line_text lsn xid message = lsn ++ b' ' ∷ (xid ++ b' ' ∷ message)

  line_no_newline :
      (lsn xid message : Bytes)
      → Lacks b'\n' lsn
      → Lacks b'\n' xid
      → Lacks b'\n' message
      → Lacks b'\n' (line_text lsn xid message)
  line_no_newline lsn xid message hl hx hm =
      All-append _ lsn _ hl (omega arith, All-append _ xid _ hx (omega arith, hm))

  -- The first two words of the line of a row.
  abbrev first_words : Bool → PeekRow → Bytes × Bytes
  first_words true row = (row.lsn, row.xid)
  first_words false row = (codes "0/0", codes "0")

  first_words-IsWord :
      (real_state : Bool) (row : PeekRow)
      → IsWord row.lsn
      → IsWord row.xid
      → IsWord (first_words real_state row).0 × IsWord (first_words real_state row).1
  first_words-IsWord true row hl hx = (hl, hx)
  first_words-IsWord false row hl hx = omega arith

  row_line-line_text :
      (real_state : Bool) (row : PeekRow) (rest : Bytes)
      → let (a, b) = first_words real_state row in
        row_line real_state row ++ rest ≡ line_text a b row.message ++ b'\n' ∷ rest
  unfolding row_line
  row_line-line_text true row rest = simp append_assoc
  row_line-line_text false row rest = simp append_assoc

  push_all_cons :
      (m : Message) (ms : List Message) (r : Reading)
      → push_all (objects_of ms) (push_all (one m) r) ≡ push_all (objects_of (m ∷ ms)) r
  push_all_cons commit ms r = refl
  push_all_cons (version obj n) ms r = refl

  read_lines-push_all :
      (real_state : Bool) (rows : List PeekRow) (ms : List Message) (r : Reading)
      → Carries rows ms
      → read_lines osm (lines (all_lines real_state rows)) r ≡ ok (push_all (objects_of ms) r)
  unfolding read_lines
  read_lines-push_all real_state [] [] r h = unfold lines in refl
  read_lines-push_all real_state [] (m ∷ ms) r h = absurd h
  read_lines-push_all real_state (row ∷ rows) [] r h = absurd h
  read_lines-push_all real_state (row ∷ rows) (m ∷ ms) r ((e, sane, hl, hx), h) =
      let (a, b) = first_words real_state row in
      let (ha, hb) = first_words-IsWord real_state row hl hx in
      let text = line_text a b (message_text m) in
      let rest = all_lines real_state rows in
      let no_newline = line_no_newline a b _ ha.1 hb.1 (message_no_newline m sane) in
      ap (λ t. read_lines osm (lines t) r)
        (row_line-line_text real_state row rest ∙ ap (λ t. line_text a b t ++ b'\n' ∷ rest) e)
      ∙ (ap (λ ls. read_lines osm ls r) (lines-line text rest no_newline)
          ∙ (ap (λ q. q >>= λ r'. read_lines osm (lines rest) r')
                (read_message a b m r ha.0 hb.0 sane)
              ∙ (read_lines-push_all real_state rows ms (push_all (one m) r) h
                  ∙ ap ok (push_all_cons m ms r))))

  -- read_log's loop on the lines of the rows: it adds the objects of the messages in their order.
  pub read_lines-all_lines :
      (real_state : Bool) (rows : List PeekRow) (ms : List Message) (r : Reading)
      → Carries rows ms
      → read_lines osm (lines (all_lines real_state rows)) r ≡ ok (add_all (objects_of ms) r)
  read_lines-all_lines real_state rows ms r h =
      read_lines-push_all real_state rows ms r h ∙ ap ok (push_all-add_all (objects_of ms) r)
