-- ===== src/FakeLog/Filter.antt =====
-- Which objects osmdbt-fake-log leaves out.
use osmdbt.Common.{
  ℕ, ◌≡◌, refl, sym, ◌∙◌, Bool, true, false, ◌&&◌, ◌||◌, eqb_ℤ, List, [], ◌∷◌, ◌++◌, append_assoc,
  append-nil, none, ◌==◌, if◌then◌else◌, Bytes, map, ok, >>=-eq-ok, All, Bool-cases, inl, inr,
  arith,
}
use mathlib.Core.Path.{subst}
use osmdbt.Osm.{Osmium, ItemType, node, way, relation}
use osmdbt.OsmObj.{OsmObj, OsmObjects, Reading, no_objects, first}
use osmdbt.OsmObj.ReadLog.{Files, read_log}
use osmdbt.CreateDiff.Key.{Key, has_key, key_eqb, key_eqb_refl}
use osmdbt.FakeLog.{
  LogEntry, TimeRow, TimeDatabase, time_row_key, new_entry, read_objects, ObjectsDone, emplace_all,
  add_done, objects_done_of, read_changes,
}

-- The id and the version of the row are those of an element of the set.
abbrev pub is_done : TimeRow → List Key → Bool
is_done row [] = false
is_done row (k ∷ ks) = (eqb_ℤ row.id k.id && row.version == k.version) || is_done row ks

-- The rows whose object version is not in a set.
abbrev pub rows_left : List Key → List TimeRow → List TimeRow
rows_left done [] = []
rows_left done (row ∷ rows) =
    if is_done row done then rows_left done rows else row ∷ rows_left done rows

-- The entry of a row: the minute, the id, the version and the changeset that the query returned.
abbrev pub entry_of : ItemType → TimeRow → LogEntry
entry_of t row = record {
  time = row.ts;
  type = t;
  id = row.id;
  version = row.version;
  cid = row.changeset_id;
}

has_key-is_done :
    (row : TimeRow) (done : List Key) → has_key (time_row_key row) done ≡ is_done row done
unfolding has_key key_eqb
has_key-is_done row [] = refl
has_key-is_done row (k ∷ ks) = ground (arith, has_key-is_done row ks)

read_objects_lem :
    (t : ItemType) (done : List Key) (rows : List TimeRow) (entries : List LogEntry)
    → read_objects t done rows entries ≡ entries ++ map (entry_of t) (rows_left done rows)
unfolding read_objects
read_objects_lem t done [] entries = sym (append-nil entries)
read_objects_lem t done (row ∷ rows) entries = elim (Bool-cases (is_done row done)) [
  | inl e ↦ rw (has_key-is_done row done, e) (read_objects_lem t done rows entries)
  | inr e ↦
      rw (has_key-is_done row done, e)
        (read_objects_lem t done rows (entries ++ new_entry t row ∷ []) ∙ append_assoc entries _ _)
]

-- The changes that osmdbt-fake-log logs are the rows of the three queries, in their order, nodes before
-- ways before relations, without those whose id and version are in the
-- set of their type; each is logged with the minute, the id, the version and the changeset of its row.
pub read_changes_lem :
    (osm : Osmium) (clock : ℕ → ℕ) (log_dir : Bytes) (db : TimeDatabase) (timestamp : ℕ)
    (done : ObjectsDone)
    → let iso = osm.to_iso timestamp in
      read_changes osm clock log_dir db timestamp done
      ≡ map (entry_of node) (rows_left done.nodes (db.node_rows iso))
        ++ (map (entry_of way) (rows_left done.ways (db.way_rows iso))
            ++ map (entry_of relation) (rows_left done.relations (db.relation_rows iso)))
unfolding read_changes
read_changes_lem osm clock log_dir db timestamp done =
    rw (read_objects_lem, read_objects_lem, read_objects_lem, append_assoc) refl

abbrev pub obj_key : OsmObj → Key
obj_key obj = record { id = obj.id; version = obj.version }

abbrev Within : List Key → List OsmObj → Type 0
Within done objs = All (λ obj. has_key (obj_key obj) done ≡ true) objs

-- Every object of the lists is in the set of its type.
abbrev pub AllDone : OsmObjects → ObjectsDone → Type 0
AllDone objects done =
    Within done.nodes objects.nodes
    × Within done.ways objects.ways
    × Within done.relations objects.relations

-- A set that has grown.
abbrev Grows : List Key → List Key → Type 0
Grows done done' = (k : Key) → has_key k done ≡ true → has_key k done' ≡ true

has_key_cons : (k j : Key) (done : List Key) → has_key k done ≡ true → has_key k (j ∷ done) ≡ true
unfolding has_key
has_key_cons k j done h = ground arith

emplace_all-Grows : (objs : List OsmObj) (done : List Key) → Grows done (emplace_all objs done)
unfolding emplace_all
emplace_all-Grows [] done k h = h
emplace_all-Grows (obj ∷ objs) done k h =
    emplace_all-Grows objs (obj_key obj ∷ done) k (has_key_cons k (obj_key obj) done h)

has_key_head : (k : Key) (done : List Key) → has_key k (k ∷ done) ≡ true
unfolding has_key
has_key_head k done = ground (arith, key_eqb_refl k)

emplace_all-Within : (objs : List OsmObj) (done : List Key) → Within (emplace_all objs done) objs
unfolding emplace_all
emplace_all-Within [] done = tt
emplace_all-Within (obj ∷ objs) done = (
  emplace_all-Grows objs (obj_key obj ∷ done) (obj_key obj) (has_key_head (obj_key obj) done),
  emplace_all-Within objs (obj_key obj ∷ done),
)

Within-Grows :
    (objs : List OsmObj) (done done' : List Key)
    → Grows done done'
    → Within done objs
    → Within done' objs
Within-Grows [] done done' g h = tt
Within-Grows (obj ∷ objs) done done' g h = (g (obj_key obj) h.0, Within-Grows objs done done' g h.1)

add_done-AllDone :
    (objects : OsmObjects) (done : ObjectsDone) → AllDone objects (add_done objects done)
unfolding add_done
add_done-AllDone objects done = (
  emplace_all-Within objects.nodes done.nodes,
  emplace_all-Within objects.ways done.ways,
  emplace_all-Within objects.relations done.relations,
)

AllDone-add_done :
    (objects more : OsmObjects) (done : ObjectsDone)
    → AllDone objects done
    → AllDone objects (add_done more done)
unfolding add_done
AllDone-add_done objects more done h = (
  Within-Grows objects.nodes done.nodes _ (emplace_all-Grows more.nodes done.nodes) h.0,
  Within-Grows objects.ways done.ways _ (emplace_all-Grows more.ways done.ways) h.1,
  Within-Grows objects.relations done.relations _ (emplace_all-Grows more.relations done.relations)
      h.2,
)

-- Where a log file of the command line is looked for.
abbrev pub dir_of : Bytes → Bytes → Bytes
dir_of log_dir log = if first log == b'/' then [] else log_dir

module _ (osm : Osmium) (files : Files) (log_dir : Bytes) where
  kept_done :
      (logs : List Bytes) (objects : OsmObjects) (start done : ObjectsDone)
      → AllDone objects start
      → objects_done_of osm files log_dir logs start ≡ ok done
      → AllDone objects done
  unfolding objects_done_of
  kept_done [] objects start done h e =
      let same : start ≡ done = cc in subst (AllDone objects) same h
  kept_done (log ∷ logs) objects start done h e =
      let (r, er, e') =
        >>=-eq-ok (read_log osm files (dir_of log_dir log) log (no_objects, none)) _ e in
      kept_done logs objects (add_done r.0 start) done (AllDone-add_done objects r.0 start h) e'

  -- Every object version that one of the log files of the command line names is in the set of its type, so
  -- that its row is left out: if read_log_files throws nothing, and read_log returns these objects for the
  -- file.
  pub objects_done_of-AllDone :
      (before after : List Bytes) (log : Bytes) (start done : ObjectsDone) (r : Reading)
      → objects_done_of osm files log_dir (before ++ log ∷ after) start ≡ ok done
      → read_log osm files (dir_of log_dir log) log (no_objects, none) ≡ ok r
      → AllDone r.0 done
  unfolding objects_done_of
  objects_done_of-AllDone [] after log start done r e er =
      kept_done after r.0 (add_done r.0 start) done (add_done-AllDone r.0 start) (rw er at e)
  objects_done_of-AllDone (b ∷ before) after log start done r e er =
      let (q, eq, e') =
        >>=-eq-ok (read_log osm files (dir_of log_dir b) b (no_objects, none)) _ e in
      objects_done_of-AllDone before after log (add_done q.0 start) done r e' er
