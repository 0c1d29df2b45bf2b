-- ===== src/CreateDiff/Join.antt =====
-- The shared loop against a description of its result: every object gets the rows of its own key.
use osmdbt.Common.{
  ℕ, ◌≡◌, ◌∙◌, List, [], ◌∷◌, ◌++◌, append_assoc, append-nil, Option, none, some, ltb,
  if◌then◌else◌, Bytes, ok, ◌>>=◌, All,
}
use osmdbt.Osm.{Osmium}
use osmdbt.OsmObj.{Cache, UserInfo, cache_at}
use osmdbt.CreateDiff.Key.{Key, IsAscending}
use osmdbt.CreateDiff.Rows.{ObjectRow, Object, row_key}
use osmdbt.CreateDiff.Process.{set_user, set_attributes, commit_row, rows_loop}

abbrev pub keep : Option Bytes → ObjectRow → List ObjectRow → List ObjectRow
keep none row rows = row ∷ rows
keep (some redaction) row rows = rows

-- The rows that are not redacted.
abbrev pub kept : List ObjectRow → List ObjectRow
kept [] = []
kept (row ∷ rows) = keep row.redaction_id row (kept rows)

abbrev pub keys : List ObjectRow → List Key
keys [] = []
keys (row ∷ rows) = row_key row ∷ keys rows

abbrev or_zero : Option ℕ → ℕ
or_zero none = 0
or_zero (some t) = t

abbrev or_nobody : Option UserInfo → UserInfo
or_nobody none = record { id = 0; username = [] }
or_nobody (some u) = u

module _ (osm : Osmium) where
  abbrev pub row_time : ObjectRow → ℕ
  row_time row = or_zero (osm.timestamp_of row.timestamp)

  -- The largest time of the rows, redacted ones included, and of `m`.
  abbrev pub latest : List ObjectRow → ℕ → ℕ
  latest [] m = m
  latest (row ∷ rows) m = latest rows (if ltb m (row_time row) then row_time row else m)

module _ (osm : Osmium) (cucache : Cache) where
  -- What the loop relies on for a row: its time can be read, and its changeset is in the cache.
  abbrev pub IsReady : ObjectRow → Type 0
  IsReady row =
      (t : ℕ) × (u : UserInfo) × (osm.timestamp_of row.timestamp ≡ some t)
      × (cache_at row.changeset_id cucache ≡ some u)

  module _ (start : ObjectRow → Object) (complete : Key → Object → Object) where
    -- The object of a row: its attributes, and the parts that `complete` gives its key.
    abbrev pub object_of : ObjectRow → Object
    object_of row = complete (row_key row) (
        set_user (start row) row (row_time osm row) (or_nobody (cache_at row.changeset_id cucache)))

    abbrev pub objects_of : List ObjectRow → List Object
    objects_of [] = []
    objects_of (row ∷ rows) = object_of row ∷ objects_of rows

IsAscending-tail :
    (redaction : Option Bytes) (row : ObjectRow) (rows : List ObjectRow)
    → IsAscending (keys (keep redaction row (kept rows)))
    → IsAscending (keys (kept rows))
IsAscending-tail none row rows a = a.1
IsAscending-tail (some r) row rows a = a

-- `add_parts` agrees with `complete` as long as the cursor fits the keys to come.
module _ {C : Type 0} (start : ObjectRow → Object) (add_parts : Key → C → Object → C × Object)
    (complete : Key → Object → Object) (Fits : List Key → C → Type 0)
    (agrees : (k : Key) (ks : List Key) (it : C) (b : Object)
      → IsAscending (k ∷ ks)
      → Fits (k ∷ ks) it
      → ((add_parts k it b).1 ≡ complete k b) × Fits ks (add_parts k it b).0)
    (osm : Osmium) (cucache : Cache) where
  abbrev expected : List ObjectRow → List Object
  expected = objects_of osm cucache start complete

  -- What the loop gives for the rows that follow, whatever the buffer and the cursor.
  abbrev Continues : List ObjectRow → ℕ → ℕ → Type 0
  Continues rows max last =
      (it : C) (buffer : List Object)
      → Fits (keys (kept rows)) it
      → rows_loop start add_parts osm cucache rows it max buffer
        ≡ ok (buffer ++ expected (kept rows), last)

  commit_kept :
      (row : ObjectRow) (it : C) (t : ℕ) (u : UserInfo)
      → cache_at row.changeset_id cucache ≡ some u
      → let (it', object) = add_parts (row_key row) it (set_user (start row) row t u) in
        commit_row start add_parts cucache row it t none ≡ ok (it', object ∷ [])
  unfolding commit_row set_attributes
  commit_kept row it t u e = rw e

  rows_loop_step :
      (redaction : Option Bytes) (row : ObjectRow) (rows : List ObjectRow) (it : C) (max t last : ℕ)
      (buffer : List Object)
      → osm.timestamp_of row.timestamp ≡ some t
      → IsReady osm cucache row
      → IsAscending (keys (keep redaction row (kept rows)))
      → Fits (keys (keep redaction row (kept rows))) it
      → Continues rows max last
      → (commit_row start add_parts cucache row it t redaction >>= λ committed.
          rows_loop start add_parts osm cucache rows committed.0 max (buffer ++ committed.1))
        ≡ ok (buffer ++ expected (keep redaction row (kept rows)), last)
  rows_loop_step (some r) row rows it max t last buffer er ready a f continues =
      unfold commit_row in rw append-nil (continues it buffer f)
  rows_loop_step none row rows it max t last buffer er (t', u, er', eu) a f continues =
      let k = row_key row in
      let b = set_user (start row) row t u in
      let (made, fits) = agrees k (keys (kept rows)) it b a f in
      rw (commit_kept row it t u eu) (
        continues (add_parts k it b).0 (buffer ++ (add_parts k it b).1 ∷ []) fits
        ∙ rw (append_assoc, made, eu, er))

  pub rows_loop-objects_of :
      (rows : List ObjectRow) (it : C) (max : ℕ) (buffer : List Object)
      → All (IsReady osm cucache) rows
      → IsAscending (keys (kept rows))
      → Fits (keys (kept rows)) it
      → rows_loop start add_parts osm cucache rows it max buffer
        ≡ ok (buffer ++ expected (kept rows), latest osm rows max)
  unfolding rows_loop
  rows_loop-objects_of [] it max buffer r a f = rw append-nil
  rows_loop-objects_of (row ∷ rows) it max buffer r a f =
      let (t, u, er, eu) = r.0 in
      let later = if ltb max t then t else max in
      rw er (
        rows_loop_step row.redaction_id row rows it later t (latest osm rows later) buffer er r.0 a
          f
          (λ it' buffer' f'.
            rows_loop-objects_of rows it' later buffer' r.1
              (IsAscending-tail row.redaction_id row rows a) f'))
