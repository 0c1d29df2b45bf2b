-- ===== src/CreateDiff/Select.antt =====
-- Which log files a run reads, and the number of its state.
use osmdbt.Common.{
  ℕ, ◌≤◌, ◌<◌, ◌≡◌, inl, inr, refl, ap, ◌∙◌, true, List, [], ◌∷◌, ◌++◌, append_assoc, append-nil,
  ltb, arith, if◌then◌else◌, Bytes, codes, Result, ok, err, ◌>>=◌, >>=-eq-ok, Bool-cases, ◌==◌,
  missing_state_file, Option, none, some, not,
}
use mathlib.Core.Path.{subst}
use osmdbt.Osm.{Osmium}
use osmdbt.OsmObj.{Reading, size}
use osmdbt.OsmObj.ReadLog.{Files, read_log}
use osmdbt.State.{State, read_state_content, next_state}

module _ (osm : Osmium) (files : Files) (log_dir : Bytes) (max_changes : ℕ) where
  -- The loop over the log files: it ends behind the first at which the limit is passed. The second
  -- component is the list of the files read.
  unfoldable pub read_log_files : List Bytes → Reading → List Bytes → Result (Reading × List Bytes)
  read_log_files [] r done = ok (r, done)
  read_log_files (file ∷ rest) r done = do
    r' ← read_log osm files log_dir file r
    let more = read_log_files rest r' (done ++ file ∷ [])
    if ltb max_changes (size r'.0) then ok (r', done ++ file ∷ []) else more

  -- What the loop has done with the files `fs` from `r`: it read some of them, in their order, to `r'`, and
  -- left the others, `rest`.
  pub data Reads : List Bytes → List Bytes → Reading → Reading → Type 0 where
    -- all were read
    exhausted : {r : Reading} → Reads [] [] r r
    -- the limit was passed by the last one
    limit :
        {file : Bytes} {rest : List Bytes} {r r' : Reading}
        → read_log osm files log_dir file r ≡ ok r'
        → max_changes < size r'.0
        → Reads (file ∷ []) rest r r'
    -- within the limit, it went on
    within :
        {file : Bytes} {fs rest : List Bytes} {r r' r'' : Reading}
        → read_log osm files log_dir file r ≡ ok r'
        → size r'.0 ≤ max_changes
        → Reads fs rest r' r''
        → Reads (file ∷ fs) rest r r''

  abbrev Outcome : List Bytes → Reading → Reading → List Bytes → List Bytes → Type 0
  Outcome fs r r' done done' =
      (used : List Bytes) × (rest : List Bytes) × (fs ≡ used ++ rest)
      × (done' ≡ done ++ used)
      × Reads used rest r r'

  stopped :
      (file : Bytes) (fs : List Bytes) (r m r' : Reading) (done done' : List Bytes)
      → read_log osm files log_dir file r ≡ ok m
      → ltb max_changes (size m.0) ≡ true
      → ◌≡◌ {A = Result (Reading × List Bytes)} (ok (m, done ++ file ∷ [])) (ok (r', done'))
      → Outcome (file ∷ fs) r r' done done'
  stopped file fs r m r' done done' e over h =
      (file ∷ [], fs, refl, cc, subst (Reads (file ∷ []) fs r) (cc) (limit e (ground arith)))

  -- The result of the loop where it throws nothing: the files that it read, then those that it left, are
  -- the given ones in their order. It left none, or the last one read passed the limit; all reads
  -- before were within the limit.
  pub read_log_files-Reads :
      (fs : List Bytes) (r r' : Reading) (done done' : List Bytes)
      → read_log_files fs r done ≡ ok (r', done')
      → (used : List Bytes) × (rest : List Bytes) × (fs ≡ used ++ rest)
        × (done' ≡ done ++ used)
        × Reads used rest r r'
  unfolding read_log_files
  read_log_files-Reads [] r r' done done' h =
      ([], [], refl, rw append-nil (cc), subst (Reads [] [] r) (cc) exhausted)
  read_log_files-Reads (file ∷ fs) r r' done done' h =
      let (m, e, h') = >>=-eq-ok (read_log osm files log_dir file r) _ h in
      elim (Bool-cases (ltb max_changes (size m.0))) [
        | inl over ↦ stopped file fs r m r' done done' e over (rw over at h')
        | inr below ↦
            let (used, rest, split, read, reads) =
              read_log_files-Reads fs m r' (done ++ file ∷ []) done' (rw below at h') in
            (
              file ∷ used,
              rest,
              ap (◌∷◌ file) split,
              read ∙ append_assoc done (file ∷ []) used,
              within e (ground (arith, below)) reads,
            )
      ]

unfoldable pub next_of_file : Osmium → Option Bytes → ℕ → Result State
next_of_file osm none timestamp = err missing_state_file
next_of_file osm (some content) timestamp = do
  state ← read_state_content osm (some content)
  next_state state timestamp

-- get_state: the number given on the command line, or the one after that of state.txt.
unfoldable pub get_state : Osmium → Files → Bytes → ℕ → ℕ → Result State
unfolding next_of_file
get_state osm files changes_dir init_state timestamp =
    if not (init_state == 0)
    then ok (record { sequence_number = init_state; timestamp = timestamp })
    else next_of_file osm (files (changes_dir ++ codes "state.txt")) timestamp
