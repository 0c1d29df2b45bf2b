-- ===== src/CreateDiff/App/Published.antt =====
-- What a run of osmdbt-create-diff that was done has published.
use osmdbt.Common.{
  ℕ, ◌+◌, ◌<◌, ◌≡◌, refl, ap, ◌∙◌, false, List, [], ◌∷◌, ◌++◌, append_assoc, some, Bytes, codes,
  bytes_eq, ok, if◌then◌else◌, ==_iff,
}
use osmdbt.Osm.{Osmium, IsDocumented, Lacks}
use osmdbt.State.{State, state_text, write_state}
use osmdbt.State.RoundTrip.{IsComplete}
use osmdbt.Files.{Disk}
use osmdbt.Files.Prefix.{Done, Done-Cut, Done-append, then_op, end, Cut-Spares, write_lem}
use osmdbt.Files.Steps.{overwrite_lem}
use osmdbt.CreateDiff.Rows.{Object}
use osmdbt.CreateDiff.Query.{Database}
use osmdbt.CreateDiff.Publish.{Config, change_file, state_file, current_state, publish}
use osmdbt.CreateDiff.Publish.Order.{Separate}
use osmdbt.CreateDiff.Publish.Order.Published.{publish-IsPublished}
use osmdbt.CreateDiff.Select.{get_state}
use osmdbt.CreateDiff.App.{Options, Outside, outputs, states, run_state}
use osmdbt.CreateDiff.App.Laws.{get_state_next}

-- Names in one directory are told apart by what follows it.
bytes_eq-append : (dir s t : Bytes) → bytes_eq (dir ++ s) (dir ++ t) ≡ bytes_eq s t
unfolding bytes_eq
bytes_eq-append [] s t = refl
bytes_eq-append (c ∷ dir) s t = rw ((==_iff c c).1 refl) (bytes_eq-append dir s t)

module _ (osm : Osmium) (db : Database) (out : Outside) (disk : Disk) (config : Config)
    (options : Options) where
  abbrev in_tmp : Bytes → Bytes
  in_tmp name = config.tmp_dir ++ name

  differ : (s t : Bytes) → bytes_eq s t ≡ false → bytes_eq (in_tmp s) (in_tmp t) ≡ false
  differ s t e = bytes_eq-append config.tmp_dir s t ∙ e

  -- The text of the new state file.
  abbrev pub new_text : State → Bytes
  new_text state = state_text osm out.strftime state (if options.with_comment then out.now else 0)

  outputs_lem :
      (objects : List Object) {a b : Disk}
      → Done (outputs osm db out disk config options objects) a b
      → b (in_tmp (codes "new-change.osc.gz")) ≡ some (out.osc_gz objects)
  unfolding bytes_eq
  outputs_lem objects (then_op e (then_op f (then_op {disk = d} g last))) =
      Cut-Spares _ (differ (codes "new-change.osc.pbf") (codes "new-change.osc.gz") refl, tt)
        (Done-Cut last)
      ∙ overwrite_lem _ _ d g

  states_lem :
      (state : State) {a b : Disk}
      → Done (states osm db out disk config options state) a b
      → (b (in_tmp (codes "new-state.txt")) ≡ some (new_text state))
        × (b (in_tmp (codes "new-state.txt.copy")) ≡ some (new_text state))
        × (b (in_tmp (codes "new-change.osc.gz")) ≡ a (in_tmp (codes "new-change.osc.gz")))
  unfolding write_state bytes_eq
  states_lem state (then_op e (then_op {disk = d} f (then_op g (then_op {disk = d'} h end)))) =
      let copy_ne = differ (codes "new-state.txt.copy") (codes "new-state.txt") refl in
      let ne = differ (codes "new-state.txt") (codes "new-change.osc.gz") refl in
      let copy_gz_ne = differ (codes "new-state.txt.copy") (codes "new-change.osc.gz") refl in
      (
        Cut-Spares _ (copy_ne, (copy_ne, tt)) (Done-Cut (then_op g (then_op h end)))
            ∙ write_lem _ _ d f,
        write_lem _ _ d' h,
        Cut-Spares _ (ne, (ne, (copy_gz_ne, (copy_gz_ne, tt))))
            (Done-Cut (then_op e (then_op f (then_op g (then_op h end))))),
      )

  -- What a run publishes that is no dry run and throws nothing from its output files on: the change file is
  -- libosmium's output of the objects, state.txt and the numbered state file have the text of the new state;
  -- and the next run gives its state the next number. The names of the files are different, as Separate
  -- says; the numbers of the new state fit their types and are set, its sequence number is
  -- below 999999999, as the code asserts, and its comment is one line.
  pub run_state_publishes :
      (objects : List Object) (read_files : List Bytes) (state : State) (log : Bytes)
      (timestamp : ℕ) {a d : Disk}
      → IsDocumented osm
      → options.dry_run ≡ false
      → Separate config state options.with_pbf_output out.pid read_files log
      → IsComplete state
      → state.sequence_number < 999999999
      → Lacks b'\n' (out.strftime (if options.with_comment then out.now else 0))
      → Done (run_state osm db out disk config options objects read_files (ok state)).ops a d
      → (d (change_file config state (codes ".gz")) ≡ some (out.osc_gz objects))
        × (d (state_file config state) ≡ some (new_text state))
        × (d (current_state config state) ≡ some (new_text state))
        × (get_state osm d config.changes_dir 0 timestamp
            ≡ ok (record { sequence_number = state.sequence_number + 1; timestamp = timestamp }))
  unfolding run_state
  run_state_publishes objects read_files state log timestamp {a} {d} documented dry s set below
        one_line done =
      let whole : Done
          (outputs osm db out disk config options objects
            ++ (states osm db out disk config options state
                ++ publish config state options.with_pbf_output out.pid read_files))
          a d =
        rw dry at done in
      let (m1, written, r1) =
        Done-append (outputs osm db out disk config options objects) _ whole in
      let (m2, stated, r2) = Done-append (states osm db out disk config options state) _ r1 in
      let (text, copy, kept) = states_lem state stated in
      let (current, numbered, change) =
        publish-IsPublished config state options.with_pbf_output out.pid read_files log s r2 in
      let current_text =
        current
        ∙ (ap m2 (append_assoc config.tmp_dir (codes "new-state.txt") (codes ".copy")) ∙ copy) in
      (
        change
            ∙ (ap m2 (append_assoc config.tmp_dir (codes "new-change.osc") (codes ".gz"))
                ∙ (kept ∙ outputs_lem objects written)),
        numbered ∙ text,
        current_text,
        get_state_next osm out.strftime d config.changes_dir state _ timestamp documented set below
            one_line current_text,
      )
