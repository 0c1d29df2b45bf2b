-- ===== src/CreateDiff/Publish/Order/Published.antt =====
-- What a publication that was done has left.
use osmdbt.Common.{ℕ, ◌≡◌, refl, ◌∙◌, Bool, List, ◌++◌, Bytes, codes}
use osmdbt.State.{State}
use osmdbt.Files.{Disk, Op}
use osmdbt.Files.Prefix.{Done, Done-Cut, Done-append, then_op, Spares, Cut-Spares, rename_lem}
use osmdbt.CreateDiff.Publish.{
  Config, new_state, current_state, prepare, move_change, move_pbf, move_state, move_current,
  publish,
}
use osmdbt.CreateDiff.Publish.Order.{Separate, IsPublished, kept_by, Done-state, Done-change}

module _ (config : Config) (state : State) (with_pbf_output : Bool) (pid : ℕ)
    (log_files : List Bytes) (log : Bytes)
    (s : Separate config state with_pbf_output pid log_files log) where
  keep : (p : Bytes) (ops : List Op) {a b : Disk} → Spares p ops → Done ops a b → b p ≡ a p
  keep p ops h d = kept_by config state with_pbf_output pid log_files p ops h d

  Done-current :
      {a b : Disk}
      → Done (move_current config state) a b
      → b (current_state config state) ≡ a (new_state config state ++ codes ".copy")
  unfolding move_current
  Done-current (then_op {disk = a} e d) = Cut-Spares _ (refl, tt) (Done-Cut d) ∙ rename_lem _ _ a e

  -- All operations were run: the files have the contents that were prepared in the tmp directory.
  pub publish-IsPublished :
      {a d : Disk}
      → Done (publish config state with_pbf_output pid log_files) a d
      → IsPublished config state with_pbf_output pid log_files a d
  unfolding publish
  publish-IsPublished done =
      let (m1, prepared, r1) = Done-append (prepare config state pid log_files) _ done in
      let (m2, changed, r2) = Done-append (move_change config state) _ r1 in
      let (m3, pbf, r3) = Done-append (move_pbf config state with_pbf_output) _ r2 in
      let (m4, moved, r4) = Done-append (move_state config state) _ r3 in
      let (m5, current, finished) = Done-append (move_current config state) _ r4 in
      (
        keep _ _ s.current_finish finished
            ∙ (Done-current current
                ∙ (keep _ _ s.copy_state moved
                    ∙ (keep _ _ s.copy_pbf pbf
                        ∙ (keep _ _ s.copy_change changed ∙ keep _ _ s.copy_prepare prepared)))),
        keep _ _ s.state_finish finished
            ∙ (keep _ _ s.state_current current
                ∙ (Done-state config state with_pbf_output pid log_files log s moved
                    ∙ (keep _ _ s.new_state_pbf pbf
                        ∙ (keep _ _ s.new_state_change changed
                            ∙ keep _ _ s.new_state_prepare prepared)))),
        keep _ _ s.change_finish finished
            ∙ (keep _ _ s.change_current current
                ∙ (keep _ _ s.change_state moved
                    ∙ (keep _ _ s.change_pbf pbf
                        ∙ (Done-change config state with_pbf_output pid log_files log s changed
                            ∙ keep _ _ s.new_change_prepare prepared)))),
      )
