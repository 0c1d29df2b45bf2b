-- ===== src/CreateDiff/Publish/Order.antt =====
-- In which order the files appear, wherever the run is cut off.
pub mod Published
use osmdbt.Common.{ℕ, ◌≡◌, refl, ◌∙◌, ◌⊎◌, inl, inr, Bool, List, ◌++◌, Bytes, codes}
use osmdbt.State.{State}
use osmdbt.Files.{Disk, Op}
use osmdbt.Files.Prefix.{
  Cut, Done, stop, next, then_op, end, Spares, Cut-Spares, Done-Cut, Cut-append, rename_lem,
  run_op-spares,
}
use osmdbt.CreateDiff.Publish.{
  Config, new_change, new_state, change_file, state_file, current_state, prepare, move_change,
  move_pbf, move_state, move_current, finish, publish,
}

module _ (config : Config) (state : State) (with_pbf_output : Bool) (pid : ℕ)
    (log_files : List Bytes) where
  -- That the files have different names: what each part of the run leaves alone, for a name `log` too that
  -- is the name of no file but a log file.
  pub record Separate (log : Bytes) : Type 0 where
    pub log_prepare : Spares log (prepare config state pid log_files)
    pub log_change : Spares log (move_change config state)
    pub log_pbf : Spares log (move_pbf config state with_pbf_output)
    pub log_state : Spares log (move_state config state)
    pub current_prepare : Spares (current_state config state) (prepare config state pid log_files)
    pub current_change : Spares (current_state config state) (move_change config state)
    pub current_pbf : Spares (current_state config state) (move_pbf config state with_pbf_output)
    pub current_move_state : Spares (current_state config state) (move_state config state)
    pub current_finish : Spares (current_state config state) (finish config state log_files)
    pub change_pbf :
        Spares (change_file config state (codes ".gz")) (move_pbf config state with_pbf_output)
    pub change_state : Spares (change_file config state (codes ".gz")) (move_state config state)
    pub change_current : Spares (change_file config state (codes ".gz")) (move_current config state)
    pub change_finish :
        Spares (change_file config state (codes ".gz")) (finish config state log_files)
    pub state_current : Spares (state_file config state) (move_current config state)
    pub state_finish : Spares (state_file config state) (finish config state log_files)
    pub new_change_prepare :
        Spares (new_change config state ++ codes ".gz") (prepare config state pid log_files)
    pub new_state_prepare : Spares (new_state config state) (prepare config state pid log_files)
    pub new_state_change : Spares (new_state config state) (move_change config state)
    pub new_state_pbf : Spares (new_state config state) (move_pbf config state with_pbf_output)
    pub copy_prepare :
        Spares (new_state config state ++ codes ".copy") (prepare config state pid log_files)
    pub copy_change : Spares (new_state config state ++ codes ".copy") (move_change config state)
    pub copy_pbf :
        Spares (new_state config state ++ codes ".copy") (move_pbf config state with_pbf_output)
    pub copy_state : Spares (new_state config state ++ codes ".copy") (move_state config state)

  -- Nothing has been published: state.txt and the log file are as before.
  abbrev IsBefore : Bytes → Disk → Disk → Type 0
  IsBefore log disk disk' =
      (disk' (current_state config state) ≡ disk (current_state config state))
      × (disk' log ≡ disk log)

  -- All has been published: the three files have the contents that were prepared in the tmp directory.
  abbrev IsPublished : Disk → Disk → Type 0
  IsPublished disk disk' =
      (disk' (current_state config state) ≡ disk (new_state config state ++ codes ".copy"))
      × (disk' (state_file config state) ≡ disk (new_state config state))
      × (disk' (change_file config state (codes ".gz"))
          ≡ disk (new_change config state ++ codes ".gz"))

  -- What a part of the run that was done, or the end of the run, does to a name.
  kept_by : (p : Bytes) (ops : List Op) {a b : Disk} → Spares p ops → Done ops a b → b p ≡ a p
  kept_by p ops h d = Cut-Spares p h (Done-Cut d)

  module _ (log : Bytes) (s : Separate log) where
    Cut-current :
        {a d : Disk}
        → Cut (move_current config state ++ finish config state log_files) a d
        → (d ≡ a)
          ⊎ ((d (current_state config state) ≡ a (new_state config state ++ codes ".copy"))
              × (d (state_file config state) ≡ a (state_file config state))
              × (d (change_file config state (codes ".gz"))
                  ≡ a (change_file config state (codes ".gz"))))
    unfolding move_current
    Cut-current stop = inl refl
    Cut-current (next {disk = a} e c) = inr (
      Cut-Spares _ (refl, s.current_finish) c ∙ rename_lem _ _ a e,
      Cut-Spares _ (refl, s.state_finish) c ∙ run_op-spares _ a _ s.state_current.0 e,
      Cut-Spares _ (refl, s.change_finish) c ∙ run_op-spares _ a _ s.change_current.0 e,
    )

    -- The state file was moved, with the syncs behind it.
    Done-state :
        {a b : Disk}
        → Done (move_state config state) a b
        → b (state_file config state) ≡ a (new_state config state)
    unfolding move_state
    Done-state (then_op {disk = a} e d) =
        Cut-Spares _ (refl, (refl, tt)) (Done-Cut d) ∙ rename_lem _ _ a e

    Done-change :
        {a b : Disk}
        → Done (move_change config state) a b
        → b (change_file config state (codes ".gz")) ≡ a (new_change config state ++ codes ".gz")
    unfolding move_change
    Done-change (then_op {disk = a} e end) = rename_lem _ _ a e

    -- The parts before the last move, one inside the other.
    Cut-state :
        {a d : Disk}
        → Cut
            (move_state config state
              ++ (move_current config state ++ finish config state log_files))
            a
            d
        → IsBefore log a d
          ⊎ ((d (current_state config state) ≡ a (new_state config state ++ codes ".copy"))
              × (d (state_file config state) ≡ a (new_state config state))
              × (d (change_file config state (codes ".gz"))
                  ≡ a (change_file config state (codes ".gz"))))
    Cut-state {a = a} {d = d} c = elim (Cut-append (move_state config state) _ c) [
      | inl cut ↦ inl (Cut-Spares _ s.current_move_state cut, Cut-Spares _ s.log_state cut)
      | inr (m, done, cut) ↦ elim (Cut-current cut) [
        | inl e ↦
            inl (rw e (kept_by _ _ s.current_move_state done), rw e (kept_by _ _ s.log_state done))
        | inr (cur, st, ch) ↦ inr (
          cur ∙ kept_by _ _ s.copy_state done,
          st ∙ Done-state done,
          ch ∙ kept_by _ _ s.change_state done,
        )
      ]
    ]

    Cut-pbf :
        {a d : Disk}
        → Cut
            (move_pbf config state with_pbf_output
              ++ (move_state config state
                  ++ (move_current config state ++ finish config state log_files)))
            a
            d
        → IsBefore log a d
          ⊎ ((d (current_state config state) ≡ a (new_state config state ++ codes ".copy"))
              × (d (state_file config state) ≡ a (new_state config state))
              × (d (change_file config state (codes ".gz"))
                  ≡ a (change_file config state (codes ".gz"))))
    Cut-pbf c = elim (Cut-append (move_pbf config state with_pbf_output) _ c) [
      | inl cut ↦ inl (Cut-Spares _ s.current_pbf cut, Cut-Spares _ s.log_pbf cut)
      | inr (m, done, cut) ↦ elim (Cut-state cut) [
        | inl (p, q) ↦ inl (p ∙ kept_by _ _ s.current_pbf done, q ∙ kept_by _ _ s.log_pbf done)
        | inr (cur, st, ch) ↦ inr (
          cur ∙ kept_by _ _ s.copy_pbf done,
          st ∙ kept_by _ _ s.new_state_pbf done,
          ch ∙ kept_by _ _ s.change_pbf done,
        )
      ]
    ]

    Cut-change :
        {a d : Disk}
        → Cut
            (move_change config state
              ++ (move_pbf config state with_pbf_output
                  ++ (move_state config state
                      ++ (move_current config state ++ finish config state log_files))))
            a
            d
        → IsBefore log a d ⊎ IsPublished a d
    Cut-change c = elim (Cut-append (move_change config state) _ c) [
      | inl cut ↦ inl (Cut-Spares _ s.current_change cut, Cut-Spares _ s.log_change cut)
      | inr (m, done, cut) ↦ elim (Cut-pbf cut) [
        | inl (p, q) ↦
            inl (p ∙ kept_by _ _ s.current_change done, q ∙ kept_by _ _ s.log_change done)
        | inr (cur, st, ch) ↦ inr (
          cur ∙ kept_by _ _ s.copy_change done,
          st ∙ kept_by _ _ s.new_state_change done,
          ch ∙ Done-change done,
        )
      ]
    ]

  -- Wherever the run is cut off, by a crash or an exception: either state.txt and the log file are as
  -- before, or state.txt, the numbered state file and the change file all have the contents prepared in
  -- the tmp directory. So state.txt never names a change file that is not there, and no log file is
  -- renamed before the change is published. The names of the files are different, as Separate says.
  pub publish_order :
      (log : Bytes) (disk disk' : Disk)
      → Separate log
      → Cut (publish config state with_pbf_output pid log_files) disk disk'
      → ((disk' (current_state config state) ≡ disk (current_state config state))
          × (disk' log ≡ disk log))
        ⊎ ((disk' (current_state config state) ≡ disk (new_state config state ++ codes ".copy"))
            × (disk' (state_file config state) ≡ disk (new_state config state))
            × (disk' (change_file config state (codes ".gz"))
                ≡ disk (new_change config state ++ codes ".gz")))
  unfolding publish
  publish_order log disk disk' s c = elim (Cut-append (prepare config state pid log_files) _ c) [
    | inl cut ↦ inl (Cut-Spares _ s.current_prepare cut, Cut-Spares _ s.log_prepare cut)
    | inr (m, done, cut) ↦ elim (Cut-change log s cut) [
      | inl (p, q) ↦
          inl (p ∙ kept_by _ _ s.current_prepare done, q ∙ kept_by _ _ s.log_prepare done)
      | inr (cur, st, ch) ↦ inr (
        cur ∙ kept_by _ _ s.copy_prepare done,
        st ∙ kept_by _ _ s.new_state_prepare done,
        ch ∙ kept_by _ _ s.new_change_prepare done,
      )
    ]
  ]
