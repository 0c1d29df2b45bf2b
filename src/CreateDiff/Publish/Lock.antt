-- ===== src/CreateDiff/Publish/Lock.antt =====
-- The lock file of the critical section.
use osmdbt.Common.{
  ℕ, ◌≡◌, ◌⊎◌, inl, inr, refl, ap, sym, Bool, false, List, [], ◌∷◌, ◌++◌, append_assoc, none, some,
  Bytes,
}
use mathlib.Core.Path.{subst}
use osmdbt.State.{State, dir2_path}
use osmdbt.Files.{
  Disk, Op, excl_write_open, write, unlink, sync_dir, create_directories, run_op, run_ops,
}
use osmdbt.Files.Prefix.{
  Cut, stop, next, Done, end, then_op, Done-Cut, Done-join, Spares, Cut-Spares, Cut-append,
  write_lem,
}
use osmdbt.Files.Steps.{excl_write_open_lem, excl_write_open-exists, run_ops-throws}
use osmdbt.CreateDiff.Publish.{
  Config, lock_text, rename_logs, write_lock_file, lock_file, prepare, move_change, move_pbf,
  move_state, move_current, finish, publish,
}

module _ (config : Config) (state : State) (with_pbf_output : Bool) (pid : ℕ)
    (log_files : List Bytes) where
  abbrev lock : Bytes
  lock = lock_file config state

  -- What is done while the lock file is there.
  abbrev pub critical_section : List Op
  critical_section =
      sync_dir config.tmp_dir
      ∷ create_directories (config.changes_dir ++ dir2_path state)
      ∷ (move_change config state
          ++ (move_pbf config state with_pbf_output
              ++ (move_state config state
                  ++ (move_current config state
                      ++ (rename_logs config.log_dir log_files ++ sync_dir config.log_dir ∷ [])))))

  abbrev last_ops : List Op
  last_ops = unlink lock ∷ sync_dir config.tmp_dir ∷ []

  abbrev whole : List Op
  whole =
      excl_write_open lock
      ∷ write lock (lock_text pid state log_files)
      ∷ (critical_section ++ last_ops)

  publish-critical_section : publish config state with_pbf_output pid log_files ≡ whole
  unfolding publish prepare write_lock_file finish
  publish-critical_section = simp append_assoc

  -- While a lock file is there, as one that a crash has left, nothing is published: the first operation
  -- throws, and the disk is as before.
  pub publish-locked :
      (disk : Disk) (c : Bytes)
      → disk (lock_file config state) ≡ some c
      → run_ops (publish config state with_pbf_output pid log_files) disk ≡ (disk, false)
  publish-locked disk c e =
      rw publish-critical_section (run_ops-throws _ _ disk (excl_write_open-exists _ disk e))

  Cut-last : {a d : Disk} → Cut last_ops a d → (d ≡ a) ⊎ Done last_ops a d
  unfolding run_op
  Cut-last stop = inl refl
  Cut-last (next e stop) = inr (then_op e (then_op refl end))
  Cut-last (next e (next f stop)) = inr (then_op e (then_op f end))

  Cut-critical :
      {a d : Disk} (c : Bytes)
      → Spares lock critical_section
      → a lock ≡ some c
      → d lock ≡ none
      → Cut (critical_section ++ last_ops) a d
      → Done (critical_section ++ last_ops) a d
  Cut-critical c spares there gone cut = elim (Cut-append critical_section last_ops cut) [
    | inl inside ↦ cc (Cut-Spares lock spares inside)
    | inr (m, done, rest) ↦ elim (Cut-last rest) [
      | inl e ↦ cc (Cut-Spares lock spares (Done-Cut done), ap (λ d. d lock) e)
      | inr last ↦ Done-join critical_section last_ops done last
    ]
  ]

  Cut-locked :
      {a d : Disk}
      → Spares lock critical_section
      → d lock ≡ none
      → Cut whole a d
      → (d ≡ a) ⊎ Done whole a d
  Cut-locked spares gone stop = inl refl
  Cut-locked spares gone (next {disk = a} e stop) = cc (excl_write_open_lem lock a e).1
  Cut-locked spares gone (next e (next {disk = b} f rest)) =
      inr (then_op e (then_op f (Cut-critical _ spares (write_lem lock _ b f) gone rest)))

  -- Wherever the run is cut off and has left no lock file, nothing was done or everything: the disk is as
  -- before, or all operations were run. The lock file has another name than the files that are moved.
  pub publish-Done :
      (disk disk' : Disk)
      → Spares (lock_file config state) critical_section
      → Cut (publish config state with_pbf_output pid log_files) disk disk'
      → disk' (lock_file config state) ≡ none
      → (disk' ≡ disk) ⊎ Done (publish config state with_pbf_output pid log_files) disk disk'
  publish-Done disk disk' spares cut gone =
      subst (λ ops. (disk' ≡ disk) ⊎ Done ops disk disk') (sym publish-critical_section)
        (Cut-locked spares gone (subst (λ ops. Cut ops disk disk') publish-critical_section cut))
