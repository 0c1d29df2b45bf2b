-- ===== src/GetLog/Slot/Steps.antt =====
-- The steps of osmdbt-get-log, cut off anywhere, on the disk and the replication slot.
use osmdbt.Common.{
  map, Option, none, err, Result, sym, ℕ, ◌≡◌, ◌⊎◌, inl, inr, refl, List, [], ◌∷◌, ◌++◌, some,
  Bytes, ok,
}
use mathlib.Core.Path.{subst}
use osmdbt.Db.{catchup_to_lsn}
use osmdbt.Files.{Op, run_op, Disk}
use osmdbt.Files.Prefix.{Done, end, then_op}
use osmdbt.GetLog.{Step, on_file, advance_slot, files, position_in, advanced_to, then_advance}
use osmdbt.GetLog.Laws.{files-then_advance}
use osmdbt.GetLog.Slot.{Transaction, Server}

position_in-map : (ops : List Op) → position_in (map on_file ops) ≡ none
position_in-map [] = refl
position_in-map (op ∷ ops) = position_in-map ops

pub position_in-append :
    (ops : List Op) (steps : List Step) → position_in (map on_file ops ++ steps) ≡ position_in steps
position_in-append [] steps = refl
position_in-append (op ∷ ops) steps = position_in-append ops steps

pub advanced_to-then_advance :
    (ops : List Op) (r : Result (Option Bytes)) (lsn : Bytes)
    → advanced_to (then_advance ops r) ≡ some lsn
    → r ≡ ok (some lsn)
unfolding advanced_to then_advance
advanced_to-then_advance ops (err fault) lsn h = cc (position_in-map ops)
advanced_to-then_advance ops (ok none) lsn h = cc (position_in-map ops)
advanced_to-then_advance ops (ok (some lsn')) lsn h =
    cc (position_in-append ops (advance_slot lsn' ∷ []))

module _ (server : Server) (server_version : ℕ) (slot : Bytes) where
  -- `CutSteps steps disk waiting disk' waiting'`: the steps were done, to their end or not, and they have left
  -- this on the disk and in the slot.
  pub data CutSteps : List Step → Disk → List Transaction → Disk → List Transaction → Type 0 where
    stop :
        {steps : List Step} {disk : Disk} {waiting : List Transaction}
        → CutSteps steps disk waiting disk waiting
    file_done :
        {op : Op} {steps : List Step} {disk disk' disk'' : Disk}
        {waiting waiting' : List Transaction}
        → run_op op disk ≡ some disk'
        → CutSteps steps disk' waiting disk'' waiting'
        → CutSteps (on_file op ∷ steps) disk waiting disk'' waiting'
    slot_advanced :
        {lsn : Bytes} {steps : List Step} {disk disk' : Disk} {waiting waiting' : List Transaction}
        → CutSteps steps disk
            (server.left (catchup_to_lsn server_version slot lsn) waiting)
            disk'
            waiting'
        → CutSteps (advance_slot lsn ∷ steps) disk waiting disk' waiting'

  -- Where the slot comes last, it is as before, or all file operations were done.
  Ended : List Op → Bytes → Disk → List Transaction → Disk → List Transaction → Type 0
  Ended ops lsn disk waiting disk' waiting' =
      (waiting' ≡ waiting)
      ⊎ (Done ops disk disk'
          × (waiting' ≡ server.left (catchup_to_lsn server_version slot lsn) waiting))

  last_step :
      {lsn : Bytes} {disk disk' : Disk} {waiting waiting' : List Transaction}
      → CutSteps (advance_slot lsn ∷ []) disk waiting disk' waiting'
      → Ended [] lsn disk waiting disk' waiting'
  unfolding Ended
  last_step stop = inl refl
  last_step (slot_advanced stop) = inr (end, refl)

  file_steps :
      (ops : List Op) (lsn : Bytes) {disk disk' : Disk} {waiting waiting' : List Transaction}
      → CutSteps (map on_file ops ++ advance_slot lsn ∷ []) disk waiting disk' waiting'
      → Ended ops lsn disk waiting disk' waiting'
  unfolding Ended
  file_steps [] lsn c = last_step c
  file_steps (op ∷ ops) lsn stop = inl refl
  file_steps (op ∷ ops) lsn (file_done e c) = elim (file_steps ops lsn c) [
    | inl same ↦ inl same
    | inr (done, left) ↦ inr (then_op e done, left)
  ]

  only_files :
      (ops : List Op) {disk disk' : Disk} {waiting waiting' : List Transaction}
      → CutSteps (map on_file ops) disk waiting disk' waiting'
      → waiting' ≡ waiting
  only_files [] stop = refl
  only_files (op ∷ ops) stop = refl
  only_files (op ∷ ops) (file_done e c) = only_files ops c

  -- The run was cut off before the slot was advanced, or it was advanced and all file operations were done.
  pub run_cases :
      (ops : List Op) (r : Result (Option Bytes)) {disk disk' : Disk}
      {waiting waiting' : List Transaction}
      → CutSteps (then_advance ops r).steps disk waiting disk' waiting'
      → (waiting' ≡ waiting)
        ⊎ ((lsn : Bytes) × (advanced_to (then_advance ops r) ≡ some lsn)
            × Done (files (then_advance ops r)) disk disk'
            × (waiting' ≡ server.left (catchup_to_lsn server_version slot lsn) waiting))
  unfolding then_advance advanced_to Ended
  run_cases ops (err fault) c = inl (only_files ops c)
  run_cases ops (ok none) c = inl (only_files ops c)
  run_cases ops (ok (some lsn)) {disk} {disk'} c = elim (file_steps ops lsn c) [
    | inl same ↦ inl same
    | inr (done, left) ↦ inr (
      lsn,
      position_in-append ops (advance_slot lsn ∷ []),
      subst (λ os. Done os disk disk') (sym (files-then_advance ops (ok (some lsn)))) done,
      left,
    )
  ]
