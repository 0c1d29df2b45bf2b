-- ===== src/PidFile/System.antt =====
-- Processes that use one pid file, interleaved in any order.
use osmdbt.Common.{
  ℕ, ◌≡◌, ◌≢◌, ◌⊎◌, inl, inr, refl, false, [], ◌∷◌, none, some, ◌==◌, if◌then◌else◌, Bytes,
  Bool-cases, ==_iff, arith,
}
use osmdbt.Files.{Disk, Op, run_op}
use osmdbt.Files.Prefix.{touches}
use osmdbt.PidFile.{pid_path, pid_file_open, pid_file_close}

-- Where a process stands: before the constructor or behind the destructor, behind the open, behind the
-- constructor, or ended without the destructor.
pub data Pc : Type 0 where
  outside opened inside dead : Pc

pub record System : Type 0 where
  pub disk : Disk
  pub pc : ℕ → Pc

abbrev pub at : (ℕ → Pc) → ℕ → Pc → ℕ → Pc
at pc i p j = if i == j then p else pc j

pub at-cases :
    (pc : ℕ → Pc) (i : ℕ) (p : Pc) (j : ℕ)
    → ((i ≡ j) × (at pc i p j ≡ p)) ⊎ ((i ≢ j) × (at pc i p j ≡ pc j))
at-cases pc i p j = elim (Bool-cases (i == j)) [
  | inl e ↦ inl ((==_iff i j).0 e, rw e refl)
  | inr e ↦ inr (ground (arith, e), rw e refl)
]

pub at_self : (pc : ℕ → Pc) (i : ℕ) (p : Pc) → at pc i p i ≡ p
at_self pc i p = rw ((==_iff i i).1 refl) refl

pub outside-cases : (p : Pc) → (p ≡ outside) ⊎ (p ≢ outside)
outside-cases outside = inl refl
outside-cases opened = inr (λ e. cc)
outside-cases inside = inr (λ e. cc)
outside-cases dead = inr (λ e. cc)

-- The pid file of one command with a run directory.
module _ (c : ℕ) (dir name : Bytes) where
  abbrev pub path : Bytes
  path = pid_path (c ∷ dir) name

  -- One operation of one process. What it does in between leaves the pid file alone; it may end at any
  -- time, by a crash or a signal.
  pub data Step (s t : System) : Type 0 where
    create :
        (i pid : ℕ) {first second : Op}
        → pid_file_open (c ∷ dir) name pid ≡ first ∷ second ∷ []
        → s.pc i ≡ outside
        → run_op first s.disk ≡ some t.disk
        → t.pc ≡ at s.pc i opened
        → Step s t
    fill :
        (i pid : ℕ) {first second : Op}
        → pid_file_open (c ∷ dir) name pid ≡ first ∷ second ∷ []
        → s.pc i ≡ opened
        → run_op second s.disk ≡ some t.disk
        → t.pc ≡ at s.pc i inside
        → Step s t
    work :
        (i : ℕ) (op : Op)
        → s.pc i ≡ inside
        → touches path op ≡ false
        → run_op op s.disk ≡ some t.disk
        → t.pc ≡ s.pc
        → Step s t
    remove :
        (i : ℕ) {close : Op}
        → pid_file_close (c ∷ dir) name ≡ close ∷ []
        → s.pc i ≡ inside
        → run_op close s.disk ≡ some t.disk
        → t.pc ≡ at s.pc i outside
        → Step s t
    crash : (i : ℕ) → s.pc i ≢ outside → t.disk ≡ s.disk → t.pc ≡ at s.pc i dead → Step s t

  -- At the start there is no pid file and no process holds it.
  pub data Reach : System → Type 0 where
    start : {s : System} → s.disk path ≡ none → ((i : ℕ) → s.pc i ≡ outside) → Reach s
    later : {s t : System} → Reach s → Step s t → Reach t
