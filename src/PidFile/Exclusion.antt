-- ===== src/PidFile/Exclusion.antt =====
-- At most one process holds the pid file.
pub mod Lock
use osmdbt.Common.{
  ℕ, ◌≡◌, ◌≢◌, ◌⊎◌, inl, inr, refl, ap, sym, ◌∙◌, true, false, [], ◌∷◌, none, some, ◌==◌,
  if◌then◌else◌, Bytes, Bool-cases, Option-cases, ==_iff, arith,
}
use mathlib.Core.Path.{subst}
use osmdbt.Files.{Disk, Op, excl_write_open, write, unlink, run_op, run_ops}
use osmdbt.Files.Steps.{
  excl_write_open_lem, excl_write_open-exists, excl_write_open-new, unlink_lem, run_ops-throws,
  run_ops-next, write-succeeds, write-update,
}
use osmdbt.Files.Prefix.{touches, run_op-spares, write_lem}
use osmdbt.PidFile.{pid_path, pid_text, pid_file_open, pid_file_close}
use osmdbt.PidFile.System.{
  Pc, outside, opened, inside, dead, System, at, at-cases, at_self, outside-cases, path, Step,
  create, fill, work, remove, crash, Reach, start, later,
}

module _ (c : ℕ) (dir name : Bytes) where
  abbrev pid_file : Bytes
  pid_file = path c dir name

  -- Whoever has made the file and not removed it.
  pub record Inv (s : System) : Type 0 where
    pub present : (i : ℕ) → s.pc i ≢ outside → s.disk pid_file ≢ none
    pub unique : (i j : ℕ) → s.pc i ≢ outside → s.pc j ≢ outside → i ≡ j
    pub free : ((i : ℕ) → s.pc i ≡ outside) → s.disk pid_file ≡ none

  -- A step that leaves the file there, and changes one process that holds it to one that does.
  Inv-stay :
      (s t : System) (i : ℕ) (p : Pc)
      → Inv s
      → s.pc i ≢ outside
      → t.disk pid_file ≢ none
      → t.pc ≡ at s.pc i p
      → p ≢ outside
      → Inv t
  Inv-stay s t i p inv held there e keeps = record {
    present = λ j h. there;
    unique = λ j k hj hk. inv.unique j k (was j hj) (was k hk);
    free = λ all. absurd (keeps (sym (at_self s.pc i p) ∙ sym (ap (λ f. f i) e) ∙ all i));
  }
    where
      was : (j : ℕ) → t.pc j ≢ outside → s.pc j ≢ outside
      was j h = elim (at-cases s.pc i p j) [
        | inl (same, new) ↦ subst (λ k. s.pc k ≢ outside) same held
        | inr (other, old) ↦ subst (λ q. q ≢ outside) (ap (λ f. f j) e ∙ old) h
      ]

  -- A step after which only one process holds the file.
  Inv-new :
      (s t : System) (i : ℕ) (p : Pc)
      → ((j : ℕ) → s.pc j ≡ outside)
      → t.disk pid_file ≢ none
      → t.pc ≡ at s.pc i p
      → p ≢ outside
      → Inv t
  Inv-new s t i p nobody there e keeps = record {
    present = λ j h. there;
    unique = λ j k hj hk. sym (is j hj) ∙ is k hk;
    free = λ all. absurd (keeps (sym (at_self s.pc i p) ∙ sym (ap (λ f. f i) e) ∙ all i));
  }
    where
      is : (j : ℕ) → t.pc j ≢ outside → i ≡ j
      is j h = elim (at-cases s.pc i p j) [
        | inl (same, new) ↦ same
        | inr (other, old) ↦ absurd (h (ap (λ f. f j) e ∙ old ∙ nobody j))
      ]

  open_lem :
      (pid : ℕ) {first second : Op}
      → pid_file_open (c ∷ dir) name pid ≡ first ∷ second ∷ []
      → (excl_write_open pid_file ≡ first) × (write pid_file (pid_text pid) ≡ second)
  unfolding pid_file_open
  open_lem pid e = (cc, cc)

  close_lem : {close : Op} → pid_file_close (c ∷ dir) name ≡ close ∷ [] → unlink pid_file ≡ close
  unfolding pid_file_close
  close_lem e = cc

  all-outside : (s : System) → Inv s → s.disk pid_file ≡ none → (i : ℕ) → s.pc i ≡ outside
  all-outside s inv e i = elim (outside-cases (s.pc i)) [
    | inl o ↦ o
    | inr held ↦ absurd (inv.present i held e)
  ]

  -- The operation that makes the file succeeds only where there is none.
  create-free :
      (s t : System) (pid : ℕ) {first second : Op}
      → pid_file_open (c ∷ dir) name pid ≡ first ∷ second ∷ []
      → run_op first s.disk ≡ some t.disk
      → (s.disk pid_file ≡ none) × (t.disk pid_file ≡ some [])
  create-free s t pid ops run =
      excl_write_open_lem pid_file s.disk
        (subst (λ op. run_op op s.disk ≡ some t.disk) (sym (open_lem pid ops).0) run)

  remove-free :
      (s t : System) {close : Op}
      → pid_file_close (c ∷ dir) name ≡ close ∷ []
      → run_op close s.disk ≡ some t.disk
      → t.disk pid_file ≡ none
  remove-free s t ops run =
      unlink_lem pid_file s.disk
        (subst (λ op. run_op op s.disk ≡ some t.disk) (sym (close_lem ops)) run)

  Step-Inv : (s t : System) → Step c dir name s t → Inv s → Inv t
  Step-Inv s t (create i pid ops e run pc) inv =
      let (free, new) = create-free s t pid ops run in
      Inv-new s t i opened (all-outside s inv free) (λ h. cc) pc (λ h. cc)
  Step-Inv s t (fill i pid ops e run pc) inv =
      Inv-stay s t i inside inv (λ h. cc)
        (λ h. cc (
          write_lem pid_file (pid_text pid) s.disk
            (subst (λ op. run_op op s.disk ≡ some t.disk) (sym (open_lem pid ops).1) run)))
        pc (λ h. cc)
  Step-Inv s t (work i op e spares run pc) inv =
      let same = run_op-spares pid_file s.disk op spares run in
      record {
        present = λ j h g. inv.present j (was j h) (sym same ∙ g);
        unique = λ j k hj hk. inv.unique j k (was j hj) (was k hk);
        free = λ all. same ∙ inv.free (subst (λ f. (i' : ℕ) → f i' ≡ outside) pc all);
      }
    where
      was : (j : ℕ) → t.pc j ≢ outside → s.pc j ≢ outside
      was j h = subst (λ f. f j ≢ outside) pc h
  Step-Inv s t (remove i ops e run pc) inv = record {
    present = λ j h. absurd (h (nobody j));
    unique = λ j k hj hk. absurd (hj (nobody j));
    free = λ all. remove-free s t ops run;
  }
    where
      nobody : (j : ℕ) → t.pc j ≡ outside
      nobody j = elim (at-cases s.pc i outside j) [
        | inl (same, new) ↦ ap (λ f. f j) pc ∙ new
        | inr (other, old) ↦ elim (outside-cases (s.pc j)) [
          | inl o ↦ ap (λ f. f j) pc ∙ old ∙ o
          | inr held ↦ absurd (other (inv.unique i j (λ h. cc) held))
        ]
      ]
  Step-Inv s t (crash i held disk pc) inv =
      Inv-stay s t i dead inv held (λ h. inv.present i held (ap (λ d. d pid_file) (sym disk) ∙ h))
        pc (λ h. cc)

  Reach-Inv : (s : System) → Reach c dir name s → Inv s
  Reach-Inv s (start free all) = record {
    present = λ i h. absurd (h (all i));
    unique = λ i j h k. absurd (h (all i));
    free = λ h. free;
  }
  Reach-Inv t (later {s = s} r step) = Step-Inv s t step (Reach-Inv s r)

  -- From a disk without the pid file and with no process running, whatever the processes do in whatever
  -- order: while one process has made the file and not removed it, every other process is before its
  -- constructor or behind its destructor.
  pub mutual_exclusion :
      (s : System) → Reach c dir name s → (i j : ℕ) → s.pc i ≢ outside → i ≢ j → s.pc j ≡ outside
  mutual_exclusion s r i j held other = elim (outside-cases (s.pc j)) [
    | inl o ↦ o
    | inr h ↦ absurd (other ((Reach-Inv s r).unique i j held h))
  ]

  -- In the same runs, while a process is between its constructor and its destructor, or has ended
  -- without the destructor, the first operation of a constructor throws and its second is not reached:
  -- the disk is as before.
  pub pid_file_open-held :
      (s : System)
      → Reach c dir name s
      → (i pid : ℕ) → s.pc i ≢ outside
      → run_ops (pid_file_open (c ∷ dir) name pid) s.disk ≡ (s.disk, false)
  unfolding pid_file_open
  pid_file_open-held s r i pid held = elim (Option-cases (s.disk pid_file)) [
    | inl e ↦ absurd ((Reach-Inv s r).present i held e)
    | inr (content, e) ↦ run_ops-throws _ _ s.disk (excl_write_open-exists pid_file s.disk e)
  ]

  -- In the same runs, when no process is between its constructor and its destructor and none has ended
  -- without the destructor, every step of a constructor succeeds, and the file holds the process id.
  pub pid_file_open-free :
      (s : System) (r : Reach c dir name s) (pid : ℕ)
      → ((i : ℕ) → s.pc i ≡ outside)
      → ((run_ops (pid_file_open (c ∷ dir) name pid) s.disk).1 ≡ true)
        × ((run_ops (pid_file_open (c ∷ dir) name pid) s.disk).0 pid_file ≡ some (pid_text pid))
  unfolding pid_file_open run_ops
  pid_file_open-free s r pid nobody =
      let new =
        run_ops-next (excl_write_open pid_file) (write pid_file (pid_text pid) ∷ []) s.disk
          (excl_write_open-new pid_file s.disk ((Reach-Inv s r).free nobody)) in
      let whole =
        new
        ∙ run_ops-next (write pid_file (pid_text pid)) [] _
            (write-succeeds pid_file _ (pid_text pid)) in
      rw whole (refl, write-update pid_file _ (pid_text pid))
