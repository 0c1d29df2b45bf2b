-- ===== src/PidFile/Exclusion/Lock.antt =====
-- The pid file as a lock: what the processes do refines an abstract lock with one holder at most.
use osmdbt.Common.{ℕ, ◌≡◌, ◌≢◌, inl, inr, ap, sym, ◌∙◌, Option, none, some, Bytes}
use mathlib.Core.Path.{subst}
use osmdbt.PidFile.Exclusion.{all-outside, create-free, remove-free, Reach-Inv, Step-Inv}
use osmdbt.PidFile.System.{
  Pc, outside, opened, inside, dead, System, at, at-cases, at_self, Step, create, fill, work,
  remove, crash, Reach,
}

-- A step of the lock, which is free or has a holder.
pub data LockStep : Option ℕ → Option ℕ → Type 0 where
  acquire : (i : ℕ) → LockStep none (some i)
  release : (i : ℕ) → LockStep (some i) none
  stay : {h : Option ℕ} → LockStep h h

-- The lock of a system: a process holds it from the operation that makes the file to the one that removes
-- it, also if it has ended in between.
pub data Holds (s : System) : Option ℕ → Type 0 where
  nobody : ((i : ℕ) → s.pc i ≡ outside) → Holds s none
  holder : (i : ℕ) → s.pc i ≢ outside → Holds s (some i)

keeps_holding :
    (s t : System) (i : ℕ) (p : Pc) {h : Option ℕ}
    → t.pc ≡ at s.pc i p
    → s.pc i ≢ outside
    → p ≢ outside
    → Holds s h
    → Holds t h
keeps_holding s t i p e held stays (nobody free) = absurd (held (free i))
keeps_holding s t i p e held stays (holder j h) = holder j (λ o. elim (at-cases s.pc i p j) [
  | inl (same, new) ↦ stays (sym new ∙ (sym (ap (λ f. f j) e) ∙ o))
  | inr (other, old) ↦ h (sym old ∙ (sym (ap (λ f. f j) e) ∙ o))
])

same_holder : (s t : System) {h : Option ℕ} → t.pc ≡ s.pc → Holds s h → Holds t h
same_holder s t e (nobody free) = nobody (λ i. ap (λ f. f i) e ∙ free i)
same_holder s t e (holder j h) = holder j (λ o. h (sym (ap (λ f. f j) e) ∙ o))

module _ (c : ℕ) (dir name : Bytes) where
  -- In every run from a disk without the pid file, each step of a process is a step of the lock: the
  -- holder before it goes over into the holder after it, or the lock was free and the process takes it, or
  -- the process held it and gives it back.
  pub Step-LockStep :
      (s t : System) (h : Option ℕ)
      → Reach c dir name s
      → Step c dir name s t
      → Holds s h
      → (h' : Option ℕ) × LockStep h h' × Holds t h'
  Step-LockStep s t h r (create i pid ops e run pc) (nobody free) =
      (some i, acquire i, holder i (λ o. cc (at_self s.pc i opened)))
  Step-LockStep s t h r (create i pid ops e run pc) (holder j held) =
      absurd ((Reach-Inv c dir name s r).present j held (create-free c dir name s t pid ops run).0)
  Step-LockStep s t h r (fill i pid ops e run pc) holds =
      (h, stay, keeps_holding s t i inside pc (λ o. cc) (λ o. cc) holds)
  Step-LockStep s t h r (work i op e spares run pc) holds = (h, stay, same_holder s t pc holds)
  Step-LockStep s t h r (remove i ops e run pc) (nobody free) = cc (free i)
  Step-LockStep s t h r (remove i ops e run pc) (holder j held) =
      let inv = Reach-Inv c dir name s r in
      let after = Step-Inv c dir name s t (remove i ops e run pc) inv in
      let same = inv.unique i j (λ o. cc) held in
      (
        none,
        subst (λ k. LockStep (some k) none) same (release i),
        nobody (all-outside c dir name t after (remove-free c dir name s t ops run)),
      )
  Step-LockStep s t h r (crash i held disk pc) holds =
      (h, stay, keeps_holding s t i dead pc held (λ o. cc) holds)
