-- ===== src/Files/Prefix.antt =====
-- A run that is cut off: the program ends after some of the operations, by a crash or an exception.
use osmdbt.Common.{
  ◌≡◌, refl, ap, sym, ◌∙◌, Bool, true, false, ◌||◌, List, [], ◌∷◌, ◌++◌, Option, none, some, Bytes,
  bytes_eq, bytes_eq_refl, All, ◌⊎◌, inl, inr, Option-cases,
}
use mathlib.Core.Option.{some-injective}
use osmdbt.Files.{
  Disk, Op, excl_write_open, write, overwrite, rename, unlink, sync_dir, create_directories, update,
  run_op, run_open, run_rename, run_ops,
}

-- `Cut ops disk disk'`: the operations were run from `disk`, to their end or not, and left `disk'`.
pub data Cut : List Op → Disk → Disk → Type 0 where
  stop : {ops : List Op} {disk : Disk} → Cut ops disk disk
  next :
      {op : Op} {ops : List Op} {disk disk' disk'' : Disk}
      → run_op op disk ≡ some disk'
      → Cut ops disk' disk''
      → Cut (op ∷ ops) disk disk''

-- All operations were run.
pub data Done : List Op → Disk → Disk → Type 0 where
  end : {disk : Disk} → Done [] disk disk
  then_op :
      {op : Op} {ops : List Op} {disk disk' disk'' : Disk}
      → run_op op disk ≡ some disk'
      → Done ops disk' disk''
      → Done (op ∷ ops) disk disk''

-- The operation may change the file at a path.
abbrev pub touches : Bytes → Op → Bool
touches p (excl_write_open path) = bytes_eq path p
touches p (write path content) = bytes_eq path p
touches p (overwrite path content) = bytes_eq path p
touches p (rename old new) = bytes_eq old p || bytes_eq new p
touches p (unlink path) = bytes_eq path p
touches p (sync_dir dir) = false
touches p (create_directories dir) = false

abbrev pub Spares : Bytes → List Op → Type 0
Spares p = All (λ op. touches p op ≡ false)

pub update_other :
    (disk : Disk) (path p : Bytes) (c : Option Bytes)
    → bytes_eq path p ≡ false
    → update disk path c p ≡ disk p
unfolding update
update_other disk path p c h = rw h

or_false_parts : (a b : Bool) → (a || b) ≡ false → (a ≡ false) × (b ≡ false)
or_false_parts true b h = cc
or_false_parts false b h = (refl, h)

some_eq : (p : Bytes) {a b : Disk} → some a ≡ some b → a p ≡ b p
some_eq p e = ap (λ d. d p) (some-injective _ _ e)

module _ (p : Bytes) (disk : Disk) {disk' : Disk} where
  some-update :
      (path : Bytes) (c : Option Bytes)
      → bytes_eq path p ≡ false
      → some (update disk path c) ≡ some disk'
      → disk' p ≡ disk p
  some-update path c h e = sym (some_eq p e) ∙ update_other disk path p c h

  run_open-spares :
      (path : Bytes) (o : Option Bytes)
      → bytes_eq path p ≡ false
      → run_open path o disk ≡ some disk'
      → disk' p ≡ disk p
  unfolding run_open
  run_open-spares path none h e = some-update path (some []) h e
  run_open-spares path (some c) h e = cc

  run_rename-spares :
      (old new : Bytes) (o : Option Bytes)
      → bytes_eq old p ≡ false
      → bytes_eq new p ≡ false
      → run_rename old new o disk ≡ some disk'
      → disk' p ≡ disk p
  unfolding run_rename
  run_rename-spares old new none h k e = cc
  run_rename-spares old new (some c) h k e =
      sym (some_eq p e)
      ∙ (update_other (update disk old none) new p (some c) k ∙ update_other disk old p none h)

  pub run_op-spares :
      (op : Op) → touches p op ≡ false → run_op op disk ≡ some disk' → disk' p ≡ disk p
  unfolding run_op
  run_op-spares (excl_write_open path) h e = run_open-spares path (disk path) h e
  run_op-spares (write path c) h e = some-update path (some c) h e
  run_op-spares (overwrite path c) h e = some-update path (some c) h e
  run_op-spares (rename old new) h e =
      let (h_old, h_new) = or_false_parts _ _ h in
      run_rename-spares old new (disk old) h_old h_new e
  run_op-spares (unlink path) h e = some-update path none h e
  run_op-spares (sync_dir dir) h e = sym (some_eq p e)
  run_op-spares (create_directories dir) h e = sym (some_eq p e)

-- A file that no operation touches keeps its content, however far the run gets.
pub Cut-Spares :
    {ops : List Op} {disk disk' : Disk} (p : Bytes)
    → Spares p ops
    → Cut ops disk disk'
    → disk' p ≡ disk p
Cut-Spares p h stop = refl
Cut-Spares p h (next {op = op} {disk = disk} e c) =
    Cut-Spares p h.1 c ∙ run_op-spares p disk op h.0 e

pub Done-Cut : {ops : List Op} {disk disk' : Disk} → Done ops disk disk' → Cut ops disk disk'
Done-Cut end = stop
Done-Cut (then_op e d) = next e (Done-Cut d)

-- A run of two lists was cut off in the first, or in the second after the first was done.
pub Cut-append :
    (ops rest : List Op) {disk disk' : Disk}
    → Cut (ops ++ rest) disk disk'
    → Cut ops disk disk' ⊎ ((mid : Disk) × Done ops disk mid × Cut rest mid disk')
Cut-append [] rest {disk = disk} c = inr (disk, end, c)
Cut-append (op ∷ ops) rest stop = inl stop
Cut-append (op ∷ ops) rest (next e c) = elim (Cut-append ops rest c) [
  | inl cut ↦ inl (next e cut)
  | inr (mid, d, cut) ↦ inr (mid, then_op e d, cut)
]

pub Done-append :
    (ops rest : List Op) {disk disk' : Disk}
    → Done (ops ++ rest) disk disk'
    → (mid : Disk) × Done ops disk mid × Done rest mid disk'
Done-append [] rest {disk = disk} d = (disk, end, d)
Done-append (op ∷ ops) rest (then_op e d) =
    let (mid, first, second) = Done-append ops rest d in (mid, then_op e first, second)

pub Done-join :
    (ops rest : List Op) {disk mid disk' : Disk}
    → Done ops disk mid
    → Done rest mid disk'
    → Done (ops ++ rest) disk disk'
Done-join [] rest end e = e
Done-join (op ∷ ops) rest (then_op h d) e = then_op h (Done-join ops rest d e)

run_rename-new :
    (old new : Bytes) (o : Option Bytes) (disk : Disk) {disk' : Disk}
    → run_rename old new o disk ≡ some disk'
    → disk' new ≡ o
unfolding run_rename
run_rename-new old new none disk e = cc
run_rename-new old new (some c) disk e =
    sym (some_eq new e) ∙ unfold update in rw (bytes_eq_refl new)

-- A rename that was run: the new name has the content of the old one.
pub rename_lem :
    (old new : Bytes) (disk : Disk) {disk' : Disk}
    → run_op (rename old new) disk ≡ some disk'
    → disk' new ≡ disk old
unfolding run_op
rename_lem old new disk e = run_rename-new old new (disk old) disk e

pub write_lem :
    (path c : Bytes) (disk : Disk) {disk' : Disk}
    → run_op (write path c) disk ≡ some disk'
    → disk' path ≡ some c
unfolding run_op update
write_lem path c disk e = sym (some_eq path e) ∙ rw (bytes_eq_refl path)

-- run_ops ends where a run that is cut off may end.
pub run_ops-Cut : (ops : List Op) (disk : Disk) → Cut ops disk (run_ops ops disk).0
unfolding run_ops
run_ops-Cut [] disk = stop
run_ops-Cut (op ∷ ops) disk = elim (Option-cases (run_op op disk)) [
  | inl e ↦ rw (e, run_ops) stop
  | inr (disk', e) ↦ rw (e, run_ops) (next e (run_ops-Cut ops disk'))
]

-- It ends with `true` only if all operations were run.
pub run_ops-Done :
    (ops : List Op) (disk : Disk) → (run_ops ops disk).1 ≡ true → Done ops disk (run_ops ops disk).0
unfolding run_ops
run_ops-Done [] disk h = end
run_ops-Done (op ∷ ops) disk h = elim (Option-cases (run_op op disk)) [
  | inl e ↦ absurd (fails e)
  | inr (disk', e) ↦ rw (e, run_ops) (then_op e (run_ops-Done ops disk' (rw (e, run_ops) at h)))
]
  where
    fails : run_op op disk ≡ none → ⊥
    fails e = cc (rw (e, run_ops) at h)
