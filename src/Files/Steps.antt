-- ===== src/Files/Steps.antt =====
-- When single operations on files succeed, and what they leave.
use mathlib.Core.Option.{some-injective}
use osmdbt.Common.{
  ◌≡◌, refl, ap, sym, ◌∙◌, List, [], ◌∷◌, Option, none, some, Bytes, bytes_eq_refl, false,
}
use osmdbt.Files.{
  Disk, Op, excl_write_open, write, overwrite, rename, unlink, run_op, run_open, run_rename,
  run_ops, update,
}

module _ (path : Bytes) (disk : Disk) where
  update_same : (c : Option Bytes) → update disk path c path ≡ c
  unfolding update
  update_same c = rw (bytes_eq_refl path) refl

  run_open-some :
      (o : Option Bytes) {disk' : Disk}
      → run_open path o disk ≡ some disk'
      → (o ≡ none) × (disk' path ≡ some [])
  unfolding run_open
  run_open-some none e =
      (refl, sym (ap (λ d. d path) (some-injective _ _ e)) ∙ update_same (some []))
  run_open-some (some c) e = cc

  -- A file that was made was not there before.
  pub excl_write_open_lem :
      {disk' : Disk}
      → run_op (excl_write_open path) disk ≡ some disk'
      → (disk path ≡ none) × (disk' path ≡ some [])
  unfolding run_op
  excl_write_open_lem e = run_open-some (disk path) e

  -- A file that is there cannot be made.
  pub excl_write_open-exists :
      {c : Bytes} → disk path ≡ some c → run_op (excl_write_open path) disk ≡ none
  unfolding run_op run_open
  excl_write_open-exists e = rw e refl

  -- A file that is not there can.
  pub excl_write_open-new :
      disk path ≡ none → run_op (excl_write_open path) disk ≡ some (update disk path (some []))
  unfolding run_op run_open
  excl_write_open-new e = rw e refl

  pub unlink_lem : {disk' : Disk} → run_op (unlink path) disk ≡ some disk' → disk' path ≡ none
  unfolding run_op
  unlink_lem e = sym (ap (λ d. d path) (some-injective _ _ e)) ∙ update_same none

  -- A file that is there can be renamed.
  pub rename-exists :
      (new : Bytes) {c : Bytes}
      → disk path ≡ some c
      → run_op (rename path new) disk ≡ some (update (update disk path none) new (some c))
  unfolding run_op run_rename
  rename-exists new e = rw e refl

  -- The file holds what was written last.
  pub write-update : (c : Bytes) → update disk path (some c) path ≡ some c
  write-update c = update_same (some c)

  pub write-succeeds : (c : Bytes) → run_op (write path c) disk ≡ some (update disk path (some c))
  unfolding run_op
  write-succeeds c = refl

-- An overwritten file has the new content.
pub overwrite_lem :
    (path c : Bytes) (disk : Disk) {disk' : Disk}
    → run_op (overwrite path c) disk ≡ some disk'
    → disk' path ≡ some c
unfolding run_op
overwrite_lem path c disk e =
    sym (ap (λ d. d path) (some-injective _ _ e)) ∙ update_same path disk (some c)

module _ (op : Op) (ops : List Op) (disk : Disk) where
  pub run_ops-throws : run_op op disk ≡ none → run_ops (op ∷ ops) disk ≡ (disk, false)
  unfolding run_ops
  run_ops-throws e = rw (e, run_ops) refl

  pub run_ops-next :
      {disk' : Disk} → run_op op disk ≡ some disk' → run_ops (op ∷ ops) disk ≡ run_ops ops disk'
  unfolding run_ops
  run_ops-next e = rw (e, run_ops) refl
