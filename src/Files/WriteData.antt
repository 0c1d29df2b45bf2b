-- ===== src/Files/WriteData.antt =====
-- write_data_to_file is atomic on its final name.
use osmdbt.Common.{
  ◌≡◌, refl, ◌∙◌, false, List, [], ◌∷◌, ◌++◌, some, Bytes, codes, bytes_eq, ◌⊎◌, inl, inr, ℕ, arith,
}
use osmdbt.Files.{Disk, Op, excl_write_open, write, rename, sync_dir, write_data_to_file}
use osmdbt.Files.Prefix.{
  Cut, Done, Done-Cut, Spares, stop, next, Cut-Spares, Cut-append, Done-append, then_op, end,
  rename_lem, write_lem,
}

-- A name with something behind it is another name.
pub longer_ne : (s : Bytes) (c : ℕ) (t : Bytes) → bytes_eq (s ++ c ∷ t) s ≡ false
unfolding bytes_eq
longer_ne [] c t = refl
longer_ne (a ∷ s) c t = ground (arith, longer_ne s c t)

module _ (content dir_name file_name : Bytes) where
  abbrev final_name : Bytes
  final_name = dir_name ++ file_name

  abbrev tmp_name : Bytes
  tmp_name = final_name ++ codes ".new"

  -- Under the temporary name.
  abbrev filling : List Op
  filling = excl_write_open tmp_name ∷ write tmp_name content ∷ []

  abbrev moving : List Op
  moving = rename tmp_name final_name ∷ sync_dir dir_name ∷ []

  filling-Spares : Spares final_name filling
  filling-Spares = let ne = longer_ne final_name b'.' (codes "new") in (ne, (ne, tt))

  filled : {disk mid : Disk} → Done filling disk mid → mid tmp_name ≡ some content
  filled (then_op e (then_op {disk = d} f end)) = write_lem tmp_name content d f

  moving-Cut :
      {mid disk' : Disk}
      → mid tmp_name ≡ some content
      → Cut moving mid disk'
      → (disk' final_name ≡ mid final_name) ⊎ (disk' final_name ≡ some content)
  moving-Cut h stop = inl refl
  moving-Cut h (next {disk = mid} e rest) =
      inr (Cut-Spares final_name (refl, tt) rest ∙ (rename_lem tmp_name final_name mid e ∙ h))

  -- Wherever write_data_to_file is cut off, the file has its old content under the final name, or all of
  -- the new one.
  pub write_data_to_file-atomic :
      {disk disk' : Disk}
      → Cut (write_data_to_file content dir_name file_name) disk disk'
      → (disk' (dir_name ++ file_name) ≡ disk (dir_name ++ file_name))
        ⊎ (disk' (dir_name ++ file_name) ≡ some content)
  unfolding write_data_to_file
  write_data_to_file-atomic c = elim (Cut-append filling moving c) [
    | inl cut ↦ inl (Cut-Spares final_name filling-Spares cut)
    | inr (mid, d, cut) ↦ elim (moving-Cut (filled d) cut) [
      | inl same ↦ inl (same ∙ Cut-Spares final_name filling-Spares (Done-Cut d))
      | inr new ↦ inr new
    ]
  ]

  moving-Done :
      {mid disk' : Disk}
      → mid tmp_name ≡ some content
      → Done moving mid disk'
      → disk' final_name ≡ some content
  moving-Done h (then_op {disk = mid} e rest) =
      Cut-Spares final_name (refl, tt) (Done-Cut rest) ∙ (rename_lem tmp_name final_name mid e ∙ h)

  -- Where it does not throw, the file is there with the new content.
  pub write_data_to_file-Done :
      {disk disk' : Disk}
      → Done (write_data_to_file content dir_name file_name) disk disk'
      → disk' (dir_name ++ file_name) ≡ some content
  unfolding write_data_to_file
  write_data_to_file-Done d =
      let (mid, first, second) = Done-append filling moving d in moving-Done (filled first) second
