-- ===== src/FakeLog/Names.antt =====
-- The names that osmdbt-fake-log gives its files, and osmdbt-catchup.
use osmdbt.Common.{
  ℕ, ◌≡◌, ap, ◌∙◌, true, List, [], ◌∷◌, ◌++◌, none, some, Bytes, codes, ok, err,
  invalid_log_file_format, All, inl, inr, ◌%◌, ◌^◌, ◌≢◌, arith,
}
use osmdbt.Osm.{Osmium}
use osmdbt.Lsn.{LsnType}
use osmdbt.Files.{create_replication_log_name}
use osmdbt.CreateDiff.App.{has_log_extension}
use osmdbt.Catchup.{
  match_fixed, match_numbers, match_name, lsn_of_match, new_lsn, iso_pattern, get_lsn,
}
use osmdbt.Catchup.Laws.{IsBelow, get_lsn_lem}
use osmdbt.Catchup.Names.{match_fixed-append, has_log_extension-create_replication_log_name}
use osmdbt.FakeLog.{minute_name}

All-middle : {A : Type 0} (P : A → Type 0) (xs ys : List A) (a : A) → All P (xs ++ a ∷ ys) → P a
All-middle P [] ys a h = h.0
All-middle P (x ∷ xs) ys a h = All-middle P xs ys a h.1

no_lsn :
    (x : Bytes) (c : ℕ) (s : Bytes)
    → x ≡ c ∷ s
    → c ≢ b'l'
    → match_fixed (codes "-lsn-") (codes "-" ++ (x ++ codes ".log")) ≡ none
unfolding match_fixed
no_lsn x c s e other = rw e (ground (arith, other))

module _ (osm : Osmium) (clock : ℕ → ℕ) (log_dir : Bytes) (t : ℕ) where
  new_lsn-minute_name :
      (c : ℕ) (s : Bytes)
      → match_fixed iso_pattern (osm.to_iso_all (clock t)) ≡ some []
      → osm.to_iso (t % 2 ^ 32) ≡ c ∷ s
      → c ≢ b'l'
      → new_lsn (minute_name osm clock log_dir t) ≡ err invalid_log_file_format
  unfolding new_lsn match_name create_replication_log_name minute_name match_numbers match_fixed
  new_lsn-minute_name c s iso first other =
      ap (λ m. lsn_of_match (match_numbers m))
        (match_fixed-append iso_pattern (codes "-lsn-") (osm.to_iso_all (clock t))
            (codes "-" ++ (osm.to_iso (t % 2 ^ 32) ++ codes ".log")) [] iso
          ∙ no_lsn (osm.to_iso (t % 2 ^ 32)) c s first other)

  -- While a file of osmdbt-fake-log lies in the log directory, get_lsn returns no number: osmdbt-catchup
  -- throws. The times in the name have the form of ISO times, the first as the regular expression asks,
  -- and the second starts with another byte than l.
  pub get_lsn-minute_name :
      (before after : List Bytes) (c : ℕ) (s : Bytes) (l : LsnType)
      → match_fixed iso_pattern (osm.to_iso_all (clock t)) ≡ some []
      → osm.to_iso (t % 2 ^ 32) ≡ c ∷ s
      → c ≢ b'l'
      → get_lsn (before ++ minute_name osm clock log_dir t ∷ after) ≢ ok l
  get_lsn-minute_name before after c s l iso first other h =
      let name = minute_name osm clock log_dir t in
      let log_extension : has_log_extension name ≡ true =
        unfold minute_name in has_log_extension-create_replication_log_name osm _ (clock t) in
      let all = (get_lsn_lem (before ++ name ∷ after) l h).0 in
      elim (All-middle (IsBelow l) before after name all) [
        | inl e ↦ cc (log_extension)
        | inr (m, em, le) ↦ cc (new_lsn-minute_name c s iso first other)
      ]
