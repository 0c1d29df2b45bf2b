-- ===== src/Settings/Laws.antt =====
-- What becomes of the directories.
use osmdbt.Common.{
  Bool, Option, if◌then◌else◌, ◌≡◌, ap, true, false, [], ◌∷◌, ◌++◌, none, some, Bytes, codes,
  Bool-cases, inl, inr, ok, ==_iff,
}
use osmdbt.Settings.{Node, ends_in_slash, close_dir, set_dir}

-- The last byte is a slash.
abbrev pub EndsInSlash : Bytes → Type 0
EndsInSlash dir = (s : Bytes) × (dir ≡ s ++ codes "/")

ends_in_slash-EndsInSlash : (s : Bytes) → ends_in_slash s ≡ true → EndsInSlash s
unfolding ends_in_slash
ends_in_slash-EndsInSlash [] h = cc
ends_in_slash-EndsInSlash (c ∷ []) h = ([], ap (λ d. d ∷ []) ((==_iff c b'/').0 h))
ends_in_slash-EndsInSlash (c ∷ d ∷ s) h =
    let (t, e) = ends_in_slash-EndsInSlash (d ∷ s) h in (c ∷ t, ap (◌∷◌ c) e)

close_dir-EndsInSlash : (o : Option Bytes) (dir : Bytes) → close_dir o ≡ ok dir → EndsInSlash dir
unfolding close_dir
close_dir-EndsInSlash none dir h = cc
close_dir-EndsInSlash (some []) dir h = cc
close_dir-EndsInSlash (some (c ∷ s)) dir h = elim (Bool-cases (ends_in_slash (c ∷ s))) [
  | inl e ↦ let (t, e') = ends_in_slash-EndsInSlash (c ∷ s) e in (t, cc (rw e at h))
  | inr e ↦ (c ∷ s, cc (rw e at h))
]

choose :
    (defined : Bool) (value : Option Bytes) (var dir : Bytes)
    → EndsInSlash var
    → (if defined then close_dir value else ok var) ≡ ok dir
    → EndsInSlash dir
choose false value var dir (s, h) e = (s, cc)
choose true value var dir h e = close_dir-EndsInSlash value dir e

-- If set_dir returns, the directory ends in a slash, whatever the configuration says, provided that
-- the default does.
pub set_dir-EndsInSlash :
    (config : Node) (var dir : Bytes)
    → EndsInSlash var
    → set_dir config var ≡ ok dir
    → EndsInSlash dir
unfolding set_dir
set_dir-EndsInSlash config var dir h e = choose config.is_defined config.as_string var dir h e
