-- ===== src/Tests/Sample.antt =====
-- A libosmium with the documented behaviour: it writes a time as a plain number.
use osmdbt.Common.{
  ℕ, ◌≡◌, ◌^◌, ◌<◌, refl, ap, sym, ◌∙◌, ◌≢◌, append_cons_ne, List, [], ◌∷◌, ◌++◌, some, ◌==◌,
  if◌then◌else◌, Bytes, arith, All,
}
use osmdbt.Number.{strtoull}
use osmdbt.Number.Digits.{print, IsDigit, digit_value}
use osmdbt.Number.RoundTrip.{print-cons}
use osmdbt.Number.Texts.{strtoull-decimal_end, decimal_digits}
use osmdbt.Osm.{
  ItemType, undefined, node, way, relation, other, Osmium, IsDocumented, Lacks, IsIsoByte,
}
use osmdbt.OsmObj.ReadLog.{cons_byte}

abbrev parts : Bytes → ℕ → List Bytes
parts [] sep = [] ∷ []
parts (c ∷ s) sep = let rest = parts s sep in if c == sep then [] ∷ rest else cons_byte c rest

-- The empty text has no parts.
abbrev pub split : Bytes → ℕ → List Bytes
split [] sep = []
split (c ∷ s) sep = parts (c ∷ s) sep

split-parts : (s : Bytes) (sep : ℕ) → s ≢ [] → split s sep ≡ parts s sep
split-parts [] sep h = absurd (h refl)
split-parts (c ∷ s) sep h = refl

parts_end : (sep : ℕ) (w : Bytes) → Lacks sep w → parts w sep ≡ w ∷ []
unfolding cons_byte
parts_end sep [] h = refl
parts_end sep (c ∷ w) h = ground (arith, h.0, parts_end sep w h.1)

parts_step :
    (sep : ℕ) (w rest : Bytes) → Lacks sep w → parts (w ++ sep ∷ rest) sep ≡ w ∷ parts rest sep
unfolding cons_byte
parts_step sep [] rest h = ground arith
parts_step sep (c ∷ w) rest h = ground (arith, h.0, parts_step sep w rest h.1)

split_end : (sep : ℕ) (w : Bytes) → Lacks sep w → w ≢ [] → split w sep ≡ w ∷ []
split_end sep w h filled = split-parts w sep filled ∙ parts_end sep w h

split_step :
    (sep : ℕ) (w rest : Bytes)
    → Lacks sep w
    → rest ≢ []
    → split (w ++ sep ∷ rest) sep ≡ w ∷ split rest sep
split_step sep w rest h filled =
    split-parts (w ++ sep ∷ rest) sep (append_cons_ne w sep rest)
    ∙ (parts_step sep w rest h ∙ ap (◌∷◌ w) (sym (split-parts rest sep filled)))

print_some : (t : ℕ) → print 10 t ≢ []
print_some t e = let (c, s, h) = print-cons 10 (omega arith) (omega arith) t in cc

digits-IsIsoByte : (s : Bytes) → All (IsDigit 10) s → All IsIsoByte s
unfolding digit_value
digits-IsIsoByte [] h = tt
digits-IsIsoByte (c ∷ s) h = (ground (arith, h.0), digits-IsIsoByte s h.1)

abbrev pub char_type : ℕ → ItemType
char_type c =
    if c == b'n' then node else if c == b'w' then way else if c == b'r' then relation else undefined

abbrev pub type_char : ItemType → ℕ
type_char node = b'n'
type_char way = b'w'
type_char relation = b'r'
type_char undefined = b'X'
type_char (other n) = b'?'

abbrev pub nwr_index : ItemType → ℕ
nwr_index node = 0
nwr_index way = 1
nwr_index relation = 2
nwr_index undefined = 3
nwr_index (other n) = 3

abbrev pub sample : Osmium
sample = record {
  timestamp_of = λ s. some (strtoull 10 s).0;
  to_iso = λ t. print 10 t;
  to_iso_all = λ t. print 10 t;
  split_string = split;
  char_to_item_type = char_type;
  item_type_to_char = type_char;
  item_type_to_nwr_index = nwr_index;
  item_type_value = nwr_index;
}

time_back : (t : ℕ) → t < 2 ^ 32 → sample.timestamp_of (sample.to_iso_all t) ≡ some t
time_back t h = ap (λ p. some p.0) (strtoull-decimal_end t (omega arith))

pub sample-IsDocumented : IsDocumented sample
sample-IsDocumented = record {
  char_node = refl;
  char_way = refl;
  char_relation = refl;
  type_node = refl;
  type_way = refl;
  type_relation = refl;
  index_node = refl;
  index_way = refl;
  index_relation = refl;
  split_end = split_end;
  split_step = split_step;
  iso_some = λ t h. print_some t;
  timestamp_of_iso = time_back;
  iso_bytes = λ t h. digits-IsIsoByte (print 10 t) (decimal_digits t);
}
