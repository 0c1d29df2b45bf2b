-- ===== src/Osm.antt =====
-- What the code takes from libosmium: the item types that it names, and the library's functions as a
-- parameter with their documented behaviour.
use osmdbt.Common.{ℕ, ◌^◌, ◌≤◌, ◌<◌, ◌≡◌, ◌≢◌, ◌⊎◌, List, [], ◌∷◌, ◌++◌, Option, some, Bytes, All}

-- osmium::item_type. `other` stands for the values that the code never names.
pub data ItemType : Type 0 where
  undefined node way relation : ItemType
  other : ℕ → ItemType

-- The byte is not in the text.
abbrev pub Lacks : ℕ → Bytes → Type 0
Lacks b = All (λ c. c ≢ b)

-- A byte of a time in ISO format, `2020-03-06T15:09:02Z`.
abbrev pub IsIsoByte : ℕ → Type 0
IsIsoByte c = ((b'0' ≤ c) × (c ≤ b':')) ⊎ (c ≡ b'-') ⊎ (c ≡ b'T') ⊎ (c ≡ b'Z')

pub record Osmium : Type 0 where
  -- The constructor of osmium::Timestamp from a text: `none` where it throws. A timestamp is a number
  -- of seconds.
  pub timestamp_of : Bytes → Option ℕ
  pub to_iso : ℕ → Bytes
  pub to_iso_all : ℕ → Bytes
  pub split_string : Bytes → ℕ → List Bytes
  pub char_to_item_type : ℕ → ItemType
  pub item_type_to_char : ItemType → ℕ
  pub item_type_to_nwr_index : ItemType → ℕ
  -- The value of the enumerator, by which item types are compared.
  pub item_type_value : ItemType → ℕ

pub record IsDocumented (o : Osmium) : Type 0 where
  pub char_node : o.item_type_to_char node ≡ b'n'
  pub char_way : o.item_type_to_char way ≡ b'w'
  pub char_relation : o.item_type_to_char relation ≡ b'r'
  pub type_node : o.char_to_item_type b'n' ≡ node
  pub type_way : o.char_to_item_type b'w' ≡ way
  pub type_relation : o.char_to_item_type b'r' ≡ relation
  pub index_node : o.item_type_to_nwr_index node ≡ 0
  pub index_way : o.item_type_to_nwr_index way ≡ 1
  pub index_relation : o.item_type_to_nwr_index relation ≡ 2
  -- A text that is not empty and has no separator is one part. The parts of `w sep rest` are `w` and those of
  -- `rest`, if this is not empty. Nothing is said of the empty text, which has no parts.
  pub split_end : (sep : ℕ) (w : Bytes) → Lacks sep w → w ≢ [] → o.split_string w sep ≡ w ∷ []
  pub split_step :
      (sep : ℕ) (w rest : Bytes)
      → Lacks sep w
      → rest ≢ []
      → o.split_string (w ++ sep ∷ rest) sep ≡ w ∷ o.split_string rest sep
  -- A timestamp has 32 bits; its ISO text is read back, is not empty, and has only the bytes of such a text.
  pub timestamp_of_iso : (t : ℕ) → t < 2 ^ 32 → o.timestamp_of (o.to_iso_all t) ≡ some t
  pub iso_some : (t : ℕ) → t < 2 ^ 32 → o.to_iso_all t ≢ []
  pub iso_bytes : (t : ℕ) → t < 2 ^ 32 → All IsIsoByte (o.to_iso_all t)
