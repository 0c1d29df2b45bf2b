-- ===== src/Lsn/RoundTrip.antt =====
-- Reading and writing log sequence numbers.
use osmdbt.Common.{
  ℕ, ◌+◌, ◌*◌, ◌/◌, ◌%◌, ◌<◌, ◌≡◌, ◌≢◌, ◌⊎◌, inl, inr, refl, ap, ◌∙◌, false, ◌&&◌, ◌||◌, [], ◌∷◌,
  ◌++◌, arith, ltb, ◌==◌, Bytes, ok, err, error_parsing_lsn, All, All-append, Bool-cases,
}
use osmdbt.Osm.{Lacks}
use osmdbt.Number.{strtoull, starts_number, to_hex, c_str, two_64}
use osmdbt.Number.Digits.{digit_value, print}
use osmdbt.Number.Rest.{strtoull-All}
use osmdbt.Number.Texts.{c_str_lem, strtoull-hex, strtoull-hex_end, hex-Lacks}
use osmdbt.Lsn.{LsnType, upper, lower, lsn_ltb, read_lower, read_upper, lsn_of, str, two_32}

-- The text of the two halves in hexadecimal, with a separator.
abbrev pub halves : ℕ → ℕ → ℕ → Bytes
halves sep a b = print 16 a ++ sep ∷ print 16 b

halves-Lacks : (sep a b : ℕ) → sep ≢ 0 → Lacks 0 (halves sep a b)
unfolding digit_value
halves-Lacks sep a b h =
    All-append _ (print 16 a) (sep ∷ print 16 b) (hex-Lacks 0 a refl) (h, hex-Lacks 0 b refl)

abbrev pub IsSeparator : ℕ → Type 0
IsSeparator sep = (sep ≡ b'/') ⊎ (sep ≡ b'-')

separator_no_digit : (sep : ℕ) (s : Bytes) → IsSeparator sep → starts_number 16 (sep ∷ s) ≡ false
unfolding starts_number digit_value
separator_no_digit sep s h = ground arith

read_upper-print :
    (sep a b : ℕ)
    → IsSeparator sep
    → a < two_32
    → b < two_32
    → read_upper (a, sep ∷ print 16 b) ≡ ok (record { lsn = a * two_32 + b })
unfolding read_upper read_lower
read_upper-print sep a b h ha hb = rw (read_upper, strtoull-hex_end b (omega arith)) (ground arith)

-- The text of two numbers below 2^32 in hexadecimal, separated by a slash or a dash, is read as the number
-- whose upper and lower halves they are.
pub lsn_of-halves :
    (sep a b : ℕ)
    → IsSeparator sep
    → a < two_32
    → b < two_32
    → lsn_of (halves sep a b) ≡ ok (record { lsn = a * two_32 + b })
unfolding lsn_of
lsn_of-halves sep a b h ha hb =
    let no_zero = halves-Lacks sep a b (ground arith) in
    let ends = separator_no_digit sep (print 16 b) h in
    ap read_upper (
      ap (strtoull 16) (c_str_lem (halves sep a b) no_zero)
      ∙ strtoull-hex a (sep ∷ print 16 b) (omega arith) ends (ground arith))
    ∙ read_upper-print sep a b h ha hb

-- The constructor reads back the text that str prints, for every number below 2^64.
pub lsn_of-str : (l : LsnType) → l.lsn < two_64 → lsn_of (str l) ≡ ok l
unfolding str to_hex
lsn_of-str l h =
    lsn_of-halves b'/' (l.lsn / two_32) (l.lsn % two_32) (inl refl) (omega arith) (omega arith)
    ∙ ap (λ n. ok (record { lsn = n })) (omega arith)

-- operator< is the lexicographic order of the upper and lower halves.
pub lsn_ltb_lem :
    (a b : LsnType)
    → lsn_ltb a b ≡ (ltb (upper a) (upper b) || (upper a == upper b && ltb (lower a) (lower b)))
unfolding lsn_ltb upper lower
lsn_ltb_lem a b = ground arith

abbrev IsNoSeparator : ℕ → Type 0
IsNoSeparator c = (c ≢ b'-') × (c ≢ b'/')

c_str-All : (s : Bytes) → All IsNoSeparator s → All IsNoSeparator (c_str s)
unfolding c_str
c_str-All [] h = tt
c_str-All (c ∷ s) h = elim (Bool-cases (c == 0)) [
  | inl e ↦ rw e tt
  | inr e ↦ rw e (h.0, c_str-All s h.1)
]

read_upper_refuses : (r : ℕ × Bytes) → All IsNoSeparator r.1 → read_upper r ≡ err error_parsing_lsn
unfolding read_upper
read_upper_refuses (a, []) h = refl
read_upper_refuses (a, c ∷ s) h = ground (arith, h.0)

-- The constructor throws on every text in which there is no dash and no slash.
pub lsn_of_refuses : (s : Bytes) → All IsNoSeparator s → lsn_of s ≡ err error_parsing_lsn
unfolding lsn_of
lsn_of_refuses s h = read_upper_refuses _ (strtoull-All IsNoSeparator 16 (c_str s) (c_str-All s h))
