-- ===== src/Catchup/Names.antt =====
-- osmdbt-catchup reads from the name of a log file the number that osmdbt-get-log wrote into it.
use osmdbt.Common.{
  ℕ, zero, suc, ◌/◌, ◌%◌, ◌<◌, ◌≡◌, refl, ap, ◌∙◌, inl, inr, true, false, [], ◌∷◌, ◌++◌,
  append_assoc, map, some, ◌==◌, arith, Bytes, codes, bytes_eq, ok, All, Bool-cases, or_true,
}
use osmdbt.Number.{to_hex, two_64}
use osmdbt.Number.Digits.{emit, print, digit_char}
use osmdbt.Number.RoundTrip.{print-cons}
use osmdbt.Osm.{Osmium}
use osmdbt.Lsn.{LsnType, str, upper, lower, two_32}
use osmdbt.Lsn.RoundTrip.{lsn_of-halves, halves}
use osmdbt.Files.{create_replication_log_name}
use osmdbt.GetLog.{dash, lsn_dash}
use osmdbt.CreateDiff.App.{has_log_extension}
use osmdbt.Catchup.{
  is_hex, match_fixed, span_hex, iso_pattern, match_lower, match_upper, match_numbers, match_name,
  lsn_of_match, new_lsn,
}

abbrev IsHex : ℕ → Type 0
IsHex c = is_hex c ≡ true

digit_char-IsHex : (d : ℕ) → d < 16 → IsHex (digit_char d)
unfolding is_hex digit_char
digit_char-IsHex d h = ground arith

emit-IsHex : (fuel n : ℕ) (out : Bytes) → All IsHex out → All IsHex (emit 16 fuel n out)
unfolding emit
emit-IsHex zero n out h = h
emit-IsHex (suc fuel) n out h = elim (Bool-cases (n == 0)) [
  | inl z ↦ rw z h
  | inr p ↦ rw p (
      emit-IsHex fuel (n / 16) (digit_char (n % 16) ∷ out)
        (digit_char-IsHex (n % 16) (omega arith), h))
]

print-IsHex : (n : ℕ) → All IsHex (print 16 n)
unfolding print is_hex
print-IsHex n = elim (Bool-cases (n == 0)) [
  | inl z ↦ rw z (refl, tt)
  | inr p ↦ rw p (emit-IsHex n n [] tt)
]

span_hex-append :
    (s : Bytes) (c : ℕ) (rest : Bytes)
    → All IsHex s
    → is_hex c ≡ false
    → span_hex (s ++ c ∷ rest) ≡ (s, c ∷ rest)
unfolding span_hex
span_hex-append [] c rest h e = rw e
span_hex-append (a ∷ s) c rest h e = rw (h.0, span_hex-append s c rest h.1 e)

pub match_fixed-append :
    (p q s t r : Bytes)
    → match_fixed p s ≡ some r
    → match_fixed (p ++ q) (s ++ t) ≡ match_fixed q (r ++ t)
unfolding match_fixed
match_fixed-append [] q s t r h = ap (λ x. match_fixed q (x ++ t)) (cc)
match_fixed-append (a ∷ p) q [] t r h = cc
match_fixed-append (a ∷ p) q (c ∷ s) t r h = ground (arith, h, match_fixed-append p q s t r)

map-dash : (s : Bytes) → All IsHex s → map dash s ≡ s
unfolding is_hex
map-dash [] h = refl
map-dash (c ∷ s) h = ground (arith, h.0, map-dash s h.1)

-- The slash between two numbers becomes a dash.
map-dash_halves :
    (a b : Bytes) → All IsHex a → All IsHex b → map dash (a ++ b'/' ∷ b) ≡ a ++ b'-' ∷ b
unfolding is_hex
map-dash_halves [] b ha hb = ap (◌∷◌ b'-') (map-dash b hb)
map-dash_halves (c ∷ a) b ha hb = ground (arith, ha.0, map-dash_halves a b ha.1 hb)

match_numbers-halves :
    (a b : ℕ) → match_numbers (some (halves b'-' a b ++ codes ".log")) ≡ some (halves b'-' a b)
unfolding match_numbers match_upper match_lower is_hex bytes_eq
match_numbers-halves a b =
    let (c, s, ec) = print-cons 16 (omega arith) (omega arith) a in
    let (d, t, ed) = print-cons 16 (omega arith) (omega arith) b in
    ap match_upper (
      ap span_hex (append_assoc (print 16 a) (b'-' ∷ print 16 b) (codes ".log"))
      ∙ span_hex-append (print 16 a) b'-' (print 16 b ++ codes ".log") (print-IsHex a) refl)
    ∙ rw (ec, span_hex-append (print 16 b) b'.' (codes "log") (print-IsHex b) refl, ed) refl

match_fixed_name :
    (iso name : Bytes)
    → match_fixed iso_pattern iso ≡ some []
    → match_fixed
        (codes "osm-repl-" ++ (iso_pattern ++ codes "-lsn-"))
        (codes "osm-repl-" ++ (iso ++ (codes "-lsn-" ++ name)))
      ≡ some name
unfolding match_fixed
match_fixed_name iso name h =
    match_fixed-append iso_pattern (codes "-lsn-") iso (codes "-lsn-" ++ name) [] h

has_log_extension-append : (c : ℕ) (s : Bytes) → has_log_extension (c ∷ (s ++ codes ".log")) ≡ true
unfolding has_log_extension bytes_eq
has_log_extension-append c [] = refl
has_log_extension-append c (d ∷ s) = rw (has_log_extension-append d s, or_true) refl

-- The name of a log file has the extension that osmdbt-catchup looks for.
pub has_log_extension-create_replication_log_name :
    (osm : Osmium) (name : Bytes) (time : ℕ)
    → has_log_extension (create_replication_log_name osm name time) ≡ true
unfolding create_replication_log_name
has_log_extension-create_replication_log_name osm name time =
    let front = codes "sm-repl-" ++ (osm.to_iso_all time ++ (codes "-" ++ name)) in
    let split : create_replication_log_name osm name time ≡ b'o' ∷ (front ++ codes ".log") =
      simp append_assoc in
    ap has_log_extension split ∙ has_log_extension-append b'o' front

-- The number in the name that osmdbt-get-log gives a log file is read back from it by osmdbt-catchup: it
-- is the number whose text was written into the name. The number is below 2^64, and the time in the name
-- has the form of an ISO time, as the regular expression asks.
pub new_lsn-create_replication_log_name :
    (osm : Osmium) (time : ℕ) (l : LsnType)
    → match_fixed iso_pattern (osm.to_iso_all time) ≡ some []
    → l.lsn < two_64
    → new_lsn (create_replication_log_name osm (lsn_dash (str l)) time) ≡ ok l
unfolding new_lsn match_name create_replication_log_name lsn_dash str to_hex upper lower
new_lsn-create_replication_log_name osm time l iso h =
    let a = l.lsn / two_32 in
    let b = l.lsn % two_32 in
    let name = map dash (print 16 a ++ b'/' ∷ print 16 b) ++ codes ".log" in
    ap lsn_of_match (
      ap match_numbers (
        match_fixed_name (osm.to_iso_all time) name iso
        ∙ ap (λ x. some (x ++ codes ".log")) (map-dash_halves _ _ (print-IsHex a) (print-IsHex b)))
      ∙ match_numbers-halves a b)
    ∙ (lsn_of-halves b'-' a b (inr refl) (omega arith) (omega arith)
        ∙ ap (λ n. ok (record { lsn = n })) (omega arith))
