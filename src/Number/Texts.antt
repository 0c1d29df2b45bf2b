-- ===== src/Number/Texts.antt =====
-- The texts of numbers in the two bases that the code uses.
use osmdbt.Common.{
  ℕ, ◌≤◌, ◌<◌, ◌≡◌, refl, ap, false, [], ◌∷◌, ◌++◌, append-nil, arith, Bytes, All, length, pos,
}
use osmdbt.Osm.{Lacks}
use osmdbt.Number.{starts_number, strtoull, strtoll, two_64, two_63, c_str}
use osmdbt.Number.Digits.{digit_value, print, IsDigit}
use osmdbt.Number.RoundTrip.{NoX, print-digits, print-cons, strtoull-print, strtoll-print}

-- A byte that is no digit in any base does not stand among digits.
pub Lacks-of_digits : (b : ℕ) (s : Bytes) → digit_value b ≡ 99 → All (IsDigit 16) s → Lacks b s
Lacks-of_digits b [] e h = tt
Lacks-of_digits b (c ∷ s) e h =
    (λ same. absurd (ground (arith, e, h.0, ap digit_value same)), Lacks-of_digits b s e h.1)

-- The two bases that the code uses.
pub strtoull-hex :
    (n : ℕ) (rest : Bytes)
    → n < two_64
    → starts_number 16 rest ≡ false
    → NoX rest
    → strtoull 16 (print 16 n ++ rest) ≡ (n, rest)
strtoull-hex = strtoull-print 16 (omega arith) (omega arith)

pub strtoull-hex_end : (n : ℕ) → n < two_64 → strtoull 16 (print 16 n) ≡ (n, [])
unfolding starts_number
strtoull-hex_end n h = rw append-nil at (strtoull-hex n [] h refl tt)

pub strtoull-decimal_end : (n : ℕ) → n < two_64 → strtoull 10 (print 10 n) ≡ (n, [])
unfolding starts_number
strtoull-decimal_end n h =
    rw append-nil at (strtoull-print 10 (omega arith) (omega arith) n [] h refl tt)

pub strtoll-decimal_end : (n : ℕ) → n < two_63 → strtoll 10 (print 10 n) ≡ pos n
unfolding starts_number
strtoll-decimal_end n h =
    rw append-nil at (strtoll-print 10 (omega arith) (omega arith) n [] h refl tt)

IsDigit-mono : (s : Bytes) → All (IsDigit 10) s → All (IsDigit 16) s
IsDigit-mono [] h = tt
IsDigit-mono (c ∷ s) h = (omega (arith, h.0), IsDigit-mono s h.1)

pub decimal_digits : (n : ℕ) → All (IsDigit 10) (print 10 n)
decimal_digits = print-digits 10 (omega arith) (omega arith)

pub hex-Lacks : (b n : ℕ) → digit_value b ≡ 99 → Lacks b (print 16 n)
hex-Lacks b n e = Lacks-of_digits b _ e (print-digits 16 (omega arith) (omega arith) n)

pub decimal-Lacks : (b n : ℕ) → digit_value b ≡ 99 → Lacks b (print 10 n)
decimal-Lacks b n e = Lacks-of_digits b _ e (IsDigit-mono _ (decimal_digits n))

pub c_str_lem : (s : Bytes) → Lacks 0 s → c_str s ≡ s
unfolding c_str
c_str_lem [] h = refl
c_str_lem (c ∷ s) h = ground (arith, c_str_lem s h.1)

-- A number behind a byte that was cut off, as in `n123`.
pub strtoll-c_str : (n : ℕ) → n < two_63 → strtoll 10 (c_str (print 10 n)) ≡ pos n
unfolding digit_value
strtoll-c_str n h = rw (c_str_lem _ (decimal-Lacks 0 n refl)) (strtoll-decimal_end n h)

pub length-decimal : (n : ℕ) → 1 ≤ length (print 10 n)
length-decimal n = let (c, s, e) = print-cons 10 (omega arith) (omega arith) n in rw e (omega arith)
