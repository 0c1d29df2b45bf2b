-- ===== src/Number.antt =====
-- What the code uses of the C and C++ libraries to write and read numbers: std::to_string, the
-- formats %lX and %09zu of std::snprintf, std::strtoull and std::strtoll.
pub mod Digits
pub mod RoundTrip
pub mod Texts
pub mod Rest
use osmdbt.Common.{
  ℕ, zero, suc, ◌+◌, ◌-◌, ◌*◌, ◌/◌, ◌%◌, ◌^◌, Bool, true, false, ◌&&◌, ◌||◌, List, [], ◌∷◌, ◌++◌,
  Option, none, some, ltb, leb, ◌==◌, if◌then◌else◌, Bytes, length, ℤ, pos, negsuc,
}
use Digits.{print, scan, digit_value}

-- std::to_string
unfoldable pub to_string : ℕ → Bytes
to_string n = print 10 n

unfoldable pub to_string_ℤ : ℤ → Bytes
to_string_ℤ (pos n) = print 10 n
to_string_ℤ (negsuc n) = b'-' ∷ print 10 (suc n)

-- %lX
unfoldable pub to_hex : ℕ → Bytes
to_hex n = print 16 n

-- isspace
pub is_space : ℕ → Bool
is_space c = c == 32 || (leb 9 c && leb c 13)

unfoldable pub skip_space : Bytes → Bytes
unfolding is_space
skip_space [] = []
skip_space (c ∷ s) = let rest = skip_space s in if is_space c then rest else c ∷ s

-- An optional sign, and what follows it.
unfoldable pub read_sign : Bytes → Bool × Bytes
read_sign [] = (false, [])
read_sign (c ∷ s) =
    if c == b'-' then (true, s) else if c == b'+' then (false, s) else (false, c ∷ s)

-- In base 16 the digits may stand behind 0x.
unfoldable pub skip_prefix : ℕ → Bytes → Bytes
skip_prefix base (a ∷ b ∷ c ∷ s) =
    if base == 16 && a == b'0' && (b == b'x' || b == b'X') && ltb (digit_value c) 16
    then c ∷ s
    else a ∷ b ∷ c ∷ s
skip_prefix base s = s

unfoldable pub starts_number : ℕ → Bytes → Bool
starts_number base [] = false
starts_number base (c ∷ s) = ltb (digit_value c) base

abbrev pub two_64 : ℕ
two_64 = 2 ^ 64

abbrev pub two_63 : ℕ
two_63 = 2 ^ 63

-- The sign and the number without a bound, and the rest; `none` where there are no digits.
unfoldable pub read_number : ℕ → Bytes → Option (Bool × ℕ × Bytes)
read_number base s =
    let (minus, t) = read_sign (skip_space s) in
    let u = skip_prefix base t in
    let (n, rest) = scan base u 0 in if starts_number base u then some (minus, n, rest) else none

-- The number in 64 bits, saturated at ULLONG_MAX and negated in 64 bits.
pub unsigned : Bytes → Option (Bool × ℕ × Bytes) → ℕ × Bytes
unsigned s none = (0, s)
unsigned s (some (minus, n, rest)) =
    (if leb two_64 n then two_64 - 1 else if minus then (two_64 - n) % two_64 else n, rest)

-- std::strtoull: the number and the rest, at which `end` points.
unfoldable pub strtoull : ℕ → Bytes → ℕ × Bytes
unfolding unsigned
strtoull base s = unsigned s (read_number base s)

-- The number, saturated at LLONG_MAX and LLONG_MIN.
signed : Option (Bool × ℕ × Bytes) → ℤ
signed none = pos 0
signed (some (true, n, rest)) =
    if leb two_63 n then negsuc (two_63 - 1) else if n == 0 then pos 0 else negsuc (n - 1)
signed (some (false, n, rest)) = if leb two_63 n then pos (two_63 - 1) else pos n

-- std::strtoll
pub strtoll : ℕ → Bytes → ℤ
unfolding signed
strtoll base s = signed (read_number base s)

-- Text of a `char const *`: it ends at the first zero byte.
unfoldable pub c_str : Bytes → Bytes
c_str [] = []
c_str (c ∷ s) = let rest = c_str s in if c == 0 then [] else c ∷ rest
