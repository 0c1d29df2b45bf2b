-- ===== src/Lsn.antt =====
-- src/lsn.hpp and src/lsn.cpp: PostgreSQL's log sequence numbers, as 64-bit words.
pub mod RoundTrip
use osmdbt.Common.{
  ℕ, ◌+◌, ◌*◌, ◌/◌, ◌%◌, ◌^◌, ◌≡◌, refl, Bool, true, false, not, ◌||◌, ◌&&◌, [], ◌∷◌, ◌++◌, ltb,
  ◌==◌, if◌then◌else◌, Bytes, codes, Result, ok, err, error_parsing_lsn,
}
use osmdbt.Number.{strtoull, to_hex, c_str, two_64}

abbrev pub two_32 : ℕ
two_32 = 2 ^ 32

pub record LsnType : Type 0 where
  pub lsn : ℕ

unfoldable pub upper : LsnType → ℕ
upper l = l.lsn / two_32

-- `m_lsn & 0xffffffff`
unfoldable pub lower : LsnType → ℕ
lower l = l.lsn % two_32

-- `operator bool`
unfoldable pub is_set : LsnType → Bool
is_set l = not (l.lsn == 0)

unfoldable pub lsn_ltb : LsnType → LsnType → Bool
lsn_ltb lhs rhs = ltb lhs.lsn rhs.lsn

unfoldable pub lsn_gtb : LsnType → LsnType → Bool
unfolding lsn_ltb
lsn_gtb lhs rhs = lsn_ltb rhs lhs

-- The second half of the constructor: what std::strtoull made of the text behind the separator.
unfoldable pub read_lower : ℕ → ℕ × Bytes → Result LsnType
read_lower upper_part (lower_part, []) =
    ok (record { lsn = ((upper_part * two_32) % two_64 + lower_part) % two_64 })
read_lower upper_part (lower_part, c ∷ rest) = err error_parsing_lsn

-- The test of `*end` after the first number: at the end of the text it is the zero byte.
unfoldable pub read_upper : ℕ × Bytes → Result LsnType
read_upper (upper_part, []) = err error_parsing_lsn
read_upper (upper_part, c ∷ rest) =
    if c == b'-' || c == b'/'
    then read_lower upper_part (strtoull 16 rest)
    else err error_parsing_lsn

-- The constructor.
unfoldable pub lsn_of : Bytes → Result LsnType
lsn_of text = read_upper (strtoull 16 (c_str text))

unfoldable pub str : LsnType → Bytes
unfolding upper lower
str l = to_hex (upper l) ++ (b'/' ∷ to_hex (lower l))
