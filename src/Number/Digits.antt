-- ===== src/Number/Digits.antt =====
-- Digits in a base of up to 16: their characters, the print of a number and the scan of a text.
use osmdbt.Common.{
  ℕ, zero, suc, ◌+◌, ◌-◌, ◌*◌, ◌/◌, ◌%◌, ◌≤◌, ◌<◌, ◌≡◌, refl, ◌&&◌, [], ◌∷◌, arith, ltb, leb, ◌==◌,
  if◌then◌else◌, Bytes,
}

-- Capital letters behind 9, as %lX writes them.
unfoldable pub digit_char : ℕ → ℕ
digit_char d = if ltb d 10 then b'0' + d else 55 + d

-- 99 for a byte that is no digit in any base.
unfoldable pub digit_value : ℕ → ℕ
digit_value c =
    if leb b'0' c && leb c b'9'
    then c - b'0'
    else if leb b'A' c && leb c b'Z'
    then c - 55
    else if leb b'a' c && leb c b'z'
    then c - 87
    else 99

-- Each round divides by the base; `fuel` bounds the rounds.
unfoldable pub emit : ℕ → ℕ → ℕ → Bytes → Bytes
unfolding digit_char
emit base zero n out = out
emit base (suc fuel) n out =
    let more = emit base fuel (n / base) (digit_char (n % base) ∷ out) in
    if n == 0 then out else more

-- A number has at most as many digits as its value.
unfoldable pub print : ℕ → ℕ → Bytes
unfolding emit
print base n = if n == 0 then b'0' ∷ [] else emit base n n []

-- The value of the digits at the start of a text, behind the value read so far, and the rest.
unfoldable pub scan : ℕ → Bytes → ℕ → ℕ × Bytes
unfolding digit_value
scan base [] n = (n, [])
scan base (c ∷ s) n =
    let rest = scan base s (n * base + digit_value c) in
    if ltb (digit_value c) base then rest else (n, c ∷ s)

print_hex : print 16 0x1a ≡ b'1' ∷ b'A' ∷ []
unfolding print
print_hex = refl

scan_hex : scan 16 (b'1' ∷ b'a' ∷ b'/' ∷ []) 0 ≡ (26, b'/' ∷ [])
unfolding scan
scan_hex = refl

pub digit_value-digit_char : (d : ℕ) → d < 16 → digit_value (digit_char d) ≡ d
unfolding digit_value digit_char
digit_value-digit_char d h = ground arith

abbrev pub IsDigit : ℕ → ℕ → Type 0
IsDigit base c = digit_value c < base

pub digit_char-IsDigit : (base d : ℕ) → base ≤ 16 → d < base → IsDigit base (digit_char d)
digit_char-IsDigit base d h k = omega (arith, digit_value-digit_char d)
