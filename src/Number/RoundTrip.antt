-- ===== src/Number/RoundTrip.antt =====
-- What std::to_string and std::snprintf print, std::strtoull and std::strtoll read back.
use osmdbt.Common.{
  ℕ, zero, suc, ◌+◌, ◌*◌, ◌/◌, ◌%◌, ◌≤◌, ◌<◌, ◌≡◌, ◌≢◌, refl, ap, sym, ◌∙◌, true, false, [], ◌∷◌,
  ◌++◌, some, inl, inr, arith, ◌==◌, Bytes, Bool-cases, ==_iff, All, pos,
}
use native.Mathlib.Nat.{div-le_self, div-lt_self, div-add-mod', mod-lt}
use osmdbt.Number.{
  is_space, skip_space, read_sign, skip_prefix, starts_number, read_number, strtoull, strtoll,
  two_64, two_63,
}
use osmdbt.Number.Digits.{
  digit_char, digit_value, emit, print, scan, digit_value-digit_char, IsDigit, digit_char-IsDigit,
}

abbrev pub NoX : Bytes → Type 0
NoX [] = Unit
NoX (c ∷ s) = (c ≢ b'x') × (c ≢ b'X')

-- Only 0x is skipped.
skip_prefix_lem : (base c : ℕ) (s : Bytes) → NoX s → skip_prefix base (c ∷ s) ≡ c ∷ s
unfolding skip_prefix
skip_prefix_lem base c [] h = refl
skip_prefix_lem base c (d ∷ []) h = refl
skip_prefix_lem base c (d ∷ e ∷ s) h = ground arith

skip_space_lem : (c : ℕ) (s : Bytes) → is_space c ≡ false → skip_space (c ∷ s) ≡ c ∷ s
unfolding skip_space
skip_space_lem c s h = rw h

read_sign_lem : (c : ℕ) (s : Bytes) → c ≢ b'-' → c ≢ b'+' → read_sign (c ∷ s) ≡ (false, c ∷ s)
unfolding read_sign
read_sign_lem c s h k = ground arith

NoX-append : (s t : Bytes) → NoX s → NoX t → NoX (s ++ t)
NoX-append [] t h k = k
NoX-append (c ∷ s) t h k = h

module _ (base : ℕ) (two : 2 ≤ base) (sixteen : base ≤ 16) where
  quotient_le : (n fuel : ℕ) → n ≤ suc fuel → n / base ≤ fuel
  quotient_le zero fuel h = omega (arith, div-le_self 0 base)
  quotient_le (suc n) fuel h =
      let smaller = div-lt_self {n = suc n} {k = base} (omega arith) two in omega arith

  last_digit : (n : ℕ) → n / base * base + n % base ≡ n
  last_digit n = div-add-mod' n base

  emit-append :
      (fuel n : ℕ) (out rest : Bytes)
      → emit base fuel n out ++ rest ≡ emit base fuel n (out ++ rest)
  unfolding emit
  emit-append zero n out rest = refl
  emit-append (suc fuel) n out rest =
      ground (arith, emit-append fuel (n / base) (digit_char (n % base) ∷ out) rest)

  scan_digit :
      (d acc : ℕ) (s : Bytes)
      → d < base
      → scan base (digit_char d ∷ s) acc ≡ scan base s (acc * base + d)
  unfolding scan
  scan_digit d acc s h = rw (digit_value-digit_char d (omega arith)) (ground arith)

  scan-emit :
      (fuel n : ℕ) (out : Bytes) → n ≤ fuel → scan base (emit base fuel n out) 0 ≡ scan base out n
  unfolding emit
  scan-emit zero n out h = ap (scan base out) (omega arith)
  scan-emit (suc fuel) n out h = elim (Bool-cases (n == 0)) [
    | inl z ↦ rw z (ap (scan base out) (sym ((==_iff n 0).0 z)))
    | inr p ↦ rw p (
        scan-emit fuel (n / base) (digit_char (n % base) ∷ out) (quotient_le n fuel h)
        ∙ (scan_digit (n % base) (n / base) out (mod-lt n (omega arith))
            ∙ ap (scan base out) (last_digit n)))
  ]

  emit-digits :
      (fuel n : ℕ) (out : Bytes)
      → All (IsDigit base) out
      → All (IsDigit base) (emit base fuel n out)
  unfolding emit
  emit-digits zero n out h = h
  emit-digits (suc fuel) n out h = elim (Bool-cases (n == 0)) [
    | inl z ↦ rw z h
    | inr p ↦ rw p (
        emit-digits fuel (n / base) (digit_char (n % base) ∷ out)
          (digit_char-IsDigit base (n % base) sixteen (mod-lt n (omega arith)), h))
  ]

  -- With a digit behind it, what is emitted is not empty.
  emit-cons :
      (fuel n d : ℕ) (out : Bytes) → (c : ℕ) × (s : Bytes) × (emit base fuel n (d ∷ out) ≡ c ∷ s)
  unfolding emit
  emit-cons zero n d out = (d, out, refl)
  emit-cons (suc fuel) n d out = elim (Bool-cases (n == 0)) [
    | inl z ↦ (d, out, rw z)
    | inr p ↦ rw p (emit-cons fuel (n / base) (digit_char (n % base)) (d ∷ out))
  ]

  pub print-digits : (n : ℕ) → All (IsDigit base) (print base n)
  unfolding print
  print-digits n = elim (Bool-cases (n == 0)) [
    | inl z ↦ rw z (unfold digit_value in (omega arith, tt))
    | inr p ↦ rw p (emit-digits n n [] tt)
  ]

  pub print-cons : (n : ℕ) → (c : ℕ) × (s : Bytes) × (print base n ≡ c ∷ s)
  unfolding print emit
  print-cons zero = (b'0', [], refl)
  print-cons (suc n) =
      let (c, s, e) = emit-cons n (suc n / base) (digit_char (suc n % base)) [] in
      (c, s, ground (arith, e))

  scan_end : (rest : Bytes) (n : ℕ) → starts_number base rest ≡ false → scan base rest n ≡ (n, rest)
  unfolding scan starts_number
  scan_end [] n h = refl
  scan_end (c ∷ s) n h = rw h

  pub scan-print :
      (n : ℕ) (rest : Bytes)
      → starts_number base rest ≡ false
      → scan base (print base n ++ rest) 0 ≡ (n, rest)
  unfolding print
  scan-print n rest h = elim (Bool-cases (n == 0)) [
    | inl z ↦ rw z (
        scan_digit 0 0 rest (omega arith)
        ∙ (ap (scan base rest) (ground arith) ∙ scan_end rest n h))
    | inr p ↦ rw (p, emit-append n n [] rest) (scan-emit n n rest (omega arith) ∙ scan_end rest n h)
  ]

  pub digit_plain :
      (c : ℕ)
      → IsDigit base c
      → (is_space c ≡ false) × (c ≢ b'-') × (c ≢ b'+') × (c ≢ b'x') × (c ≢ b'X')
  unfolding is_space digit_value
  digit_plain c h = ground arith

  NoX-of_digits : (s : Bytes) → All (IsDigit base) s → NoX s
  NoX-of_digits [] h = tt
  NoX-of_digits (c ∷ s) h = let plain = digit_plain c h.0 in (plain.3, plain.4)

  pub starts_number_lem : (c : ℕ) (s : Bytes) → IsDigit base c → starts_number base (c ∷ s) ≡ true
  unfolding starts_number
  starts_number_lem c s h = ground arith

  -- What read_number makes of a text that starts with a digit.
  read_number_digit :
      (c : ℕ) (s : Bytes) (n : ℕ) (rest : Bytes)
      → IsDigit base c
      → NoX s
      → scan base (c ∷ s) 0 ≡ (n, rest)
      → read_number base (c ∷ s) ≡ some (false, n, rest)
  unfolding read_number
  read_number_digit c s n rest h x e =
      let plain = digit_plain c h in
      rw (
        skip_space_lem c s plain.0,
        read_sign_lem c s plain.1 plain.2,
        skip_prefix_lem base c s x,
        starts_number_lem c s h,
        e,
      )

  -- A text that starts with the digits of a number, and goes on with what is no digit and no `x`.
  read_number-print :
      (n : ℕ) (rest : Bytes)
      → starts_number base rest ≡ false
      → NoX rest
      → read_number base (print base n ++ rest) ≡ some (false, n, rest)
  read_number-print n rest h x =
      let (c, s, e) = print-cons n in
      let digits : All (IsDigit base) (c ∷ s) = rw e at (print-digits n) in
      let scanned : scan base (c ∷ (s ++ rest)) 0 ≡ (n, rest) = rw e at (scan-print n rest h) in
      rw e (
        read_number_digit c (s ++ rest) n rest digits.0
          (NoX-append s rest (NoX-of_digits s digits.1) x) scanned)

  pub strtoull-print :
      (n : ℕ) (rest : Bytes)
      → n < two_64
      → starts_number base rest ≡ false
      → NoX rest
      → strtoull base (print base n ++ rest) ≡ (n, rest)
  unfolding strtoull
  strtoull-print n rest h k x = rw (read_number-print n rest k x, strtoull) (ground arith)

  pub strtoll-print :
      (n : ℕ) (rest : Bytes)
      → n < two_63
      → starts_number base rest ≡ false
      → NoX rest
      → strtoll base (print base n ++ rest) ≡ pos n
  unfolding strtoll
  strtoll-print n rest h k x = rw (read_number-print n rest k x, strtoll) (ground arith)
