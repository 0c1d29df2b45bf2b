-- ===== src/Number/Rest.antt =====
-- The rest that std::strtoull leaves is a part of the text that it was given.
use osmdbt.Common.{
  ℕ, ◌*◌, ◌+◌, Bool, true, false, [], ◌∷◌, some, none, inl, inr, ltb, ◌==◌, if◌then◌else◌, Bytes,
  Bool-cases, All,
}
use osmdbt.Number.{
  is_space, skip_space, read_sign, skip_prefix, starts_number, read_number, unsigned, strtoull,
}
use osmdbt.Number.Digits.{digit_value, scan}

module _ (P : ℕ → Type 0) where
  All-if : (b : Bool) (s t : Bytes) → All P s → All P t → All P (if b then s else t)
  All-if true s t h k = h
  All-if false s t h k = k

  skip_space-All : (s : Bytes) → All P s → All P (skip_space s)
  unfolding skip_space
  skip_space-All [] h = tt
  skip_space-All (c ∷ s) h = All-if (is_space c) _ (c ∷ s) (skip_space-All s h.1) h

  read_sign-All : (s : Bytes) → All P s → All P (read_sign s).1
  unfolding read_sign
  read_sign-All [] h = tt
  read_sign-All (c ∷ s) h = elim (Bool-cases (c == b'-')) [
    | inl e ↦ rw e h.1
    | inr e ↦ elim (Bool-cases (c == b'+')) [ inl f ↦ rw (e, f) h.1 | inr f ↦ rw (e, f) h ]
  ]

  skip_prefix-All : (base : ℕ) (s : Bytes) → All P s → All P (skip_prefix base s)
  unfolding skip_prefix
  skip_prefix-All base [] h = tt
  skip_prefix-All base (a ∷ []) h = h
  skip_prefix-All base (a ∷ b ∷ []) h = h
  skip_prefix-All base (a ∷ b ∷ c ∷ s) h = All-if _ (c ∷ s) (a ∷ b ∷ c ∷ s) h.1.1 h

  scan-All : (base n : ℕ) (s : Bytes) → All P s → All P (scan base s n).1
  unfolding scan
  scan-All base n [] h = tt
  scan-All base n (c ∷ s) h = elim (Bool-cases (ltb (digit_value c) base)) [
    | inl e ↦ rw e (scan-All base (n * base + digit_value c) s h.1)
    | inr e ↦ rw e h
  ]

  unsigned-All :
      (b minus : Bool) (n : ℕ) (s rest : Bytes)
      → All P s
      → All P rest
      → All P (unsigned s (if b then some (minus, n, rest) else none)).1
  unfolding unsigned
  unsigned-All true minus n s rest h k = k
  unsigned-All false minus n s rest h k = h

  pub strtoull-All : (base : ℕ) (s : Bytes) → All P s → All P (strtoull base s).1
  unfolding strtoull read_number
  strtoull-All base s h =
      let (minus, t) = read_sign (skip_space s) in
      let u = skip_prefix base t in
      let tail =
        scan-All base 0 u (skip_prefix-All base t (read_sign-All _ (skip_space-All s h))) in
      unsigned-All (starts_number base u) minus (scan base u 0).0 s _ h tail
