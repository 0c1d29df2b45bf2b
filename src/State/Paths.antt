-- ===== src/State/Paths.antt =====
-- The path of a state file shows its number.
use osmdbt.Common.{
  ℕ, zero, suc, ◌+◌, ◌-◌, ◌*◌, ◌/◌, ◌%◌, ◌≤◌, ◌<◌, ◌≡◌, refl, ap, ◌∙◌, [], ◌∷◌, ◌++◌, append-nil,
  append_assoc, take, sym, arith, Bytes, length, length-append, ◌==◌, inl, inr, Bool-cases,
}
use osmdbt.Number.{to_string, starts_number}
use osmdbt.Number.Digits.{print, emit, digit_value, digit_char, scan}
use osmdbt.Number.RoundTrip.{scan-print}
use osmdbt.State.{State, zeros, padded, insert_at, path}

scan-zeros : (n : ℕ) (s : Bytes) → scan 10 (zeros n ++ s) 0 ≡ scan 10 s 0
unfolding scan zeros digit_value
scan-zeros zero s = refl
scan-zeros (suc n) s = scan-zeros n s

scan-decimal : (n : ℕ) → scan 10 (print 10 n) 0 ≡ (n, [])
unfolding starts_number
scan-decimal n = rw append-nil at (scan-print 10 (omega arith) (omega arith) n [] refl)

-- 10^k
abbrev power : ℕ → ℕ
power zero = 1
power (suc k) = 10 * power k

length-emit :
    (fuel k n : ℕ) (out : Bytes) → n < power k → length (emit 10 fuel n out) ≤ k + length out
unfolding emit
length-emit zero k n out h = omega arith
length-emit (suc fuel) zero n out h = ground (arith, h)
length-emit (suc fuel) (suc k) n out h =
    ground (arith, length-emit fuel k (n / 10) (digit_char (n % 10) ∷ out) (omega arith))

length-print : (n : ℕ) → n < 1000000000 → length (print 10 n) ≤ 9
unfolding print
length-print n h = elim (Bool-cases (n == 0)) [
  | inl z ↦ rw z (omega arith)
  | inr p ↦ rw p (length-emit n 9 n [] h)
]

length-zeros : (n : ℕ) → length (zeros n) ≡ n
unfolding zeros
length-zeros zero = refl
length-zeros (suc n) = omega (arith, length-zeros n)

abbrev filled : ℕ → Bytes
filled n = zeros (9 - length (print 10 n)) ++ print 10 n

length-filled : (n : ℕ) → n < 1000000000 → length (filled n) ≡ 9
length-filled n h =
    let fill = 9 - length (print 10 n) in
    omega (arith, length-print n h, length-append (zeros fill) (print 10 n), length-zeros fill)

take-length : (k : ℕ) (s : Bytes) → length s ≡ k → take k s ≡ s
take-length zero [] h = refl
take-length zero (c ∷ s) h = absurd (omega (arith, h))
take-length (suc k) [] h = refl
take-length (suc k) (c ∷ s) h = ap (◌∷◌ c) (take-length k s (omega (arith, h)))

padded-filled : (n : ℕ) → n < 1000000000 → padded n ≡ filled n
unfolding padded to_string
padded-filled n h = take-length 9 (filled n) (length-filled n h)

-- The first k bytes, and the others.
cut_text :
    (k m : ℕ) (s : Bytes)
    → length s ≡ k + m
    → (a : Bytes) × (b : Bytes) × (s ≡ a ++ b) × (length a ≡ k) × (length b ≡ m)
cut_text zero m s h = ([], s, refl, refl, omega (arith, h))
cut_text (suc k) m [] h = absurd (omega (arith, h))
cut_text (suc k) m (c ∷ s) h =
    let (a, b, e, la, lb) = cut_text k m s (omega (arith, h)) in
    (c ∷ a, b, ap (◌∷◌ c) e, omega (arith, la), lb)

insert_at_append : (a b : Bytes) (c : ℕ) → insert_at (length a) c (a ++ b) ≡ a ++ c ∷ b
unfolding insert_at
insert_at_append [] b c = refl
insert_at_append (d ∷ a) b c = ap (◌∷◌ d) (insert_at_append a b c)

insert_at-cut : (k : ℕ) (a b : Bytes) (c : ℕ) → length a ≡ k → insert_at k c (a ++ b) ≡ a ++ c ∷ b
insert_at-cut k a b c h = ap (λ m. insert_at m c (a ++ b)) (sym h) ∙ insert_at_append a b c

-- Three digits, a slash, three digits, a slash, three digits; the digits together spell the number.
pub record Shows (p : Bytes) (n : ℕ) : Type 0 where
  pub millions : Bytes
  pub thousands : Bytes
  pub units : Bytes
  pub layout : p ≡ millions ++ b'/' ∷ (thousands ++ b'/' ∷ units)
  pub three_millions : length millions ≡ 3
  pub three_thousands : length thousands ≡ 3
  pub three_units : length units ≡ 3
  pub number : scan 10 (millions ++ (thousands ++ units)) 0 ≡ (n, [])

-- The path of a state whose number is below 10^9, as the code asserts, has the form NNN/NNN/NNN: three
-- digits, a slash, three digits, a slash, three digits. The nine digits are those of the number, with zeros
-- before them. So different numbers have different paths.
pub path_lem : (s : State) → s.sequence_number < 1000000000 → Shows (path s) s.sequence_number
unfolding path
path_lem s h =
    let n = s.sequence_number in
    let (a, rest, e, la, lr) = cut_text 3 6 (filled n) (length-filled n h) in
    let (b, c, e', lb, lc) = cut_text 3 3 rest lr in
    let whole : filled n ≡ (a ++ b) ++ c = e ∙ (ap (λ t. a ++ t) e' ∙ sym (append_assoc a b c)) in
    let six : length (a ++ b) ≡ 6 = omega (arith, length-append a b, la, lb) in
    let second : insert_at 6 b'/' (padded n) ≡ a ++ (b ++ b'/' ∷ c) =
      ap (insert_at 6 b'/') (padded-filled n h ∙ whole)
      ∙ (insert_at-cut 6 (a ++ b) c b'/' six ∙ append_assoc a b (b'/' ∷ c)) in
    record {
      millions = a;
      thousands = b;
      units = c;
      layout = ap (insert_at 3 b'/') second ∙ insert_at-cut 3 a (b ++ b'/' ∷ c) b'/' la;
      three_millions = la;
      three_thousands = lb;
      three_units = lc;
      number =
          ap (λ t. scan 10 t 0) (sym (e ∙ ap (λ t. a ++ t) e'))
          ∙ (scan-zeros (9 - length (print 10 n)) (print 10 n) ∙ scan-decimal n);
    }
