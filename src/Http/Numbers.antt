-- ===== src/Http/Numbers.antt =====
-- Numbers as `sprintf` writes and `sscanf` reads them, in projects/p4/p4a/request.c and client.c.
use cs537_fall.Prelude.{
  ℕ, zero, suc, ◌+◌, ◌-◌, ◌*◌, ◌/◌, ◌%◌, ◌^◌, ◌<◌, ◌≡◌, refl, ap, ◌∙◌, ◌==◌, ltb, leb,
  if◌then◌else◌, Bool, Bool-cases, true, false, inl, inr, ◌&&◌, ◌||◌, Option, none, some, [], ◌∷◌,
  ◌++◌, arith,
}
use cs537_fall.Server.Uri.{String}

-- The digits of `n` before `out`; 20 rounds are enough below 2^64.
unfoldable pub digits : ℕ → ℕ → String → String
digits zero n out = out
digits (suc rounds) n out =
    let more = digits rounds (n / 10) ((48 + n % 10) ∷ out) in if n == 0 then out else more

-- "%lu"
unfoldable pub print_nat : ℕ → String
print_nat n = if n == 0 then 48 ∷ [] else digits 20 n []

-- "%d" of the bit pattern of an int
unfoldable pub print_int : ℕ → String
print_int x = if ltb x (2 ^ 31) then print_nat x else b'-' ∷ print_nat (2 ^ 32 - x)

abbrev pub is_digit : ℕ → Bool
is_digit c = leb 48 c && leb c 57

-- The value of the digits at the front, behind the value `n` of those before.
unfoldable pub scan_digits : ℕ → String → ℕ
scan_digits n [] = n
scan_digits n (c ∷ s) =
    let more = scan_digits (n * 10 + (c - 48)) s in if is_digit c then more else n

abbrev pub is_space : ℕ → Bool
is_space c = c == 32 || (leb 9 c && leb c 13)

unfoldable pub skip_spaces : String → String
skip_spaces [] = []
skip_spaces (c ∷ s) = let more = skip_spaces s in if is_space c then more else c ∷ s

abbrev scan_nat : String → Option ℕ
scan_nat [] = none
scan_nat (c ∷ s) = if is_digit c then some (scan_digits 0 (c ∷ s)) else none

abbrev negated : Option ℕ → Option ℕ
negated none = none
negated (some n) = some ((2 ^ 32 - n) % 2 ^ 32)

abbrev scan_signed : String → Option ℕ
scan_signed [] = none
scan_signed (c ∷ s) =
    if c == b'-' then negated (scan_nat s) else if c == b'+' then scan_nat s else scan_nat (c ∷ s)

-- "%d" where the number fits in an int: its bit pattern, or `none` if no number stands there.
unfoldable pub scan_int : String → Option ℕ
scan_int s = scan_signed (skip_spaces s)

digits-onto :
    (rounds n : ℕ) (out rest : String) → digits rounds n out ++ rest ≡ digits rounds n (out ++ rest)
unfolding digits
digits-onto zero n out rest = refl
digits-onto (suc rounds) n out rest = elim (Bool-cases (n == 0)) [
  | inl done ↦ rw done refl
  | inr more ↦ rw more (digits-onto rounds (n / 10) ((48 + n % 10) ∷ out) rest)
]

abbrev StartsWithDigit : String → Type 0
StartsWithDigit [] = ⊥
StartsWithDigit (c ∷ s) = is_digit c ≡ true

-- The numbers below it have at most so many digits.
capacity : ℕ → ℕ
capacity zero = 1
capacity (suc k) = 10 * capacity k

-- Digits are read back, whatever follows them.
scan_digits-digits :
    (rounds n : ℕ) (out : String)
    → n < capacity rounds
    → scan_digits 0 (digits rounds n out) ≡ scan_digits n out
unfolding digits scan_digits capacity
scan_digits-digits zero n out h = let nil : n ≡ 0 = omega arith in rw nil refl
scan_digits-digits (suc rounds) n out h = elim (Bool-cases (n == 0)) [
  | inl done ↦ let nil : n ≡ 0 = ground arith in rw nil refl
  | inr more ↦
      let digit : is_digit (48 + n % 10) ≡ true = ground arith in
      let value : n / 10 * 10 + (48 + n % 10 - 48) ≡ n = omega arith in
      rw more (
        scan_digits-digits rounds (n / 10) ((48 + n % 10) ∷ out) (omega arith)
        ∙ rw (digit, value) refl)
]

digits-first :
    (rounds n : ℕ) (out : String) → StartsWithDigit out → StartsWithDigit (digits rounds n out)
unfolding digits
digits-first zero n out h = h
digits-first (suc rounds) n out h = elim (Bool-cases (n == 0)) [
  | inl done ↦ rw done h
  | inr more ↦ rw more (digits-first rounds (n / 10) ((48 + n % 10) ∷ out) (ground arith))
]

digits-positive :
    (rounds n : ℕ) (out : String) → 0 < n → StartsWithDigit (digits (suc rounds) n out)
unfolding digits
digits-positive rounds n out h =
    let some_left : (n == 0) ≡ false = ground arith in
    rw some_left (digits-first rounds (n / 10) ((48 + n % 10) ∷ out) (ground arith))

-- The number is followed by something that is no digit.
abbrev pub NoDigit : String → Type 0
NoDigit [] = Unit
NoDigit (c ∷ s) = is_digit c ≡ false

scan_digits-end : (n : ℕ) (s : String) → NoDigit s → scan_digits n s ≡ n
unfolding scan_digits
scan_digits-end n [] h = refl
scan_digits-end n (c ∷ s) h = rw h refl

scan_int-first : (s : String) → StartsWithDigit s → scan_int s ≡ some (scan_digits 0 s)
unfolding scan_int skip_spaces
scan_int-first [] h = elim h [ ]
scan_int-first (c ∷ s) h =
    let visible : is_space c ≡ false = ground arith in
    let no_minus : (c == b'-') ≡ false = ground arith in
    let no_plus : (c == b'+') ≡ false = ground arith in rw (visible, no_minus, no_plus, h) refl

zero-print : (rest : String) → NoDigit rest → scan_int (48 ∷ rest) ≡ some 0
unfolding scan_digits
zero-print rest end = scan_int-first (48 ∷ rest) refl ∙ ap some (scan_digits-end 0 rest end)

positive-print :
    (n : ℕ) (rest : String)
    → n < 2 ^ 64
    → 0 < n
    → NoDigit rest
    → scan_int (digits 20 n rest) ≡ some n
unfolding capacity
positive-print n rest h pos end =
    scan_int-first (digits 20 n rest) (digits-positive 19 n rest pos)
    ∙ ap some (scan_digits-digits 20 n rest (omega arith) ∙ scan_digits-end n rest end)

-- A number below 2^64 is read back from its print, where no digit follows.
pub scan_int-print_nat :
    (n : ℕ) (rest : String) → n < 2 ^ 64 → NoDigit rest → scan_int (print_nat n ++ rest) ≡ some n
unfolding print_nat
scan_int-print_nat n rest h end = elim (Bool-cases (n == 0)) [
  | inl nil ↦ let zero_value : n ≡ 0 = ground arith in rw (nil, zero_value) (zero-print rest end)
  | inr more ↦ rw (more, digits-onto 20 n [] rest) (positive-print n rest h (ground arith) end)
]
