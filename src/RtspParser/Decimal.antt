-- ===== src/RtspParser/Decimal.antt =====
-- Decimal numbers of RtspParser.c: atoi reads what "%d" prints.
use moonlight_common_c.Prelude.{
  ℕ, zero, suc, ◌+◌, ◌-◌, ◌*◌, ◌/◌, ◌%◌, ◌^◌, ◌<◌, ◌≡◌, refl, ap, ◌∙◌, Bool, true, false, ◌&&◌,
  ◌||◌, List, [], ◌∷◌, ◌++◌, arith, ltb, leb, ◌==◌, Bool-cases, inl, inr,
}
use native.Mathlib.Nat.{pow-succ'}
use moonlight_common_c.RtspParser.Parse.{delim}
use moonlight_common_c.RtspParser.Chars.{
  ℤ, pos, negsuc, to_decimal, print_int, from_decimal, is_digit, negate, atoi,
}
use moonlight_common_c.RtspParser.Tokens.{is_clean, is_word}

abbrev pub are_digits : List ℕ → Bool
are_digits [] = true
are_digits (c ∷ cs) = is_digit c && are_digits cs

are_digits-append : (s t : List ℕ) → are_digits (s ++ t) ≡ (are_digits s && are_digits t)
are_digits-append [] t = refl
are_digits-append (c ∷ cs) t = ground (arith, are_digits-append cs t)

to_decimal-are_digits : (n x : ℕ) → are_digits (to_decimal n x) ≡ true
unfolding to_decimal
to_decimal-are_digits zero x = refl
to_decimal-are_digits (suc n) x = elim (Bool-cases (ltb x 10)) [
  | inl small ↦ rw small (ground arith)
  | inr large ↦ rw large (
      are_digits-append (to_decimal n (x / 10)) ((48 + x % 10) ∷ [])
      ∙ ground (arith, to_decimal-are_digits n (x / 10)))
]

-- Reading goes on behind the digits read so far.
from_decimal-append :
    (acc : ℕ) (s : List ℕ) (c : ℕ)
    → are_digits s ≡ true
    → is_digit c ≡ true
    → from_decimal acc (s ++ c ∷ []) ≡ from_decimal acc s * 10 + (c - 48)
unfolding from_decimal
from_decimal-append acc [] c h d = rw d refl
from_decimal-append acc (x ∷ xs) c h d =
    let digit : is_digit x ≡ true = ground arith in
    rw digit (from_decimal-append (acc * 10 + (x - 48)) xs c (ground arith) d)

from_decimal-to_decimal : (n x : ℕ) → x < 10 ^ n → from_decimal 0 (to_decimal n x) ≡ x
unfolding to_decimal from_decimal
from_decimal-to_decimal zero x h = read_nothing ∙ omega (arith, h)
  where
    read_nothing : from_decimal 0 [] ≡ 0
    read_nothing = refl
from_decimal-to_decimal (suc n) x h = elim (Bool-cases (ltb x 10)) [
  | inl small ↦
      let digit : is_digit (48 + x) ≡ true = ground (arith, small) in
      rw (small, digit) (ground (arith, small))
  | inr large ↦
      let power : 10 ^ suc n ≡ 10 * 10 ^ n = pow-succ' 10 n in
      let fewer : x / 10 < 10 ^ n = omega (arith, h, power) in
      let digit : is_digit (48 + x % 10) ≡ true = ground arith in
      rw large (
        from_decimal-append 0 (to_decimal n (x / 10)) (48 + x % 10)
          (to_decimal-are_digits n (x / 10)) digit
        ∙ omega (arith, from_decimal-to_decimal n (x / 10) fewer))
]

atoi-digits : (s : List ℕ) → are_digits s ≡ true → atoi s ≡ pos (from_decimal 0 s)
unfolding atoi
atoi-digits [] h = refl
atoi-digits (c ∷ cs) h =
    let no_blank : (c == 32 || (leb 9 c && leb c 13)) ≡ false = ground arith in
    let no_minus : (c == 45) ≡ false = ground arith in
    let no_plus : (c == 43) ≡ false = ground arith in rw (no_blank, no_minus, no_plus) refl

atoi-minus : (s : List ℕ) → atoi (45 ∷ s) ≡ negate (from_decimal 0 s)
unfolding atoi
atoi-minus s = refl

-- What an `int` of 32 bits can hold.
abbrev pub IsInt : ℤ → Type 0
IsInt (pos x) = x < 2 ^ 31
IsInt (negsuc x) = x < 2 ^ 31

pub atoi-print_int : (c : ℤ) → IsInt c → atoi (print_int c) ≡ c
unfolding print_int
atoi-print_int (pos x) h =
    atoi-digits (to_decimal 10 x) (to_decimal-are_digits 10 x)
    ∙ ap pos (from_decimal-to_decimal 10 x (omega (arith, h)))
atoi-print_int (negsuc x) h =
    let read : from_decimal 0 (to_decimal 10 (x + 1)) ≡ suc x =
      from_decimal-to_decimal 10 (x + 1) (omega (arith, h)) ∙ omega arith in
    atoi-minus (to_decimal 10 (x + 1)) ∙ ap negate read

digits-is_clean : (s : List ℕ) → are_digits s ≡ true → is_clean delim s ≡ true
digits-is_clean [] h = refl
digits-is_clean (c ∷ cs) h = ground (arith, digits-is_clean cs)

is_word-snoc :
    (ds s : List ℕ) (c : ℕ) → is_clean ds (s ++ c ∷ []) ≡ true → is_word ds (s ++ c ∷ []) ≡ true
is_word-snoc ds [] c h = h
is_word-snoc ds (x ∷ xs) c h = h

to_decimal-is_word : (n x : ℕ) → is_word delim (to_decimal (suc n) x) ≡ true
unfolding to_decimal
to_decimal-is_word n x =
    let clean = digits-is_clean (to_decimal (suc n) x) (to_decimal-are_digits (suc n) x) in
    elim (Bool-cases (ltb x 10)) [
      | inl small ↦ rw small (ground arith)
      | inr large ↦
          rw large (is_word-snoc delim (to_decimal n (x / 10)) (48 + x % 10) (rw large at clean))
    ]

-- A printed number is a token.
pub print_int-is_word : (c : ℤ) → is_word delim (print_int c) ≡ true
unfolding print_int
print_int-is_word (pos x) = to_decimal-is_word 9 x
print_int-is_word (negsuc x) =
    digits-is_clean (to_decimal 10 (x + 1)) (to_decimal-are_digits 10 (x + 1))
