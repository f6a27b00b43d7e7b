-- ===== src/ByteBuffer/Bytes.antt =====
-- Integers as sequences of bytes: what `memcpy` makes of an integer object on a host of either
-- byte order, and the byte swap of Platform.h.
use native.Mathlib.Nat.{pow-suc}
use moonlight_common_c.Prelude.{
  ℕ, zero, suc, ◌+◌, ◌*◌, ◌/◌, ◌%◌, ◌^◌, ◌<◌, ◌≡◌, refl, sym, ap, ◌∙◌, List, [], ◌∷◌, ◌++◌, reverse,
  arith, length, length-append,
}
use mathlib.Core.List.{reverse-cons, reverse-reverse}

pub data Host : Type 0 where
  big little : Host

-- The `n` low bytes of `v`, least significant first.
unfoldable pub to_le : ℕ → ℕ → List ℕ
to_le zero v = []
to_le (suc n) v = (v % 256) ∷ to_le n (v / 256)

unfoldable pub from_le : List ℕ → ℕ
from_le [] = 0
from_le (b ∷ bs) = b + 256 * from_le bs

-- The value of an integer object that holds these bytes, and the bytes of one.
unfoldable pub from_mem : Host → List ℕ → ℕ
from_mem big bs = from_le (reverse bs)
from_mem little bs = from_le bs

unfoldable pub to_mem : Host → ℕ → ℕ → List ℕ
to_mem big n v = reverse (to_le n v)
to_mem little n v = to_le n v

unfoldable pub bswap : ℕ → ℕ → ℕ
bswap n v = from_le (reverse (to_le n v))

abbrev pub AreBytes : List ℕ → Type 0
AreBytes [] = Unit {0}
AreBytes (b ∷ bs) = (b < 256) × AreBytes bs

pub length-to_le : (n v : ℕ) → length (to_le n v) ≡ n
unfolding to_le
length-to_le zero v = refl
length-to_le (suc n) v = ap suc (length-to_le n (v / 256))

pub to_le-AreBytes : (n v : ℕ) → AreBytes (to_le n v)
unfolding to_le
to_le-AreBytes zero v = tt
to_le-AreBytes (suc n) v = (omega arith, to_le-AreBytes n (v / 256))

pub from_le-to_le : (n v : ℕ) → v < 256 ^ n → from_le (to_le n v) ≡ v
unfolding to_le from_le
from_le-to_le zero v h = omega arith
from_le-to_le (suc n) v h =
    omega (arith, pow-suc 256 n, from_le-to_le n (v / 256) (omega (arith, pow-suc 256 n)))

pub to_le-from_le : (n : ℕ) (bs : List ℕ) → AreBytes bs → n ≡ length bs → to_le n (from_le bs) ≡ bs
unfolding to_le from_le
to_le-from_le zero [] h e = refl
to_le-from_le zero (b ∷ bs) h e = absurd (omega arith)
to_le-from_le (suc n) [] h e = absurd (omega arith)
to_le-from_le (suc n) (b ∷ bs) h e =
    let low : (b + 256 * from_le bs) % 256 ≡ b = omega arith in
    let high : (b + 256 * from_le bs) / 256 ≡ from_le bs = omega arith in
    rw (low, high, to_le-from_le n bs h.1 (omega arith))

pub AreBytes-append : (xs ys : List ℕ) → AreBytes xs → AreBytes ys → AreBytes (xs ++ ys)
AreBytes-append [] ys h k = k
AreBytes-append (x ∷ xs) ys h k = (h.0, AreBytes-append xs ys h.1 k)

pub reverse-AreBytes : (bs : List ℕ) → AreBytes bs → AreBytes (reverse bs)
reverse-AreBytes [] h = tt
reverse-AreBytes (b ∷ bs) h =
    rw (reverse-cons b bs)
      (AreBytes-append (reverse bs) (b ∷ []) (reverse-AreBytes bs h.1) (h.0, tt))

pub length-reverse : (bs : List ℕ) → length (reverse bs) ≡ length bs
length-reverse [] = refl
length-reverse (b ∷ bs) =
    omega
      (arith, ap length (reverse-cons b bs), length-append (reverse bs) (b ∷ []), length-reverse bs)

pub length-to_mem : (host : Host) (n v : ℕ) → length (to_mem host n v) ≡ n
unfolding to_mem
length-to_mem big n v = length-reverse (to_le n v) ∙ length-to_le n v
length-to_mem little n v = length-to_le n v

-- Swapping the bytes of an integer reverses its bytes in memory.
pub to_le-bswap : (n v : ℕ) → to_le n (bswap n v) ≡ reverse (to_le n v)
unfolding bswap
to_le-bswap n v =
    to_le-from_le n (reverse (to_le n v)) (reverse-AreBytes (to_le n v) (to_le-AreBytes n v))
      (sym (length-reverse (to_le n v) ∙ length-to_le n v))

pub bswap-from_le :
    (n : ℕ) (bs : List ℕ)
    → AreBytes bs
    → n ≡ length bs
    → bswap n (from_le bs) ≡ from_le (reverse bs)
unfolding bswap
bswap-from_le n bs h e = ap (λ xs. from_le (reverse xs)) (to_le-from_le n bs h e)

pub from_le-reverse : (n v : ℕ) → v < 256 ^ n → from_le (reverse (reverse (to_le n v))) ≡ v
from_le-reverse n v h = rw reverse-reverse (from_le-to_le n v h)
