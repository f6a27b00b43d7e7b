-- ===== src/RtspParser/Chars.antt =====
-- What RtspParser.c uses of the C string library: comparison, decimal numbers and tokens.
use moonlight_common_c.Prelude.{
  ℕ, zero, suc, ◌+◌, ◌-◌, ◌*◌, ◌/◌, ◌%◌, Bool, true, false, ◌&&◌, ◌||◌, Option, none, some, List,
  [], ◌∷◌, ◌++◌, ltb, leb, ◌==◌, if◌then◌else◌,
}

-- The values of an `int`.
pub data ℤ : Type 0 where
  pos : ℕ → ℤ
  negsuc : ℕ → ℤ

abbrev pub space : List ℕ
space = 32 ∷ []

abbrev pub colon : List ℕ
colon = 58 ∷ []

abbrev pub crlf : List ℕ
crlf = 13 ∷ 10 ∷ []

-- strcmp(s, t) == 0
unfoldable pub str_eq : List ℕ → List ℕ → Bool
str_eq [] [] = true
str_eq [] (y ∷ ys) = false
str_eq (x ∷ xs) [] = false
str_eq (x ∷ xs) (y ∷ ys) = x == y && str_eq xs ys

-- The digits of a number of at most `n` digits.
unfoldable pub to_decimal : ℕ → ℕ → List ℕ
to_decimal zero x = []
to_decimal (suc n) x =
    let rest = to_decimal n (x / 10) in
    if ltb x 10 then (48 + x) ∷ [] else rest ++ (48 + x % 10) ∷ []

-- printf's "%d". An `int` has at most ten digits.
unfoldable pub print_int : ℤ → List ℕ
unfolding to_decimal
print_int (pos x) = to_decimal 10 x
print_int (negsuc x) = 45 ∷ to_decimal 10 (x + 1)

-- atoi. The result of C is undefined where the value is no `int`.
abbrev pub is_digit : ℕ → Bool
is_digit c = leb 48 c && leb c 57

unfoldable pub from_decimal : ℕ → List ℕ → ℕ
from_decimal acc [] = acc
from_decimal acc (c ∷ cs) =
    let rest = from_decimal (acc * 10 + (c - 48)) cs in if is_digit c then rest else acc

abbrev pub negate : ℕ → ℤ
negate zero = pos 0
negate (suc x) = negsuc x

unfoldable pub signed : List ℕ → ℤ
unfolding from_decimal
signed [] = pos 0
signed (c ∷ cs) =
    if c == 45
    then negate (from_decimal 0 cs)
    else if c == 43
    then pos (from_decimal 0 cs)
    else pos (from_decimal 0 (c ∷ cs))

unfoldable pub skip_blanks : List ℕ → List ℕ
skip_blanks [] = []
skip_blanks (c ∷ cs) =
    let rest = skip_blanks cs in if c == 32 || (leb 9 c && leb c 13) then rest else c ∷ cs

unfoldable pub atoi : List ℕ → ℤ
unfolding signed skip_blanks
atoi s = signed (skip_blanks s)

-- Memory from a pointer on is a list of bytes. strncmp(s, prefix, strlen(prefix)) == 0
unfoldable pub starts_with : List ℕ → List ℕ → Bool
starts_with s [] = true
starts_with [] (p ∷ ps) = false
starts_with (c ∷ s) (p ∷ ps) = c == p && starts_with s ps

abbrev pub byte_at : ℕ → List ℕ → ℕ
byte_at i [] = 0
byte_at zero (c ∷ cs) = c
byte_at (suc i) (c ∷ cs) = byte_at i cs

abbrev pub is_one_of : List ℕ → ℕ → Bool
is_one_of [] c = false
is_one_of (d ∷ ds) c = c == d || is_one_of ds c

-- A token that strtok_r returns, where its next search begins, and the memory behind the zero byte
-- that ends the token.
pub record Token : Type 0 where
  pub text : List ℕ
  pub rest : List ℕ
  pub after : List ℕ

unfoldable pub skip_delims : List ℕ → List ℕ → List ℕ
skip_delims ds [] = []
skip_delims ds (c ∷ cs) = let rest = skip_delims ds cs in if is_one_of ds c then rest else c ∷ cs

unfoldable pub token_from : List ℕ → List ℕ → Token
token_from ds [] = record { text = []; rest = []; after = [] }
token_from ds (c ∷ cs) =
    let t = token_from ds cs in
    if c == 0
    then record { text = []; rest = c ∷ cs; after = cs }
    else if is_one_of ds c
    then record { text = []; rest = cs; after = cs }
    else record t { text = c ∷ t.text }

-- strtok_r on the memory from its saved pointer on: `none` for NULL.
unfoldable pub strtok : List ℕ → List ℕ → Option Token
strtok ds s =
    let from = skip_delims ds s in if byte_at 0 from == 0 then none else some (token_from ds from)
