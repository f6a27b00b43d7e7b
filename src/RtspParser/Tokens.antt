-- ===== src/RtspParser/Tokens.antt =====
-- strtok_r on text that the serialiser of RtspParser.c writes: a word and the delimiter behind it.
use moonlight_common_c.Prelude.{
  ℕ, ◌≡◌, refl, ap, ◌∙◌, Bool, true, false, not, ◌&&◌, some, List, [], ◌∷◌, ◌++◌, arith, ◌==◌,
}
use moonlight_common_c.RtspParser.Chars.{is_one_of, Token, skip_delims, token_from, strtok}

-- No byte is zero or one of these delimiters.
abbrev pub is_clean : List ℕ → List ℕ → Bool
is_clean ds [] = true
is_clean ds (c ∷ cs) = not (c == 0) && (not (is_one_of ds c) && is_clean ds cs)

-- A token that strtok_r gives back whole.
abbrev pub is_word : List ℕ → List ℕ → Bool
is_word ds [] = false
is_word ds (c ∷ cs) = is_clean ds (c ∷ cs)

token_from_word :
    (ds s : List ℕ) (d : ℕ) (rest : List ℕ)
    → is_clean ds s ≡ true
    → (d == 0) ≡ false
    → is_one_of ds d ≡ true
    → token_from ds (s ++ d ∷ rest) ≡ record { text = s; rest = rest; after = rest }
unfolding token_from
token_from_word ds [] d rest h ne end = rw (ne, end) refl
token_from_word ds (c ∷ cs) d rest h ne end =
    let some_byte : (c == 0) ≡ false = ground arith in
    let inner : is_one_of ds c ≡ false = ground arith in
    rw (some_byte, inner)
      (ap (λ (t : Token). record t { text = c ∷ t.text })
        (token_from_word ds cs d rest (ground arith) ne end))

strtok_start :
    (ds : List ℕ) (c : ℕ) (t : List ℕ)
    → skip_delims ds (c ∷ t) ≡ c ∷ t
    → (c == 0) ≡ false
    → strtok ds (c ∷ t) ≡ some (token_from ds (c ∷ t))
unfolding strtok
strtok_start ds c t e ne = rw (e, ne) refl

skip_nothing :
    (ds : List ℕ) (c : ℕ) (t : List ℕ) → is_one_of ds c ≡ false → skip_delims ds (c ∷ t) ≡ c ∷ t
unfolding skip_delims
skip_nothing ds c t h = rw h refl

-- A word in front of a delimiter is the next token.
pub strtok_word :
    (ds s : List ℕ) (d : ℕ) (rest : List ℕ)
    → is_word ds s ≡ true
    → (d == 0) ≡ false
    → is_one_of ds d ≡ true
    → strtok ds (s ++ d ∷ rest) ≡ some (record { text = s; rest = rest; after = rest })
strtok_word ds [] d rest h ne end = cc
strtok_word ds (c ∷ cs) d rest h ne end =
    let some_byte : (c == 0) ≡ false = ground arith in
    let inner : is_one_of ds c ≡ false = ground arith in
    strtok_start ds c (cs ++ d ∷ rest) (skip_nothing ds c (cs ++ d ∷ rest) inner) some_byte
    ∙ ap some (token_from_word ds (c ∷ cs) d rest h ne end)

-- Delimiters in front are skipped.
pub strtok_delimiter :
    (ds : List ℕ) (d : ℕ) (s : List ℕ) → is_one_of ds d ≡ true → strtok ds (d ∷ s) ≡ strtok ds s
unfolding strtok skip_delims
strtok_delimiter ds d s h = rw h refl
