-- ===== src/RtspParser/ParseTotal.antt =====
-- parseRtspMessage ends: the loop over the options has fuel for every message.
use moonlight_common_c.Prelude.{
  ℕ, zero, suc, ◌≤◌, ◌<◌, ◌≡◌, refl, ap, subst, Bool, true, false, not, Option, none, some, List,
  [], ◌∷◌, ◌++◌, arith, ◌==◌, if◌then◌else◌, Bool-cases, Option-cases, inl, inr, length,
}
use moonlight_common_c.RtspParser.{OptionItem, insert_option}
use moonlight_common_c.RtspParser.Chars.{
  str_eq, byte_at, is_one_of, Token, skip_delims, token_from, strtok, crlf,
}
use moonlight_common_c.RtspParser.Parse.{
  opt_delim, FirstLine, first_line, Ending, goes_on, ends, ends_with, ending, new_item, Outcome,
  ended, unended, no_option_memory, options_loop, Parsed, malformed, no_memory, conclude,
  rtsp_version, parse_rtsp_message,
}

skip_delims-le : (ds s : List ℕ) → length (skip_delims ds s) ≤ length s
unfolding skip_delims
skip_delims-le ds [] = omega arith
skip_delims-le ds (c ∷ cs) = ground (arith, skip_delims-le ds cs)

token_from-le : (ds s : List ℕ) → length (token_from ds s).rest ≤ length s
unfolding token_from
token_from-le ds [] = omega arith
token_from-le ds (c ∷ cs) = ground (arith, token_from-le ds cs)

-- What is left after the skipping does not begin with a delimiter.
skip_delims-head :
    (ds s : List ℕ) (c : ℕ) (cs : List ℕ) → skip_delims ds s ≡ c ∷ cs → is_one_of ds c ≡ false
unfolding skip_delims
skip_delims-head ds [] c cs h = cc
skip_delims-head ds (x ∷ xs) c cs h = elim (Bool-cases (is_one_of ds x)) [
  | inl hit ↦ skip_delims-head ds xs c cs (rw hit at h)
  | inr miss ↦ let same : x ≡ c = cc (miss, h) in subst (λ z. is_one_of ds z ≡ false) same miss
]

token_from-lt :
    (ds : List ℕ) (c : ℕ) (cs : List ℕ)
    → is_one_of ds c ≡ false
    → (c == 0) ≡ false
    → length (token_from ds (c ∷ cs)).rest ≤ length cs
unfolding token_from
token_from-lt ds c cs h ne = ground (arith, token_from-le ds cs)

-- A token takes at least one byte.
strtok-lt : (ds s : List ℕ) (t : Token) → strtok ds s ≡ some t → length t.rest < length s
unfolding strtok
strtok-lt ds s t h = go (skip_delims ds s) refl h
  where
    go :
        (from : List ℕ)
        → skip_delims ds s ≡ from
        → (if byte_at 0 from == 0 then none else some (token_from ds from)) ≡ some t
        → length t.rest < length s
    go [] e g = cc
    go (c ∷ cs) e g = elim (Bool-cases (c == 0)) [
      | inl end ↦ cc (end, g)
      | inr more ↦
          let is : token_from ds (c ∷ cs) ≡ t = cc (more, g) in
          let less = token_from-lt ds c cs (skip_delims-head ds s c cs e) more in
          omega (arith, less, ap (λ z. length z.rest) is, skip_delims-le ds s, ap length e)
    ]

-- What a round does with its two tokens.
after_tokens :
    (memory : Bool) (e : Ending) (options : List OptionItem) (next : Option Outcome)
    → (r : Outcome) × (next ≡ some r)
    → (r : Outcome) × ((if not memory then some no_option_memory else elim e [
      | ends ↦ some (ended options none)
      | ends_with payload ↦ some (ended options (some payload))
      | goes_on ↦ next
    ])
        ≡ some r)
after_tokens false e options next h = (no_option_memory, refl)
after_tokens true goes_on options next h = h
after_tokens true ends options next h = (ended options none, refl)
after_tokens true (ends_with payload) options next h = (ended options (some payload), refl)

module _ (alloc : ℕ → Bool) where
  -- With more fuel than there are bytes the loop comes to an end.
  options_loop_ends :
      (fuel k : ℕ) (options : List OptionItem) (s : List ℕ)
      → length s < fuel
      → (r : Outcome) × (options_loop alloc fuel k options s ≡ some r)
  unfolding options_loop
  options_loop_ends zero k options s h = absurd (omega (arith, h))
  options_loop_ends (suc fuel) k options s h = elim (Option-cases (strtok opt_delim s)) [
    | inl quiet ↦ (unended, rw (quiet, options_loop) refl)
    | inr (name, named) ↦ elim (Option-cases (strtok crlf name.rest)) [
      | inl quiet ↦ (unended, rw (named, quiet, options_loop) refl)
      | inr (token, found) ↦
          let (r, rest) =
            options_loop_ends fuel (suc k) (insert_option options (new_item name.text token.text))
              token.rest
              (omega
                (arith, strtok-lt opt_delim s name named, strtok-lt crlf name.rest token found)) in
          let options' = insert_option options (new_item name.text token.text) in
          let (o, e) = after_tokens (alloc k) (ending token.after) options' _ (r, rest) in
          (o, rw (named, found, options_loop) e)
    ]
  ]

conclude_ends :
    (line : FirstLine) (len total : ℕ) (o : Outcome)
    → (r : Parsed) × (conclude line len total (some o) ≡ some r)
unfolding conclude
conclude_ends line len total unended = (malformed, refl)
conclude_ends line len total no_option_memory = (no_memory, refl)
conclude_ends line len total (ended options payload) = (_, refl)

-- parseRtspMessage ends for every message, whatever stands behind its buffer and whichever of its
-- allocations fail.
pub parse_rtsp_message_total :
    (buffer : Bool) (alloc : ℕ → Bool) (message beyond : List ℕ)
    → (r : Parsed) × (parse_rtsp_message buffer alloc message beyond ≡ some r)
unfolding parse_rtsp_message
parse_rtsp_message_total false alloc message beyond = (no_memory, refl)
parse_rtsp_message_total true alloc message beyond =
    elim (Option-cases (first_line (message ++ 0 ∷ beyond))) [
      | inl bad ↦ (malformed, rw bad refl)
      | inr (line, first) ↦
          let (o, e) =
            options_loop_ends alloc (suc (length line.rest)) 0 [] line.rest (omega arith) in
          elim (Bool-cases (str_eq line.protocol rtsp_version)) [
            | inl known ↦
                let (r, c) =
                  conclude_ends line (length message) (length (message ++ 0 ∷ beyond)) o in
                (r, rw (first, known, e) c)
            | inr unknown ↦ (malformed, rw (first, unknown) refl)
          ]
    ]
