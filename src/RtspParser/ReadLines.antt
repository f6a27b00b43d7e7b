-- ===== src/RtspParser/ReadLines.antt =====
-- How parseRtspMessage takes the text of a message apart: its first line and its options.
use moonlight_common_c.Prelude.{
  ℕ, zero, suc, ◌<◌, ◌≡◌, refl, ap, ◌∙◌, Bool, true, false, Option, none, some, List, [], ◌∷◌, ◌++◌,
  arith, ◌==◌, if◌then◌else◌, Bool-cases, inl, inr, length, append_assoc,
}
use moonlight_common_c.RtspParser.{
  OptionItem, Kind, request, response, Message, insert_option, head_strings, option_strings,
}
use moonlight_common_c.RtspParser.Chars.{ℤ, starts_with, str_eq, print_int, crlf, byte_at}
use moonlight_common_c.RtspParser.Parse.{
  delim, opt_delim, rtsp, rtsp_version, response_line, request_line, first_line, Ending, goes_on,
  ends, ends_with, ending, Outcome, ended, options_loop,
}
use moonlight_common_c.RtspParser.Options.{has_option}
use moonlight_common_c.RtspParser.Serialize.{join}
use moonlight_common_c.RtspParser.Tokens.{is_clean, is_word, strtok_word, strtok_delimiter}
use moonlight_common_c.RtspParser.Decimal.{IsInt, atoi-print_int, print_int-is_word}

-- Strings one after the other in front of some memory.
abbrev pub text_with : List (List ℕ) → List ℕ → List ℕ
text_with [] t = t
text_with (s ∷ ss) t = s ++ text_with ss t

pub join-text_with : (ss : List (List ℕ)) (t : List ℕ) → join ss ++ t ≡ text_with ss t
join-text_with [] t = refl
join-text_with (s ∷ ss) t = append_assoc s (join ss) t ∙ ap (λ z. s ++ z) (join-text_with ss t)

pub text_with-append :
    (ss ts : List (List ℕ)) (t : List ℕ) → text_with (ss ++ ts) t ≡ text_with ss (text_with ts t)
text_with-append [] ts t = refl
text_with-append (s ∷ ss) ts t = ap (λ z. s ++ z) (text_with-append ss ts t)

-- The strings of a first line that a parser can take apart.
abbrev pub IsKind : Kind → Type 0
IsKind (request command target) =
    (is_word delim command ≡ true)
    × (starts_with command rtsp ≡ false)
    × (is_word delim target ≡ true)
IsKind (response code status) = IsInt code × (is_word crlf status ≡ true)

first_line-request :
    (command target t : List ℕ)
    → IsKind (request command target)
    → first_line (command ++ 32 ∷ (target ++ 32 ∷ (rtsp_version ++ 13 ∷ 10 ∷ t)))
      ≡ some (record { kind = request command target; protocol = rtsp_version; rest = 10 ∷ t })
unfolding first_line request_line
first_line-request command target t (good, other, dest) =
    let a =
      strtok_word delim command 32 (target ++ 32 ∷ (rtsp_version ++ 13 ∷ 10 ∷ t)) good refl refl in
    let b = strtok_word delim target 32 (rtsp_version ++ 13 ∷ 10 ∷ t) dest refl refl in
    let c = strtok_word delim rtsp_version 13 (10 ∷ t) refl refl refl in
    rw (first_line, a, other, request_line, b, c) refl

first_line-response :
    (code : ℤ) (status t : List ℕ)
    → IsKind (response code status)
    → first_line (rtsp_version ++ 32 ∷ (print_int code ++ 32 ∷ (status ++ 13 ∷ 10 ∷ t)))
      ≡ some (record { kind = response code status; protocol = rtsp_version; rest = 10 ∷ t })
unfolding first_line response_line starts_with
first_line-response code status t (int, good) =
    let a =
      strtok_word delim rtsp_version 32 (print_int code ++ 32 ∷ (status ++ 13 ∷ 10 ∷ t)) refl refl
        refl in
    let b =
      strtok_word delim (print_int code) 32 (status ++ 13 ∷ 10 ∷ t) (print_int-is_word code) refl
        refl in
    let c = strtok_word crlf status 13 (10 ∷ t) good refl refl in
    rw (first_line, a, response_line, b, c, atoi-print_int code int) refl

pub first_line_lem :
    (msg : Message) (k : Kind) (t : List ℕ)
    → IsKind k
    → msg.protocol ≡ rtsp_version
    → first_line (text_with (head_strings msg k) t)
      ≡ some (record { kind = k; protocol = rtsp_version; rest = 10 ∷ t })
first_line_lem msg (request command target) t w v =
    ap (λ p. first_line (command ++ 32 ∷ (target ++ 32 ∷ (p ++ 13 ∷ 10 ∷ t)))) v
    ∙ first_line-request command target t w
first_line_lem msg (response code status) t w v =
    ap (λ p. first_line (p ++ 32 ∷ (print_int code ++ 32 ∷ (status ++ 13 ∷ 10 ∷ t)))) v
    ∙ first_line-response code status t w

-- An option as the parser stores it.
abbrev pub item : OptionItem → OptionItem
item o = record o { flags = 0 }

abbrev pub items : List OptionItem → List OptionItem
items [] = []
items (o ∷ os) = item o ∷ items os

-- Options that a parser can take apart: the names are tokens, and the contents stay on their lines.
abbrev pub AreItems : List OptionItem → Type 0
AreItems [] = Unit {0}
AreItems (o ∷ os) =
    ((is_word opt_delim o.option ≡ true) × (is_clean crlf o.content ≡ true)) × AreItems os

-- No option has the name of one before it.
abbrev pub AreNew : List OptionItem → List OptionItem → Type 0
AreNew before [] = Unit {0}
AreNew before (o ∷ os) = (has_option before o.option ≡ false) × AreNew (before ++ item o ∷ []) os

insert_new :
    (os : List OptionItem) (new : OptionItem)
    → has_option os new.option ≡ false
    → insert_option os new ≡ os ++ new ∷ []
unfolding insert_option
insert_new [] new h = refl
insert_new (o ∷ os) new h =
    let other : str_eq o.option new.option ≡ false = ground arith in
    rw other (ap (λ z. o ∷ z) (insert_new os new (ground arith)))

abbrev pub all_memory : ℕ → Bool
all_memory k = true

one_round :
    (fuel k : ℕ) (before : List OptionItem) (o : OptionItem) (t : List ℕ) (e : Ending)
    → is_word opt_delim o.option ≡ true
    → is_clean crlf o.content ≡ true
    → has_option before o.option ≡ false
    → ending (10 ∷ t) ≡ e
    → options_loop all_memory
        (suc fuel)
        k
        before
        (10 ∷ (o.option ++ 58 ∷ 32 ∷ (o.content ++ 13 ∷ 10 ∷ t)))
      ≡ elim e [
        | ends ↦ some (ended (before ++ item o ∷ []) none)
        | ends_with payload ↦ some (ended (before ++ item o ∷ []) (some payload))
        | goes_on ↦ options_loop all_memory fuel (suc k) (before ++ item o ∷ []) (10 ∷ t)
      ]
unfolding options_loop
one_round fuel k before o t e name content new at =
    let a =
      strtok_delimiter opt_delim 10 (o.option ++ 58 ∷ 32 ∷ (o.content ++ 13 ∷ 10 ∷ t)) refl
      ∙ strtok_word opt_delim o.option 58 (32 ∷ (o.content ++ 13 ∷ 10 ∷ t)) name refl refl in
    let b = strtok_word crlf (32 ∷ o.content) 13 (10 ∷ t) content refl refl in
    rw (options_loop, a, b, at)
      (ap
        (λ (z : List OptionItem). elim e as (λ x. Option Outcome) [
          | ends ↦ some (ended z none)
          | ends_with payload ↦ some (ended z (some payload))
          | goes_on ↦ options_loop all_memory fuel (suc k) z (10 ∷ t)
        ])
        (insert_new before (item o) new))

-- The payload that stands at the end of the options.
abbrev pub payload_at : List ℕ → Option (List ℕ)
payload_at p = if byte_at 0 p == 0 then none else some p

ending_options : (p : List ℕ) → (byte_at 0 p == 0) ≡ true → ending (10 ∷ 13 ∷ 10 ∷ p) ≡ ends
unfolding ending starts_with
ending_options p h = rw h refl

ending_payload : (p : List ℕ) → (byte_at 0 p == 0) ≡ false → ending (10 ∷ 13 ∷ 10 ∷ p) ≡ ends_with p
unfolding ending starts_with
ending_payload p h = rw h refl

ending_next : (s t : List ℕ) → is_word opt_delim s ≡ true → ending (10 ∷ (s ++ t)) ≡ goes_on
unfolding ending starts_with
ending_next [] t h = cc
ending_next (c ∷ cs) t h =
    let some_byte : (c == 0) ≡ false = ground arith in
    let no_cr : (c == 13) ≡ false = ground arith in rw (some_byte, no_cr) refl

pub options_lem :
    (o : OptionItem) (os before : List OptionItem) (fuel k : ℕ) (p : List ℕ)
    → AreItems (o ∷ os)
    → AreNew before (o ∷ os)
    → length os < fuel
    → options_loop all_memory fuel k before (10 ∷ text_with (option_strings (o ∷ os)) (13 ∷ 10 ∷ p))
      ≡ some (ended (before ++ items (o ∷ os)) (payload_at p))
options_lem o os before zero k p w new h = absurd (omega (arith, h))
options_lem o [] before (suc fuel) k p w new h = elim (Bool-cases (byte_at 0 p == 0)) [
  | inl none_left ↦
      one_round fuel k before o (13 ∷ 10 ∷ p) ends w.0.0 w.0.1 new.0 (ending_options p none_left)
      ∙ ap (λ z. some (ended (before ++ item o ∷ []) z)) (rw none_left refl)
  | inr more ↦
      one_round fuel k before o (13 ∷ 10 ∷ p) (ends_with p) w.0.0 w.0.1 new.0
        (ending_payload p more)
      ∙ ap (λ z. some (ended (before ++ item o ∷ []) z)) (rw more refl)
]
options_lem o (o' ∷ os) before (suc fuel) k p w new h =
    let t = text_with (option_strings (o' ∷ os)) (13 ∷ 10 ∷ p) in
    one_round fuel k before o t goes_on w.0.0 w.0.1 new.0 (ending_next o'.option _ w.1.0.0)
    ∙ options_lem o' os (before ++ item o ∷ []) fuel (suc k) p w.1 new.1 (omega (arith, h))
    ∙ ap (λ z. some (ended z (payload_at p))) (append_assoc before (item o ∷ []) (items (o' ∷ os)))
