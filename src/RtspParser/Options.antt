-- ===== src/RtspParser/Options.antt =====
-- The option list of RtspParser.c as a map: insertOption and getOptionContent.
use moonlight_common_c.Prelude.{
  ℕ, ◌≡◌, refl, sym, ap, ap₂, subst, ◌∙◌, Bool, true, false, ◌||◌, some, List, [], ◌∷◌, arith,
  if◌then◌else◌, Bool-cases, inl, inr,
}
use moonlight_common_c.RtspParser.{OptionItem, get_option_content, insert_option}
use moonlight_common_c.RtspParser.Chars.{str_eq}

pub str_eq_refl : (s : List ℕ) → str_eq s s ≡ true
unfolding str_eq
str_eq_refl [] = refl
str_eq_refl (x ∷ xs) = ground (arith, str_eq_refl xs)

pub str_eq_sound : (s t : List ℕ) → str_eq s t ≡ true → s ≡ t
unfolding str_eq
str_eq_sound [] [] h = refl
str_eq_sound [] (y ∷ ys) h = cc
str_eq_sound (x ∷ xs) [] h = cc
str_eq_sound (x ∷ xs) (y ∷ ys) h =
    let head : x ≡ y = ground arith in ap₂ ◌∷◌ head (str_eq_sound xs ys (ground arith))

-- Equal names answer alike.
str_eq_same : (s t u : List ℕ) → str_eq s t ≡ true → str_eq s u ≡ str_eq t u
str_eq_same s t u h = ap (λ z. str_eq z u) (str_eq_sound s t h)

-- After an insertion the option's name has the new content, and every other name has what it had.
pub get_option_content-insert_option :
    (os : List OptionItem) (new : OptionItem) (name : List ℕ)
    → get_option_content (insert_option os new) name
      ≡ (if str_eq new.option name then some new.content else get_option_content os name)
unfolding get_option_content insert_option
get_option_content-insert_option [] new name = refl
get_option_content-insert_option (o ∷ os) new name =
    elim (Bool-cases (str_eq o.option new.option)) [
      | inl same ↦
          let alike = str_eq_same o.option new.option name same in
          elim (Bool-cases (str_eq new.option name)) [
            | inl hit ↦
                let there : str_eq o.option name ≡ true = cc (alike, hit) in
                rw (same, there, hit) refl
            | inr miss ↦
                let there : str_eq o.option name ≡ false = cc (alike, miss) in
                rw (same, there, miss) refl
          ]
      | inr other ↦
          let rest = get_option_content-insert_option os new name in
          elim (Bool-cases (str_eq o.option name)) [
            | inl hit ↦ elim (Bool-cases (str_eq new.option name)) [
              | inl both ↦
                  let clash : str_eq o.option new.option ≡ true =
                    subst (λ z. str_eq o.option z ≡ true)
                      (str_eq_sound o.option name hit ∙ sym (str_eq_sound new.option name both))
                      (str_eq_refl o.option) in
                  absurd (cc (clash, other))
              | inr miss ↦ rw (other, hit, miss) refl
            ]
            | inr miss ↦ rw (other, miss) rest
          ]
    ]

-- No option stands twice.
abbrev pub has_option : List OptionItem → List ℕ → Bool
has_option [] name = false
has_option (o ∷ os) name = str_eq o.option name || has_option os name

abbrev pub DistinctOptions : List OptionItem → Type 0
DistinctOptions [] = Unit {0}
DistinctOptions (o ∷ os) = (has_option os o.option ≡ false) × DistinctOptions os

-- The names after an insertion.
has_option-insert_option :
    (os : List OptionItem) (new : OptionItem) (name : List ℕ)
    → has_option (insert_option os new) name ≡ (has_option os name || str_eq new.option name)
unfolding insert_option
has_option-insert_option [] new name = ground arith
has_option-insert_option (o ∷ os) new name = elim (Bool-cases (str_eq o.option new.option)) [
  | inl same ↦
      let alike = str_eq_same o.option new.option name same in rw same (ground (arith, alike))
  | inr other ↦ rw other (ground (arith, has_option-insert_option os new name))
]

str_eq_comm : (s t : List ℕ) → str_eq s t ≡ str_eq t s
unfolding str_eq
str_eq_comm [] [] = refl
str_eq_comm [] (y ∷ ys) = refl
str_eq_comm (x ∷ xs) [] = refl
str_eq_comm (x ∷ xs) (y ∷ ys) = ground (arith, str_eq_comm xs ys)

-- insertOption never makes a second option of a name.
pub insert_option-DistinctOptions :
    (os : List OptionItem) (new : OptionItem)
    → DistinctOptions os
    → DistinctOptions (insert_option os new)
unfolding insert_option
insert_option-DistinctOptions [] new h = (refl, tt)
insert_option-DistinctOptions (o ∷ os) new h = elim (Bool-cases (str_eq o.option new.option)) [
  | inl same ↦ rw same h
  | inr other ↦
      let apart : has_option (insert_option os new) o.option ≡ false =
        ground
          (arith, has_option-insert_option os new o.option, str_eq_comm o.option new.option, h.0) in
      rw other (apart, insert_option-DistinctOptions os new h.1)
]
