-- ===== src/Seq/Tests.antt =====
-- The comparison macros at concrete numbers.
use moonlight_common_c.Prelude.{ℕ, ◌≡◌, ◌≢◌, ◌↔◌, ◌⊎◌, ◌+◌, refl, true, ltb, arith}
use moonlight_common_c.Seq.{u16, is_before16}
use moonlight_common_c.Seq.Order.{is_before16_window, is_before16_total}

wraps : is_before16 0xffff 2 ≡ true
unfolding is_before16
wraps = refl

is_before16_window_example : is_before16 (u16 (0xfffe + 1)) (u16 (0xfffe + 4)) ≡ ltb 1 4
is_before16_window_example = is_before16_window 0xfffe 1 4 (omega arith) (omega arith)

abbrev top : ℕ
top = 0xffff

is_before16_total_example :
    ((top ≢ 2) ↔ ((is_before16 0xffff 2 ≡ true) ⊎ (is_before16 2 0xffff ≡ true)))
    × (((is_before16 0xffff 2 ≡ true) × (is_before16 2 0xffff ≡ true))
        ↔ (2 ≡ u16 (0xffff + 0x8000)))
is_before16_total_example = is_before16_total top 2 (omega arith) (omega arith)
