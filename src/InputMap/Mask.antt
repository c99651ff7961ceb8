-- ===== src/InputMap/Mask.antt =====
-- Which bits the mask has.
use blyt_planning.Prelude.{
  ℕ, ◌^◌, Bool, true, false, none, zero, suc, ◌||◌, ◌&&◌, some, List, [], ◌∷◌, ◌≡◌, refl, ap, ◌∙◌,
  inl, inr, ◌==◌, if◌then◌else◌, Bool-cases, bit_or, arith,
}
use blyt_planning.Prelude.Bits.{bit, bit-zero}
use blyt_planning.Prelude.Bits
use blyt_planning.InputMap.{button_table, poll_buttons, adapter_poll_button_mask}

-- `RETRO_DEVICE_ID_JOYPAD_…` of libretro.h.
abbrev pub joypad_b : ℕ
joypad_b = 0

abbrev pub joypad_y : ℕ
joypad_y = 1

abbrev pub joypad_select : ℕ
joypad_select = 2

abbrev pub joypad_start : ℕ
joypad_start = 3

abbrev pub joypad_up : ℕ
joypad_up = 4

abbrev pub joypad_down : ℕ
joypad_down = 5

abbrev pub joypad_left : ℕ
joypad_left = 6

abbrev pub joypad_right : ℕ
joypad_right = 7

abbrev pub joypad_a : ℕ
joypad_a = 8

abbrev pub joypad_x : ℕ
joypad_x = 9

abbrev pub joypad_l : ℕ
joypad_l = 10

abbrev pub joypad_r : ℕ
joypad_r = 11

-- Whether the pad's button behind bit `j` is pressed. The console's A is the south button, libretro's
-- B, and its B the east one, libretro's A; X and Y are exchanged in the same way.
abbrev pub wanted : (ℕ → Bool) → ℕ → Bool
wanted pressed zero = pressed joypad_up
wanted pressed (suc zero) = pressed joypad_down
wanted pressed (suc (suc zero)) = pressed joypad_left
wanted pressed (suc (suc (suc zero))) = pressed joypad_right
wanted pressed (suc (suc (suc (suc zero)))) = pressed joypad_b
wanted pressed (suc (suc (suc (suc (suc zero))))) = pressed joypad_a
wanted pressed (suc (suc (suc (suc (suc (suc zero)))))) = pressed joypad_y
wanted pressed (suc (suc (suc (suc (suc (suc (suc zero))))))) = pressed joypad_x
wanted pressed (suc (suc (suc (suc (suc (suc (suc (suc zero)))))))) = pressed joypad_l
wanted pressed (suc (suc (suc (suc (suc (suc (suc (suc (suc zero))))))))) = pressed joypad_r
wanted pressed (suc (suc (suc (suc (suc (suc (suc (suc (suc (suc zero)))))))))) =
    pressed joypad_start
wanted pressed (suc (suc (suc (suc (suc (suc (suc (suc (suc (suc (suc zero))))))))))) =
    pressed joypad_select
wanted pressed (suc (suc (suc (suc (suc (suc (suc (suc (suc (suc (suc (suc j)))))))))))) = false

-- Some row of the table has the bit and a pressed button.
abbrev is_down : (ℕ → Bool) → ℕ → List (ℕ × ℕ) → Bool
is_down pressed j [] = false
is_down pressed j ((id, b) ∷ rows) = (b == j && pressed id) || is_down pressed j rows

poll_buttons_lem :
    (pressed : ℕ → Bool) (rows : List (ℕ × ℕ)) (m j : ℕ)
    → bit (poll_buttons pressed rows m) j ≡ (if is_down pressed j rows then 1 else bit m j)
unfolding poll_buttons
poll_buttons_lem pressed [] m j = refl
poll_buttons_lem pressed ((id, b) ∷ rows) m j = elim (Bool-cases (pressed id)) [
  | inl e ↦ rw e (
      poll_buttons_lem pressed rows (bit_or m (2 ^ b)) j
      ∙ ap (λ x. if is_down pressed j rows then 1 else x) (Bits.bit_set m b j)
      ∙ either (b == j) (is_down pressed j rows) (bit m j))
  | inr e ↦ rw e (
      poll_buttons_lem pressed rows m j
      ∙ ap (λ c. if c then 1 else bit m j) (neither (b == j) (is_down pressed j rows)))
]
  where
    either :
        (c d : Bool) (x : ℕ)
        → (if d then 1 else (if c then 1 else x)) ≡ (if (c && true) || d then 1 else x)
    either true true x = refl
    either true false x = refl
    either false true x = refl
    either false false x = refl

    neither : (c d : Bool) → d ≡ ((c && false) || d)
    neither true d = refl
    neither false d = refl

or_false : (c : Bool) → (c || false) ≡ c
or_false true = refl
or_false false = refl

is_down-wanted : (pressed : ℕ → Bool) (j : ℕ) → is_down pressed j button_table ≡ wanted pressed j
is_down-wanted pressed zero = or_false (pressed 4)
is_down-wanted pressed (suc zero) = or_false (pressed 5)
is_down-wanted pressed (suc (suc zero)) = or_false (pressed 6)
is_down-wanted pressed (suc (suc (suc zero))) = or_false (pressed 7)
is_down-wanted pressed (suc (suc (suc (suc zero)))) = or_false (pressed 0)
is_down-wanted pressed (suc (suc (suc (suc (suc zero))))) = or_false (pressed 8)
is_down-wanted pressed (suc (suc (suc (suc (suc (suc zero)))))) = or_false (pressed 1)
is_down-wanted pressed (suc (suc (suc (suc (suc (suc (suc zero))))))) = or_false (pressed 9)
is_down-wanted pressed (suc (suc (suc (suc (suc (suc (suc (suc zero)))))))) = or_false (pressed 10)
is_down-wanted pressed (suc (suc (suc (suc (suc (suc (suc (suc (suc zero))))))))) =
    or_false (pressed 11)
is_down-wanted pressed (suc (suc (suc (suc (suc (suc (suc (suc (suc (suc zero)))))))))) =
    or_false (pressed 3)
is_down-wanted pressed (suc (suc (suc (suc (suc (suc (suc (suc (suc (suc (suc zero))))))))))) =
    or_false (pressed 2)
is_down-wanted pressed (suc (suc (suc (suc (suc (suc (suc (suc (suc (suc (suc (suc j)))))))))))) =
    ground arith

-- With a callback, bits 0 to 3 of the mask are the pad's up, down, left and right, bits 4 to 7 are
-- the buttons that libretro calls B, A, Y and X, bits 8 to 11 are L, R, Start and Select, each set
-- exactly when that button is pressed, and every other bit is clear; without a callback every bit
-- is clear.
pub adapter_poll_button_mask_lem :
    (pressed : ℕ → Bool) (j : ℕ)
    → (bit (adapter_poll_button_mask (some pressed)) j ≡ (if wanted pressed j then 1 else 0))
      × (bit (adapter_poll_button_mask none) j ≡ 0)
unfolding adapter_poll_button_mask
adapter_poll_button_mask_lem pressed j = (
  poll_buttons_lem pressed button_table 0 j
      ∙ ap (λ x. if is_down pressed j button_table then 1 else x) (bit-zero j)
      ∙ ap (λ c. if c then 1 else 0) (is_down-wanted pressed j),
  bit-zero j,
)
