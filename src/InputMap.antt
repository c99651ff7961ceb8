-- ===== src/InputMap.antt =====
-- input_map.c (spikes/spike-l/host): the joypad's buttons as the console's button mask. `pressed`
-- is the frontend's callback for the joypad of one port.
pub mod Mask
use blyt_planning.Prelude.{
  ℕ, ◌+◌, ◌^◌, Bool, Option, none, some, List, [], ◌∷◌, bit_or, if◌then◌else◌,
}

-- `RETRO_DEVICE_ID_JOYPAD_…` of libretro with the bit of `BLYT_BUTTON_…`, in the order of the tests.
abbrev pub button_table : List (ℕ × ℕ)
button_table =
    (4, 0)
    ∷ (5, 1)
    ∷ (6, 2)
    ∷ (7, 3)
    ∷ (0, 4)
    ∷ (8, 5)
    ∷ (1, 6)
    ∷ (9, 7)
    ∷ (10, 8)
    ∷ (11, 9)
    ∷ (3, 10)
    ∷ (2, 11)
    ∷ []

-- `if (cb(port, RETRO_DEVICE_JOYPAD, 0, id)) m |= 1u << bit;` for each row.
unfoldable pub poll_buttons : (ℕ → Bool) → List (ℕ × ℕ) → ℕ → ℕ
poll_buttons pressed [] m = m
poll_buttons pressed ((id, b) ∷ rows) m =
    poll_buttons pressed rows (if pressed id then bit_or m (2 ^ b) else m)

unfoldable pub adapter_poll_button_mask : Option (ℕ → Bool) → ℕ
unfolding poll_buttons
adapter_poll_button_mask none = 0
adapter_poll_button_mask (some pressed) = poll_buttons pressed button_table 0
