-- ===== src/Det/Pcg32.antt =====
-- pcg32.h: the generator's state, its seeding and one step.
pub mod Rotate
use blyt_planning.Prelude.{
  ℕ, zero, suc, ◌+◌, ◌-◌, ◌*◌, ◌/◌, ◌%◌, ◌^◌, ◌≤◌, ◌<◌, bit_xor, bit_or, ◌≡◌, refl, arith,
}
use blyt_planning.Prelude.Bits.{bit_or-lt}

-- `pcg32_t`, two words of 64 bits.
pub record Pcg32 : Type 0 where
  pub state : ℕ
  pub inc : ℕ

abbrev pub multiplier : ℕ
multiplier = 6364136223846793005

pub advance : ℕ → ℕ → ℕ
advance inc state = (state * multiplier + inc) % 2 ^ 64

-- `(inc << 1u) | 1u`, in 64 bits
pub pcg32_seed : ℕ → ℕ → Pcg32
unfolding advance
pcg32_seed state inc =
    let odd = bit_or (inc * 2 % 2 ^ 64) 1 in
    let first = advance odd 0 in
    record { state = advance odd ((first + state) % 2 ^ 64); inc = odd }

pub xorshift : ℕ → ℕ
xorshift old = bit_xor (old / 2 ^ 18) old / 2 ^ 27 % 2 ^ 32

-- `(x >> rot) | (x << ((-rot) & 31u))`, in 32 bits
pub rotate_right : ℕ → ℕ → ℕ
rotate_right x rot = bit_or (x / 2 ^ rot) (x * 2 ^ ((2 ^ 32 - rot) % 32) % 2 ^ 32)

pub pcg32_next : Pcg32 → ℕ × Pcg32
unfolding advance xorshift rotate_right
pcg32_next r =
    let old = r.state in
    (rotate_right (xorshift old) (old / 2 ^ 59), record r { state = advance r.inc old })

-- `(float)u * (1.0f / 16777216.0f)` of the upper 24 bits; 2^-24 is 0x33800000, and the conversion
-- and the product of f32 values, on bit patterns, are parameters.
unfoldable pub pcg32_unit_float : (ℕ → ℕ) → (ℕ → ℕ → ℕ) → Pcg32 → ℕ × Pcg32
unfolding pcg32_next
pcg32_unit_float of_u32 mul r =
    let (u, r') = pcg32_next r in (mul (of_u32 (u / 2 ^ 8)) 0x33800000, r')

-- The step before `advance`: 13877824140714322085 is the multiplier's inverse modulo 2 ^ 64.
abbrev pub retreat : ℕ → ℕ → ℕ
retreat inc state = (state + (2 ^ 64 - inc)) % 2 ^ 64 * 13877824140714322085 % 2 ^ 64

-- For 64-bit words, the step of the generator is undone by an explicit inverse: no two states step
-- to the same one.
pub retreat-advance :
    (inc state : ℕ) → inc < 2 ^ 64 → state < 2 ^ 64 → retreat inc (advance inc state) ≡ state
unfolding advance
retreat-advance inc state p q = omega arith
