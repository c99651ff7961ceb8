-- ===== src/Det/Pcg32/Rotate.antt =====
-- The output permutation of pcg32.h is a rotation of the 32 bits.
use Prim.Native.Nat.{max}
use native.Mathlib.Nat.{
  pow-succ', div-div-eq-div-mul, div-add-mod, mod-eq_of_lt, mod-lt, mul-add-mod_self_left,
}
use native.Mathlib.Decide.{dec_lt}
use blyt_planning.Prelude.{
  ℕ, zero, suc, ◌+◌, ◌-◌, ◌*◌, ◌/◌, ◌%◌, ◌^◌, ◌<◌, bit_or, ◌≡◌, sym, ap, ap₂, ◌∙◌, arith,
  if◌then◌else◌, ltb,
}
use blyt_planning.Prelude.Bits.{bit, bit-bit_or, bit_above, two_pow-pos}
use blyt_planning.Det.Pcg32.{rotate_right}

bit-shifted : (x r j : ℕ) → bit (x / 2 ^ r) j ≡ bit x (r + j)
bit-shifted x zero j =
    ap (λ t. bit t j) {y = x} (omega arith) ∙ ap (bit x) {x = j} {y = 0 + j} (omega arith)
bit-shifted x (suc r) j =
    ap (λ t. bit t j) (ap (λ t. x / t) (pow-succ' 2 r) ∙ sym (div-div-eq-div-mul x 2 (2 ^ r)))
    ∙ bit-shifted (x / 2) r j
    ∙ ap (bit x) {x = suc (r + j)} {y = suc r + j} (omega arith)

low_half : (x p : ℕ) → 0 < p → x % (2 * p) / 2 ≡ x / 2 % p
low_half x p h = sym (
    ap (λ t. t % p) {y = p * (x / (2 * p)) + x % (2 * p) / 2} (omega (arith, div-add-mod x (2 * p)))
    ∙ mul-add-mod_self_left p (x / (2 * p)) (x % (2 * p) / 2)
    ∙ mod-eq_of_lt (omega (arith, mod-lt x {m = 2 * p} (omega arith))))

bit-low : (w x j : ℕ) → j < w → bit (x % 2 ^ w) j ≡ bit x j
bit-low zero x j h = absurd (omega arith)
bit-low (suc w) x zero h =
    omega (arith, pow-succ' 2 w, div-add-mod x (2 * 2 ^ w), ap (λ t. x % t) (pow-succ' 2 w))
bit-low (suc w) x (suc j) h =
    ap (λ t. bit t j) (ap (λ t. x % t / 2) (pow-succ' 2 w) ∙ low_half x (2 ^ w) (two_pow-pos w))
    ∙ bit-low w (x / 2) j (omega arith)

bit-raised_below : (x s j : ℕ) → j < s → bit (x * 2 ^ s) j ≡ 0
bit-raised_below x zero j h = absurd (omega arith)
bit-raised_below x (suc s) zero h = omega (arith, ap (λ (t : ℕ). x * t) (pow-succ' 2 s))
bit-raised_below x (suc s) (suc j) h =
    ap (λ t. bit t j) {y = x * 2 ^ s} (omega (arith, ap (λ (t : ℕ). x * t) (pow-succ' 2 s)))
    ∙ bit-raised_below x s j (omega arith)

bit-raised : (x s j : ℕ) → bit (x * 2 ^ s) (s + j) ≡ bit x j
bit-raised x zero j =
    ap (bit (x * 2 ^ 0)) {x = 0 + j} {y = j} (omega arith) ∙ ap (λ t. bit t j) {y = x} (omega arith)
bit-raised x (suc s) j =
    ap (bit (x * 2 ^ suc s)) {x = suc s + j} {y = suc (s + j)} (omega arith)
    ∙ ap (λ t. bit t (s + j)) {y = x * 2 ^ s} (omega (arith, ap (λ (t : ℕ). x * t) (pow-succ' 2 s)))
    ∙ bit-raised x s j

-- The bit of the part shifted left, where the rotation is not by 0.
raised_part :
    (x rot j : ℕ)
    → 0 < rot
    → rot < 32
    → j < 32
    → bit (x * 2 ^ (32 - rot) % 2 ^ 32) j ≡ (if ltb (rot + j) 32 then 0 else bit x (rot + j - 32))
raised_part x rot j h k hj = elim (dec_lt (rot + j) 32) [
  | yes p ↦
      bit-low 32 (x * 2 ^ (32 - rot)) j hj
      ∙ bit-raised_below x (32 - rot) j (omega arith)
      ∙ ground arith
  | no p ↦
      bit-low 32 (x * 2 ^ (32 - rot)) j hj
      ∙ ap (bit (x * 2 ^ (32 - rot))) {x = j} {y = 32 - rot + (rot + j - 32)} (omega arith)
      ∙ bit-raised x (32 - rot) (rot + j - 32)
      ∙ ground arith
]

rotate_right-bit_pos :
    (x rot j : ℕ)
    → x < 2 ^ 32
    → 0 < rot
    → rot < 32
    → j < 32
    → bit (rotate_right x rot) j ≡ bit x ((rot + j) % 32)
unfolding rotate_right
rotate_right-bit_pos x rot j hx h hr hj =
    ap (λ s. bit (bit_or (x / 2 ^ rot) (x * 2 ^ s % 2 ^ 32)) j) {y = 32 - rot} (omega arith)
    ∙ bit-bit_or (x / 2 ^ rot) (x * 2 ^ (32 - rot) % 2 ^ 32) j
    ∙ ap₂ max (bit-shifted x rot j) (raised_part x rot j h hr hj)
    ∙ elim (dec_lt (rot + j) 32) [
      | yes p ↦ ground (arith, ap (bit x) {x = (rot + j) % 32} {y = rot + j} (omega arith))
      | no p ↦ ground (
        arith,
        bit_above 32 x (rot + j) hx (omega arith),
        ap (bit x) {x = (rot + j) % 32} {y = rot + j - 32} (omega arith),
      )
    ]

-- For a 32-bit word, an amount below 32 (also 0) and `j` below 32, bit `j` of the output is bit
-- `(rot + j) mod 32` of the word: the expression of the source is a rotation to the right.
pub rotate_right-bit :
    (x rot j : ℕ)
    → x < 2 ^ 32
    → rot < 32
    → j < 32
    → bit (rotate_right x rot) j ≡ bit x ((rot + j) % 32)
unfolding rotate_right
rotate_right-bit x zero j hx hr hj =
    ap₂ (λ a b. bit (bit_or a b) j) {y = x} {v = x} (omega arith) (omega arith)
    ∙ bit-bit_or x x j
    ∙ ground (arith, ap (bit x) {x = (0 + j) % 32} {y = j} (omega arith))
rotate_right-bit x (suc rot) j hx hr hj = rotate_right-bit_pos x (suc rot) j hx (omega arith) hr hj
