-- ===== src/Prelude/Bits.antt =====
-- Single bits of a word: the code's `x | (1 << h)`, `x & ~(1 << h)` and `(x >> h) & 1`.
use Prim.Native.Nat.{
  ℕ, zero, suc, ◌+◌, ◌-◌, ◌*◌, ◌/◌, ◌%◌, ◌^◌, ◌≤◌, ◌<◌, min, max, digits, differ, bit_and, bit_or,
  bit_xor, bit_and-bitwise, bit_or-bitwise, bit_xor-bitwise,
}
use mathlib.Core.Path.{◌≡◌, refl, sym, ap, ◌∙◌}
use native.Mathlib.Omega.{arith}
use native.Mathlib.Nat.{pow-succ', one-le-pow, div-div-eq-div-mul}
use native.Mathlib.Decide.{dec_lt}
use blyt_planning.Prelude.Tests.{◌==◌, if◌then◌else◌}

-- The fuel of the binary digit recursion is immaterial once it covers the left word.
fuel_irrelevant :
    (one : ℕ → ℕ) (op : ℕ → ℕ → ℕ) (j k x y : ℕ)
    → x ≤ j
    → x ≤ k
    → digits one op j x y ≡ digits one op k x y
fuel_irrelevant one op zero zero x y p q = refl
fuel_irrelevant one op zero (suc k) zero y p q = refl
fuel_irrelevant one op zero (suc k) (suc x) y p q = absurd (omega arith)
fuel_irrelevant one op (suc j) zero zero y p q = refl
fuel_irrelevant one op (suc j) zero (suc x) y p q = absurd (omega arith)
fuel_irrelevant one op (suc j) (suc k) zero y p q = refl
fuel_irrelevant one op (suc j) (suc k) (suc x) y p q =
    rw (fuel_irrelevant one op j k (suc x / 2) (y / 2) (omega arith) (omega arith))

pub bit_and-halves : (x y : ℕ) → bit_and x y ≡ bit_and (x / 2) (y / 2) * 2 + min (x % 2) (y % 2)
bit_and-halves zero y = simp bit_and-bitwise (omega arith)
bit_and-halves (suc x) y = simp bit_and-bitwise (
    omega (
      arith,
      fuel_irrelevant (λ b. 0) min x (suc x / 2) (suc x / 2) (y / 2) (omega arith) (omega arith),
    ))

pub bit_or-halves : (x y : ℕ) → bit_or x y ≡ bit_or (x / 2) (y / 2) * 2 + max (x % 2) (y % 2)
bit_or-halves zero y = simp bit_or-bitwise (omega arith)
bit_or-halves (suc x) y = simp bit_or-bitwise (
    omega (
      arith,
      fuel_irrelevant (λ b. b) max x (suc x / 2) (suc x / 2) (y / 2) (omega arith) (omega arith),
    ))

bit_or-zero_below : (n x : ℕ) → x ≤ n → bit_or x 0 ≡ x
bit_or-zero_below n zero h = refl
bit_or-zero_below zero (suc x) h = absurd (omega arith)
bit_or-zero_below (suc n) (suc x) h =
    omega (arith, bit_or-halves (suc x) 0, bit_or-zero_below n (suc x / 2) (omega arith))

pub bit_or-zero : (x : ℕ) → bit_or x 0 ≡ x
bit_or-zero x = bit_or-zero_below x x (omega arith)

bit_and-zero_below : (n x : ℕ) → x ≤ n → bit_and x 0 ≡ 0
bit_and-zero_below n zero h = refl
bit_and-zero_below zero (suc x) h = absurd (omega arith)
bit_and-zero_below (suc n) (suc x) h =
    omega (arith, bit_and-halves (suc x) 0, bit_and-zero_below n (suc x / 2) (omega arith))

pub bit_and-zero : (x : ℕ) → bit_and x 0 ≡ 0
bit_and-zero x = bit_and-zero_below x x (omega arith)

-- Bit `h` of `x`, as 0 or 1.
abbrev pub bit : ℕ → ℕ → ℕ
bit x zero = x % 2
bit x (suc h) = bit (x / 2) h

pub bit-lt : (x h : ℕ) → bit x h < 2
bit-lt x zero = omega arith
bit-lt x (suc h) = bit-lt (x / 2) h

pub bit-zero : (h : ℕ) → bit 0 h ≡ 0
bit-zero zero = refl
bit-zero (suc h) = bit-zero h

-- `1 << h`, a word with one bit.
pub bit-two_pow : (h j : ℕ) → bit (2 ^ h) j ≡ (if h == j then 1 else 0)
bit-two_pow zero zero = refl
bit-two_pow zero (suc j) = ground (arith, bit-zero j)
bit-two_pow (suc h) zero = ground (arith, pow-succ' 2 h)
bit-two_pow (suc h) (suc j) =
    ap (λ t. bit t j) {y = 2 ^ h} (omega (arith, pow-succ' 2 h)) ∙ bit-two_pow h j ∙ ground arith

-- `(x >> h) & 1`.
pub shifted-bit : (x h : ℕ) → x / 2 ^ h % 2 ≡ bit x h
shifted-bit x zero = omega arith
shifted-bit x (suc h) =
    ap (λ t. t % 2) (ap (λ t. x / t) (pow-succ' 2 h) ∙ sym (div-div-eq-div-mul x 2 (2 ^ h)))
    ∙ shifted-bit (x / 2) h

pub bit-bit_or : (x y j : ℕ) → bit (bit_or x y) j ≡ max (bit x j) (bit y j)
bit-bit_or x y zero = omega (arith, bit_or-halves x y)
bit-bit_or x y (suc j) =
    ap (λ t. bit t j) {y = bit_or (x / 2) (y / 2)} (omega (arith, bit_or-halves x y))
    ∙ bit-bit_or (x / 2) (y / 2) j

pub bit-bit_and : (x y j : ℕ) → bit (bit_and x y) j ≡ min (bit x j) (bit y j)
bit-bit_and x y zero = omega (arith, bit_and-halves x y)
bit-bit_and x y (suc j) =
    ap (λ t. bit t j) {y = bit_and (x / 2) (y / 2)} (omega (arith, bit_and-halves x y))
    ∙ bit-bit_and (x / 2) (y / 2) j

-- `~(1 << h)` in a word of `w` bits.
abbrev pub all_but : ℕ → ℕ → ℕ
all_but w h = 2 ^ w - 1 - 2 ^ h

pub two_pow-pos : (h : ℕ) → 0 < 2 ^ h
two_pow-pos h = one-le-pow h 2 (omega arith)

pub two_pow-lt : (h w : ℕ) → h < w → 2 ^ h < 2 ^ w
two_pow-lt zero zero p = absurd (omega arith)
two_pow-lt zero (suc w) p = omega (arith, pow-succ' 2 w, two_pow-pos w)
two_pow-lt (suc h) zero p = absurd (omega arith)
two_pow-lt (suc h) (suc w) p =
    omega (arith, pow-succ' 2 w, pow-succ' 2 h, two_pow-lt h w (omega arith))

pub bit_ones : (w j : ℕ) → j < w → bit (2 ^ w - 1) j ≡ 1
bit_ones zero j p = absurd (omega arith)
bit_ones (suc w) zero p = omega (arith, pow-succ' 2 w, two_pow-pos w)
bit_ones (suc w) (suc j) p =
    ap (λ t. bit t j) {y = 2 ^ w - 1} (omega (arith, pow-succ' 2 w, two_pow-pos w))
    ∙ bit_ones w j (omega arith)

pub bit-all_but : (w h j : ℕ) → h < w → j < w → bit (all_but w h) j ≡ (if h == j then 0 else 1)
bit-all_but zero h j p q = absurd (omega arith)
bit-all_but (suc w) zero zero p q = omega (arith, pow-succ' 2 w, two_pow-pos w)
bit-all_but (suc w) zero (suc j) p q =
    ap (λ t. bit t j) {y = 2 ^ w - 1} (omega (arith, pow-succ' 2 w, two_pow-pos w))
    ∙ ground (arith, bit_ones w j (omega arith))
bit-all_but (suc w) (suc h) zero p q =
    ground (arith, pow-succ' 2 w, pow-succ' 2 h, two_pow-lt h w (omega arith))
bit-all_but (suc w) (suc h) (suc j) p q =
    ap (λ t. bit t j) {y = all_but w h}
      (omega (arith, pow-succ' 2 w, pow-succ' 2 h, two_pow-lt h w (omega arith)))
    ∙ bit-all_but w h j (omega arith) (omega arith)
    ∙ ground arith

-- A word has no bit at or above its width.
pub bit_above : (w x j : ℕ) → x < 2 ^ w → w ≤ j → bit x j ≡ 0
bit_above zero x j p q = ap (λ t. bit t j) {y = 0} (omega arith) ∙ bit-zero j
bit_above (suc w) x zero p q = absurd (omega arith)
bit_above (suc w) x (suc j) p q = bit_above w (x / 2) j (omega (arith, pow-succ' 2 w)) (omega arith)

bit_or-of_zeros : (x y : ℕ) → x < 1 → y < 1 → bit_or x y ≡ 0
bit_or-of_zeros zero zero p q = refl
bit_or-of_zeros zero (suc y) p q = absurd (omega arith)
bit_or-of_zeros (suc x) y p q = absurd (omega arith)

pub bit_or-lt : (w x y : ℕ) → x < 2 ^ w → y < 2 ^ w → bit_or x y < 2 ^ w
bit_or-lt zero x y p q =
    omega (arith, bit_or-halves x y, bit_or-of_zeros (x / 2) (y / 2) (omega arith) (omega arith))
bit_or-lt (suc w) x y p q = omega (
  arith,
  pow-succ' 2 w,
  bit_or-halves x y,
  bit_or-lt w (x / 2) (y / 2) (omega (arith, pow-succ' 2 w)) (omega (arith, pow-succ' 2 w)),
)

-- `x |= 1 << h`.
pub bit_set : (x h j : ℕ) → bit (bit_or x (2 ^ h)) j ≡ (if h == j then 1 else bit x j)
bit_set x h j = ground (arith, bit-bit_or x (2 ^ h) j, bit-two_pow h j, bit-lt x j)

-- `x &= ~(1 << h)`, in a word of `w` bits.
pub bit_clear :
    (w x h j : ℕ)
    → x < 2 ^ w
    → h < w
    → bit (bit_and x (all_but w h)) j ≡ (if h == j then 0 else bit x j)
bit_clear w x h j p q = elim (dec_lt j w) [
  | yes r ↦ ground (arith, bit-bit_and x (all_but w h) j, bit-all_but w h j q r, bit-lt x j)
  | no r ↦ ground (arith, bit-bit_and x (all_but w h) j, bit_above w x j p (omega arith))
]

pub bit_and-le : (w x y : ℕ) → x < 2 ^ w → bit_and x y ≤ x
bit_and-le zero x y p =
    ground (arith, ap (λ t. bit_and t y) {x = x} {y = 0} (omega arith), bit_and-bitwise 0 y)
bit_and-le (suc w) x y p =
    omega (arith, bit_and-halves x y, bit_and-le w (x / 2) (y / 2) (omega (arith, pow-succ' 2 w)))

-- `x & (1 << h)` is the bit in its place.
pub bit_and-two_pow : (h x : ℕ) → bit_and x (2 ^ h) ≡ bit x h * 2 ^ h
bit_and-two_pow zero x = omega (arith, bit_and-halves x 1, bit_and-zero (x / 2))
bit_and-two_pow (suc h) x =
    bit_and-halves x (2 ^ suc h)
    ∙ ap (λ t. bit_and (x / 2) t * 2 + min (x % 2) (2 ^ suc h % 2)) {y = 2 ^ h}
        (omega (arith, pow-succ' 2 h))
    ∙ omega (
      arith,
      bit_and-two_pow h (x / 2),
      pow-succ' 2 h,
      ap (λ (t : ℕ). bit (x / 2) h * t) (pow-succ' 2 h),
    )

-- Exclusive or, digit by digit.
differ-eq-sum : (a b : ℕ) → a < 2 → b < 2 → differ a b ≡ (a + b) % 2
differ-eq-sum zero b p q = omega arith
differ-eq-sum (suc zero) zero p q = omega arith
differ-eq-sum (suc zero) (suc zero) p q = omega arith
differ-eq-sum (suc zero) (suc (suc b)) p q = absurd (omega arith)
differ-eq-sum (suc (suc a)) b p q = absurd (omega arith)

pub bit_xor-halves : (x y : ℕ) → bit_xor x y ≡ bit_xor (x / 2) (y / 2) * 2 + (x % 2 + y % 2) % 2
bit_xor-halves zero y = simp bit_xor-bitwise (omega arith)
bit_xor-halves (suc x) y = simp bit_xor-bitwise (
    omega (
      arith,
      differ-eq-sum (suc x % 2) (y % 2) (omega arith) (omega arith),
      fuel_irrelevant (λ b. b) differ x (suc x / 2) (suc x / 2) (y / 2) (omega arith) (omega arith),
    ))

-- A word is found again from its exclusive or with a known word.
pub bit_xor_cancel_left : (n x y z : ℕ) → y ≤ n → z ≤ n → bit_xor x y ≡ bit_xor x z → y ≡ z
bit_xor_cancel_left zero x y z p q e = omega arith
bit_xor_cancel_left (suc n) x zero zero p q e = refl
bit_xor_cancel_left (suc n) x y z p q e = omega (
  arith,
  bit_xor-halves x y,
  bit_xor-halves x z,
  bit_xor_cancel_left n (x / 2) (y / 2) (z / 2) (omega arith) (omega arith)
      (omega (arith, bit_xor-halves x y, bit_xor-halves x z)),
)

pub bit_xor_cancel_right : (n x y z : ℕ) → x ≤ n → y ≤ n → bit_xor x z ≡ bit_xor y z → x ≡ y
bit_xor_cancel_right zero x y z p q e = omega arith
bit_xor_cancel_right (suc n) zero zero z p q e = refl
bit_xor_cancel_right (suc n) x y z p q e = omega (
  arith,
  bit_xor-halves x z,
  bit_xor-halves y z,
  bit_xor_cancel_right n (x / 2) (y / 2) (z / 2) (omega arith) (omega arith)
      (omega (arith, bit_xor-halves x z, bit_xor-halves y z)),
)

pub bit_xor-lt : (w x y : ℕ) → x < 2 ^ w → y < 2 ^ w → bit_xor x y < 2 ^ w
bit_xor-lt zero zero zero p q = omega arith
bit_xor-lt zero zero (suc y) p q = absurd (omega arith)
bit_xor-lt zero (suc x) y p q = absurd (omega arith)
bit_xor-lt (suc w) x y p q = omega (
  arith,
  pow-succ' 2 w,
  bit_xor-halves x y,
  bit_xor-lt w (x / 2) (y / 2) (omega (arith, pow-succ' 2 w)) (omega (arith, pow-succ' 2 w)),
)
