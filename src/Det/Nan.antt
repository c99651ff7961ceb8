-- ===== src/Det/Nan.antt =====
-- nan_canon.h. An f32 is its bit pattern, a number below 2 ^ 32.
use blyt_planning.Prelude.{
  ℕ, ◌/◌, ◌%◌, ◌^◌, ◌<◌, Bool, true, false, not, ◌&&◌, ◌≡◌, ◌==◌, if◌then◌else◌, arith,
}

abbrev pub canonical_qnan_bits : ℕ
canonical_qnan_bits = 0x7fc00000

-- `exp_bits == 0xff && frac != 0`
abbrev pub is_nan : ℕ → Bool
is_nan u = (u / 2 ^ 23 % 2 ^ 8 == 0xff) && not (u % 2 ^ 23 == 0)

unfoldable pub canonicalize_nanf : ℕ → ℕ
canonicalize_nanf u = if is_nan u then canonical_qnan_bits else u

-- A NaN becomes the canonical one, and everything else is left alone; the result is
-- a NaN exactly when the input is one.
pub canonicalize_nanf_cases :
    (u : ℕ)
    → (is_nan u ≡ true → canonicalize_nanf u ≡ canonical_qnan_bits)
      × (is_nan u ≡ false → canonicalize_nanf u ≡ u)
      × (is_nan (canonicalize_nanf u) ≡ is_nan u)
unfolding canonicalize_nanf
canonicalize_nanf_cases u = (λ h. ground arith, λ h. ground arith, ground arith)

pub canonicalize_nanf_idem : (u : ℕ) → canonicalize_nanf (canonicalize_nanf u) ≡ canonicalize_nanf u
unfolding canonicalize_nanf
canonicalize_nanf_idem u = ground arith

pub canonicalize_nanf-lt : (u : ℕ) → u < 2 ^ 32 → canonicalize_nanf u < 2 ^ 32
unfolding canonicalize_nanf
canonicalize_nanf-lt u h = ground arith
