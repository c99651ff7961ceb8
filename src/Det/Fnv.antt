-- ===== src/Det/Fnv.antt =====
-- FNV-1a-64, as digest.c and save_state.c compute it: `h ^= b; h *= PRIME`.
use blyt_planning.Prelude.{
  ℕ, ◌*◌, ◌%◌, ◌^◌, ◌<◌, bit_xor, [], ◌∷◌, ◌++◌, ◌≡◌, sym, ap, ◌∙◌, arith, ◌≢◌, Bytes, IsBytes,
}
use blyt_planning.Prelude.Bits.{bit_xor_cancel_left, bit_xor_cancel_right, bit_xor-lt}

abbrev pub fnv1a_64_offset : ℕ
fnv1a_64_offset = 0xcbf29ce484222325

abbrev pub fnv1a_64_prime : ℕ
fnv1a_64_prime = 0x00000100000001b3

pub fnv_step : ℕ → ℕ → ℕ
fnv_step h b = bit_xor h b * fnv1a_64_prime % 2 ^ 64

pub fnv_loop : ℕ → Bytes → ℕ
unfolding fnv_step
fnv_loop h [] = h
fnv_loop h (b ∷ bs) = fnv_loop (fnv_step h b) bs

unfoldable pub fnv1a_64_bytes : Bytes → ℕ
unfolding fnv_loop
fnv1a_64_bytes bs = fnv_loop fnv1a_64_offset bs

fnv_step-lt : (h b : ℕ) → fnv_step h b < 2 ^ 64
unfolding fnv_step
fnv_step-lt h b = omega arith

pub fnv_loop-lt : (h : ℕ) (bs : Bytes) → h < 2 ^ 64 → fnv_loop h bs < 2 ^ 64
unfolding fnv_loop
fnv_loop-lt h [] p = p
fnv_loop-lt h (b ∷ bs) p = fnv_loop-lt (fnv_step h b) bs (fnv_step-lt h b)

-- The prime is odd, so multiplying by it modulo 2 ^ 64 can be undone.
times_prime_back :
    (x : ℕ) → x < 2 ^ 64 → x * fnv1a_64_prime % 2 ^ 64 * 14886173955864302971 % 2 ^ 64 ≡ x
times_prime_back x p = omega arith

times_prime_cancel :
    (x y : ℕ)
    → x < 2 ^ 64
    → y < 2 ^ 64
    → x * fnv1a_64_prime % 2 ^ 64 ≡ y * fnv1a_64_prime % 2 ^ 64
    → x ≡ y
times_prime_cancel x y p q e =
    sym (times_prime_back x p)
    ∙ ap (λ t. t * 14886173955864302971 % 2 ^ 64) e
    ∙ times_prime_back y q

fnv_step_cancel_left :
    (h b c : ℕ) → h < 2 ^ 64 → b < 256 → c < 256 → fnv_step h b ≡ fnv_step h c → b ≡ c
unfolding fnv_step
fnv_step_cancel_left h b c p q r e = bit_xor_cancel_left 256 h b c (omega arith) (omega arith) (
    times_prime_cancel _ _ (bit_xor-lt 64 h b p (omega arith)) (bit_xor-lt 64 h c p (omega arith))
      e)

fnv_step_cancel_right :
    (h g b : ℕ) → h < 2 ^ 64 → g < 2 ^ 64 → b < 256 → fnv_step h b ≡ fnv_step g b → h ≡ g
unfolding fnv_step
fnv_step_cancel_right h g b p q r e =
    bit_xor_cancel_right (2 ^ 64) h g b (omega arith) (omega arith) (
      times_prime_cancel _ _ (bit_xor-lt 64 h b p (omega arith)) (bit_xor-lt 64 g b q (omega arith))
        e)

fnv_loop_cancel :
    (h g : ℕ) (bs : Bytes)
    → h < 2 ^ 64
    → g < 2 ^ 64
    → IsBytes bs
    → fnv_loop h bs ≡ fnv_loop g bs
    → h ≡ g
unfolding fnv_loop
fnv_loop_cancel h g [] p q k e = e
fnv_loop_cancel h g (b ∷ bs) p q (hb, k) e =
    fnv_step_cancel_right h g b p q hb
      (fnv_loop_cancel (fnv_step h b) (fnv_step g b) bs (fnv_step-lt h b) (fnv_step-lt g b) k e)

fnv_loop_one_byte :
    (h : ℕ) (xs : Bytes) (b c : ℕ) (ys : Bytes)
    → h < 2 ^ 64
    → b < 256
    → c < 256
    → IsBytes ys
    → fnv_loop h (xs ++ b ∷ ys) ≡ fnv_loop h (xs ++ c ∷ ys)
    → b ≡ c
unfolding fnv_loop
fnv_loop_one_byte h [] b c ys p q r k e =
    fnv_step_cancel_left h b c p q r
      (fnv_loop_cancel (fnv_step h b) (fnv_step h c) ys (fnv_step-lt h b) (fnv_step-lt h c) k e)
fnv_loop_one_byte h (x ∷ xs) b c ys p q r k e =
    fnv_loop_one_byte (fnv_step h x) xs b c ys (fnv_step-lt h x) q r k e

-- Two strings that differ in exactly one byte, with bytes behind it, have different hashes.
pub fnv1a_64_bytes_one_byte :
    (xs : Bytes) (b c : ℕ) (ys : Bytes)
    → b < 256
    → c < 256
    → IsBytes ys
    → b ≢ c
    → fnv1a_64_bytes (xs ++ b ∷ ys) ≢ fnv1a_64_bytes (xs ++ c ∷ ys)
unfolding fnv1a_64_bytes
fnv1a_64_bytes_one_byte xs b c ys q r k ne e =
    ne (fnv_loop_one_byte fnv1a_64_offset xs b c ys (omega arith) q r k e)

pub fnv1a_64_bytes-lt : (bs : Bytes) → fnv1a_64_bytes bs < 2 ^ 64
unfolding fnv1a_64_bytes
fnv1a_64_bytes-lt bs = fnv_loop-lt fnv1a_64_offset bs (omega arith)
