-- ===== src/AudioPush/Drift.antt =====
-- The audio pushed over a session does not drift.
use native.Mathlib.Nat.{
  zero-div, div-le_self, div-lt_iff_lt-mul, le-div_iff_mul-le, div-mul-le_self, lt-div-mul-add,
  div-le_self,
}
use blyt_planning.Prelude.{
  ℤ, negsuc, false, leb, ltb, ℕ, zero, suc, ◌+◌, ◌-◌, ◌*◌, ◌/◌, ◌%◌, ◌^◌, ◌<◌, ◌≤◌, ◌≡◌, sym, ap,
  ap₂, ◌∙◌, arith, inl, inr, ltb, leb, ◌==◌, if◌then◌else◌, Bool-cases, lt→ltb, le→ltb_false, pos,
}
use blyt_planning.AudioPush.{
  to_int, ideal_after, adapter_compute_audio_frames, clamp, add_int, pulled, push_audio, run_calls,
}

module _ (fps : ℕ) (some_fps : 0 < fps) where
  div_mono : (a r : ℕ) → a / fps ≤ (a + r) / fps
  div_mono a r = (le-div_iff_mul-le some_fps).1 (omega (arith, div-mul-le_self a fps))

  spread : (x z y : ℕ) → (x + z + 2) * y ≡ x * y + z * y + (y + y)
  spread x z y = grind arith

  div_step : (a r : ℕ) → (a + r) / fps ≤ a / fps + r / fps + 1
  div_step a r = omega (
    arith,
    (div-lt_iff_lt-mul {k = fps} {x = a + r} {y = a / fps + r / fps + 2} some_fps).1 (
        omega (
          arith,
          spread (a / fps) (r / fps) fps,
          lt-div-mul-add {a = a} some_fps,
          lt-div-mul-add {a = r} some_fps,
        )),
  )

  to_int_small : (d : ℕ) → d < 2 ^ 31 → to_int d ≡ pos d
  to_int_small d h =
      ap (λ m. if ltb m (2 ^ 31) then pos m else negsuc (2 ^ 32 - 1 - m)) {x = d % 2 ^ 32} {y = d}
        (omega arith)
      ∙ ap (λ c. if c then pos d else negsuc (2 ^ 32 - 1 - d)) (lt→ltb d (2 ^ 31) h)

  -- What is pushed for a target that the clamp leaves alone.
  landed_pos :
      (max p d : ℕ) → d ≤ max → p + d < 2 ^ 64 → add_int p (pulled (clamp max (pos d))) ≡ p + d
  landed_pos max p d h fits =
      ap (λ c. add_int p (pulled (if c then pos max else pos d))) (le→ltb_false max d h)
      ∙ omega arith

  -- The count lands on an ideal that is not too far ahead.
  compute_lem :
      (max rate p n ideal : ℕ)
      → ideal_after rate fps n ≡ ideal
      → p ≤ ideal
      → ideal ≤ p + max
      → max < 2 ^ 31
      → ideal < 2 ^ 64
      → add_int p (pulled (clamp max (adapter_compute_audio_frames rate fps p n))) ≡ ideal
  unfolding adapter_compute_audio_frames
  compute_lem max rate p n ideal e h k small fits =
      ap (λ c. landed (if c then pos 0 else chosen (ideal_after rate fps n))) no_zero
      ∙ ap (λ i. landed (chosen i)) e
      ∙ elim (Bool-cases (leb ideal p)) [
        | inl t ↦
            ap (λ c. landed (if c then pos 0 else to_int (ideal - p))) t
            ∙ landed_pos max p 0 (omega arith) (omega arith)
            ∙ ground arith
        | inr f ↦
            ap (λ c. landed (if c then pos 0 else to_int (ideal - p))) f
            ∙ ap landed (to_int_small (ideal - p) (omega arith))
            ∙ landed_pos max p (ideal - p) (omega arith) (omega arith)
            ∙ omega arith
      ]
    where
      landed : ℤ → ℕ
      landed t = add_int p (pulled (clamp max t))

      chosen : ℕ → ℤ
      chosen i = if leb i p then pos 0 else to_int (i - p)

      no_zero : (fps == 0) ≡ false
      no_zero = ground arith

  -- There are frames per second, the rate divided by them is below the most frames of a run, which
  -- an `int` holds, and neither the runs nor the runs times the rate reach 2 ^ 64. Then after `n` runs
  -- exactly `n * rate / fps` frames, rounded down, have been pushed, and `n` runs counted.
  pub run_calls_lem :
      (max rate n : ℕ)
      → rate / fps < max
      → max < 2 ^ 31
      → n < 2 ^ 64
      → n * rate < 2 ^ 64
      → run_calls max rate fps n ≡ record { frames = n * rate / fps; calls = n }
  unfolding run_calls push_audio
  run_calls_lem max rate zero h small fits total =
      ap (λ f. record { frames = f; calls = 0 })
        (sym (ap (λ a. a / fps) {x = 0 * rate} {y = 0} (omega arith) ∙ zero-div fps))
  run_calls_lem max rate (suc n) h small fits total =
      ap (push_audio max rate fps)
        (run_calls_lem max rate n h small (omega arith) (omega (arith, next)))
      ∙ ap₂ (λ f c. record { frames = f; calls = c })
          (compute_lem max rate (n * rate / fps) n ((n * rate + rate) / fps) ideal
              (div_mono (n * rate) rate) (omega (arith, div_step (n * rate) rate)) small
              (omega (arith, next, div-le_self (n * rate + rate) fps))
            ∙ ap (λ a. a / fps) (sym next))
          (omega arith)
    where
      next : suc n * rate ≡ n * rate + rate
      next = grind arith

      ideal : ideal_after rate fps n ≡ (n * rate + rate) / fps
      ideal =
          ap (λ m. m * rate % 2 ^ 64 / fps) {x = (n + 1) % 2 ^ 64} {y = suc n} (omega arith)
          ∙ ap (λ a. a % 2 ^ 64 / fps) next
          ∙ ap (λ a. a / fps) {x = (n * rate + rate) % 2 ^ 64} {y = n * rate + rate}
              (omega (arith, next))
