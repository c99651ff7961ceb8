-- ===== src/Regions/ScreenShake/Ticks.antt =====
-- A shake over its frames.
use blyt_planning.Prelude.{ℕ, zero, suc, ◌-◌, ◌<◌, ◌≤◌, ◌^◌, ◌≡◌, refl, ap, ◌∙◌, arith, false}
use blyt_planning.Regions.ScreenShake.{
  FloatOps, ScreenShake, not_positive, blyt_screen_shake, screen_shake_tick,
}

module _ (ops : FloatOps) where
  -- The shake after the ticks of `n` frames from `frame` on.
  abbrev pub ticked : ℕ → ℕ → ScreenShake → ScreenShake
  ticked zero frame g = g
  ticked (suc n) frame g = ticked n (suc frame) (screen_shake_tick ops frame g).2

  -- `n` decays of an intensity.
  abbrev pub decayed : ℕ → ℕ → ℕ → ℕ
  decayed zero decay x = x
  decayed (suc n) decay x = decayed n decay (ops.mul x decay)

  ticked_lem :
      (n frame : ℕ) (g : ScreenShake)
      → g.remaining_frames < 2 ^ 31
      → n ≤ g.remaining_frames
      → ticked n frame g ≡ record g {
        remaining_frames = g.remaining_frames - n;
        intensity = decayed n g.decay g.intensity;
      }
  unfolding screen_shake_tick
  ticked_lem zero frame g h k =
      ap (λ r. record g { remaining_frames = r }) {x = g.remaining_frames}
        {y = g.remaining_frames - 0} (omega arith)
  ticked_lem (suc n) frame g h k =
      ap (ticked n (suc frame)) (one_tick (positive g.remaining_frames h k))
      ∙ ticked_lem n (suc frame) after (omega arith) (omega arith)
      ∙ ap (λ r. record g { remaining_frames = r; intensity = decayed (suc n) g.decay g.intensity })
          {x = g.remaining_frames - 1 - n} {y = g.remaining_frames - suc n} (omega arith)
    where
      after : ScreenShake
      after = record g {
        intensity = ops.mul g.intensity g.decay;
        remaining_frames = g.remaining_frames - 1;
      }

      positive : (r : ℕ) → r < 2 ^ 31 → suc n ≤ r → not_positive r ≡ false
      positive r p q = ground arith

      one_tick : not_positive g.remaining_frames ≡ false → (screen_shake_tick ops frame g).2 ≡ after
      one_tick e = rw e refl

  -- A shake triggered with a number of frames below 2 ^ 31 is over after that many ticks: no frame
  -- remains, the intensity has decayed once for each of them, and from then on a tick gives zero
  -- offsets and changes nothing.
  pub shake-ends :
      (g : ScreenShake) (frames intensity frame later : ℕ)
      → frames < 2 ^ 31
      → (ticked frames frame (blyt_screen_shake frames intensity g)).remaining_frames ≡ 0
        × ((ticked frames frame (blyt_screen_shake frames intensity g)).intensity
            ≡ decayed frames 0x3f733333 intensity)
        × (screen_shake_tick ops later (ticked frames frame (blyt_screen_shake frames intensity g))
            ≡ (0, 0, ticked frames frame (blyt_screen_shake frames intensity g)))
  unfolding blyt_screen_shake screen_shake_tick
  shake-ends g frames intensity frame later h =
      let over = ticked_lem frames frame (blyt_screen_shake frames intensity g) h (omega arith) in
      (
        ap (λ s. s.remaining_frames) over ∙ omega arith,
        ap (λ s. s.intensity) over,
        rw (ap (λ s. s.remaining_frames) over ∙ gone) refl,
      )
    where
      gone : frames - frames ≡ 0
      gone = omega arith
