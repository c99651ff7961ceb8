-- ===== src/AudioPush.antt =====
-- audio_push.c (spikes/spike-l/host), the number of audio frames of a run, and what retro_run of
-- retro_core.c beside it makes of that number.
pub mod Drift
use blyt_planning.Prelude.{
  ℕ, zero, suc, ◌+◌, ◌-◌, ◌*◌, ◌/◌, ◌%◌, ◌^◌, ℤ, pos, negsuc, ltb, leb, ◌==◌, if◌then◌else◌,
}

-- `(int)v` of a 64-bit word.
abbrev pub to_int : ℕ → ℤ
to_int v = if ltb (v % 2 ^ 32) (2 ^ 31) then pos (v % 2 ^ 32) else negsuc (2 ^ 32 - 1 - v % 2 ^ 32)

abbrev pub ideal_after : ℕ → ℕ → ℕ → ℕ
ideal_after sample_rate declared_fps total_run_calls =
    (total_run_calls + 1) % 2 ^ 64 * sample_rate % 2 ^ 64 / declared_fps

unfoldable pub adapter_compute_audio_frames : ℕ → ℕ → ℕ → ℕ → ℤ
adapter_compute_audio_frames sample_rate declared_fps total_pushed total_run_calls =
    let ideal = ideal_after sample_rate declared_fps total_run_calls in
    if declared_fps == 0
    then pos 0
    else if leb ideal total_pushed
    then pos 0
    else to_int (ideal - total_pushed)

-- `total_audio_pushed` and `total_run_calls`.
pub record Pushed : Type 0 where
  pub frames : ℕ
  pub calls : ℕ

-- `if (target > max) target = max`
abbrev pub clamp : ℕ → ℤ → ℤ
clamp max (pos n) = if ltb max n then pos max else pos n
clamp max (negsuc n) = negsuc n

-- `total_audio_pushed += (uint64_t)n`
abbrev pub add_int : ℕ → ℤ → ℕ
add_int v (pos n) = (v + n) % 2 ^ 64
add_int v (negsuc n) = (v + (2 ^ 64 - 1 - n)) % 2 ^ 64

-- The number of frames that `blyt_runtime_pull_audio` of blyt_facade.c fills and returns.
abbrev pub pulled : ℤ → ℤ
pulled (pos n) = pos n
pulled (negsuc n) = pos 0

-- The audio of a run.
unfoldable pub push_audio : ℕ → ℕ → ℕ → Pushed → Pushed
unfolding adapter_compute_audio_frames
push_audio max_frames sample_rate declared_fps p =
    let target =
      clamp max_frames (adapter_compute_audio_frames sample_rate declared_fps p.frames p.calls) in
    record { frames = add_int p.frames (pulled target); calls = (p.calls + 1) % 2 ^ 64 }

-- The runs of a session.
unfoldable pub run_calls : ℕ → ℕ → ℕ → ℕ → Pushed
unfolding push_audio
run_calls max_frames sample_rate declared_fps zero = record { frames = 0; calls = 0 }
run_calls max_frames sample_rate declared_fps (suc n) =
    push_audio max_frames sample_rate declared_fps (run_calls max_frames sample_rate declared_fps n)
