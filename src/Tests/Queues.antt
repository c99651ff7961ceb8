-- ===== src/Tests/Queues.antt =====
-- The voice queue and the coroutine slots at concrete inputs.
use blyt_planning.AudioPush.{run_calls}
use blyt_planning.AudioPush.Drift.{run_calls_lem}
use blyt_planning.Prelude.{
  some, List, Bool, ◌*◌, ◌/◌, ℕ, ◌<◌, not, ◌&&◌, ◌||◌, [], ◌∷◌, ◌++◌, ◌≡◌, refl, arith, codes,
  replicate, ◌==◌, none, ◌^◌,
}
use blyt_planning.Prelude.Bits.{bit}
use blyt_planning.Mixer.{
  MixerEvent, ending, synthetic_mixer_report_end_of_frame, active-report_end_of_frame,
}
use blyt_planning.InputMap.{adapter_poll_button_mask}
use blyt_planning.InputMap.Mask.{adapter_poll_button_mask_lem}
use blyt_planning.SaveState.Regions.{Saves}
use blyt_planning.Regions.VoiceEndQueue.{
  VoiceEndEvent, VoiceEndQueue, no_event, voice_start, voice_is_playing, voice_end_apply_pending,
  voice_end_record, queue_bytes, region_voice_end_queue,
}
use blyt_planning.Regions.VoiceEndQueue.Fifo.{
  active, without, IsValid, active-voice_start, active-voice_end_record,
}
use blyt_planning.Regions.VoiceEndQueue.View.{
  ends, IsView, is_playing-voice_start, is_playing-apply_pending,
}
use blyt_planning.Regions.VoiceEndQueue.Image.{queue_bytes-Saves}
use blyt_planning.Regions.CoroutineBlob.{
  CoroutineBlob, coroutine_blob_activate, coroutine_blob_write, coroutine_blob_read,
}
use blyt_planning.Regions.CoroutineBlob.Slots.{read-activate-write}
use blyt_planning.Regions.ScreenShake.{FloatOps, ScreenShake, blyt_screen_shake, screen_shake_tick}
use blyt_planning.Regions.ScreenShake.Ticks.{ticked, decayed, shake-ends}

abbrev ended : ℕ → VoiceEndEvent
ended handle = record { frame = 9; handle = handle; kind = 1 }

-- Voices 3, 5 and 7 play; 5, 3 and 5 are pending.
abbrev pub busy : VoiceEndQueue
busy = record {
  logical_view_bits = 168;
  pending_count = 3;
  pending = ended 5 ∷ ended 3 ∷ ended 5 ∷ no_event ∷ no_event ∷ no_event ∷ no_event ∷ no_event ∷ [];
}

pub busy-IsValid : IsValid busy
busy-IsValid = record { places = refl; count_fits = omega arith }

busy-IsView : IsView busy
busy-IsView = record {
  bits_fit = omega arith;
  handles_fit = (omega arith, (omega arith, (omega arith, tt)));
}

active-voice_start_example : active (voice_start 5 busy) ≡ without 5 (active busy)
active-voice_start_example = active-voice_start 5 busy busy-IsValid

active-voice_end_record_example :
    (busy.pending_count < 8
      → active (voice_end_record 4 7 0 busy)
        ≡ active busy ++ record { frame = 4; handle = 7; kind = 0 } ∷ [])
    × (busy.pending_count ≡ 8 → voice_end_record 4 7 0 busy ≡ busy)
active-voice_end_record_example = active-voice_end_record 4 7 0 busy busy-IsValid

is_playing-voice_start_example :
    (voice_is_playing 5 (voice_start 6 busy) ≡ (6 == 5 || voice_is_playing 5 busy))
    × ((voice_start 6 busy).logical_view_bits < 2 ^ 64)
is_playing-voice_start_example =
    is_playing-voice_start 6 5 busy (omega arith) (omega arith) (omega arith)

is_playing-apply_pending_example :
    (voice_is_playing 5 (voice_end_apply_pending busy)
      ≡ (voice_is_playing 5 busy && not (ends 5 (active busy))))
    × (active (voice_end_apply_pending busy) ≡ [])
is_playing-apply_pending_example = is_playing-apply_pending 5 busy busy-IsView

queue_bytes-Saves_example :
    Saves (record { region = region_voice_end_queue; storage = queue_bytes busy })
queue_bytes-Saves_example = queue_bytes-Saves busy busy-IsValid

abbrev idle : CoroutineBlob
idle = record { active_slots_bits = 0; slots = replicate 4 (replicate 32 7) }

read-activate-write_example :
    coroutine_blob_read 2 3
      (coroutine_blob_activate 2 (coroutine_blob_write 2 (codes "abc") 3 idle))
    ≡ (1, codes "abc")
read-activate-write_example =
    read-activate-write idle 2 3 (codes "abc") (omega arith) (omega arith) refl (omega arith)
      (omega arith)

-- Stand-ins for the f32 operations.
abbrev integer_ops : FloatOps
integer_ops = record { mul = λ x y. x; sub = λ x y. x; of_u32 = λ x. x }

abbrev still : ScreenShake
still = record { remaining_frames = 0; intensity = 0; decay = 0; seed = 0 }

shake-ends_example :
    (ticked integer_ops 3 100 (blyt_screen_shake 3 0x40000000 still)).remaining_frames ≡ 0
    × ((ticked integer_ops 3 100 (blyt_screen_shake 3 0x40000000 still)).intensity
        ≡ decayed integer_ops 3 0x3f733333 0x40000000)
    × (screen_shake_tick integer_ops 200
          (ticked integer_ops 3 100 (blyt_screen_shake 3 0x40000000 still))
        ≡ (0, 0, ticked integer_ops 3 100 (blyt_screen_shake 3 0x40000000 still)))
shake-ends_example = shake-ends integer_ops still 3 0x40000000 100 200 (omega arith)

abbrev schedule : List MixerEvent
schedule =
    record { handle = 3; ends_at_frame = 9 }
    ∷ record { handle = 4; ends_at_frame = 8 }
    ∷ record { handle = 7; ends_at_frame = 9 }
    ∷ []

active-report_end_of_frame_example :
    active (synthetic_mixer_report_end_of_frame schedule 9 8 busy).1
    ≡ active busy ++ ending schedule 9
active-report_end_of_frame_example =
    active-report_end_of_frame schedule 9 8 busy busy-IsValid (omega arith)

-- South, the console's A, and the up button are held.
abbrev held : ℕ → Bool
held id = id == 0 || id == 4

adapter_poll_button_mask_lem_example :
    (bit (adapter_poll_button_mask (some held)) 4 ≡ 1) × (bit (adapter_poll_button_mask none) 4 ≡ 0)
adapter_poll_button_mask_lem_example = adapter_poll_button_mask_lem held 4

run_calls_lem_example : run_calls 4096 48000 60 7 ≡ record { frames = 7 * 48000 / 60; calls = 7 }
run_calls_lem_example =
    run_calls_lem 60 (omega arith) 4096 48000 7 (omega arith) (omega arith) (omega arith)
      (omega arith)
