-- ===== src/Mixer.antt =====
-- synthetic_mixer.c (spikes/spike-k/lib): the schedule of voice ends that feeds the queue.
use mathlib.Core.Path.{subst}
use mathlib.Core.List.{append-nil, append_assoc}
use blyt_planning.Prelude.{
  ℕ, suc, ◌+◌, ◌≤◌, List, [], ◌∷◌, ◌++◌, ◌≡◌, refl, sym, ap, ◌∙◌, arith, inl, inr, length, ◌==◌,
  if◌then◌else◌, Bool-cases, true, false, ◌<◌, lt→leb_false, Bool,
}
use blyt_planning.Regions.VoiceEndQueue.{VoiceEndEvent, VoiceEndQueue, voice_end_record}
use blyt_planning.Regions.VoiceEndQueue.Fifo.{
  active, IsValid, active-voice_end_record, voice_end_record-IsValid,
}

-- `synthetic_mixer_event_t`
pub record MixerEvent : Type 0 where
  pub handle : ℕ
  pub ends_at_frame : ℕ

-- `g_mixer_frame` after `synthetic_mixer_init` and `synthetic_mixer_resync`.
abbrev pub synthetic_mixer_init : ℕ → ℕ
synthetic_mixer_init g_mixer_frame = 0

abbrev pub synthetic_mixer_resync : ℕ → ℕ → ℕ
synthetic_mixer_resync f g_mixer_frame = f

-- The loop over the schedule.
unfoldable pub report_ends : List MixerEvent → ℕ → VoiceEndQueue → VoiceEndQueue
report_ends [] frame q = q
report_ends (e ∷ es) frame q =
    report_ends es frame
      (if e.ends_at_frame == frame then voice_end_record frame e.handle 0 q else q)

-- The mixer's frame and the queue.
unfoldable pub synthetic_mixer_report_end_of_frame :
    List MixerEvent → ℕ → ℕ → VoiceEndQueue → ℕ × VoiceEndQueue
unfolding report_ends
synthetic_mixer_report_end_of_frame schedule frame g_mixer_frame q =
    (frame, report_ends schedule frame q)

-- The events that a frame ends, in the order of the schedule.
abbrev pub ending : List MixerEvent → ℕ → List VoiceEndEvent
ending [] frame = []
ending (e ∷ es) frame =
    if e.ends_at_frame == frame
    then record { frame = frame; handle = e.handle; kind = 0 } ∷ ending es frame
    else ending es frame

count-record :
    (frame handle kind : ℕ) (q : VoiceEndQueue)
    → q.pending_count < 8
    → (voice_end_record frame handle kind q).pending_count ≡ q.pending_count + 1
unfolding voice_end_record
count-record frame handle kind q h = rw (lt→leb_false 8 q.pending_count h) refl

report_ends_lem :
    (schedule : List MixerEvent) (frame : ℕ) (q : VoiceEndQueue)
    → IsValid q
    → q.pending_count + length (ending schedule frame) ≤ 8
    → active (report_ends schedule frame q) ≡ active q ++ ending schedule frame
unfolding report_ends
report_ends_lem [] frame q v h = sym (append-nil (active q))
report_ends_lem (e ∷ es) frame q v h = elim (Bool-cases (e.ends_at_frame == frame)) [
  | inl t ↦
      let k : q.pending_count + suc (length (ending es frame)) ≤ 8 =
        subst (λ l. q.pending_count + length l ≤ 8) (taken t) h in
      tested t
      ∙ report_ends_lem es frame (voice_end_record frame e.handle 0 q)
          (voice_end_record-IsValid frame e.handle 0 q v)
          (omega (arith, count-record frame e.handle 0 q (omega arith)))
      ∙ ap (λ l. l ++ ending es frame)
          ((active-voice_end_record frame e.handle 0 q v).0 (omega arith))
      ∙ append_assoc (active q) (event ∷ []) (ending es frame)
      ∙ ap (◌++◌ (active q)) (sym (taken t))
  | inr t ↦
      tested t
      ∙ report_ends_lem es frame q v (subst (λ l. q.pending_count + length l ≤ 8) (passed t) h)
      ∙ ap (◌++◌ (active q)) (sym (passed t))
]
  where
    event : VoiceEndEvent
    event = record { frame = frame; handle = e.handle; kind = 0 }

    tested :
        {b : Bool}
        → (e.ends_at_frame == frame) ≡ b
        → active (report_ends (e ∷ es) frame q)
          ≡ active (report_ends es frame (if b then voice_end_record frame e.handle 0 q else q))
    tested t =
        ap
          (λ c.
            active (report_ends es frame (if c then voice_end_record frame e.handle 0 q else q)))
          t

    taken : (e.ends_at_frame == frame) ≡ true → ending (e ∷ es) frame ≡ event ∷ ending es frame
    taken t = rw t refl

    passed : (e.ends_at_frame == frame) ≡ false → ending (e ∷ es) frame ≡ ending es frame
    passed t = rw t refl

-- On a queue whose count and array are in range, with room for them, the end of a frame appends
-- the events that the schedule ends at it, in the order of the schedule, and no other.
pub active-report_end_of_frame :
    (schedule : List MixerEvent) (frame g_mixer_frame : ℕ) (q : VoiceEndQueue)
    → IsValid q
    → q.pending_count + length (ending schedule frame) ≤ 8
    → active (synthetic_mixer_report_end_of_frame schedule frame g_mixer_frame q).1
      ≡ active q ++ ending schedule frame
unfolding synthetic_mixer_report_end_of_frame
active-report_end_of_frame schedule frame g_mixer_frame q v h = report_ends_lem schedule frame q v h
