-- ===== src/Regions/VoiceEndQueue/View.antt =====
-- The logical view: what `voice_is_playing` answers after each operation.
use Prim.Native.Nat.{bit_and, bit_or}
use native.Mathlib.Nat.{pow-succ'}
use native.Mathlib.Decide.{dec_lt}
use blyt_planning.Prelude.{
  ℕ, zero, suc, ◌*◌, ◌^◌, ◌<◌, ◌%◌, ◌+◌, ◌-◌, ◌≤◌, Bool, false, not, ◌&&◌, ◌||◌, List, [], ◌∷◌, ◌≡◌,
  refl, ap, ◌∙◌, arith, ◌==◌, if◌then◌else◌, get_or, All, sym,
}
use blyt_planning.Prelude.Bits.{
  bit, bit_set, bit_clear, bit_and-two_pow, bit_and-le, two_pow-pos, all_but, bit-lt, bit_and-zero,
  two_pow-lt, bit_or-lt, bit_above,
}
use blyt_planning.Regions.VoiceEndQueue.{
  VoiceEndEvent, VoiceEndQueue, no_event, voice_start, voice_is_playing, clear_ended,
  voice_end_apply_pending, handle_bit,
}
use blyt_planning.Regions.VoiceEndQueue.Fifo.{window, active}

-- An event of the list ends the voice.
abbrev pub ends : ℕ → List VoiceEndEvent → Bool
ends handle [] = false
ends handle (e ∷ es) = e.handle == handle || ends handle es

-- The view is a 64-bit word, and the handles of the events that count are below 64.
pub record IsView (q : VoiceEndQueue) : Type 0 where
  pub bits_fit : q.logical_view_bits < 2 ^ 64
  pub handles_fit : All (λ e. e.handle < 64) (active q)

scaled_bit : (b p : ℕ) → b < 2 → 0 < p → not (b * p == 0) ≡ (b == 1)
scaled_bit zero p h k = ground arith
scaled_bit (suc zero) p h k = ground arith
scaled_bit (suc (suc b)) p h k = absurd (omega arith)

handle_bit-two_pow : (handle : ℕ) → handle < 64 → handle_bit handle ≡ 2 ^ handle
handle_bit-two_pow handle lt = omega (arith, two_pow-lt handle 64 lt)

wrapped_two_pow : (k : ℕ) → 2 ^ (k + 64) % 2 ^ 64 ≡ 0
wrapped_two_pow zero = refl
wrapped_two_pow (suc k) =
    ap (λ h. 2 ^ h % 2 ^ 64) {x = suc k + 64} {y = suc (k + 64)} (omega arith)
    ∙ omega (arith, pow-succ' 2 (k + 64), wrapped_two_pow k)

handle_bit-zero : (handle : ℕ) → 64 ≤ handle → handle_bit handle ≡ 0
handle_bit-zero handle ge =
    ap (λ h. 2 ^ h % 2 ^ 64) {x = handle} {y = (handle - 64) + 64} (omega arith)
    ∙ wrapped_two_pow (handle - 64)

pub is_playing-bit :
    (handle : ℕ) (q : VoiceEndQueue)
    → q.logical_view_bits < 2 ^ 64
    → voice_is_playing handle q ≡ (bit q.logical_view_bits handle == 1)
unfolding voice_is_playing
is_playing-bit handle q fit = elim (dec_lt handle 64) [
  | yes lt ↦
      ap (λ t. not (bit_and q.logical_view_bits t == 0)) (handle_bit-two_pow handle lt)
      ∙ ap (λ t. not (t == 0)) (bit_and-two_pow handle q.logical_view_bits)
      ∙ scaled_bit (bit q.logical_view_bits handle) (2 ^ handle) (bit-lt q.logical_view_bits handle)
          (two_pow-pos handle)
  | no ge ↦
      ap (λ t. not (bit_and q.logical_view_bits t == 0)) (handle_bit-zero handle (omega arith))
      ∙ ap (λ t. not (t == 0)) (bit_and-zero q.logical_view_bits)
      ∙ ap (λ b. b == 1) {x = 0} (sym (bit_above 64 q.logical_view_bits handle fit (omega arith)))
]

-- Where the view is a 64-bit word and the handles are below 64, a started voice is playing, every
-- other voice is as it was, and the view is still a 64-bit word.
pub is_playing-voice_start :
    (handle j : ℕ) (q : VoiceEndQueue)
    → q.logical_view_bits < 2 ^ 64
    → handle < 64
    → j < 64
    → (voice_is_playing j (voice_start handle q) ≡ (handle == j || voice_is_playing j q))
      × ((voice_start handle q).logical_view_bits < 2 ^ 64)
unfolding voice_start
is_playing-voice_start handle j q fit lt jlt = (
  ground (
    arith,
    is_playing-bit j q fit,
    is_playing-bit j (voice_start handle q) still,
    ap (λ t. bit (bit_or q.logical_view_bits t) j) (handle_bit-two_pow handle lt),
    bit_set q.logical_view_bits handle j,
  ),
  still,
)
  where
    still : bit_or q.logical_view_bits (handle_bit handle) < 2 ^ 64
    still = bit_or-lt 64 q.logical_view_bits (handle_bit handle) fit (omega arith)

clear_ended_lem :
    (n i : ℕ) (pending : List VoiceEndEvent) (bits j : ℕ)
    → bits < 2 ^ 64
    → All (λ e. e.handle < 64) (window pending i n)
    → bit (clear_ended n i pending bits) j ≡ (if ends j (window pending i n) then 0 else bit bits j)
unfolding clear_ended
clear_ended_lem zero i pending bits j h a = refl
clear_ended_lem (suc n) i pending bits j h (k, a) =
    clear_ended_lem n (suc i) pending (bit_and bits (all_but 64 (get_or pending i no_event).handle))
      j (omega (arith, bit_and-le 64 bits (all_but 64 (get_or pending i no_event).handle) h)) a
    ∙ ground (arith, bit_clear 64 bits (get_or pending i no_event).handle j h k)

clear_ended-le :
    (n i : ℕ) (pending : List VoiceEndEvent) (bits : ℕ)
    → bits < 2 ^ 64
    → clear_ended n i pending bits ≤ bits
unfolding clear_ended
clear_ended-le zero i pending bits h = omega arith
clear_ended-le (suc n) i pending bits h =
    let mask = all_but 64 (get_or pending i no_event).handle in
    omega (
      arith,
      bit_and-le 64 bits mask h,
      clear_ended-le n (suc i) pending (bit_and bits mask)
          (omega (arith, bit_and-le 64 bits mask h)),
    )

-- Where the view is a 64-bit word and the pending handles are below 64, applying the pending
-- events leaves a voice playing exactly when it played and none of them names it, and empties the
-- FIFO.
pub is_playing-apply_pending :
    (j : ℕ) (q : VoiceEndQueue)
    → IsView q
    → (voice_is_playing j (voice_end_apply_pending q)
        ≡ (voice_is_playing j q && not (ends j (active q))))
      × (active (voice_end_apply_pending q) ≡ [])
unfolding voice_end_apply_pending
is_playing-apply_pending j q v = (
  ground (
    arith,
    is_playing-bit j q v.bits_fit,
    is_playing-bit j (voice_end_apply_pending q) (
        omega (
          arith,
          clear_ended-le q.pending_count 0 q.pending q.logical_view_bits v.bits_fit,
          v.bits_fit,
        )),
    clear_ended_lem q.pending_count 0 q.pending q.logical_view_bits j v.bits_fit v.handles_fit,
  ),
  refl,
)
