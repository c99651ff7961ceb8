-- ===== src/Regions/VoiceEndQueue/Fifo.antt =====
-- The pending FIFO as the list of the events that count.
use blyt_planning.Prelude.{
  ℕ, zero, suc, ◌+◌, ◌≤◌, ◌<◌, Bool, true, false, not, List, [], ◌∷◌, ◌++◌, ◌≡◌, refl, sym, ap, ap₂,
  ◌∙◌, arith, inl, inr, ◌==◌, if◌then◌else◌, Bool-cases, length, get_or, set, get_or-set_self,
  get_or-set_ne, length-set, leb,
}
use mathlib.Core.List.{append_assoc, append-nil}
use blyt_planning.Regions.VoiceEndQueue.{
  VoiceEndEvent, VoiceEndQueue, no_event, compact, voice_start, voice_end_apply_pending,
  voice_end_record,
}

-- The `n` events from index `i` on.
abbrev pub window : List VoiceEndEvent → ℕ → ℕ → List VoiceEndEvent
window pending i zero = []
window pending i (suc n) = get_or pending i no_event ∷ window pending (suc i) n

-- The events that count, in the order in which they were recorded.
abbrev pub active : VoiceEndQueue → List VoiceEndEvent
active q = window q.pending 0 q.pending_count

-- The events of other handles.
abbrev pub without : ℕ → List VoiceEndEvent → List VoiceEndEvent
without handle [] = []
without handle (e ∷ es) =
    let rest = without handle es in if not (e.handle == handle) then e ∷ rest else rest

window-set_before :
    (pending : List VoiceEndEvent) (k i n : ℕ) (e : VoiceEndEvent)
    → k < i
    → window (set pending k e) i n ≡ window pending i n
window-set_before pending k i zero e h = refl
window-set_before pending k i (suc n) e h =
    ap₂ ◌∷◌ (get_or-set_ne pending k i e no_event (omega arith))
      (window-set_before pending k (suc i) n e (omega arith))

window-set_behind :
    (pending : List VoiceEndEvent) (k i n : ℕ) (e : VoiceEndEvent)
    → i + n ≤ k
    → window (set pending k e) i n ≡ window pending i n
window-set_behind pending k i zero e h = refl
window-set_behind pending k i (suc n) e h =
    ap₂ ◌∷◌ (get_or-set_ne pending k i e no_event (omega arith))
      (window-set_behind pending k (suc i) n e (omega arith))

window-suc :
    (pending : List VoiceEndEvent) (i n : ℕ)
    → window pending i (suc n) ≡ window pending i n ++ get_or pending (i + n) no_event ∷ []
window-suc pending i zero = ap (λ k. get_or pending k no_event ∷ []) {x = i} (omega arith)
window-suc pending i (suc n) =
    ap (λ l. get_or pending i no_event ∷ l)
      (window-suc pending (suc i) n
        ∙ ap (λ k. window pending (suc i) n ++ get_or pending k no_event ∷ []) {x = suc i + n}
            (omega arith))

-- Putting an event just behind the window extends it.
window-set_next :
    (pending : List VoiceEndEvent) (n : ℕ) (e : VoiceEndEvent)
    → n < length pending
    → window (set pending n e) 0 (suc n) ≡ window pending 0 n ++ e ∷ []
window-set_next pending n e h =
    window-suc (set pending n e) 0 n
    ∙ ap₂ (λ l x. l ++ x ∷ []) (window-set_behind pending n 0 n e (omega arith))
        (ap (λ k. get_or (set pending n e) k no_event) {x = 0 + n} (omega arith)
          ∙ get_or-set_self pending n e no_event h)

-- The loop of `voice_start` keeps the events of other handles, in order, and stays in the array.
pub record Compacted (n i out handle : ℕ) (pending : List VoiceEndEvent) : Type 0 where
  pub kept :
      window (compact n i out handle pending).1 0 (compact n i out handle pending).0
      ≡ window pending 0 out ++ without handle (window pending i n)
  pub count_le : (compact n i out handle pending).0 ≤ out + n
  pub same_length : length (compact n i out handle pending).1 ≡ length pending

compact_nil : (i out handle : ℕ) (pending : List VoiceEndEvent) → Compacted 0 i out handle pending
unfolding compact
compact_nil i out handle pending = record {
  kept = sym (append-nil _);
  count_le = omega arith;
  same_length = refl;
}

compact_step :
    (n i out handle : ℕ) (pending : List VoiceEndEvent) {keep : Bool}
    → not ((get_or pending i no_event).handle == handle) ≡ keep
    → compact (suc n) i out handle pending
      ≡ compact n
          (suc i)
          (if keep then suc out else out)
          handle
          (if keep then set pending out (get_or pending i no_event) else pending)
unfolding compact
compact_step n i out handle pending e =
    ap
      (λ b.
        compact n (suc i) (if b then suc out else out) handle
          (if b then set pending out (get_or pending i no_event) else pending))
      e

without_step :
    (handle : ℕ) (e : VoiceEndEvent) (es : List VoiceEndEvent) {keep : Bool}
    → not (e.handle == handle) ≡ keep
    → without handle (e ∷ es) ≡ (if keep then e ∷ without handle es else without handle es)
without_step handle e es h = ap (λ b. if b then e ∷ without handle es else without handle es) h

compact_lem :
    (n i out handle : ℕ) (pending : List VoiceEndEvent)
    → out ≤ i
    → i + n ≤ length pending
    → Compacted n i out handle pending
compact_lem zero i out handle pending h k = compact_nil i out handle pending
compact_lem (suc n) i out handle pending h k =
    elim (Bool-cases (not ((get_or pending i no_event).handle == handle))) [
      | inl e ↦ kept_event (compact_step n i out handle pending e) e (
          compact_lem n (suc i) (suc out) handle (set pending out (get_or pending i no_event))
            (omega arith) (omega (arith, length-set pending out (get_or pending i no_event))))
      | inr e ↦
          dropped_event (compact_step n i out handle pending e) e
            (compact_lem n (suc i) out handle pending (omega arith) (omega arith))
    ]
  where
    event : VoiceEndEvent
    event = get_or pending i no_event

    kept_event :
        compact (suc n) i out handle pending
          ≡ compact n (suc i) (suc out) handle (set pending out event)
        → not (event.handle == handle) ≡ true
        → Compacted n (suc i) (suc out) handle (set pending out event)
        → Compacted (suc n) i out handle pending
    kept_event step e c = record {
      kept =
          ap (λ r. window r.1 0 r.0) step
          ∙ c.kept
          ∙ ap₂ (λ a b. a ++ without handle b) (window-set_next pending out event (omega arith))
              (window-set_before pending out (suc i) n event (omega arith))
          ∙ append_assoc (window pending 0 out) (event ∷ [])
              (without handle (window pending (suc i) n))
          ∙ ap (λ l. window pending 0 out ++ l)
              (sym (without_step handle event (window pending (suc i) n) e));
      count_le = omega (arith, ap (λ r. r.0) step, c.count_le);
      same_length = ap (λ r. length r.1) step ∙ c.same_length ∙ length-set pending out event;
    }

    dropped_event :
        compact (suc n) i out handle pending ≡ compact n (suc i) out handle pending
        → not (event.handle == handle) ≡ false
        → Compacted n (suc i) out handle pending
        → Compacted (suc n) i out handle pending
    dropped_event step e c = record {
      kept =
          ap (λ r. window r.1 0 r.0) step
          ∙ c.kept
          ∙ ap (λ l. window pending 0 out ++ l)
              (sym (without_step handle event (window pending (suc i) n) e));
      count_le = omega (arith, ap (λ r. r.0) step, c.count_le);
      same_length = ap (λ r. length r.1) step ∙ c.same_length;
    }

-- The count is within the array, which has its eight places.
pub record IsValid (q : VoiceEndQueue) : Type 0 where
  pub places : length q.pending ≡ 8
  pub count_fits : q.pending_count ≤ 8

-- On a queue whose count and array are in range, starting a voice drops its own pending events and
-- keeps all others in order.
pub active-voice_start :
    (handle : ℕ) (q : VoiceEndQueue)
    → IsValid q
    → active (voice_start handle q) ≡ without handle (active q)
unfolding voice_start
active-voice_start handle q v =
    (compact_lem q.pending_count 0 0 handle q.pending (omega arith) (omega arith)).kept

pub voice_start-IsValid :
    (handle : ℕ) (q : VoiceEndQueue) → IsValid q → IsValid (voice_start handle q)
unfolding voice_start
voice_start-IsValid handle q v =
    let c = compact_lem q.pending_count 0 0 handle q.pending (omega arith) (omega arith) in
    record { places = c.same_length ∙ v.places; count_fits = omega (arith, c.count_le) }

-- On a queue whose count and array are in range, an event is appended behind the pending ones
-- while fewer than 8 are, and at 8 the queue is left as it was.
pub active-voice_end_record :
    (frame handle kind : ℕ) (q : VoiceEndQueue)
    → IsValid q
    → (q.pending_count < 8
        → active (voice_end_record frame handle kind q)
          ≡ active q ++ record { frame = frame; handle = handle; kind = kind } ∷ [])
      × (q.pending_count ≡ 8 → voice_end_record frame handle kind q ≡ q)
unfolding voice_end_record
active-voice_end_record frame handle kind q v = (
  λ h. rw (room h) (
      ap (window (set q.pending q.pending_count event) 0) {y = suc q.pending_count} (omega arith)
      ∙ window-set_next q.pending q.pending_count event (omega arith)),
  λ h. ground arith,
)
  where
    event : VoiceEndEvent
    event = record { frame = frame; handle = handle; kind = kind }

    room : q.pending_count < 8 → leb 8 q.pending_count ≡ false
    room h = ground arith

pub voice_end_record-IsValid :
    (frame handle kind : ℕ) (q : VoiceEndQueue)
    → IsValid q
    → IsValid (voice_end_record frame handle kind q)
unfolding voice_end_record
voice_end_record-IsValid frame handle kind q v = ground (
  arith,
  length-set q.pending q.pending_count (record { frame = frame; handle = handle; kind = kind }),
)

pub voice_end_apply_pending-IsValid :
    (q : VoiceEndQueue) → IsValid q → IsValid (voice_end_apply_pending q)
unfolding voice_end_apply_pending
voice_end_apply_pending-IsValid q v = record { places = v.places; count_fits = omega arith }
