-- ===== src/Regions/VoiceEndQueue.antt =====
-- region_voice_end_queue.c: the logical view of the playing voices, and the FIFO of voice-end
-- events that the next update applies. A handle is below 64, as the shift of a 64-bit word wants, and
-- a count at most 8: only a refused `load` leaves a larger one, behind which the drivers stop and the
-- source's loops would read beyond the array.
pub mod Fifo
pub mod View
pub mod Image
use blyt_planning.Prelude.{
  ℕ, zero, suc, ◌+◌, ◌%◌, ◌^◌, Bool, true, false, not, some, List, [], ◌∷◌, ◌++◌, bit_and, bit_or,
  ltb, leb, ◌==◌, if◌then◌else◌, Bytes, codes, get_or, set, take, le_bytes,
}
use blyt_planning.Prelude.Bits.{all_but}
use blyt_planning.Tracked.{StringSink, TrackedRegion}
use blyt_planning.Tracked.Pieces.{text, number, char, emit_pieces}
use blyt_planning.Regions.Copy.{copy_out}

abbrev pub voice_end_pending_max : ℕ
voice_end_pending_max = 8

-- `voice_end_event_t`
pub record VoiceEndEvent : Type 0 where
  pub frame : ℕ
  pub handle : ℕ
  pub kind : ℕ

-- `runtime_voice_end_queue_t`; `pending` is the whole array, of which `pending_count` events count.
pub record VoiceEndQueue : Type 0 where
  pub logical_view_bits : ℕ
  pub pending_count : ℕ
  pub pending : List VoiceEndEvent

abbrev pub no_event : VoiceEndEvent
no_event = record { frame = 0; handle = 0; kind = 0 }

-- The loop of `voice_start` at index `i`, with `n` events left; `out` is the next place to keep one.
unfoldable pub compact : ℕ → ℕ → ℕ → ℕ → List VoiceEndEvent → ℕ × List VoiceEndEvent
compact zero i out handle pending = (out, pending)
compact (suc n) i out handle pending =
    let event = get_or pending i no_event in
    let keep = not (event.handle == handle) in
    compact n (suc i) (if keep then suc out else out) handle
      (if keep then set pending out event else pending)

-- `(uint64_t)1 << handle`, which the source defines below 64; a bit beyond the word is dropped.
abbrev pub handle_bit : ℕ → ℕ
handle_bit handle = 2 ^ handle % 2 ^ 64

unfoldable pub voice_start : ℕ → VoiceEndQueue → VoiceEndQueue
voice_start handle q =
    let (out, pending) = compact q.pending_count 0 0 handle q.pending in
    record {
      logical_view_bits = bit_or q.logical_view_bits (handle_bit handle);
      pending_count = out;
      pending = pending;
    }

unfoldable pub voice_is_playing : ℕ → VoiceEndQueue → Bool
voice_is_playing handle q = not (bit_and q.logical_view_bits (handle_bit handle) == 0)

-- The loop of `voice_end_apply_pending` at index `i`, with `n` events left, all in the array.
unfoldable pub clear_ended : ℕ → ℕ → List VoiceEndEvent → ℕ → ℕ
clear_ended zero i pending bits = bits
clear_ended (suc n) i pending bits =
    clear_ended n (suc i) pending (bit_and bits (all_but 64 (get_or pending i no_event).handle))

unfoldable pub voice_end_apply_pending : VoiceEndQueue → VoiceEndQueue
voice_end_apply_pending q = record q {
  logical_view_bits = clear_ended q.pending_count 0 q.pending q.logical_view_bits;
  pending_count = 0;
}

unfoldable pub voice_end_record : ℕ → ℕ → ℕ → VoiceEndQueue → VoiceEndQueue
voice_end_record frame handle kind q =
    if leb voice_end_pending_max q.pending_count then q else record q {
      pending =
          set q.pending q.pending_count (record { frame = frame; handle = handle; kind = kind });
      pending_count = q.pending_count + 1;
    }

-- The packed struct in memory: 8 + 1 + 8 * 6 bytes.
abbrev pub queue_size : ℕ
queue_size = 57

abbrev pub pending_count_offset : ℕ
pending_count_offset = 8

abbrev pub events_bytes : List VoiceEndEvent → Bytes
events_bytes [] = []
events_bytes (e ∷ es) =
    le_bytes 4 e.frame ++ (le_bytes 1 e.handle ++ (le_bytes 1 e.kind ++ events_bytes es))

abbrev pub queue_bytes : VoiceEndQueue → Bytes
queue_bytes q =
    le_bytes 8 q.logical_view_bits ++ (le_bytes 1 q.pending_count ++ events_bytes q.pending)

unfoldable pub describe : StringSink → StringSink
unfolding emit_pieces
describe = emit_pieces (
    text (codes "logical_view_bits:u64@")
    ∷ number 0
    ∷ char b','
    ∷ text (codes "pending_count:u8@")
    ∷ number pending_count_offset
    ∷ char b','
    ∷ text (codes "pending[8]={frame:u32,handle:u8,kind:u8}@")
    ∷ number 9
    ∷ [])

unfoldable pub save : Bytes → Bytes × Bytes
unfolding copy_out
save storage = copy_out storage

-- The copy is made first, and `pending_count` tested behind it.
unfoldable pub load : Bytes → ℕ → Bytes → Bool × Bytes
load src n storage =
    if not (n == queue_size)
    then (false, storage)
    else let loaded = take n src in
      if ltb voice_end_pending_max (get_or loaded pending_count_offset 0)
      then (false, loaded)
      else (true, loaded)

abbrev pub region_voice_end_queue : TrackedRegion
region_voice_end_queue = record {
  name = codes "voice_end_queue";
  size = queue_size;
  describe = some describe;
  save = save;
  load = load;
}
