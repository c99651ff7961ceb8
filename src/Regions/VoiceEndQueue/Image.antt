-- ===== src/Regions/VoiceEndQueue/Image.antt =====
-- The region's callbacks on the image of a queue, and on an image whose count is out of range.
use blyt_planning.Prelude.{
  if◌then◌else◌, some, drop, lt→ltb, le→ltb_false, take-append_of_eq, ℕ, ◌+◌, ◌*◌, ◌≤◌, ◌<◌, true,
  false, List, [], ◌∷◌, ◌≡◌, refl, ap, ◌∙◌, arith, Bytes, length, get_or, take, lt→ltb, ltb, ◌%◌,
}
use blyt_planning.Tracked.{Slot}
use blyt_planning.SaveState.{
  Runtime, read_header, header_size, layout_hash_of, save_state_load, load_regions,
}
use blyt_planning.SaveState.Init.{WellCached}
use blyt_planning.SaveState.Gates.{Accepted, load_accepts}
use blyt_planning.SaveState.Regions.{slot_of, load_regions_refused, Saves}
use blyt_planning.Regions.VoiceEndQueue.{
  VoiceEndEvent, VoiceEndQueue, queue_size, pending_count_offset, events_bytes, queue_bytes, save,
  load, region_voice_end_queue,
}
use blyt_planning.Regions.VoiceEndQueue.Fifo.{IsValid}

length-events_bytes : (es : List VoiceEndEvent) → length (events_bytes es) ≡ 6 * length es
length-events_bytes [] = omega arith
length-events_bytes (e ∷ es) = omega (arith, length-events_bytes es)

length-queue_bytes : (q : VoiceEndQueue) → IsValid q → length (queue_bytes q) ≡ queue_size
length-queue_bytes q v = omega (arith, length-events_bytes q.pending, v.places)

-- A corrupt buffer whose count exceeds the FIFO is refused, but only once it has been
-- copied over the queue: the region is left holding the refused bytes.
pub load_corrupt :
    (src storage : Bytes)
    → 8 < get_or (take queue_size src) pending_count_offset 0
    → load src queue_size storage ≡ (false, take queue_size src)
unfolding load
load_corrupt src storage h = rw (lt→ltb _ _ h)

-- The region keeps the save contract on the image of a queue whose count and array are in range:
-- the save writes `size` bytes, and loading them, over any storage, is accepted and gives that
-- image.
pub queue_bytes-Saves :
    (q : VoiceEndQueue)
    → IsValid q
    → Saves (record { region = region_voice_end_queue; storage = queue_bytes q })
unfolding save load
queue_bytes-Saves q v = record {
  save_length = length-queue_bytes q v;
  load_save = λ rest old.
      ap (λ l. if ltb 8 (get_or l pending_count_offset 0) then (false, l) else (true, l))
        (take-append_of_eq queue_size (queue_bytes q) rest (length-queue_bytes q v))
      ∙ ap (λ b. if b then (false, queue_bytes q) else (true, queue_bytes q))
          (le→ltb_false 8 (q.pending_count % 256) (omega (arith, v.count_fits)));
}

-- `save_state_load` is not atomic: with the queue first in the registry and a hash cached or to be
-- computed, a buffer that passes every gate, and whose queue claims more than 8 pending events,
-- makes it return 0, and the queue then holds the refused bytes.
pub load_refused_but_written :
    (buf : Bytes) (size hash : ℕ) (storage : Bytes) (slots : List Slot) (rt : Runtime)
    → rt.slots ≡ record { region = region_voice_end_queue; storage = storage } ∷ slots
    → WellCached rt
    → layout_hash_of rt.slots ≡ some hash
    → Accepted buf size hash rt.slots
    → header_size + queue_size ≤ (read_header buf).total_size
    → 8 < get_or (take queue_size (drop header_size buf)) pending_count_offset 0
    → (rt' : Runtime) × (save_state_load buf size rt ≡ some (false, rt'))
      × (rt'.slots
          ≡ record {
            region = region_voice_end_queue;
            storage = take queue_size (drop header_size buf);
          }
            ∷ slots)
load_refused_but_written buf size hash storage slots rt e w h acc room bad = (
  record rt { slots = refused ∷ slots; layout_hash = hash; initialized = true },
  load_accepts buf size rt hash w h acc
      ∙ ap (λ q. some (q.0, record rt { slots = q.1; layout_hash = hash; initialized = true }))
          (ap (λ l. load_regions l buf header_size (read_header buf).total_size) e
            ∙ load_regions_refused (slot_of region_voice_end_queue storage) slots buf header_size
                (read_header buf).total_size (load_corrupt (drop header_size buf) storage bad)
                room),
  refl,
)
  where
    refused : Slot
    refused = slot_of region_voice_end_queue (take queue_size (drop header_size buf))
