-- ===== src/Regions/CoroutineBlob.antt =====
-- region_coroutine_save_blob.c: four slots of 32 bytes and a word with a bit per slot. A slot is a
-- `uint8_t`.
pub mod Slots
use blyt_planning.Prelude.{
  ℕ, ◌^◌, Bool, true, false, some, List, [], ◌∷◌, bit_or, bit_and, ltb, leb, ◌==◌, if◌then◌else◌,
  Bytes, codes, get_or, set, take, write_at,
}
use blyt_planning.Tracked.{StringSink, TrackedRegion}
use blyt_planning.Tracked.Pieces.{text, number, char, emit_pieces}
use blyt_planning.Regions.Copy.{copy_in, copy_out}

abbrev pub coroutine_save_blob_max_slots : ℕ
coroutine_save_blob_max_slots = 4

abbrev pub coroutine_save_blob_slot_size : ℕ
coroutine_save_blob_slot_size = 32

-- `runtime_coroutine_save_blob_t`
pub record CoroutineBlob : Type 0 where
  pub active_slots_bits : ℕ
  pub slots : List Bytes

unfoldable pub coroutine_blob_activate : ℕ → CoroutineBlob → CoroutineBlob
coroutine_blob_activate slot g =
    if leb coroutine_save_blob_max_slots slot
    then g
    else record g { active_slots_bits = bit_or g.active_slots_bits (2 ^ slot) }

-- `if (n > COROUTINE_SAVE_BLOB_SLOT_SIZE) n = COROUTINE_SAVE_BLOB_SLOT_SIZE;`
abbrev pub clamped : ℕ → ℕ
clamped n = if ltb coroutine_save_blob_slot_size n then coroutine_save_blob_slot_size else n

unfoldable pub coroutine_blob_write : ℕ → Bytes → ℕ → CoroutineBlob → CoroutineBlob
coroutine_blob_write slot src n g = if leb coroutine_save_blob_max_slots slot then g else record g {
  slots = set g.slots slot (write_at (get_or g.slots slot []) 0 (take (clamped n) src));
}

-- The value returned, with the bytes written to `dst`.
unfoldable pub coroutine_blob_read : ℕ → ℕ → CoroutineBlob → ℕ × Bytes
coroutine_blob_read slot n g =
    if leb coroutine_save_blob_max_slots slot
    then (0, [])
    else if bit_and g.active_slots_bits (2 ^ slot) == 0
    then (0, [])
    else (1, take (clamped n) (get_or g.slots slot []))

unfoldable pub coroutine_blob_is_active : ℕ → CoroutineBlob → ℕ
coroutine_blob_is_active slot g =
    if leb coroutine_save_blob_max_slots slot
    then 0
    else if bit_and g.active_slots_bits (2 ^ slot) == 0
    then 0
    else 1

-- 4 + 4 * 32 bytes.
abbrev pub region_size : ℕ
region_size = 132

unfoldable pub describe : StringSink → StringSink
unfolding emit_pieces
describe = emit_pieces (
    text (codes "active_slots_bits:u32@")
    ∷ number 0
    ∷ char b','
    ∷ text (codes "slots[")
    ∷ number coroutine_save_blob_max_slots
    ∷ text (codes "][")
    ∷ number coroutine_save_blob_slot_size
    ∷ text (codes "]:u8@")
    ∷ number 4
    ∷ [])

unfoldable pub save : Bytes → Bytes × Bytes
unfolding copy_out
save storage = copy_out storage

unfoldable pub load : Bytes → ℕ → Bytes → Bool × Bytes
unfolding copy_in
load src n storage = copy_in region_size src n storage

abbrev pub region_coroutine_save_blob : TrackedRegion
region_coroutine_save_blob = record {
  name = codes "coroutine_save_blob";
  size = region_size;
  describe = some describe;
  save = save;
  load = load;
}
