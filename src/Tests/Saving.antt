-- ===== src/Tests/Saving.antt =====
-- Saving and loading at concrete inputs.
use blyt_planning.Prelude.{
  ℕ, ◌+◌, ◌≤◌, ◌<◌, true, false, some, [], ◌∷◌, ◌++◌, ◌≡◌, refl, arith, Bytes, replicate, take,
  drop, le_bytes, ◌%◌, le_bytes-IsBytes, leb, ◌&&◌,
}
use blyt_planning.Tracked.{TrackedRegion, Slot}
use blyt_planning.SaveState.{
  Runtime, Saved, header_size, header_bytes, layout_hash_of, save_state_magic, save_state_save,
  save_state_load,
}
use blyt_planning.SaveState.Init.{WellCached}
use blyt_planning.SaveState.Regions.{sizes, slot_of}
use blyt_planning.SaveState.Gates.{Accepted, load_refuses}
use blyt_planning.SaveState.RoundTrip.{load-save}
use blyt_planning.SaveIo.{save_io_parse_hex}
use blyt_planning.SaveIo.Emit.{save_state_emit_hex}
use blyt_planning.SaveIo.RoundTrip.{AreDigits, parse_hex-emit_hex}
use blyt_planning.Regions.VoiceEndQueue.{
  queue_bytes, queue_size, pending_count_offset, region_voice_end_queue,
}
use blyt_planning.Regions.VoiceEndQueue.Image.{queue_bytes-Saves, load_refused_but_written}
use blyt_planning.Tests.Queues.{busy, busy-IsValid}

abbrev pub fresh : Bytes → Runtime
fresh storage = record {
  slots = slot_of region_voice_end_queue storage ∷ [];
  layout_hash = 0;
  initialized = false;
}

fresh-WellCached : (storage : Bytes) → WellCached (fresh storage)
fresh-WellCached storage e = absurd (false_not_true e)
  where
    false_not_true : false ≡ true → ⊥
    false_not_true p = ground arith

abbrev queue_hash : ℕ
queue_hash = 13463464381577628920

queue_hash-right : (storage : Bytes) → layout_hash_of (fresh storage).slots ≡ some queue_hash
unfolding layout_hash_of blyt_planning.Tracked.runtime_tracked_describe
    blyt_planning.Regions.VoiceEndQueue.describe blyt_planning.Tracked.put_reversed
    blyt_planning.Tracked.decimal_digits blyt_planning.Det.Fnv.fnv1a_64_bytes
queue_hash-right storage = refl

abbrev room : Bytes
room = replicate 81 0

abbrev blank : Bytes
blank = replicate 57 0

load-save_example :
    (saved : Saved) × (save_state_save room 81 7 (fresh (queue_bytes busy)) ≡ some saved)
    × (saved.written ≡ header_size + sizes (fresh (queue_bytes busy)).slots)
    × ((size : ℕ)
        → saved.written ≤ size
        → save_state_load saved.buf size (fresh blank) ≡ some (true, saved.runtime))
load-save_example =
    load-save room 81 7 (fresh (queue_bytes busy)) (fresh blank) queue_hash
      (queue_bytes-Saves busy busy-IsValid, tt) (refl, tt) (fresh-WellCached (queue_bytes busy))
      (fresh-WellCached blank) (queue_hash-right (queue_bytes busy)) (omega arith) (omega arith)
      (omega arith) (omega arith)

-- A buffer with the header of version 2.
abbrev old_version : Bytes
old_version = le_bytes 4 save_state_magic ++ (le_bytes 4 2 ++ replicate 73 0)

load_refuses_example :
    (rt' : Runtime) × (save_state_load old_version 81 (fresh blank) ≡ some (false, rt'))
    × (rt'.slots ≡ (fresh blank).slots)
load_refuses_example =
    load_refuses old_version 81 (fresh blank) queue_hash (fresh-WellCached blank)
      (queue_hash-right blank) (λ v. absurd (omega (arith, v.version_right)))

-- A save whose queue claims nine pending events.
abbrev corrupt : Bytes
corrupt =
    header_bytes (record {
      magic = save_state_magic;
      version = 1;
      layout_hash = queue_hash;
      frame = 7;
      total_size = 81;
    })
    ++ (replicate 8 0 ++ (9 ∷ replicate 48 0))

corrupt-Accepted : Accepted corrupt 81 queue_hash (fresh blank).slots
unfolding blyt_planning.Tracked.runtime_tracked_total_size
corrupt-Accepted = record {
  header_fits = omega arith;
  magic_right = refl;
  version_right = refl;
  hash_right = refl;
  total_fits = omega arith;
  total_right = refl;
}

load_refused_but_written_example :
    (rt' : Runtime) × (save_state_load corrupt 81 (fresh blank) ≡ some (false, rt'))
    × (rt'.slots ≡ slot_of region_voice_end_queue (take queue_size (drop header_size corrupt)) ∷ [])
load_refused_but_written_example =
    load_refused_but_written corrupt 81 queue_hash blank [] (fresh blank) refl
      (fresh-WellCached blank) (queue_hash-right blank) corrupt-Accepted (omega arith) (omega arith)

-- printf's `%u`, for a frame below 10.
abbrev one_digit : ℕ → Bytes
one_digit n = (48 + n % 10) ∷ []

one_digit-AreDigits : (n : ℕ) → AreDigits (one_digit n)
one_digit-AreDigits n = (digit (n % 10) (omega arith), tt)
  where
    digit : (d : ℕ) → d < 10 → (leb b'0' (48 + d) && leb (48 + d) b'9') ≡ true
    digit d h = ground arith

abbrev image : Bytes
image = le_bytes 24 0x0123456789abcdef00fedcba98765432

parse_hex-emit_hex_example :
    save_io_parse_hex (save_state_emit_hex one_digit image 20) 100
    ≡ record { result = some 20; decoded = take 20 image }
parse_hex-emit_hex_example =
    parse_hex-emit_hex one_digit one_digit-AreDigits image 20 100
      (le_bytes-IsBytes 24 0x0123456789abcdef00fedcba98765432) (omega arith) (omega arith)
