-- ===== src/Regions/PersistentScripts.antt =====
-- region_persistent_scripts.c (spikes/spike-m/cart_runtime): the slot table of the persistent
-- scripts' blobs.
pub mod Alloc
pub mod Blob
pub mod Resume
use blyt_planning.Prelude.{
  ℕ, zero, suc, ◌+◌, ◌-◌, ◌*◌, ◌/◌, ◌%◌, ◌^◌, ℤ, pos, negsuc, Bool, true, false, not, some, List,
  [], ◌∷◌, ◌++◌, bit_or, bit_and, ltb, ◌==◌, if◌then◌else◌, Bytes, codes, get_or, set, take, drop,
  joined, replicate, write_at, le_bytes,
}
use blyt_planning.Prelude.Bits.{all_but}
use blyt_planning.Tracked.{StringSink, TrackedRegion}
use blyt_planning.Tracked.Pieces.{text, number, char, emit_pieces}
use blyt_planning.Regions.Copy.{copy_in, copy_out}

abbrev pub max_persistent_scripts : ℕ
max_persistent_scripts = 64

abbrev pub persistent_script_slot_bytes : ℕ
persistent_script_slot_bytes = 256

-- `runtime_persistent_scripts_t`
pub record PersistentScripts : Type 0 where
  pub active_bits : List ℕ
  pub slot_lens : List ℕ
  pub slots : List Bytes

abbrev pub no_scripts : PersistentScripts
no_scripts = record {
  active_bits = replicate 2 0;
  slot_lens = replicate max_persistent_scripts 0;
  slots = replicate max_persistent_scripts (replicate persistent_script_slot_bytes 0);
}

abbrev pub persistent_scripts_reset : PersistentScripts → PersistentScripts
persistent_scripts_reset g = no_scripts

unfoldable pub persistent_scripts_unmark_all : PersistentScripts → PersistentScripts
persistent_scripts_unmark_all g = record g { active_bits = set (set g.active_bits 0 0) 1 0 }

abbrev pub slot_in_range : ℤ → Bool
slot_in_range (negsuc k) = false
slot_in_range (pos s) = ltb s max_persistent_scripts

-- A slot as an array index; one that is out of range is never used.
abbrev pub index : ℤ → ℕ
index (negsuc k) = 0
index (pos s) = s

unfoldable pub bit_get : ℕ → PersistentScripts → ℕ
bit_get s g = get_or g.active_bits (s / 32) 0 / 2 ^ (s % 32) % 2

unfoldable pub bit_set : ℕ → PersistentScripts → PersistentScripts
bit_set s g = record g {
  active_bits =
      set g.active_bits (s / 32) (bit_or (get_or g.active_bits (s / 32) 0) (2 ^ (s % 32)));
}

unfoldable pub bit_clear : ℕ → PersistentScripts → PersistentScripts
bit_clear s g = record g {
  active_bits =
      set g.active_bits (s / 32) (bit_and (get_or g.active_bits (s / 32) 0) (all_but 32 (s % 32)));
}

-- The loop of `persistent_scripts_alloc` at slot `s`, with `n` slots left.
unfoldable pub alloc_from : ℕ → ℕ → PersistentScripts → ℤ × PersistentScripts
alloc_from zero s g = (negsuc 0, g)
alloc_from (suc n) s g =
    let rest = alloc_from n (suc s) g in if bit_get s g == 0 then (pos s, bit_set s g) else rest

unfoldable pub persistent_scripts_alloc : PersistentScripts → ℤ × PersistentScripts
persistent_scripts_alloc g = alloc_from max_persistent_scripts 0 g

unfoldable pub persistent_scripts_free : ℤ → PersistentScripts → PersistentScripts
unfolding bit_clear
persistent_scripts_free slot g =
    if not (slot_in_range slot)
    then g
    else if bit_get (index slot) g == 0
    then g
    else record (bit_clear (index slot) g) {
      slot_lens = set g.slot_lens (index slot) 0;
      slots =
          set g.slots (index slot) (
            write_at (get_or g.slots (index slot) []) 0 (replicate persistent_script_slot_bytes 0));
    }

-- The bytes of a slot with the `n` bytes of `src` copied to its start and zeros behind them.
abbrev pub slot_with : Bytes → Bytes → ℕ → Bytes
slot_with old src n =
    write_at (write_at old 0 (take n src)) n (replicate (persistent_script_slot_bytes - n) 0)

unfoldable pub persistent_scripts_write : ℤ → Bytes → ℕ → PersistentScripts → ℕ × PersistentScripts
persistent_scripts_write slot src n g =
    if not (slot_in_range slot)
    then (0, g)
    else if bit_get (index slot) g == 0
    then (0, g)
    else if ltb persistent_script_slot_bytes n
    then (0, g)
    else (
      1,
      record g {
        slots = set g.slots (index slot) (slot_with (get_or g.slots (index slot) []) src n);
        slot_lens = set g.slot_lens (index slot) (n % 2 ^ 16);
      },
    )

-- The value returned, with the bytes written to `dst`. A length above 256, which a `load` accepts,
-- runs on into the slots behind; beyond the last slot the source reads outside the table, where
-- the bytes end here.
unfoldable pub persistent_scripts_read : ℤ → ℕ → PersistentScripts → ℤ × Bytes
persistent_scripts_read slot cap_bytes g =
    if not (slot_in_range slot)
    then (negsuc 0, [])
    else if bit_get (index slot) g == 0
    then (negsuc 0, [])
    else let n = get_or g.slot_lens (index slot) 0 in
      if ltb cap_bytes n
      then (negsuc 0, [])
      else (pos n, take n (joined (drop (index slot) g.slots)))

unfoldable pub persistent_scripts_is_active : ℤ → PersistentScripts → ℕ
persistent_scripts_is_active slot g = if slot_in_range slot then bit_get (index slot) g else 0

-- The loop of `persistent_scripts_active_count` at slot `s`, with `n` slots left.
unfoldable pub count_from : ℕ → ℕ → PersistentScripts → ℕ
count_from zero s g = 0
count_from (suc n) s g = (bit_get s g + count_from n (suc s) g) % 2 ^ 32

unfoldable pub persistent_scripts_active_count : PersistentScripts → ℕ
persistent_scripts_active_count g = count_from max_persistent_scripts 0 g

unfoldable pub persistent_scripts_raw_blob_len : ℤ → PersistentScripts → ℕ
persistent_scripts_raw_blob_len slot g =
    if slot_in_range slot then get_or g.slot_lens (index slot) 0 else 0

unfoldable pub persistent_scripts_blob_len : ℤ → PersistentScripts → ℕ
persistent_scripts_blob_len slot g =
    if not (slot_in_range slot)
    then 0
    else if bit_get (index slot) g == 0
    then 0
    else get_or g.slot_lens (index slot) 0

abbrev pub region_size : ℕ
region_size = 8 + 2 * max_persistent_scripts + persistent_script_slot_bytes * max_persistent_scripts

unfoldable pub describe : StringSink → StringSink
unfolding emit_pieces
describe = emit_pieces (
    text (codes "active_bits[2]:u32@")
    ∷ number 0
    ∷ char b','
    ∷ text (codes "slot_lens[")
    ∷ number max_persistent_scripts
    ∷ text (codes "]:u16@")
    ∷ number 8
    ∷ char b','
    ∷ text (codes "slots[")
    ∷ number max_persistent_scripts
    ∷ text (codes "][")
    ∷ number persistent_script_slot_bytes
    ∷ text (codes "]:u8@")
    ∷ number 136
    ∷ [])

unfoldable pub save : Bytes → Bytes × Bytes
unfolding copy_out
save storage = copy_out storage

unfoldable pub load : Bytes → ℕ → Bytes → Bool × Bytes
unfolding copy_in
load src n storage = copy_in region_size src n storage

abbrev pub region_persistent_scripts : TrackedRegion
region_persistent_scripts = record {
  name = codes "persistent_scripts";
  size = region_size;
  describe = some describe;
  save = save;
  load = load;
}
