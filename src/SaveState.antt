-- ===== src/SaveState.antt =====
-- save_state.c and save_state.h (spikes/spike-k/cart_runtime): the header, the layout hash, saving
-- and loading.
pub mod Regions
pub mod Init
pub mod RoundTrip
pub mod Gates
use blyt_planning.Prelude.{
  ℕ, ◌+◌, ◌%◌, ◌^◌, Bool, true, false, not, Option, none, some, List, [], ◌∷◌, ◌++◌, ltb, ◌==◌,
  if◌then◌else◌, Bytes, drop, write_at, le_bytes, load_le,
}
use blyt_planning.Det.Fnv.{fnv1a_64_bytes}
use blyt_planning.Tracked.{StringSink, Slot, runtime_tracked_describe, runtime_tracked_total_size}

abbrev pub save_state_magic : ℕ
save_state_magic = 0x46433253

abbrev pub save_state_version : ℕ
save_state_version = 1

-- `save_state_header_t`, packed: 24 bytes.
pub record Header : Type 0 where
  pub magic : ℕ
  pub version : ℕ
  pub layout_hash : ℕ
  pub frame : ℕ
  pub total_size : ℕ

abbrev pub header_size : ℕ
header_size = 24

abbrev pub header_bytes : Header → Bytes
header_bytes h =
    le_bytes 4 h.magic
    ++ (le_bytes 4 h.version
        ++ (le_bytes 8 h.layout_hash ++ (le_bytes 4 h.frame ++ le_bytes 4 h.total_size)))

-- `(const save_state_header_t *)buf`
abbrev pub read_header : Bytes → Header
read_header buf = record {
  magic = load_le 4 buf 0;
  version = load_le 4 buf 4;
  layout_hash = load_le 8 buf 8;
  frame = load_le 4 buf 16;
  total_size = load_le 4 buf 20;
}

-- The registry with its storages, `g_layout_hash` and `g_initialized`.
pub record Runtime : Type 0 where
  pub slots : List Slot
  pub layout_hash : ℕ
  pub initialized : Bool

abbrev pub scratch_size : ℕ
scratch_size = 4096

abbrev pub empty_scratch : StringSink
empty_scratch = record { text = []; cap = scratch_size; overflowed = false }

abbrev pub hash_of_description : StringSink → Option ℕ
hash_of_description sink = if sink.overflowed then none else some (fnv1a_64_bytes sink.text)

-- The hash that `save_state_init` caches; `none` is its endless loop after PANIC.
unfoldable pub layout_hash_of : List Slot → Option ℕ
layout_hash_of slots = hash_of_description (runtime_tracked_describe slots empty_scratch)

abbrev pub cache_hash : Runtime → Option ℕ → Option Runtime
cache_hash rt none = none
cache_hash rt (some h) = some (record rt { layout_hash = h; initialized = true })

-- `none`: the call does not return.
unfoldable pub save_state_init : Runtime → Option Runtime
unfolding layout_hash_of
save_state_init rt = cache_hash rt (layout_hash_of rt.slots)

-- `if (!g_initialized) save_state_init();`
unfoldable pub ensure_init : Runtime → Option Runtime
unfolding save_state_init
ensure_init rt = if rt.initialized then some rt else save_state_init rt

infixl 5 ◌>>=◌
abbrev pub ◌>>=◌ {ℓ κ} : {A : Type ℓ} {B : Type κ} → Option A → (A → Option B) → Option B
none >>= f = none
some a >>= f = f a

-- A `size_t`, of 32 bits.
abbrev pub save_state_buffer_capacity : List Slot → ℕ
save_state_buffer_capacity slots = (header_size + runtime_tracked_total_size slots) % 2 ^ 32

-- The loop of `save_state_save` from the pointer `p` on.
unfoldable pub save_regions : List Slot → ℕ → Bytes → Bytes × List Slot
save_regions [] p buf = (buf, [])
save_regions (s ∷ slots) p buf =
    let (bytes, storage) = s.region.save s.storage in
    let (buf', saved) = save_regions slots (p + s.region.size) (write_at buf p bytes) in
    (buf', record s { storage = storage } ∷ saved)

-- What a call of `save_state_save` returns and leaves.
pub record Saved : Type 0 where
  pub written : ℕ
  pub buf : Bytes
  pub runtime : Runtime

abbrev pub header_of : ℕ → Runtime → Header
header_of frame rt = record {
  magic = save_state_magic;
  version = save_state_version;
  layout_hash = rt.layout_hash;
  frame = frame;
  total_size = save_state_buffer_capacity rt.slots;
}

abbrev pub write_save : Bytes → ℕ → Runtime → Saved
write_save buf frame rt =
    let headed = write_at buf 0 (header_bytes (header_of frame rt)) in
    let (buf', saved) = save_regions rt.slots header_size headed in
    record {
      written = save_state_buffer_capacity rt.slots;
      buf = buf';
      runtime = record rt { slots = saved };
    }

unfoldable pub save_state_save : Bytes → ℕ → ℕ → Runtime → Option Saved
unfolding ensure_init
save_state_save buf cap frame rt = do
  rt' ← ensure_init rt
  some (
      if ltb cap (save_state_buffer_capacity rt'.slots)
      then record { written = 0; buf = buf; runtime = rt' }
      else write_save buf frame rt')

-- The loop of `save_state_load` from the pointer `p` on.
unfoldable pub load_regions : List Slot → Bytes → ℕ → ℕ → Bool × List Slot
load_regions [] buf p end = (p == end, [])
load_regions (s ∷ slots) buf p end =
    let (ok, storage) = s.region.load (drop p buf) s.region.size s.storage in
    let (done, loaded) = load_regions slots buf (p + s.region.size) end in
    if ltb end (p + s.region.size)
    then (false, s ∷ slots)
    else if not ok
    then (false, record s { storage = storage } ∷ slots)
    else (done, record s { storage = storage } ∷ loaded)

abbrev pub load_body : Bytes → ℕ → Runtime → Bool × Runtime
load_body buf end rt =
    let (ok, loaded) = load_regions rt.slots buf header_size end in
    (ok, record rt { slots = loaded })

-- The gates behind the magic and version tests.
unfoldable pub load_checked : Bytes → ℕ → Runtime → Bool × Runtime
load_checked buf size rt =
    let h = read_header buf in
    if not (h.layout_hash == rt.layout_hash)
    then (false, rt)
    else if ltb size h.total_size
    then (false, rt)
    else if not (h.total_size == save_state_buffer_capacity rt.slots)
    then (false, rt)
    else load_body buf h.total_size rt

unfoldable pub save_state_load : Bytes → ℕ → Runtime → Option (Bool × Runtime)
unfolding load_checked ensure_init
save_state_load buf size rt =
    let h = read_header buf in
    if ltb size header_size
    then some (false, rt)
    else if not (h.magic == save_state_magic)
    then some (false, rt)
    else if not (h.version == save_state_version)
    then some (false, rt)
    else ensure_init rt >>= λ rt'. some (load_checked buf size rt')
