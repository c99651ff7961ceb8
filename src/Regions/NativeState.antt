-- ===== src/Regions/NativeState.antt =====
-- region_native_state.c and region_native_state.h (spikes/spike-n/cart_runtime): the native cart's
-- state in its five versions, their layouts, and the retype of `frame_count`. The version that is
-- compiled in is a parameter.
pub mod Widen
use blyt_planning.Prelude.{
  ℕ, ◌+◌, Bool, true, false, some, List, [], ◌∷◌, ◌++◌, ◌==◌, ◌||◌, not, leb, if◌then◌else◌, ◌*◌,
  ◌-◌, ◌^◌, Bytes, codes, take, load_le, le_bytes,
}
use blyt_planning.Tracked.{StringSink, TrackedRegion}
use blyt_planning.Tracked.Pieces.{Piece, text, number, char, emit_pieces}
use blyt_planning.Migrate.{FieldType, i32, i64, type_code, FieldDesc, Layout}
use blyt_planning.Regions.Copy.{copy_in, copy_out}

abbrev pub frame_count : Bytes
frame_count = codes "frame_count"

abbrev pub some_value : Bytes
some_value = codes "some_value"

abbrev pub unused_count : Bytes
unused_count = codes "unused_count"

abbrev pub last_score : Bytes
last_score = codes "last_score"

abbrev pub i32_field : Bytes → ℕ → FieldDesc
i32_field name offset = record { name = name; type = i32; offset = offset; size = 4 }

abbrev pub i64_field : Bytes → ℕ → FieldDesc
i64_field name offset = record { name = name; type = i64; offset = offset; size = 8 }

abbrev pub native_state_layout_v0 : Layout
native_state_layout_v0 = record {
  fields = i32_field frame_count 0 ∷ i32_field some_value 4 ∷ i32_field unused_count 8 ∷ [];
  total_size = 12;
}

abbrev pub native_state_layout_v3 : Layout
native_state_layout_v3 = record {
  fields =
      i32_field frame_count 0
      ∷ i32_field some_value 4
      ∷ i32_field unused_count 8
      ∷ i32_field last_score 12
      ∷ [];
  total_size = 16;
}

abbrev pub native_state_layout_v4 : Layout
native_state_layout_v4 = record {
  fields = i32_field frame_count 0 ∷ i32_field some_value 4 ∷ i32_field last_score 8 ∷ [];
  total_size = 12;
}

abbrev pub native_state_layout_v5 : Layout
native_state_layout_v5 = record {
  fields = i64_field frame_count 0 ∷ i32_field some_value 8 ∷ i32_field last_score 12 ∷ [];
  total_size = 16;
}

abbrev pub native_state_layout_v6 : Layout
native_state_layout_v6 = record {
  fields = i32_field some_value 0 ∷ i32_field last_score 4 ∷ i64_field frame_count 8 ∷ [];
  total_size = 16;
}

-- `NATIVE_STATE_VERSION`
pub data Version : Type 0 where
  v0 v3 v4 v5 v6 : Version

-- `sizeof(native_cart_state_t)`
abbrev pub state_size : Version → ℕ
state_size v0 = 12
state_size v3 = 16
state_size v4 = 12
state_size v5 = 16
state_size v6 = 16

abbrev pub described : Version → List Piece
described v0 =
    text (codes "frame_count:i32@")
    ∷ number 0
    ∷ char b','
    ∷ text (codes "some_value:i32@")
    ∷ number 4
    ∷ char b','
    ∷ text (codes "unused_count:i32@")
    ∷ number 8
    ∷ char b','
    ∷ []
described v3 =
    text (codes "frame_count:i32@")
    ∷ number 0
    ∷ char b','
    ∷ text (codes "some_value:i32@")
    ∷ number 4
    ∷ char b','
    ∷ text (codes "unused_count:i32@")
    ∷ number 8
    ∷ char b','
    ∷ text (codes "last_score:i32@")
    ∷ number 12
    ∷ char b','
    ∷ []
described v4 =
    text (codes "frame_count:i32@")
    ∷ number 0
    ∷ char b','
    ∷ text (codes "some_value:i32@")
    ∷ number 4
    ∷ char b','
    ∷ text (codes "last_score:i32@")
    ∷ number 8
    ∷ char b','
    ∷ []
described v5 =
    text (codes "frame_count:i64@")
    ∷ number 0
    ∷ char b','
    ∷ text (codes "some_value:i32@")
    ∷ number 8
    ∷ char b','
    ∷ text (codes "last_score:i32@")
    ∷ number 12
    ∷ char b','
    ∷ []
described v6 =
    text (codes "some_value:i32@")
    ∷ number 0
    ∷ char b','
    ∷ text (codes "last_score:i32@")
    ∷ number 4
    ∷ char b','
    ∷ text (codes "frame_count:i64@")
    ∷ number 8
    ∷ char b','
    ∷ []

module _ (version : Version) where
  unfoldable pub describe : StringSink → StringSink
  unfolding emit_pieces
  describe = emit_pieces (described version)

  unfoldable pub save : Bytes → Bytes × Bytes
  unfolding copy_out
  save storage = copy_out storage

  unfoldable pub load : Bytes → ℕ → Bytes → Bool × Bytes
  unfolding copy_in
  load src n storage = copy_in (state_size version) src n storage

  abbrev pub region_native_state : TrackedRegion
  region_native_state = record {
    name = codes "native_state";
    size = state_size version;
    describe = some describe;
    save = save;
    load = load;
  }

-- A 32-bit pattern sign-extended to 64 bits.
abbrev pub sign_extended : ℕ → ℕ
sign_extended x = if leb (2 ^ 31) x then x + (2 ^ 64 - 2 ^ 32) else x

-- `native_state_retype_i32_to_i64`
unfoldable pub retype_i32_to_i64 : Bytes → FieldType → FieldType → Bool × Bytes
retype_i32_to_i64 old_field old_type new_type =
    if not (type_code old_type == type_code i32) || not (type_code new_type == type_code i64)
    then (false, [])
    else (true, le_bytes 8 (sign_extended (load_le 4 old_field 0)))
