-- ===== src/Regions/LuaCartState.antt =====
-- region_lua_cart_state.c and region_lua_cart_state.h (spikes/spike-n/cart_runtime): the Lua cart's
-- state in its four versions. The version that is compiled in is a parameter, and so is the f32
-- arithmetic, on bit patterns.
use blyt_planning.Prelude.{
  ℕ, Bool, true, false, some, List, [], ◌∷◌, ◌==◌, ◌||◌, not, if◌then◌else◌, Bytes, codes, load_le,
  le_bytes,
}
use blyt_planning.Tracked.{StringSink, TrackedRegion}
use blyt_planning.Tracked.Pieces.{Piece, text, number, char, emit_pieces}
use blyt_planning.Migrate.{FieldType, i32, f32, type_code, FieldDesc, Layout}
use blyt_planning.Regions.Copy.{copy_in, copy_out}
use blyt_planning.Regions.NativeState.{i32_field}

abbrev pub f32_field : Bytes → ℕ → FieldDesc
f32_field name offset = record { name = name; type = f32; offset = offset; size = 4 }

abbrev pub score : Bytes
score = codes "score"

abbrev pub step : Bytes
step = codes "step"

abbrev pub combo : Bytes
combo = codes "combo"

abbrev pub bonus : Bytes
bonus = codes "bonus"

abbrev pub combo_mult : Bytes
combo_mult = codes "combo_mult"

abbrev pub lua_cart_state_layout_v0 : Layout
lua_cart_state_layout_v0 = record {
  fields = i32_field score 0 ∷ i32_field step 4 ∷ i32_field combo 8 ∷ [];
  total_size = 12;
}

abbrev pub lua_cart_state_layout_v2 : Layout
lua_cart_state_layout_v2 = record {
  fields = i32_field score 0 ∷ i32_field step 4 ∷ i32_field combo 8 ∷ i32_field bonus 12 ∷ [];
  total_size = 16;
}

abbrev pub lua_cart_state_layout_v3 : Layout
lua_cart_state_layout_v3 = record {
  fields = i32_field score 0 ∷ i32_field step 4 ∷ i32_field combo 8 ∷ [];
  total_size = 12;
}

abbrev pub lua_cart_state_layout_v4 : Layout
lua_cart_state_layout_v4 = record {
  fields = i32_field score 0 ∷ i32_field step 4 ∷ f32_field combo_mult 8 ∷ [];
  total_size = 12;
}

-- `LUA_STATE_VERSION`
pub data Version : Type 0 where
  v0 v2 v3 v4 : Version

-- `sizeof(lua_cart_state_t)`
abbrev pub state_size : Version → ℕ
state_size v0 = 12
state_size v2 = 16
state_size v3 = 12
state_size v4 = 12

abbrev pub described : Version → List Piece
described v0 =
    text (codes "score:i32@")
    ∷ number 0
    ∷ char b','
    ∷ text (codes "step:i32@")
    ∷ number 4
    ∷ char b','
    ∷ text (codes "combo:i32@")
    ∷ number 8
    ∷ char b','
    ∷ []
described v2 =
    text (codes "score:i32@")
    ∷ number 0
    ∷ char b','
    ∷ text (codes "step:i32@")
    ∷ number 4
    ∷ char b','
    ∷ text (codes "combo:i32@")
    ∷ number 8
    ∷ char b','
    ∷ text (codes "bonus:i32@")
    ∷ number 12
    ∷ char b','
    ∷ []
described v3 =
    text (codes "score:i32@")
    ∷ number 0
    ∷ char b','
    ∷ text (codes "step:i32@")
    ∷ number 4
    ∷ char b','
    ∷ text (codes "combo:i32@")
    ∷ number 8
    ∷ char b','
    ∷ []
described v4 =
    text (codes "score:i32@")
    ∷ number 0
    ∷ char b','
    ∷ text (codes "step:i32@")
    ∷ number 4
    ∷ char b','
    ∷ text (codes "combo_mult:f32@")
    ∷ number 8
    ∷ char b','
    ∷ []

module _ (version : Version) where
  unfoldable pub describe : StringSink → StringSink
  unfolding emit_pieces
  describe = emit_pieces (described version)

  unfoldable pub save : Bytes → Bytes × Bytes
  unfolding copy_out
  save storage = copy_out storage

  unfoldable pub load : Bytes → ℕ → Bytes → Bool × Bytes
  unfolding copy_in
  load src n storage = copy_in (state_size version) src n storage

  abbrev pub region_lua_cart_state : TrackedRegion
  region_lua_cart_state = record {
    name = codes "lua_cart_state";
    size = state_size version;
    describe = some describe;
    save = save;
    load = load;
  }

-- `lua_cart_state_retype_combo_to_mult`, with `scaled` for `(float)v32 * 0.1f`.
unfoldable pub retype_combo_to_mult : (ℕ → ℕ) → Bytes → FieldType → FieldType → Bool × Bytes
retype_combo_to_mult scaled old_field old_type new_type =
    if not (type_code old_type == type_code i32) || not (type_code new_type == type_code f32)
    then (false, [])
    else (true, le_bytes 4 (scaled (load_le 4 old_field 0)))
