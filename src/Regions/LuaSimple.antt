-- ===== src/Regions/LuaSimple.antt =====
-- cart_state_lua_simple.c: eight entities of three f32 fields.
use blyt_planning.Prelude.{ℕ, zero, suc, ◌+◌, ◌*◌, Bool, some, List, [], ◌∷◌, Bytes, codes}
use blyt_planning.Tracked.{StringSink, TrackedRegion}
use blyt_planning.Tracked.Pieces.{text, number, emit_pieces}
use blyt_planning.Regions.Copy.{copy_in, canon_copy_out}

abbrev pub lua_simple_num_entities : ℕ
lua_simple_num_entities = 8

abbrev pub state_size : ℕ
state_size = lua_simple_num_entities * 12

-- `x y a` of the `n` entities from entity `i` on.
abbrev pub entity_fields : ℕ → ℕ → List ℕ
entity_fields zero i = []
entity_fields (suc n) i = (i * 12) ∷ (i * 12 + 4) ∷ (i * 12 + 8) ∷ entity_fields n (i + 1)

unfoldable pub describe : StringSink → StringSink
unfolding emit_pieces
describe = emit_pieces (
    text (codes "entities[")
    ∷ number lua_simple_num_entities
    ∷ text (codes "]={x:f32@0,y:f32@4,a:f32@8}@")
    ∷ number 0
    ∷ [])

unfoldable pub save : Bytes → Bytes × Bytes
unfolding canon_copy_out
save storage = canon_copy_out (entity_fields lua_simple_num_entities 0) storage

unfoldable pub load : Bytes → ℕ → Bytes → Bool × Bytes
unfolding copy_in
load src n storage = copy_in state_size src n storage

abbrev pub region_cart_state_lua_simple : TrackedRegion
region_cart_state_lua_simple = record {
  name = codes "cart_state_lua_simple";
  size = state_size;
  describe = some describe;
  save = save;
  load = load;
}
