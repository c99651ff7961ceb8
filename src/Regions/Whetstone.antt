-- ===== src/Regions/Whetstone.antt =====
-- cart_state_whetstone.c: ten f32 fields, `a b c d`, the array `e1[4]`, `t` and `u`.
use blyt_planning.Prelude.{
  ℕ, zero, suc, ◌+◌, ◌*◌, Bool, some, List, [], ◌∷◌, Bytes, codes, le_bytes, ◌++◌,
}
use blyt_planning.Tracked.{StringSink, TrackedRegion}
use blyt_planning.Tracked.Pieces.{text, number, char, emit_pieces}
use blyt_planning.Regions.Copy.{copy_in, canon_copy_out}

abbrev pub state_size : ℕ
state_size = 40

-- `1.0f`, `-1.0f`, `0.5f` and `0.75f` as bit patterns: the initialiser of the struct.
abbrev pub initial_state : Bytes
initial_state =
    le_bytes 4 0x3f800000
    ++ (le_bytes 4 0xbf800000
        ++ (le_bytes 4 0xbf800000
            ++ (le_bytes 4 0xbf800000
                ++ (le_bytes 4 0x3f800000
                    ++ (le_bytes 4 0xbf800000
                        ++ (le_bytes 4 0xbf800000
                            ++ (le_bytes 4 0xbf800000
                                ++ (le_bytes 4 0x3f000000 ++ le_bytes 4 0x3f400000))))))))

-- The `n` elements of `e1` from element `i` on.
abbrev pub e1_fields : ℕ → ℕ → List ℕ
e1_fields zero i = []
e1_fields (suc n) i = (16 + i * 4) ∷ e1_fields n (i + 1)

abbrev pub f32_fields : List ℕ
f32_fields = 0 ∷ 4 ∷ 8 ∷ 12 ∷ (e1_fields 4 0 ++ (32 ∷ 36 ∷ []))

unfoldable pub describe : StringSink → StringSink
unfolding emit_pieces
describe = emit_pieces (
    text (codes "a:f32@")
    ∷ number 0
    ∷ char b','
    ∷ text (codes "b:f32@")
    ∷ number 4
    ∷ char b','
    ∷ text (codes "c:f32@")
    ∷ number 8
    ∷ char b','
    ∷ text (codes "d:f32@")
    ∷ number 12
    ∷ char b','
    ∷ text (codes "e1[4]:f32@")
    ∷ number 16
    ∷ char b','
    ∷ text (codes "t:f32@")
    ∷ number 32
    ∷ char b','
    ∷ text (codes "u:f32@")
    ∷ number 36
    ∷ [])

unfoldable pub save : Bytes → Bytes × Bytes
unfolding canon_copy_out
save storage = canon_copy_out f32_fields storage

unfoldable pub load : Bytes → ℕ → Bytes → Bool × Bytes
unfolding copy_in
load src n storage = copy_in state_size src n storage

abbrev pub region_cart_state_whetstone : TrackedRegion
region_cart_state_whetstone = record {
  name = codes "cart_state_whetstone";
  size = state_size;
  describe = some describe;
  save = save;
  load = load;
}
