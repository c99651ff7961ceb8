-- ===== src/Regions/FrameStateRegion.antt =====
-- region_frame_state.c.
use blyt_planning.Prelude.{ℕ, Bool, some, [], ◌∷◌, Bytes, codes}
use blyt_planning.Det.FrameState.{
  frame_offset, rng_state_offset, rng_inc_offset, accum_sin_offset, accum_cos_offset,
  accum_sqrt_offset, accum_misc_offset, mobs_offset, frame_state_size, f32_fields,
}
use blyt_planning.Tracked.{StringSink, TrackedRegion}
use blyt_planning.Tracked.Pieces.{text, number, char, emit_pieces}
use blyt_planning.Regions.Copy.{copy_in, canon_copy_out}

unfoldable pub describe : StringSink → StringSink
unfolding emit_pieces
describe = emit_pieces (
    text (codes "frame:u32@")
    ∷ number frame_offset
    ∷ char b','
    ∷ text (codes "rng_state:u64@")
    ∷ number rng_state_offset
    ∷ char b','
    ∷ text (codes "rng_inc:u64@")
    ∷ number rng_inc_offset
    ∷ char b','
    ∷ text (codes "accum_sin:f32@")
    ∷ number accum_sin_offset
    ∷ char b','
    ∷ text (codes "accum_cos:f32@")
    ∷ number accum_cos_offset
    ∷ char b','
    ∷ text (codes "accum_sqrt:f32@")
    ∷ number accum_sqrt_offset
    ∷ char b','
    ∷ text (codes "accum_misc:f32@")
    ∷ number accum_misc_offset
    ∷ char b','
    ∷ text (codes "mobs[64]={x:f32,y:f32,vx:f32,vy:f32,state:u32}@")
    ∷ number mobs_offset
    ∷ [])

unfoldable pub save : Bytes → Bytes × Bytes
unfolding canon_copy_out
save storage = canon_copy_out f32_fields storage

unfoldable pub load : Bytes → ℕ → Bytes → Bool × Bytes
unfolding copy_in
load src n storage = copy_in frame_state_size src n storage

abbrev pub region_frame_state : TrackedRegion
region_frame_state = record {
  name = codes "frame_state";
  size = frame_state_size;
  describe = some describe;
  save = save;
  load = load;
}
