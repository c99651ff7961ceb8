-- ===== src/Regions/ScreenShake.antt =====
-- region_screen_shake.c: a shake that decays, with offsets hashed from the frame and a seed. An
-- f32 is its bit pattern, and its arithmetic the parameter `FloatOps`, the compiler's; an `int32_t`
-- is its two's complement pattern.
pub mod Ticks
use blyt_planning.Prelude.{
  ℕ, zero, suc, ◌+◌, ◌-◌, ◌*◌, ◌/◌, ◌%◌, ◌^◌, Bool, true, false, some, List, [], ◌∷◌, bit_xor, leb,
  ◌==◌, ◌||◌, if◌then◌else◌, Bytes, codes, le_bytes,
}
use blyt_planning.Tracked.{StringSink, TrackedRegion}
use blyt_planning.Tracked.Pieces.{text, number, char, emit_pieces}
use blyt_planning.Regions.Copy.{copy_in, canon_copy_out}

pub record FloatOps : Type 0 where
  pub mul : ℕ → ℕ → ℕ
  pub sub : ℕ → ℕ → ℕ
  pub of_u32 : ℕ → ℕ

-- `runtime_screen_shake_t`
pub record ScreenShake : Type 0 where
  pub remaining_frames : ℕ
  pub intensity : ℕ
  pub decay : ℕ
  pub seed : ℕ

-- `x <= 0` for an `int32_t`.
abbrev pub not_positive : ℕ → Bool
not_positive x = x == 0 || leb (2 ^ 31) x

unfoldable pub blyt_screen_shake : ℕ → ℕ → ScreenShake → ScreenShake
blyt_screen_shake frames intensity g = record {
  remaining_frames = frames;
  intensity = intensity;
  decay = 0x3f733333;
  seed = bit_xor intensity (frames * 0x9e3779b1 % 2 ^ 32);
}

-- `h ^= p[i]; h *= PRIME;` over the bytes of one argument.
unfoldable pub hash_bytes : ℕ → Bytes → ℕ
hash_bytes h [] = h
hash_bytes h (b ∷ bs) = hash_bytes (bit_xor h b * 0x01000193 % 2 ^ 32) bs

unfoldable pub hash3 : ℕ → ℕ → ℕ → ℕ
unfolding hash_bytes
hash3 a b c =
    hash_bytes (hash_bytes (hash_bytes 0x811c9dc5 (le_bytes 4 a)) (le_bytes 4 b)) (le_bytes 4 c)

module _ (ops : FloatOps) where
  -- `1.0f / 16777216.0f` is 2^-24, 0x33800000, and `0.5f` 0x3f000000.
  unfoldable pub hash_to_unit_signed : ℕ → ℕ
  hash_to_unit_signed h = ops.sub (ops.mul (ops.of_u32 (h / 256)) 0x33800000) 0x3f000000

  -- `*dx`, `*dy` and the struct.
  unfoldable pub screen_shake_tick : ℕ → ScreenShake → ℕ × ℕ × ScreenShake
  screen_shake_tick frame g = if not_positive g.remaining_frames then (0, 0, g) else (
    ops.mul (hash_to_unit_signed (hash3 frame g.seed 0)) g.intensity,
    ops.mul (hash_to_unit_signed (hash3 frame g.seed 1)) g.intensity,
    record g { intensity = ops.mul g.intensity g.decay; remaining_frames = g.remaining_frames - 1 },
  )

abbrev pub region_size : ℕ
region_size = 16

abbrev pub f32_fields : List ℕ
f32_fields = 4 ∷ 8 ∷ []

unfoldable pub describe : StringSink → StringSink
unfolding emit_pieces
describe = emit_pieces (
    text (codes "remaining_frames:i32@")
    ∷ number 0
    ∷ char b','
    ∷ text (codes "intensity:f32@")
    ∷ number 4
    ∷ char b','
    ∷ text (codes "decay:f32@")
    ∷ number 8
    ∷ char b','
    ∷ text (codes "seed:i32@")
    ∷ number 12
    ∷ [])

unfoldable pub save : Bytes → Bytes × Bytes
unfolding canon_copy_out
save storage = canon_copy_out f32_fields storage

unfoldable pub load : Bytes → ℕ → Bytes → Bool × Bytes
unfolding copy_in
load src n storage = copy_in region_size src n storage

abbrev pub region_screen_shake : TrackedRegion
region_screen_shake = record {
  name = codes "screen_shake";
  size = region_size;
  describe = some describe;
  save = save;
  load = load;
}
