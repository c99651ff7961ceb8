-- ===== src/Det/FrameState.antt =====
-- frame_state.h and digest.c: the packed frame state is its byte image, of 36 bytes of counters
-- and accumulators and 64 mobs of 20 bytes.
pub mod Digests
use blyt_planning.Prelude.{
  ℕ, zero, suc, ◌+◌, ◌*◌, ◌/◌, ◌%◌, ◌^◌, ◌≤◌, List, [], ◌∷◌, ◌≡◌, refl, arith, Bytes, length,
  load_le, take,
}
use blyt_planning.Det.Fnv.{fnv1a_64_bytes}
use blyt_planning.Det.Canon.{canon_fields, Fields}

abbrev pub frame_state_max_mobs : ℕ
frame_state_max_mobs = 64

-- `offsetof(frame_state_t, …)`
abbrev pub frame_offset : ℕ
frame_offset = 0

abbrev pub rng_state_offset : ℕ
rng_state_offset = 4

abbrev pub rng_inc_offset : ℕ
rng_inc_offset = 12

abbrev pub accum_sin_offset : ℕ
accum_sin_offset = 20

abbrev pub accum_cos_offset : ℕ
accum_cos_offset = 24

abbrev pub accum_sqrt_offset : ℕ
accum_sqrt_offset = 28

abbrev pub accum_misc_offset : ℕ
accum_misc_offset = 32

abbrev pub mobs_offset : ℕ
mobs_offset = 36

abbrev pub mob_size : ℕ
mob_size = 20

abbrev pub frame_state_size : ℕ
frame_state_size = mobs_offset + frame_state_max_mobs * mob_size

-- `x y vx vy` of the `n` mobs from mob `i` on; the fifth field, `state`, is an integer.
abbrev pub mob_fields : ℕ → ℕ → List ℕ
mob_fields zero i = []
mob_fields (suc n) i =
    let base = mobs_offset + i * mob_size in
    base ∷ (base + 4) ∷ (base + 8) ∷ (base + 12) ∷ mob_fields n (i + 1)

-- The f32 fields in the order in which they are canonicalised.
abbrev pub f32_fields : List ℕ
f32_fields =
    accum_sin_offset
    ∷ accum_cos_offset
    ∷ accum_sqrt_offset
    ∷ accum_misc_offset
    ∷ mob_fields frame_state_max_mobs 0

unfoldable pub frame_state_canonicalize : Bytes → Bytes
frame_state_canonicalize s = canon_fields f32_fields s

-- The loop over `sizeof(*s)` bytes.
unfoldable pub frame_state_fnv1a : Bytes → ℕ
frame_state_fnv1a s = fnv1a_64_bytes (take frame_state_size s)

-- The arguments of the DIGEST line: the frame and the two halves of the hash.
pub record Digest : Type 0 where
  pub frame : ℕ
  pub hi : ℕ
  pub lo : ℕ

-- Returns the canonicalised state with the line that is printed.
unfoldable pub frame_state_emit_digest : Bytes → Bytes × Digest
frame_state_emit_digest s =
    let s' = frame_state_canonicalize s in
    let h = frame_state_fnv1a s' in
    (s', record { frame = load_le 4 s' frame_offset; hi = h / 2 ^ 32; lo = h % 2 ^ 32 })

mob_fields-Fields :
    (n i lo hi : ℕ)
    → lo ≤ mobs_offset + i * mob_size
    → hi ≡ mobs_offset + (i + n) * mob_size
    → Fields lo hi (mob_fields n i)
mob_fields-Fields zero i lo hi h e = omega arith
mob_fields-Fields (suc n) i lo hi h e = (
  h,
  (
    omega arith,
    (
      omega arith,
      (
        omega arith,
        mob_fields-Fields n (i + 1) (mobs_offset + i * mob_size + 12 + 4) hi (omega arith)
            (omega arith),
      ),
    ),
  ),
)

-- The fields that are canonicalised are apart and lie inside the struct.
pub f32_fields-Fields : Fields accum_sin_offset frame_state_size f32_fields
f32_fields-Fields = (
  omega arith,
  (
    omega arith,
    (
      omega arith,
      (
        omega arith,
        mob_fields-Fields frame_state_max_mobs 0 36 frame_state_size (omega arith) refl,
      ),
    ),
  ),
)
