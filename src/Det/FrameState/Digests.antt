-- ===== src/Det/FrameState/Digests.antt =====
-- What the DIGEST line of a frame depends on.
use mathlib.Core.Path.{subst}
use native.Mathlib.Decide.{dec_lt}
use blyt_planning.Det.Nan.{canonicalize_nanf}
use blyt_planning.Det.Canon.{Outside}
use blyt_planning.Prelude.{
  ℕ, zero, suc, ◌<◌, ◌-◌, load_le, get_or, All, ◌+◌, ◌*◌, ◌^◌, ◌≤◌, ◌≡◌, arith, Bytes, length,
}
use blyt_planning.Det.Canon.Same.{SameUpToNan, canon_fields-SameUpToNan}
use blyt_planning.Det.FrameState.{
  accum_sin_offset, frame_state_size, f32_fields, f32_fields-Fields, mob_fields,
  frame_state_canonicalize, frame_state_fnv1a, frame_state_emit_digest,
}

canonicalize-SameUpToNan :
    (s t : Bytes)
    → frame_state_size ≤ length s
    → SameUpToNan f32_fields s t
    → frame_state_canonicalize s ≡ frame_state_canonicalize t
unfolding frame_state_canonicalize
canonicalize-SameUpToNan s t h same =
    canon_fields-SameUpToNan accum_sin_offset frame_state_size f32_fields s t f32_fields-Fields h
      same

-- Two images of a frame state as its struct lays them out: they have one length; each of the four
-- f32 accumulators from byte 20 on, and each of the four f32 fields at the start of the 64 mobs of
-- 20 bytes from byte 36 on, has the same canonical value in both; the bytes before the accumulators
-- and behind the mobs, and the last four of each mob, are the same.
pub record SameNumbers (s t : Bytes) : Type 0 where
  pub same_length : length s ≡ length t
  pub accumulators :
      (k : ℕ)
      → k < 4
      → canonicalize_nanf (load_le 4 s (20 + 4 * k)) ≡ canonicalize_nanf (load_le 4 t (20 + 4 * k))
  pub mobs :
      (i k : ℕ)
      → i < 64
      → k < 4
      → canonicalize_nanf (load_le 4 s (36 + 20 * i + 4 * k))
        ≡ canonicalize_nanf (load_le 4 t (36 + 20 * i + 4 * k))
  pub counters : (j : ℕ) → j < 20 → get_or s j 0 ≡ get_or t j 0
  pub states :
      (i k : ℕ) → i < 64 → k < 4 → get_or s (52 + 20 * i + k) 0 ≡ get_or t (52 + 20 * i + k) 0
  pub behind : (j : ℕ) → 1316 ≤ j → get_or s j 0 ≡ get_or t j 0

-- The canonical value at an offset, in both images.
abbrev SameAt : Bytes → Bytes → ℕ → Type 0
SameAt s t o = canonicalize_nanf (load_le 4 s o) ≡ canonicalize_nanf (load_le 4 t o)

mob_fields-SameAt :
    (s t : Bytes) (n i : ℕ) → SameNumbers s t → i + n ≤ 64 → All (SameAt s t) (mob_fields n i)
mob_fields-SameAt s t zero i same h = tt
mob_fields-SameAt s t (suc n) i same h = (
  at 0 (36 + i * 20) (omega arith) (omega arith),
  (
    at 1 (36 + i * 20 + 4) (omega arith) (omega arith),
    (
      at 2 (36 + i * 20 + 8) (omega arith) (omega arith),
      (
        at 3 (36 + i * 20 + 12) (omega arith) (omega arith),
        mob_fields-SameAt s t n (i + 1) same (omega arith),
      ),
    ),
  ),
)
  where
    at : (k o : ℕ) → k < 4 → 36 + 20 * i + 4 * k ≡ o → SameAt s t o
    at k o p e = subst (SameAt s t) e (same.mobs i k (omega arith) p)

-- A byte of the mobs that is in no f32 field is one of the last four of a mob.
mob_fields-Outside :
    (n i j : ℕ)
    → Outside (mob_fields n i) j
    → 36 + 20 * i ≤ j
    → j < 36 + 20 * (i + n)
    → (m : ℕ) × (k : ℕ) × (m < i + n) × (k < 4) × (52 + 20 * m + k ≡ j)
mob_fields-Outside zero i j out lo hi = absurd (omega arith)
mob_fields-Outside (suc n) i j (a, (b, (c, (d, out)))) lo hi = elim (dec_lt j (56 + 20 * i)) [
  | yes lt ↦ (i, j - (52 + 20 * i), omega arith, omega arith, omega arith)
  | no ge ↦ later (mob_fields-Outside n (i + 1) j out (omega arith) (omega arith))
]
  where
    later :
        (m : ℕ) × (k : ℕ) × (m < i + 1 + n) × (k < 4) × (52 + 20 * m + k ≡ j)
        → (m : ℕ) × (k : ℕ) × (m < i + suc n) × (k < 4) × (52 + 20 * m + k ≡ j)
    later (m, k, p, q, e) = (m, k, omega arith, q, e)

SameNumbers-SameUpToNan : (s t : Bytes) → SameNumbers s t → SameUpToNan f32_fields s t
SameNumbers-SameUpToNan s t same = record {
  same_length = same.same_length;
  fields = (
    same.accumulators 0 (omega arith),
    (
      same.accumulators 1 (omega arith),
      (
        same.accumulators 2 (omega arith),
        (same.accumulators 3 (omega arith), mob_fields-SameAt s t 64 0 same (omega arith)),
      ),
    ),
  );
  outside = λ j out. outside j out;
}
  where
    in_mobs :
        (j : ℕ)
        → (m : ℕ) × (k : ℕ) × (m < 0 + 64) × (k < 4) × (52 + 20 * m + k ≡ j)
        → get_or s j 0 ≡ get_or t j 0
    in_mobs j (m, k, p, q, e) = subst (λ j. get_or s j 0 ≡ get_or t j 0) e (same.states m k p q)

    outside : (j : ℕ) → Outside f32_fields j → get_or s j 0 ≡ get_or t j 0
    outside j (a, (b, (c, (d, out)))) = elim (dec_lt j 20) [
      | yes lt ↦ same.counters j lt
      | no ge ↦ elim (dec_lt j 1316) [
        | yes lt ↦ in_mobs j (mob_fields-Outside 64 0 j out (omega arith) (omega arith))
        | no ge' ↦ same.behind j (omega arith)
      ]
    ]

-- Two images, of at least the size of a frame state, that have one length, the same canonical value
-- in each of the four accumulators and in x, y, vx and vy of each of the 64 mobs, and equal bytes
-- elsewhere give the same DIGEST line, and are the same bytes afterwards.
pub emit_digest-SameUpToNan :
    (s t : Bytes)
    → frame_state_size ≤ length s
    → SameNumbers s t
    → frame_state_emit_digest s ≡ frame_state_emit_digest t
unfolding frame_state_emit_digest
emit_digest-SameUpToNan s t h same =
    rw (canonicalize-SameUpToNan s t h (SameNumbers-SameUpToNan s t same))

-- The two halves that are printed make up the hash of the canonicalised state.
pub emit_digest_halves :
    (s : Bytes)
    → (frame_state_emit_digest s).1.hi * 2 ^ 32 + (frame_state_emit_digest s).1.lo
      ≡ frame_state_fnv1a (frame_state_emit_digest s).0
unfolding frame_state_emit_digest
emit_digest_halves s = omega arith
