-- ===== src/Regions/NativeState/Widen.antt =====
-- The migration that widens `frame_count` from 32 to 64 bits.
use mathlib.Core.List.{append-nil}
use blyt_planning.Prelude.{
  ℕ, ◌+◌, ◌-◌, ◌^◌, ◌<◌, ◌≤◌, ◌≡◌, refl, sym, ap, ◌∙◌, inl, inr, arith, true, if◌then◌else◌, leb,
  ltb, ℤ, pos, negsuc, some, [], Bytes, IsBytes, length, drop, take, load_le, load_le-lt, le_bytes,
  le_value-le_bytes, le_value, Bool-cases, le→ltb_false, lt→ltb, get_or, length-le_bytes,
  load_le_agree, length-take, length-drop, get_or-take-drop,
}
use blyt_planning.Migrate.{i32, i64, migrate_region_bytes, find_field}
use blyt_planning.Migrate.Fields.{migrate_region_bytes-Holds}
use blyt_planning.Regions.NativeState.{
  sign_extended, retype_i32_to_i64, native_state_layout_v4, native_state_layout_v5,
}

-- The integer that a two's complement pattern of `2 * half` values stands for.
abbrev pub signed : ℕ → ℕ → ℤ
signed half x = if ltb x half then pos x else negsuc (half + half - 1 - x)

sign_extended-signed : (x : ℕ) → x < 2 ^ 32 → signed (2 ^ 63) (sign_extended x) ≡ signed (2 ^ 31) x
sign_extended-signed x h = elim (Bool-cases (leb (2 ^ 31) x)) [
  | inl e ↦ rw e (
      rw (le→ltb_false (x + (2 ^ 64 - 2 ^ 32)) (2 ^ 63) (ground arith))
        (rw (le→ltb_false x (2 ^ 31) (ground arith)) (ap negsuc (ground arith))))
  | inr e ↦
      rw e (rw (lt→ltb x (2 ^ 63) (ground arith)) (rw (lt→ltb x (2 ^ 31) (ground arith)) refl))
]

sign_extended-lt : (x : ℕ) → x < 2 ^ 32 → sign_extended x < 2 ^ 64
sign_extended-lt x h = ground arith

-- On bytes, `native_state_retype_i32_to_i64`, asked for an i32 and an i64, accepts and writes
-- eight bytes, and the signed number that they hold is the one that the first four old bytes hold.
pub retype_i32_to_i64_lem :
    (old_field : Bytes)
    → IsBytes old_field
    → ((retype_i32_to_i64 old_field i32 i64).0 ≡ true)
      × (length (retype_i32_to_i64 old_field i32 i64).1 ≡ 8)
      × (signed (2 ^ 63) (load_le 8 (retype_i32_to_i64 old_field i32 i64).1 0)
          ≡ signed (2 ^ 31) (load_le 4 old_field 0))
unfolding retype_i32_to_i64
retype_i32_to_i64_lem old_field h = (
  refl,
  length-le_bytes 8 (sign_extended x),
  ap (signed (2 ^ 63)) stored ∙ sign_extended-signed x small,
)
  where
    x : ℕ
    x = load_le 4 old_field 0

    small : x < 2 ^ 32
    small = load_le-lt 4 old_field 0 h

    stored : load_le 8 (le_bytes 8 (sign_extended x)) 0 ≡ sign_extended x
    stored =
        ap (le_value 8) (sym (append-nil (le_bytes 8 (sign_extended x))))
        ∙ le_value-le_bytes 8 (sign_extended x) [] (sign_extended-lt x small)

-- The copy of a field, as the number that it holds.
copied :
    (old out : Bytes) (from to : ℕ)
    → ((j : ℕ) → j < 4 → get_or out (to + j) 0 ≡ get_or (take 4 (drop from old)) j 0)
    → load_le 4 out to ≡ load_le 4 old from
copied old out from to h =
    load_le_agree 4 out old to from (λ j p. h j p ∙ get_or-take-drop 4 from old j 0 p)

-- The migration from version 4 to version 5 succeeds on every 12-byte image of version 4, into a
-- buffer of at least 16 bytes. The new `frame_count` is the signed number that the old one is, and
-- `some_value` and `last_score` are the old ones.
pub migrate_v4_v5 :
    (old_bytes new_bytes : Bytes)
    → IsBytes old_bytes
    → length old_bytes ≡ 12
    → 16 ≤ length new_bytes
    → let (ok, out) =
        migrate_region_bytes native_state_layout_v4 old_bytes
          (some retype_i32_to_i64)
          new_bytes
          native_state_layout_v5 in
      (ok ≡ true)
      × (signed (2 ^ 63) (load_le 8 out 0) ≡ signed (2 ^ 31) (load_le 4 old_bytes 0))
      × (load_le 4 out 8 ≡ load_le 4 old_bytes 4)
      × (load_le 4 out 12 ≡ load_le 4 old_bytes 8)
unfolding find_field
migrate_v4_v5 old_bytes new_bytes h sized room =
    let kept = retype_i32_to_i64_lem old_bytes h in
    let (ok, (frame, (value, (score, end)))) =
      migrate_region_bytes-Holds native_state_layout_v4 old_bytes (some retype_i32_to_i64) new_bytes
        native_state_layout_v5 (omega arith) (omega arith) room
        (
          (omega arith, omega (arith, kept.1), omega arith),
          (
            (
              omega arith,
              omega (
                arith,
                length-take 4 (drop 4 old_bytes) (omega (arith, length-drop 4 old_bytes)),
              ),
              omega arith,
            ),
            (
              (
                omega arith,
                omega (
                  arith,
                  length-take 4 (drop 8 old_bytes) (omega (arith, length-drop 8 old_bytes)),
                ),
                omega arith,
              ),
              tt,
            ),
          ),
        )
        ((inl (omega arith), (inl (omega arith), tt)), ((inl (omega arith), tt), (tt, tt))) in
    let out =
      (migrate_region_bytes native_state_layout_v4 old_bytes (some retype_i32_to_i64) new_bytes
        native_state_layout_v5).1 in
    let widened = (retype_i32_to_i64 old_bytes i32 i64).1 in
    (
      ok,
      ap (signed (2 ^ 63)) (
            load_le_agree 8 out widened 0 0
              (λ j p. frame j p ∙ ap (λ k. get_or widened k 0) {x = j} {y = 0 + j} (omega arith)))
          ∙ kept.2,
      copied old_bytes out 4 8 value,
      copied old_bytes out 8 12 score,
    )
