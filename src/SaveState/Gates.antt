-- ===== src/SaveState/Gates.antt =====
-- The gates of `save_state_load`: which headers get past them.
use blyt_planning.Prelude.{
  ap, eq→==, le→ltb_false, ℕ, ◌≤◌, true, false, some, List, ◌≡◌, refl, arith, Bytes, inl, inr, ltb,
  ◌==◌, Bool-cases,
}
use blyt_planning.Tracked.{Slot}
use blyt_planning.SaveState.{
  read_header, header_size, Runtime, save_state_magic, save_state_version,
  save_state_buffer_capacity, save_state_load, load_checked, layout_hash_of, load_body,
}
use blyt_planning.SaveState.Init.{WellCached, ensure_init_lem}

-- The header of a buffer of `size` bytes is one that a binary with layout hash `h` loads.
pub record Accepted (buf : Bytes) (size h : ℕ) (slots : List Slot) : Type 0 where
  pub header_fits : header_size ≤ size
  pub magic_right : (read_header buf).magic ≡ save_state_magic
  pub version_right : (read_header buf).version ≡ save_state_version
  pub hash_right : (read_header buf).layout_hash ≡ h
  pub total_fits : (read_header buf).total_size ≤ size
  pub total_right : (read_header buf).total_size ≡ save_state_buffer_capacity slots

load_checked_refuses :
    (buf : Bytes) (size : ℕ) (rt : Runtime)
    → header_size ≤ size
    → (read_header buf).magic ≡ save_state_magic
    → (read_header buf).version ≡ save_state_version
    → ¬ Accepted buf size rt.layout_hash rt.slots
    → load_checked buf size rt ≡ (false, rt)
unfolding load_checked
load_checked_refuses buf size rt a b c n =
    elim (Bool-cases ((read_header buf).layout_hash == rt.layout_hash)) [
      | inr e ↦ rw e
      | inl e ↦ rw e (elim (Bool-cases (ltb size (read_header buf).total_size)) [
        | inl f ↦ rw f
        | inr f ↦
            rw f
              (elim (Bool-cases
                ((read_header buf).total_size == save_state_buffer_capacity rt.slots)) [
                  | inr g ↦ rw g
                  | inl g ↦ absurd (
                      n (record {
                        header_fits = a;
                        magic_right = b;
                        version_right = c;
                        hash_right = ground arith;
                        total_fits = ground arith;
                        total_right = ground arith;
                      }))
                ])
      ])
    ]

-- With a cached hash that is right, or none yet, and a layout description that fits its scratch
-- buffer, a buffer that fails any of the six tests (too short for a header, wrong magic, version
-- or layout hash, a total size beyond the buffer or unlike that of the registry) is refused with
-- every region as it was.
pub load_refuses :
    (buf : Bytes) (size : ℕ) (rt : Runtime) (h : ℕ)
    → WellCached rt
    → layout_hash_of rt.slots ≡ some h
    → ¬ Accepted buf size h rt.slots
    → (rt' : Runtime) × (save_state_load buf size rt ≡ some (false, rt')) × (rt'.slots ≡ rt.slots)
unfolding save_state_load
load_refuses buf size rt h w e n = elim (Bool-cases (ltb size header_size)) [
  | inl a ↦ (rt, rw a, refl)
  | inr a ↦ elim (Bool-cases ((read_header buf).magic == save_state_magic)) [
    | inr b ↦ (rt, rw (a, b), refl)
    | inl b ↦ elim (Bool-cases ((read_header buf).version == save_state_version)) [
      | inr c ↦ (rt, rw (a, b, c), refl)
      | inl c ↦ (
        record rt { layout_hash = h; initialized = true },
        rw (a, b, c, ensure_init_lem rt h w e)
            (rw (
              load_checked_refuses buf size (record rt { layout_hash = h; initialized = true })
                (ground arith) (ground arith) (ground arith) n)),
        refl,
      )
    ]
  ]
]

load_checked_accepts :
    (buf : Bytes) (size : ℕ) (rt : Runtime)
    → Accepted buf size rt.layout_hash rt.slots
    → load_checked buf size rt ≡ load_body buf (read_header buf).total_size rt
unfolding load_checked
load_checked_accepts buf size rt v =
    rw (eq→== _ _ v.hash_right, le→ltb_false _ _ v.total_fits, eq→== _ _ v.total_right)

-- A buffer that passes the six tests gets to the loop over the regions.
pub load_accepts :
    (buf : Bytes) (size : ℕ) (rt : Runtime) (h : ℕ)
    → WellCached rt
    → layout_hash_of rt.slots ≡ some h
    → Accepted buf size h rt.slots
    → save_state_load buf size rt
      ≡ some (
          load_body buf
            (read_header buf).total_size
            (record rt { layout_hash = h; initialized = true }))
unfolding save_state_load
load_accepts buf size rt h w e v =
    rw
      (
        le→ltb_false _ _ v.header_fits,
        eq→== _ _ v.magic_right,
        eq→== _ _ v.version_right,
        ensure_init_lem rt h w e,
      )
      (ap some (
        load_checked_accepts buf size (record rt { layout_hash = h; initialized = true })
          (record {
            header_fits = v.header_fits;
            magic_right = v.magic_right;
            version_right = v.version_right;
            hash_right = v.hash_right;
            total_fits = v.total_fits;
            total_right = v.total_right;
          })))
