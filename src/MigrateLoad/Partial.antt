-- ===== src/MigrateLoad/Partial.antt =====
-- A migrating load that fails half way.
use blyt_planning.Prelude.{
  ℕ, ◌+◌, ◌≤◌, true, false, some, [], ◌∷◌, ◌≢◌, ◌≡◌, refl, ap, arith, ◌==◌, le→ltb_false, eq→==,
  ==_refl, Bytes, drop,
}
use blyt_planning.Tracked.{TrackedRegion}
use blyt_planning.SaveState.{
  Runtime, header_size, read_header, save_state_magic, save_state_version,
}
use blyt_planning.MigrateLoad.{
  save_state_load_migrate, load_changed, sizes_present, apply_regions, load_region,
  find_migrate_desc,
}

-- The two regions are loaded raw; the first accepts its bytes and the second refuses.
partial :
    (r s : TrackedRegion) (old_r new_r old_s new_s scratch buf : Bytes)
    → r.load (drop header_size buf) r.size old_r ≡ (true, new_r)
    → s.load (drop (header_size + r.size) buf) s.size old_s ≡ (false, new_s)
    → apply_regions []
        (record { region = r; storage = old_r } ∷ record { region = s; storage = old_s } ∷ [])
        buf
        header_size
        scratch
      ≡ (
        false,
        record { region = r; storage = new_r } ∷ record { region = s; storage = new_s } ∷ [],
        scratch,
      )
unfolding apply_regions load_region find_migrate_desc
partial r s old_r new_r old_s new_s scratch buf a b =
    rw (==_refl r.size) (rw (==_refl s.size) (rw a (rw b refl)))

-- The migrating load is not atomic. With no migration registered and two regions, a buffer that
-- passes the tests of the header, has another layout hash and holds both regions, whose first
-- region accepts its bytes and whose second refuses, makes `save_state_load_migrate` return 0 with
-- the storages that both loads left, the first one replaced.
pub load_migrate-partial :
    (buf : Bytes) (size : ℕ) (rt : Runtime) (r s : TrackedRegion)
    (old_r new_r old_s new_s scratch : Bytes)
    → rt.slots
      ≡ record { region = r; storage = old_r } ∷ record { region = s; storage = old_s } ∷ []
    → header_size ≤ size
    → (read_header buf).magic ≡ save_state_magic
    → (read_header buf).version ≡ save_state_version
    → (read_header buf).total_size ≤ size
    → (read_header buf).layout_hash ≢ rt.layout_hash
    → header_size + r.size + s.size ≤ (read_header buf).total_size
    → r.load (drop header_size buf) r.size old_r ≡ (true, new_r)
    → s.load (drop (header_size + r.size) buf) s.size old_s ≡ (false, new_s)
    → save_state_load_migrate [] buf size rt scratch
      ≡ some (
        false,
        record rt {
          slots =
              record { region = r; storage = new_r } ∷ record { region = s; storage = new_s } ∷ [];
        },
        scratch,
      )
unfolding save_state_load_migrate load_changed sizes_present find_migrate_desc
load_migrate-partial buf size rt r s old_r new_r old_s new_s scratch regions a b c d e room p q =
    rw
      (
        le→ltb_false _ _ a,
        eq→== _ _ b,
        eq→== _ _ c,
        le→ltb_false _ _ d,
        differ (read_header buf).layout_hash rt.layout_hash e,
      )
      (rw regions (
        rw
          (
            le→ltb_false (read_header buf).total_size (header_size + r.size) (omega arith),
            le→ltb_false (read_header buf).total_size (header_size + r.size + s.size) (omega arith),
          )
          (ap (λ t. some (t.0, record rt { slots = t.1 }, t.2))
            (partial r s old_r new_r old_s new_s scratch buf p q))))
  where
    differ : (x y : ℕ) → x ≢ y → (x == y) ≡ false
    differ x y h = ground arith
