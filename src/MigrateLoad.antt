-- ===== src/MigrateLoad.antt =====
-- save_state_n.c and save_state_n.h (spikes/spike-n/cart_runtime): the load that migrates when the
-- layout hash has changed.
pub mod Saved
pub mod Partial
use blyt_planning.Prelude.{
  ℕ, ◌+◌, Bool, true, false, not, ◌&&◌, Option, none, some, List, [], ◌∷◌, ltb, ◌==◌, if◌then◌else◌,
  Bytes, drop,
}
use blyt_planning.Tracked.{TrackedRegion, Slot}
use blyt_planning.SaveState.{
  Runtime, read_header, header_size, save_state_magic, save_state_version, save_state_load, ◌>>=◌,
}
use blyt_planning.Migrate.{Layout, Retype, str_eq, migrate_region_bytes}

-- `migrate_region_t`; `none` is a null pointer.
pub record MigrateRegion : Type 0 where
  pub name : Option Bytes
  pub old_size : ℕ
  pub old_layout : Option Layout
  pub new_layout : Option Layout
  pub on_retype : Option Retype

abbrev pub is_named : Bytes → Option MigrateRegion → Bool
is_named name none = false
is_named name (some m) = named m.name
  where
    named : Option Bytes → Bool
    named none = false
    named (some own) = str_eq own name

-- The first descriptor of the name; null entries and nameless ones are skipped.
unfoldable pub find_migrate_desc : Bytes → List (Option MigrateRegion) → Option MigrateRegion
unfolding str_eq
find_migrate_desc name [] = none
find_migrate_desc name (m ∷ ms) =
    let rest = find_migrate_desc name ms in if is_named name m then m else rest

-- `h->frame`
abbrev pub save_state_get_frame : Bytes → ℕ
save_state_get_frame buf = (read_header buf).frame

-- `m ? m->old_size : r->size`
abbrev pub old_size_of : Option MigrateRegion → TrackedRegion → ℕ
old_size_of none r = r.size
old_size_of (some m) r = m.old_size

-- `sizeof(scratch)`
abbrev pub migrate_scratch_size : ℕ
migrate_scratch_size = 4096

-- The raw load of a region from the bytes at `p`; its verdict and its storage.
abbrev pub load_raw : TrackedRegion → ℕ → Bytes → Bytes → Bool × Bytes
load_raw r old_sz at_p storage =
    if not (old_sz == r.size) then (false, storage) else r.load at_p r.size storage

-- The region's storage is loaded from the scratch buffer once the walk has filled it.
abbrev pub load_scratch : TrackedRegion → Bytes → Bool × Bytes → Bool × Bytes × Bytes
load_scratch r storage (false, scratch) = (false, storage, scratch)
load_scratch r storage (true, scratch) =
    let (ok, storage') = r.load scratch r.size storage in (ok, storage', scratch)

module _ (migrate_regions : List (Option MigrateRegion)) where
  -- The first loop, which mutates nothing.
  unfoldable pub sizes_present : List Slot → ℕ → ℕ → Bool
  unfolding find_migrate_desc
  sizes_present [] p end = true
  sizes_present (s ∷ slots) p end =
      let old_sz = old_size_of (find_migrate_desc s.region.name migrate_regions) s.region in
      if ltb end (p + old_sz) then false else sizes_present slots (p + old_sz) end

  abbrev pub migrated :
      TrackedRegion
      → Bytes
      → Bytes
      → Bytes
      → Option Layout
      → Option Layout
      → Option Retype
      → ℕ
      → Bool × Bytes × Bytes
  migrated r at_p storage scratch (some old_layout) (some new_layout) on_retype old_sz =
      if ltb migrate_scratch_size r.size
      then (false, storage, scratch)
      else load_scratch r storage
          (migrate_region_bytes old_layout at_p on_retype scratch new_layout)
  migrated r at_p storage scratch none new_layout on_retype old_sz =
      let (ok, storage') = load_raw r old_sz at_p storage in (ok, storage', scratch)
  migrated r at_p storage scratch (some old_layout) none on_retype old_sz =
      let (ok, storage') = load_raw r old_sz at_p storage in (ok, storage', scratch)

  -- One turn of the second loop: its verdict, the region's storage and the scratch buffer.
  unfoldable pub load_region :
      Option MigrateRegion → TrackedRegion → Bytes → Bytes → Bytes → Bool × Bytes × Bytes
  unfolding migrate_region_bytes
  load_region none r at_p storage scratch =
      let (ok, storage') = load_raw r r.size at_p storage in (ok, storage', scratch)
  load_region (some m) r at_p storage scratch =
      if not (is_named r.name (some m))
      then (false, storage, scratch)
      else migrated r at_p storage scratch m.old_layout m.new_layout m.on_retype m.old_size

  unfoldable pub apply_regions : List Slot → Bytes → ℕ → Bytes → Bool × List Slot × Bytes
  unfolding load_region find_migrate_desc
  apply_regions [] buf p scratch = (true, [], scratch)
  apply_regions (s ∷ slots) buf p scratch =
      let m = find_migrate_desc s.region.name migrate_regions in
      let (ok, storage, scratch') = load_region m s.region (drop p buf) s.storage scratch in
      let (done, loaded, scratch'') =
        apply_regions slots buf (p + old_size_of m s.region) scratch' in
      if not ok
      then (false, record s { storage = storage } ∷ slots, scratch')
      else (done, record s { storage = storage } ∷ loaded, scratch'')

  -- The branch of a changed layout.
  unfoldable pub load_changed : Bytes → ℕ → Runtime → Bytes → Bool × Runtime × Bytes
  unfolding sizes_present apply_regions
  load_changed buf end rt scratch =
      let (done, loaded, scratch') = apply_regions rt.slots buf header_size scratch in
      if not (sizes_present rt.slots header_size end)
      then (false, rt, scratch)
      else (done, record rt { slots = loaded }, scratch')

  -- `save_state_layout_hash` gives the cached hash as it is, 0 before `save_state_init`.
  -- The verdict, the runtime and the static scratch buffer; `none` as in `save_state_load`.
  unfoldable pub save_state_load_migrate :
      Bytes → ℕ → Runtime → Bytes → Option (Bool × Runtime × Bytes)
  unfolding save_state_load load_changed
  save_state_load_migrate buf size rt scratch =
      let h = read_header buf in
      if ltb size header_size
      then some (false, rt, scratch)
      else if not (h.magic == save_state_magic)
      then some (false, rt, scratch)
      else if not (h.version == save_state_version)
      then some (false, rt, scratch)
      else if ltb size h.total_size
      then some (false, rt, scratch)
      else if h.layout_hash == rt.layout_hash
      then (save_state_load buf size rt >>= λ q. some (q.0, q.1, scratch))
      else some (load_changed buf h.total_size rt scratch)
