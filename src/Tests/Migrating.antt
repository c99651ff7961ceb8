-- ===== src/Tests/Migrating.antt =====
-- Migrations and the registry at concrete inputs.
use blyt_planning.Prelude.{
  ◌^◌, true, false, some, [], ◌∷◌, ◌++◌, ◌≡◌, refl, arith, Bytes, All, replicate, take, le_bytes,
  load_le, le_bytes-IsBytes, length-replicate, ℕ,
}
use blyt_planning.SaveState.{Runtime, header_bytes, save_state_magic, save_state_load}
use blyt_planning.SaveState.Regions.{slot_of, Saves}
use blyt_planning.Migrate.{i32, i64, Layout, migrate_region_bytes}
use blyt_planning.Regions.NativeState.{
  retype_i32_to_i64, native_state_layout_v0, native_state_layout_v4, native_state_layout_v5, v5,
  region_native_state,
}
use blyt_planning.Regions.NativeState.Widen.{signed, migrate_v4_v5}
use blyt_planning.Regions.VoiceEndQueue.{region_voice_end_queue}
use blyt_planning.Regions.FrameStateRegion.{region_frame_state}
use blyt_planning.Regions.Whetstone.{initial_state, region_cart_state_whetstone}
use blyt_planning.Regions.LuaSimple.{region_cart_state_lua_simple}
use blyt_planning.Regions.ScreenShake.{region_screen_shake}
use blyt_planning.Regions.CoroutineBlob.{region_coroutine_save_blob}
use blyt_planning.Regions.PersistentScripts.{region_persistent_scripts}
use blyt_planning.Regions.LuaCartState.{v4, region_lua_cart_state}
use blyt_planning.Regions.Contracts.{copied_regions-Saves}
use blyt_planning.MigrateLoad.{save_state_load_migrate}
use blyt_planning.MigrateLoad.Partial.{load_migrate-partial}
use blyt_planning.MigrateLoad.Saved.{load_migrate-load}

abbrev old_state : Bytes
old_state = le_bytes 12 0x0000000700000005ffffffff

abbrev blank : Bytes
blank = replicate 16 170

-- A layout with padding behind its one field.
abbrev padded : Layout
padded = record native_state_layout_v0 { fields = take 1 native_state_layout_v0.fields }

migrate_v4_v5_example :
    let (ok, out) =
      migrate_region_bytes native_state_layout_v4 old_state
        (some retype_i32_to_i64)
        blank
        native_state_layout_v5 in
    (ok ≡ true)
    × (signed (2 ^ 63) (load_le 8 out 0) ≡ signed (2 ^ 31) (load_le 4 old_state 0))
    × (load_le 4 out 8 ≡ load_le 4 old_state 4)
    × (load_le 4 out 12 ≡ load_le 4 old_state 8)
migrate_v4_v5_example =
    migrate_v4_v5 old_state blank (le_bytes-IsBytes 12 0x0000000700000005ffffffff) refl
      (omega arith)

-- Two regions: the native state, and a queue whose bytes in the buffer count nine events.
abbrev two_regions : Runtime
two_regions = record {
  slots =
      slot_of (region_native_state v5) blank ∷ slot_of region_voice_end_queue (replicate 57 0) ∷ [];
  layout_hash = 1;
  initialized = true;
}

abbrev bad_queue : Bytes
bad_queue = replicate 8 0 ++ (9 ∷ replicate 48 0)

abbrev changed : Bytes
changed =
    header_bytes (record {
      magic = save_state_magic;
      version = 1;
      layout_hash = 2;
      frame = 0;
      total_size = 97;
    })
    ++ (replicate 16 3 ++ bad_queue)

load_migrate-partial_example :
    save_state_load_migrate [] changed 97 two_regions []
    ≡ some (
      false,
      record two_regions {
        slots =
            slot_of (region_native_state v5) (replicate 16 3)
            ∷ slot_of region_voice_end_queue bad_queue
            ∷ [];
      },
      [],
    )
unfolding blyt_planning.Regions.NativeState.load blyt_planning.Regions.VoiceEndQueue.load
load_migrate-partial_example =
    load_migrate-partial changed 97 two_regions (region_native_state v5) region_voice_end_queue
      blank (replicate 16 3) (replicate 57 0) bad_queue [] refl (omega arith) refl refl
      (omega arith) (λ e. omega arith) (omega arith) refl refl

-- The same layout, with one region.
abbrev one_region : Bytes → Runtime
one_region storage = record {
  slots = slot_of (region_native_state v5) storage ∷ [];
  layout_hash = 2;
  initialized = true;
}

abbrev same : Bytes
same =
    header_bytes (record {
      magic = save_state_magic;
      version = 1;
      layout_hash = 2;
      frame = 0;
      total_size = 40;
    })
    ++ replicate 16 3

load_migrate-load_example :
    save_state_load_migrate [] same 40 (one_region blank) []
    ≡ some (true, one_region (replicate 16 3), [])
unfolding save_state_load blyt_planning.SaveState.load_regions
    blyt_planning.Tracked.runtime_tracked_total_size blyt_planning.Regions.NativeState.load
load_migrate-load_example =
    load_migrate-load [] same 40 (one_region blank) (one_region (replicate 16 3)) [] refl refl

copied_regions-Saves_example : All Saves (
    slot_of region_frame_state (replicate 1316 1)
    ∷ slot_of region_cart_state_whetstone initial_state
    ∷ slot_of region_cart_state_lua_simple (replicate 96 1)
    ∷ slot_of region_screen_shake (replicate 16 255)
    ∷ slot_of region_coroutine_save_blob (replicate 132 1)
    ∷ slot_of region_persistent_scripts (replicate 16520 1)
    ∷ slot_of (region_native_state v5) blank
    ∷ slot_of (region_lua_cart_state v4) (replicate 12 1)
    ∷ [])
copied_regions-Saves_example =
    copied_regions-Saves v5 v4 (replicate 1316 1) initial_state (replicate 96 1) (replicate 16 255)
      (replicate 132 1) (replicate 16520 1) blank (replicate 12 1) (length-replicate {A = ℕ} 1316 1)
      refl (length-replicate {A = ℕ} 96 1) refl refl (length-replicate {A = ℕ} 16520 1) refl refl
