-- ===== src/Regions/Contracts.antt =====
-- Every region whose callbacks copy its struct keeps the contract that the save state asks for.
use blyt_planning.Prelude.{[], ◌∷◌, ◌≡◌, refl, Bytes, length, All}
use blyt_planning.SaveState.Regions.{Saves, slot_of}
use blyt_planning.Det.FrameState
use blyt_planning.Regions.Copy.{copied-Saves, canonical-Saves}
use blyt_planning.Regions.FrameStateRegion
use blyt_planning.Regions.Whetstone
use blyt_planning.Regions.LuaSimple
use blyt_planning.Regions.ScreenShake
use blyt_planning.Regions.CoroutineBlob
use blyt_planning.Regions.PersistentScripts
use blyt_planning.Regions.NativeState
use blyt_planning.Regions.LuaCartState

-- The eight regions that are copied whole, in every version of the carts' state, keep the save
-- contract on any storage of the region's size: the save writes `size` bytes, and loading them,
-- over any storage, is accepted and restores the storage that the save left.
pub copied_regions-Saves :
    (native : NativeState.Version) (lua : LuaCartState.Version) (fs wh ls sh co ps ns lc : Bytes)
    → length fs ≡ FrameStateRegion.region_frame_state.size
    → length wh ≡ Whetstone.region_cart_state_whetstone.size
    → length ls ≡ LuaSimple.region_cart_state_lua_simple.size
    → length sh ≡ ScreenShake.region_screen_shake.size
    → length co ≡ CoroutineBlob.region_coroutine_save_blob.size
    → length ps ≡ PersistentScripts.region_persistent_scripts.size
    → length ns ≡ (NativeState.region_native_state native).size
    → length lc ≡ (LuaCartState.region_lua_cart_state lua).size
    → All Saves (
        slot_of FrameStateRegion.region_frame_state fs
        ∷ slot_of Whetstone.region_cart_state_whetstone wh
        ∷ slot_of LuaSimple.region_cart_state_lua_simple ls
        ∷ slot_of ScreenShake.region_screen_shake sh
        ∷ slot_of CoroutineBlob.region_coroutine_save_blob co
        ∷ slot_of PersistentScripts.region_persistent_scripts ps
        ∷ slot_of (NativeState.region_native_state native) ns
        ∷ slot_of (LuaCartState.region_lua_cart_state lua) lc
        ∷ [])
unfolding FrameStateRegion.save FrameStateRegion.load Whetstone.save Whetstone.load LuaSimple.save
    LuaSimple.load ScreenShake.save ScreenShake.load CoroutineBlob.save CoroutineBlob.load
    PersistentScripts.save PersistentScripts.load NativeState.save NativeState.load
    LuaCartState.save LuaCartState.load
copied_regions-Saves native lua fs wh ls sh co ps ns lc h1 h2 h3 h4 h5 h6 h7 h8 = (
  canonical-Saves FrameStateRegion.region_frame_state refl fs h1 FrameState.f32_fields refl,
  (
    canonical-Saves Whetstone.region_cart_state_whetstone refl wh h2 Whetstone.f32_fields refl,
    (
      canonical-Saves LuaSimple.region_cart_state_lua_simple refl ls h3
          (LuaSimple.entity_fields 8 0) refl,
      (
        canonical-Saves ScreenShake.region_screen_shake refl sh h4 ScreenShake.f32_fields refl,
        (
          copied-Saves CoroutineBlob.region_coroutine_save_blob refl co h5 refl,
          (
            copied-Saves PersistentScripts.region_persistent_scripts refl ps h6 refl,
            (
              copied-Saves (NativeState.region_native_state native) refl ns h7 refl,
              (copied-Saves (LuaCartState.region_lua_cart_state lua) refl lc h8 refl, tt),
            ),
          ),
        ),
      ),
    ),
  ),
)
