-- ===== src/Regions.antt =====
-- The tracked regions. The storage of a region is the byte image of its packed struct.
pub mod Copy
pub mod FrameStateRegion
pub mod Whetstone
pub mod LuaSimple
pub mod VoiceEndQueue
pub mod PersistentScripts
pub mod CoroutineBlob
pub mod ScreenShake
pub mod NativeState
pub mod LuaCartState
pub mod Contracts
