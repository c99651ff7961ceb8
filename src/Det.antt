-- ===== src/Det.antt =====
-- The determinism layer (spikes/spike-d/cart_runtime): NaN canonicalisation, the PCG32 generator,
-- the packed frame state and its FNV-1a-64 digest.
pub mod Nan
pub mod Fnv
pub mod Pcg32
pub mod FrameState
pub mod Canon
