-- ===== src/SaveState/Init.antt =====
-- `save_state_init` and the cached layout hash.
use blyt_planning.Prelude.{
  ℕ, ◌^◌, ◌<◌, true, some, List, [], ◌∷◌, ◌≡◌, refl, sym, ap, ◌∙◌, arith, Bool-cases, inl, inr,
}
use blyt_planning.Det.Fnv.{fnv1a_64_bytes-lt}
use blyt_planning.Tracked.{StringSink, Slot, describe_region, runtime_tracked_describe}
use blyt_planning.SaveState.{
  Runtime, layout_hash_of, hash_of_description, ensure_init, empty_scratch,
}
use blyt_planning.SaveState.Regions.{SameRegions}

-- A cached hash is the hash of the registry.
abbrev pub WellCached : Runtime → Type 0
WellCached rt = rt.initialized ≡ true → layout_hash_of rt.slots ≡ some rt.layout_hash

describe-SameRegions :
    (ss ts : List Slot) (sink : StringSink)
    → SameRegions ss ts
    → runtime_tracked_describe ts sink ≡ runtime_tracked_describe ss sink
unfolding runtime_tracked_describe
describe-SameRegions [] [] sink r = refl
describe-SameRegions [] (t ∷ ts) sink r = absurd r
describe-SameRegions (s ∷ ss) [] sink r = absurd r
describe-SameRegions (s ∷ ss) (t ∷ ts) sink (r, rs) =
    ap (λ g. runtime_tracked_describe ts (describe_region g sink)) (sym r)
    ∙ describe-SameRegions ss ts (describe_region s.region sink) rs

-- The hash depends on the regions alone, not on what they hold.
pub layout_hash_of-SameRegions :
    (ss ts : List Slot) → SameRegions ss ts → layout_hash_of ts ≡ layout_hash_of ss
unfolding layout_hash_of
layout_hash_of-SameRegions ss ts r =
    ap hash_of_description (describe-SameRegions ss ts empty_scratch r)

pub layout_hash_of-lt : (slots : List Slot) {h : ℕ} → layout_hash_of slots ≡ some h → h < 2 ^ 64
unfolding layout_hash_of
layout_hash_of-lt slots e =
    ground (arith, fnv1a_64_bytes-lt (runtime_tracked_describe slots empty_scratch).text)

-- Whether or not the hash was cached before, it is afterwards.
pub ensure_init_lem :
    (rt : Runtime) (h : ℕ)
    → WellCached rt
    → layout_hash_of rt.slots ≡ some h
    → ensure_init rt ≡ some (record rt { layout_hash = h; initialized = true })
unfolding ensure_init
ensure_init_lem rt h w e = elim (Bool-cases rt.initialized) [
  | inl on ↦ ground (arith, w on)
  | inr off ↦ ground arith
]
