-- ===== src/SaveState/Regions.antt =====
-- The loops of `save_state_save` and `save_state_load` over the registry.
use mathlib.Core.List.{append_assoc}
use native.Mathlib.Nat.{add-mod-mod}
use blyt_planning.Prelude.{
  ℕ, ◌+◌, ◌%◌, ◌^◌, ◌≤◌, ◌<◌, true, List, [], ◌∷◌, ◌++◌, ◌≡◌, refl, sym, ap, ◌∙◌, arith, Bytes,
  length, length-append, drop, drop-append_of_eq, drop-drop, take, take-append-drop, length-take,
  length-drop, All, write_at, write_at-append, false,
}
use blyt_planning.Tracked.{TrackedRegion, Slot, runtime_tracked_total_size}
use blyt_planning.SaveState.{save_regions, load_regions, save_state_buffer_capacity, header_size}

-- The sum of the sizes, without the wrap at 2 ^ 32.
abbrev pub sizes : List Slot → ℕ
sizes [] = 0
sizes (s ∷ slots) = s.region.size + sizes slots

-- The bytes that the regions write, in the registry's order.
abbrev pub body : List Slot → Bytes
body [] = []
body (s ∷ slots) = (s.region.save s.storage).0 ++ body slots

-- The registry as the save leaves it.
abbrev pub saved_slots : List Slot → List Slot
saved_slots [] = []
saved_slots (s ∷ slots) = record s { storage = (s.region.save s.storage).1 } ∷ saved_slots slots

-- What a region owes the save state, at its present storage: the save writes `size` bytes, and
-- loading these bytes gives the storage that the save left, whatever the storage was before.
pub record Saves (s : Slot) : Type 0 where
  pub save_length : length (s.region.save s.storage).0 ≡ s.region.size
  pub load_save :
      (rest old : Bytes)
      → s.region.load ((s.region.save s.storage).0 ++ rest) s.region.size old
        ≡ (true, (s.region.save s.storage).1)

-- Two registries of the same regions, whatever their storages hold.
abbrev pub SameRegions : List Slot → List Slot → Type 0
SameRegions [] [] = Unit
SameRegions [] (t ∷ ts) = ⊥
SameRegions (s ∷ ss) [] = ⊥
SameRegions (s ∷ ss) (t ∷ ts) = (s.region ≡ t.region) × SameRegions ss ts

pub total_size-eq : (slots : List Slot) → runtime_tracked_total_size slots ≡ sizes slots % 2 ^ 32
unfolding runtime_tracked_total_size
total_size-eq [] = refl
total_size-eq (s ∷ slots) =
    ap (λ t. (s.region.size + t) % 2 ^ 32) (total_size-eq slots)
    ∙ add-mod-mod s.region.size (sizes slots) (2 ^ 32)

pub capacity-eq :
    (slots : List Slot)
    → header_size + sizes slots < 2 ^ 32
    → save_state_buffer_capacity slots ≡ header_size + sizes slots
capacity-eq slots h = omega (arith, total_size-eq slots)

pub length-body : (slots : List Slot) → All Saves slots → length (body slots) ≡ sizes slots
length-body [] a = refl
length-body (s ∷ slots) (h, a) = omega (
  arith,
  length-append (s.region.save s.storage).0 (body slots),
  h.save_length,
  length-body slots a,
)

-- A write in the middle of an array with room for it.
pub write_at-split :
    (pre mid vs : Bytes) (p : ℕ)
    → length pre ≡ p
    → length vs ≤ length mid
    → write_at (pre ++ mid) p vs ≡ pre ++ (vs ++ drop (length vs) mid)
write_at-split pre mid vs p h k =
    ap (λ m. write_at (pre ++ m) p vs) (sym (take-append-drop (length vs) mid))
    ∙ write_at-append pre (take (length vs) mid) (drop (length vs) mid) vs p h
        (sym (length-take (length vs) mid k))

-- The save loop writes the regions' bytes one behind the other over what was there, and nothing
-- before or behind them.
pub save_regions_lem :
    (slots : List Slot) (pre mid : Bytes) (p : ℕ)
    → All Saves slots
    → length pre ≡ p
    → sizes slots ≤ length mid
    → save_regions slots p (pre ++ mid)
      ≡ (pre ++ (body slots ++ drop (sizes slots) mid), saved_slots slots)
unfolding save_regions
save_regions_lem [] pre mid p a h k = refl
save_regions_lem (s ∷ slots) pre mid p (hs, a) h k =
    ap (λ q. (q.0, slot ∷ q.1))
      (ap (save_regions slots (p + s.region.size)) written
        ∙ save_regions_lem slots (pre ++ bytes) (drop (length bytes) mid) (p + s.region.size) a
            (omega (arith, length-append pre bytes, hs.save_length))
            (omega (arith, length-drop (length bytes) mid, hs.save_length)))
    ∙ ap (λ b. (b, slot ∷ saved_slots slots)) regrouped
  where
    bytes : Bytes
    bytes = (s.region.save s.storage).0

    slot : Slot
    slot = record s { storage = (s.region.save s.storage).1 }

    written : write_at (pre ++ mid) p bytes ≡ (pre ++ bytes) ++ drop (length bytes) mid
    written =
        write_at-split pre mid bytes p h (omega (arith, hs.save_length))
        ∙ sym (append_assoc pre bytes (drop (length bytes) mid))

    regrouped :
        (pre ++ bytes) ++ (body slots ++ drop (sizes slots) (drop (length bytes) mid))
        ≡ pre ++ ((bytes ++ body slots) ++ drop (s.region.size + sizes slots) mid)
    regrouped =
        append_assoc pre bytes (body slots ++ drop (sizes slots) (drop (length bytes) mid))
        ∙ ap (λ t. pre ++ t) (sym (append_assoc bytes (body slots) _))
        ∙ ap (λ t. pre ++ ((bytes ++ body slots) ++ t))
            (drop-drop (length bytes) (sizes slots) mid
              ∙ ap (λ n. drop (n + sizes slots) mid) hs.save_length)

abbrev pub slot_of : TrackedRegion → Bytes → Slot
slot_of g st = record { region = g; storage = st }

load_regions_nil : (buf : Bytes) (p end : ℕ) → p ≡ end → load_regions [] buf p end ≡ (true, [])
unfolding load_regions
load_regions_nil buf p end h = ground arith

load_regions_step :
    (t : Slot) (ts : List Slot) (buf : Bytes) (p end : ℕ) {st : Bytes} {loaded : List Slot}
    → t.region.load (drop p buf) t.region.size t.storage ≡ (true, st)
    → p + t.region.size ≤ end
    → load_regions ts buf (p + t.region.size) end ≡ (true, loaded)
    → load_regions (t ∷ ts) buf p end ≡ (true, slot_of t.region st ∷ loaded)
unfolding load_regions
load_regions_step t ts buf p end h k e = ground arith

-- A region that refuses its bytes ends the loop, and keeps what its callback left in it.
pub load_regions_refused :
    (t : Slot) (ts : List Slot) (buf : Bytes) (p end : ℕ) {st : Bytes}
    → t.region.load (drop p buf) t.region.size t.storage ≡ (false, st)
    → p + t.region.size ≤ end
    → load_regions (t ∷ ts) buf p end ≡ (false, slot_of t.region st ∷ ts)
unfolding load_regions
load_regions_refused t ts buf p end h k = ground arith

-- Loading what the save loop wrote, over any other storages of the same regions, restores the
-- storages that the save left.
pub load_regions_lem :
    (slots ts : List Slot) (pre post : Bytes) (p end : ℕ)
    → All Saves slots
    → SameRegions slots ts
    → length pre ≡ p
    → end ≡ p + sizes slots
    → load_regions ts (pre ++ (body slots ++ post)) p end ≡ (true, saved_slots slots)
load_regions_lem [] [] pre post p end a r h e =
    load_regions_nil (pre ++ ([] ++ post)) p end (omega arith)
load_regions_lem [] (t ∷ ts) pre post p end a r h e = absurd r
load_regions_lem (s ∷ slots) [] pre post p end a r h e = absurd r
load_regions_lem (s ∷ slots) (t ∷ ts) pre post p end (hs, a) (r, rs) h e =
    load_regions_step t ts buf p end loads (omega (arith, same_size)) (
      ap (λ b. load_regions ts b (p + t.region.size) end) regrouped
      ∙ load_regions_lem slots ts (pre ++ bytes) post (p + t.region.size) end a rs
          (omega (arith, length-append pre bytes, hs.save_length, same_size))
          (omega (arith, same_size)))
    ∙ ap (λ g. (true, slot_of g (s.region.save s.storage).1 ∷ saved_slots slots)) (sym r)
  where
    bytes : Bytes
    bytes = (s.region.save s.storage).0

    buf : Bytes
    buf = pre ++ ((bytes ++ body slots) ++ post)

    same_size : s.region.size ≡ t.region.size
    same_size = ap (λ g. g.size) r

    source : drop p buf ≡ bytes ++ (body slots ++ post)
    source =
        drop-append_of_eq p pre ((bytes ++ body slots) ++ post) h
        ∙ append_assoc bytes (body slots) post

    loads : t.region.load (drop p buf) t.region.size t.storage ≡ (true, (s.region.save s.storage).1)
    loads =
        ap (λ src. t.region.load src t.region.size t.storage) source
        ∙ ap (λ g. g.load (bytes ++ (body slots ++ post)) g.size t.storage) (sym r)
        ∙ hs.load_save (body slots ++ post) t.storage

    regrouped : buf ≡ (pre ++ bytes) ++ (body slots ++ post)
    regrouped =
        ap (λ b. pre ++ b) (append_assoc bytes (body slots) post)
        ∙ sym (append_assoc pre bytes (body slots ++ post))
