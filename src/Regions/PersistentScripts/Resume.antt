-- ===== src/Regions/PersistentScripts/Resume.antt =====
-- Resuming from a save: the bitmap is cleared, and the allocations of a fresh run meet the saved
-- blobs again.
use mathlib.Core.Path.{subst}
use blyt_planning.Prelude.{
  ℕ, zero, suc, ◌<◌, ◌≤◌, ◌+◌, ◌/◌, ◌%◌, ◌^◌, pos, List, [], ◌∷◌, ◌≡◌, refl, ap, ◌∙◌, inl, inr,
  arith, false, ◌==◌, if◌then◌else◌, lt→ltb, le→ltb_false, length, get_or, set, take, length-set,
  compare_cases, Bool-cases, sym, joined-drop, take-append_le, joined, drop,
}
use blyt_planning.Prelude.Bits.{bit-zero, shifted-bit}
use blyt_planning.Regions.PersistentScripts.{
  PersistentScripts, bit_get, bit_set, persistent_scripts_alloc, persistent_scripts_unmark_all,
  persistent_scripts_read,
}
use blyt_planning.Regions.PersistentScripts.Alloc.{alloc-outcome, bit_get-bit_set}

cleared_words : (xs : List ℕ) (k : ℕ) → length xs ≡ 2 → get_or (set (set xs 0 0) 1 0) k 0 ≡ 0
cleared_words [] k h = refl
cleared_words (a ∷ []) k h = absurd (omega arith)
cleared_words (a ∷ b ∷ []) zero h = refl
cleared_words (a ∷ b ∷ []) (suc zero) h = refl
cleared_words (a ∷ b ∷ []) (suc (suc k)) h = refl
cleared_words (a ∷ b ∷ c ∷ xs) k h = absurd (omega arith)

-- Right behind `n` allocations over a cleared bitmap: the slots below `n` are in use and no other,
-- and the lengths and the bytes are those of `g`.
record Resumed (n : ℕ) (g h : PersistentScripts) : Type 0 where
  words : length h.active_bits ≡ 2
  used : (t : ℕ) → t < n → bit_get t h ≡ 1
  unused : (t : ℕ) → n ≤ t → t < 64 → bit_get t h ≡ 0
  same_lens : h.slot_lens ≡ g.slot_lens
  same_slots : h.slots ≡ g.slots

Resumed-unmark_all :
    (g : PersistentScripts)
    → length g.active_bits ≡ 2
    → Resumed 0 g (persistent_scripts_unmark_all g)
unfolding persistent_scripts_unmark_all bit_get
Resumed-unmark_all g h = record {
  words = length-set (set g.active_bits 0 0) 1 0 ∙ length-set g.active_bits 0 0 ∙ h;
  used = λ t p. absurd (omega arith);
  unused = λ t p q.
      ap (λ w. w / 2 ^ (t % 32) % 2) (cleared_words g.active_bits (t / 32) h)
      ∙ shifted-bit 0 (t % 32)
      ∙ bit-zero (t % 32);
  same_lens = refl;
  same_slots = refl;
}

-- The next allocation takes slot `n`.
next_slot :
    (n : ℕ) (g h : PersistentScripts)
    → Resumed n g h
    → n < 64
    → persistent_scripts_alloc h ≡ (pos n, bit_set n h)
next_slot n g h r lt = elim (alloc-outcome h) [
  | inl (out, all) ↦
      absurd (omega (arith, all n (omega arith) (omega arith), r.unused n (omega arith) lt))
  | inr (k, lo, hi, out, free, all) ↦ out ∙ ap (λ i. (pos i, bit_set i h)) (lowest k free hi all)
]
  where
    lowest :
        (k : ℕ) → bit_get k h ≡ 0 → k < 0 + 64 → ((t : ℕ) → 0 ≤ t → t < k → bit_get t h ≡ 1) → k ≡ n
    lowest k free hi all = elim (compare_cases k n) [
      | inl lt' ↦ absurd (omega (arith, r.used k lt'))
      | inr (inl e) ↦ e
      | inr (inr gt) ↦ absurd (omega (arith, all n (omega arith) gt, r.unused n (omega arith) lt))
    ]

Resumed-bit_set :
    (n : ℕ) (g h : PersistentScripts) → Resumed n g h → n < 64 → Resumed (suc n) g (bit_set n h)
unfolding bit_set
Resumed-bit_set n g h r lt = record {
  words = length-set h.active_bits (n / 32) _ ∙ r.words;
  used = λ t p. bit_get-bit_set h n t r.words lt ∙ used t p;
  unused = λ t p q. bit_get-bit_set h n t r.words lt ∙ rw (differ t p) (r.unused t (omega arith) q);
  same_lens = r.same_lens;
  same_slots = r.same_slots;
}
  where
    differ : (t : ℕ) → suc n ≤ t → (n == t) ≡ false
    differ t p = ground arith

    used : (t : ℕ) → t < suc n → (if n == t then 1 else bit_get t h) ≡ 1
    used t p = elim (Bool-cases (n == t)) [
      | inl e ↦ rw e refl
      | inr e ↦ rw e (r.used t (ground arith))
    ]

-- The state behind `n` allocations.
abbrev pub allocated : ℕ → PersistentScripts → PersistentScripts
allocated zero g = g
allocated (suc n) g = (persistent_scripts_alloc (allocated n g)).1

Resumed-allocated :
    (n : ℕ) (g : PersistentScripts)
    → length g.active_bits ≡ 2
    → n ≤ 64
    → Resumed n g (allocated n (persistent_scripts_unmark_all g))
Resumed-allocated zero g h k = Resumed-unmark_all g h
Resumed-allocated (suc n) g h k =
    let before = allocated n (persistent_scripts_unmark_all g) in
    let r = Resumed-allocated n g h (omega arith) in
    subst (λ k. Resumed (suc n) g k) (sym (ap (λ q. q.1) (next_slot n g before r (omega arith))))
      (Resumed-bit_set n g before r (omega arith))

-- With the two words of the bitmap cleared, the allocation that follows `n` others, with `n` below
-- 64, returns slot `n`, and where the length that the table holds for it is at most the bytes of
-- the slot, reading that slot at once, with room for it, gives the blob that the table held there
-- before: its length, and that many bytes of the slot.
pub alloc-resumes :
    (g : PersistentScripts) (n room : ℕ)
    → length g.active_bits ≡ 2
    → n < 64
    → get_or g.slot_lens n 0 ≤ length (get_or g.slots n [])
    → get_or g.slot_lens n 0 ≤ room
    → (persistent_scripts_alloc (allocated n (persistent_scripts_unmark_all g))).0 ≡ pos n
      × (persistent_scripts_read (pos n) room (allocated (suc n) (persistent_scripts_unmark_all g))
          ≡ (pos (get_or g.slot_lens n 0), take (get_or g.slot_lens n 0) (get_or g.slots n [])))
unfolding persistent_scripts_read
alloc-resumes g n room h lt fits space = (
  ap (λ q. q.0)
      (next_slot n g (allocated n (persistent_scripts_unmark_all g))
        (Resumed-allocated n g h (omega arith)) lt),
  reads (allocated (suc n) (persistent_scripts_unmark_all g))
      (Resumed-allocated (suc n) g h (omega arith)),
)
  where
    reads :
        (k : PersistentScripts)
        → Resumed (suc n) g k
        → persistent_scripts_read (pos n) room k
          ≡ (pos (get_or g.slot_lens n 0), take (get_or g.slot_lens n 0) (get_or g.slots n []))
    reads k r = rw (lt→ltb n 64 lt) (
        rw (r.used n (omega arith)) (
          rw r.same_lens (
            rw r.same_slots (
              rw (le→ltb_false room (get_or g.slot_lens n 0) space) (
                ap (λ d. (pos (get_or g.slot_lens n 0), d))
                  (ap (take (get_or g.slot_lens n 0)) (joined-drop g.slots n)
                    ∙ take-append_le (get_or g.slot_lens n 0) (get_or g.slots n [])
                        (joined (drop (suc n) g.slots)) fits))))))
