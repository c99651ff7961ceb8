-- ===== src/Regions/PersistentScripts/Alloc.antt =====
-- The bitmap of the slot table: what each bit is after an operation, and which slot is allocated.
use blyt_planning.Prelude.{
  ℕ, zero, suc, ◌+◌, ◌/◌, ◌%◌, ◌^◌, ◌<◌, ◌≤◌, ℤ, pos, negsuc, ◌≡◌, refl, sym, ap, ◌∙◌, ◌⊎◌, inl,
  inr, arith, ◌==◌, if◌then◌else◌, Bool-cases, eq→==, length, get_or, set, get_or-set_self,
  get_or-set_ne, bit_or, bit_and, false, true,
}
use blyt_planning.Prelude.Bits
use blyt_planning.Prelude.Bits.{bit, all_but, shifted-bit, bit_or-lt, bit_and-le, two_pow-lt}
use blyt_planning.Regions.PersistentScripts.{
  PersistentScripts, bit_get, bit_set, bit_clear, alloc_from, persistent_scripts_alloc,
}

-- Two words of 32 bits.
pub record Marked (g : PersistentScripts) : Type 0 where
  pub words : length g.active_bits ≡ 2
  pub word_bound : (k : ℕ) → get_or g.active_bits k 0 < 2 ^ 32

bit_get-bit :
    (s : ℕ) (g : PersistentScripts) → bit_get s g ≡ bit (get_or g.active_bits (s / 32) 0) (s % 32)
unfolding bit_get
bit_get-bit s g = shifted-bit (get_or g.active_bits (s / 32) 0) (s % 32)

-- A word of the bitmap is replaced.
get_or-word :
    (g : PersistentScripts) (s t v : ℕ)
    → length g.active_bits ≡ 2
    → s < 64
    → get_or (set g.active_bits (s / 32) v) (t / 32) 0
      ≡ (if s / 32 == t / 32 then v else get_or g.active_bits (t / 32) 0)
get_or-word g s t v h lt = elim (Bool-cases (s / 32 == t / 32)) [
  | inl e ↦ rw e (
      ap (λ k. get_or (set g.active_bits (s / 32) v) k 0) {x = t / 32} {y = s / 32} (ground arith)
      ∙ get_or-set_self g.active_bits (s / 32) v 0 (omega arith))
  | inr e ↦ rw e (get_or-set_ne g.active_bits (s / 32) (t / 32) v 0 (λ q. ground arith))
]

other_bit : (s t : ℕ) → (s / 32 == t / 32) ≡ true → (s == t) ≡ false → (s % 32 == t % 32) ≡ false
other_bit s t e q = ground arith

other_word : (s t : ℕ) → (s / 32 == t / 32) ≡ false → (s == t) ≡ false
other_word s t e = ground arith

-- Marking a slot marks that slot alone.
pub bit_get-bit_set :
    (g : PersistentScripts) (s t : ℕ)
    → length g.active_bits ≡ 2
    → s < 64
    → bit_get t (bit_set s g) ≡ (if s == t then 1 else bit_get t g)
unfolding bit_set
bit_get-bit_set g s t h lt =
    let word = get_or g.active_bits (s / 32) 0 in
    bit_get-bit t (bit_set s g)
    ∙ ap (λ w. bit w (t % 32)) (get_or-word g s t (bit_or word (2 ^ (s % 32))) h lt)
    ∙ elim (Bool-cases (s / 32 == t / 32)) [
      | inl e ↦ rw e (
          Bits.bit_set word (s % 32) (t % 32) ∙ elim (Bool-cases (s == t)) [
            | inl q ↦ rw q (rw (eq→== (s % 32) (t % 32) (ground arith)) refl)
            | inr q ↦ rw q (
                rw (other_bit s t e q) (
                  ap (λ k. bit (get_or g.active_bits k 0) (t % 32)) {x = s / 32} {y = t / 32}
                    (ground arith)
                  ∙ sym (bit_get-bit t g)))
          ])
      | inr e ↦ rw e (rw (other_word s t e) (sym (bit_get-bit t g)))
    ]

-- Unmarking a slot unmarks that slot alone.
pub bit_get-bit_clear :
    (g : PersistentScripts) (s t : ℕ)
    → Marked g
    → s < 64
    → bit_get t (bit_clear s g) ≡ (if s == t then 0 else bit_get t g)
unfolding bit_clear
bit_get-bit_clear g s t m lt =
    let word = get_or g.active_bits (s / 32) 0 in
    bit_get-bit t (bit_clear s g)
    ∙ ap (λ w. bit w (t % 32)) (get_or-word g s t (bit_and word (all_but 32 (s % 32))) m.words lt)
    ∙ elim (Bool-cases (s / 32 == t / 32)) [
      | inl e ↦ rw e (
          Bits.bit_clear 32 word (s % 32) (t % 32) (m.word_bound (s / 32)) (omega arith)
          ∙ elim (Bool-cases (s == t)) [
            | inl q ↦ rw q (rw (eq→== (s % 32) (t % 32) (ground arith)) refl)
            | inr q ↦ rw q (
                rw (other_bit s t e q) (
                  ap (λ k. bit (get_or g.active_bits k 0) (t % 32)) {x = s / 32} {y = t / 32}
                    (ground arith)
                  ∙ sym (bit_get-bit t g)))
          ])
      | inr e ↦ rw e (rw (other_word s t e) (sym (bit_get-bit t g)))
    ]

pub bit_get-lt : (s : ℕ) (g : PersistentScripts) → bit_get s g < 2
unfolding bit_get
bit_get-lt s g = omega arith

-- What an allocation over the slots from `s` on, `n` of them, may give.
abbrev pub AllocOutcome : ℕ → ℕ → PersistentScripts → ℤ × PersistentScripts → Type 0
AllocOutcome n s g out =
    ((out ≡ (negsuc 0, g)) × ((t : ℕ) → s ≤ t → t < s + n → bit_get t g ≡ 1))
    ⊎ ((k : ℕ) × (s ≤ k)
        × (k < s + n)
        × (out ≡ (pos k, bit_set k g))
        × (bit_get k g ≡ 0)
        × ((t : ℕ) → s ≤ t → t < k → bit_get t g ≡ 1))

alloc_from_lem : (n s : ℕ) (g : PersistentScripts) → AllocOutcome n s g (alloc_from n s g)
unfolding alloc_from
alloc_from_lem zero s g = inl (refl, λ t p q. absurd (omega arith))
alloc_from_lem (suc n) s g = elim (Bool-cases (bit_get s g == 0)) [
  | inl e ↦
      inr (s, omega arith, omega arith, rw e refl, ground arith, λ t p q. absurd (omega arith))
  | inr e ↦ later e (alloc_from_lem n (suc s) g)
]
  where
    marked : (bit_get s g == 0) ≡ false → bit_get s g ≡ 1
    marked e = ground (arith, bit_get-lt s g)

    first :
        (m : ℕ)
        → (bit_get s g == 0) ≡ false
        → ((t : ℕ) → suc s ≤ t → t < m → bit_get t g ≡ 1)
        → (t : ℕ) → s ≤ t
        → t < m
        → bit_get t g ≡ 1
    first m e all t p q = elim (Bool-cases (s == t)) [
      | inl i ↦ ap (λ x. bit_get x g) {x = t} {y = s} (ground arith) ∙ marked e
      | inr i ↦ all t (ground arith) q
    ]

    later :
        (bit_get s g == 0) ≡ false
        → AllocOutcome n (suc s) g (alloc_from n (suc s) g)
        → AllocOutcome
            (suc n)
            s
            g
            (if bit_get s g == 0 then (pos s, bit_set s g) else alloc_from n (suc s) g)
    later e (inl (out, all)) = inl (rw e out, first (s + suc n) e (λ t p q. all t p (omega arith)))
    later e (inr (k, lo, hi, out, free, all)) =
        inr (k, omega arith, omega arith, rw e out, free, first k e all)

pub alloc-outcome : (g : PersistentScripts) → AllocOutcome 64 0 g (persistent_scripts_alloc g)
unfolding persistent_scripts_alloc
alloc-outcome g = alloc_from_lem 64 0 g

-- Slot `k` was the lowest free one, and is in use behind the allocation; no other slot's mark, and
-- no length and no byte of the table, is changed.
pub record Allocates (k : ℕ) (g g' : PersistentScripts) : Type 0 where
  pub in_range : k < 64
  pub was_free : bit_get k g ≡ 0
  pub lowest : (t : ℕ) → t < k → bit_get t g ≡ 1
  pub marks : (t : ℕ) → bit_get t g' ≡ (if k == t then 1 else bit_get t g)
  pub same_lens : g'.slot_lens ≡ g.slot_lens
  pub same_slots : g'.slots ≡ g.slots

-- With the two words of the bitmap, `persistent_scripts_alloc` either returns -1 with the table
-- unchanged, and then all 64 slots are in use, or it returns the lowest free slot, which is in use
-- afterwards; every other slot's mark and all lengths and bytes are as they were.
pub persistent_scripts_alloc_lem :
    (g : PersistentScripts)
    → length g.active_bits ≡ 2
    → ((persistent_scripts_alloc g ≡ (negsuc 0, g)) × ((t : ℕ) → t < 64 → bit_get t g ≡ 1))
      ⊎ ((k : ℕ) × (g' : PersistentScripts) × (persistent_scripts_alloc g ≡ (pos k, g'))
          × Allocates k g g')
unfolding bit_set
persistent_scripts_alloc_lem g h = elim (alloc-outcome g) [
  | inl (out, all) ↦ inl (out, λ t p. all t (omega arith) (omega arith))
  | inr (k, lo, hi, out, free, all) ↦
      inr (k, bit_set k g, out, allocates k (omega arith) free (λ t p. all t (omega arith) p))
]
  where
    allocates :
        (k : ℕ)
        → k < 64
        → bit_get k g ≡ 0
        → ((t : ℕ) → t < k → bit_get t g ≡ 1)
        → Allocates k g (bit_set k g)
    allocates k lt free all = record {
      in_range = lt;
      was_free = free;
      lowest = all;
      marks = λ t. bit_get-bit_set g k t h lt;
      same_lens = refl;
      same_slots = refl;
    }
