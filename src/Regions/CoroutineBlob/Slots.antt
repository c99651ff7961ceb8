-- ===== src/Regions/CoroutineBlob/Slots.antt =====
-- What a slot of the coroutine blob gives back after a write and an activation.
use blyt_planning.Prelude.{
  ℕ, ◌<◌, ◌≤◌, ◌^◌, [], ◌≡◌, refl, sym, ap, ◌∙◌, arith, ◌==◌, if◌then◌else◌, lt→leb_false,
  le→ltb_false, Bytes, length, get_or, take, drop, write_at, write_at-append, take-append-drop,
  take-append_of_eq, length-take, get_or-set_self, bit_and, bit_or, ==_refl,
}
use blyt_planning.Prelude.Bits.{bit, bit_and-two_pow, two_pow-pos}
use blyt_planning.Prelude.Bits
use blyt_planning.Regions.CoroutineBlob.{
  CoroutineBlob, coroutine_blob_activate, coroutine_blob_write, coroutine_blob_read,
  coroutine_blob_is_active,
}

tested : (x slot : ℕ) → (bit_and x (2 ^ slot) == 0) ≡ (bit x slot == 0)
tested x slot = ground (arith, bit_and-two_pow slot x, two_pow-pos slot, Bits.bit-lt x slot)

-- The bytes written first come back from the front of the slot.
front :
    (old src : Bytes) (n : ℕ)
    → n ≤ length old
    → n ≤ length src
    → take n (write_at old 0 (take n src)) ≡ take n src
front old src n h k =
    ap (λ d. take n (write_at d 0 (take n src))) (sym (take-append-drop n old))
    ∙ ap (take n) (
        write_at-append [] (take n old) (drop n old) (take n src) 0 refl
          (omega (arith, length-take n src k, length-take n old h)))
    ∙ take-append_of_eq n (take n src) (drop n old) (length-take n src k)

-- For a slot below 4 that has its 32 bytes, `n` bytes of a source that has them, up to 32, are
-- written and the slot then activated: a read of `n` bytes gives them back.
pub read-activate-write :
    (g : CoroutineBlob) (slot n : ℕ) (src : Bytes)
    → slot < 4
    → slot < length g.slots
    → length (get_or g.slots slot []) ≡ 32
    → n ≤ 32
    → n ≤ length src
    → coroutine_blob_read slot n (coroutine_blob_activate slot (coroutine_blob_write slot src n g))
      ≡ (1, take n src)
unfolding coroutine_blob_read coroutine_blob_activate coroutine_blob_write
read-activate-write g slot n src lt room sized fits given = rw (lt→leb_false 4 slot lt) (
    rw (tested (bit_or g.active_slots_bits (2 ^ slot)) slot) (
      rw (Bits.bit_set g.active_slots_bits slot slot) (
        rw (==_refl slot) (
          rw (le→ltb_false 32 n fits) (
            ap (λ d. (1, take n d))
              (get_or-set_self g.slots slot (write_at (get_or g.slots slot []) 0 (take n src)) []
                room)
            ∙ ap (λ d. (1, d)) (front (get_or g.slots slot []) src n (omega arith) given))))))

is_active-bit :
    (slot : ℕ) (g : CoroutineBlob)
    → slot < 4
    → coroutine_blob_is_active slot g ≡ bit g.active_slots_bits slot
unfolding coroutine_blob_is_active
is_active-bit slot g lt =
    rw (lt→leb_false 4 slot lt)
      (rw (tested g.active_slots_bits slot) (ground (arith, Bits.bit-lt g.active_slots_bits slot)))

-- Among the slots below 4, activating one makes it active and leaves the others as they were.
pub is_active-activate :
    (g : CoroutineBlob) (slot other : ℕ)
    → slot < 4
    → other < 4
    → coroutine_blob_is_active other (coroutine_blob_activate slot g)
      ≡ (if slot == other then 1 else coroutine_blob_is_active other g)
unfolding coroutine_blob_activate
is_active-activate g slot other p q =
    is_active-bit other (coroutine_blob_activate slot g) q
    ∙ ap (λ h. bit h.active_slots_bits other) {x = coroutine_blob_activate slot g}
        {y = record g { active_slots_bits = bit_or g.active_slots_bits (2 ^ slot) }}
        (rw (lt→leb_false 4 slot p) refl)
    ∙ Bits.bit_set g.active_slots_bits slot other
    ∙ ap (λ b. if slot == other then 1 else b) (sym (is_active-bit other g q))
