-- ===== src/Regions/PersistentScripts/Blob.antt =====
-- The blobs of the slot table: what is read after a write, a free and a load resume.
use mathlib.Core.List.{append-nil}
use blyt_planning.Prelude.{
  ℕ, ◌-◌, ◌<◌, ◌≤◌, ◌%◌, ◌^◌, pos, List, [], ◌++◌, ◌≡◌, refl, sym, ap, ◌∙◌, inl, inr, arith, ◌==◌,
  if◌then◌else◌, Bool-cases, lt→ltb, le→ltb_false, Bytes, length, get_or, set, take, drop,
  replicate, write_at, write_at-append, take-append-drop, take-append_of_eq, length-take,
  length-drop, length-replicate, get_or-set_self, get_or-set_ne, length-append, joined-drop,
  take-append_le, joined, suc,
}
use blyt_planning.Regions.PersistentScripts.{
  PersistentScripts, bit_get, bit_clear, slot_with, persistent_scripts_write,
  persistent_scripts_read, persistent_scripts_free,
}
use blyt_planning.Regions.PersistentScripts.Alloc.{Marked, bit_get-bit_clear}

-- The shape of the struct's arrays.
pub record Shaped (g : PersistentScripts) : Type 0 where
  pub marked : Marked g
  pub lens : length g.slot_lens ≡ 64
  pub table : length g.slots ≡ 64
  pub slot_size : (s : ℕ) → s < 64 → length (get_or g.slots s []) ≡ 256

overwritten : (old vs : Bytes) → length vs ≡ length old → write_at old 0 vs ≡ vs
overwritten old vs h =
    ap (λ d. write_at d 0 vs) (sym (append-nil old))
    ∙ write_at-append [] old [] vs 0 refl h
    ∙ append-nil vs

-- After a write a slot holds the blob and zeros, whatever it held before.
pub slot_with_lem :
    (old src : Bytes) (n : ℕ)
    → length old ≡ 256
    → n ≤ 256
    → n ≤ length src
    → slot_with old src n ≡ take n src ++ replicate (256 - n) 0
slot_with_lem old src n h k l =
    ap (λ d. write_at (write_at d 0 (take n src)) n zeros) (sym (take-append-drop n old))
    ∙ ap (λ d. write_at d n zeros)
        (write_at-append [] (take n old) (drop n old) (take n src) 0 refl
          (omega (arith, length-take n src l, length-take n old (omega arith))))
    ∙ ap (λ d. write_at (take n src ++ d) n zeros) (sym (append-nil (drop n old)))
    ∙ write_at-append (take n src) (drop n old) [] zeros n (length-take n src l)
        (omega (arith, length-replicate {A = ℕ} (256 - n) 0, length-drop n old))
    ∙ ap (◌++◌ (take n src)) (append-nil zeros)
  where
    zeros : Bytes
    zeros = replicate (256 - n) 0

-- In a table of the right shape, a slot in use accepts `n` bytes of a source that has them, for
-- `n` up to 256, and a read with room for them gives them back; in the slot itself they are
-- followed by zeros, whatever it held before.
pub read-write :
    (g : PersistentScripts) (s n room : ℕ) (src : Bytes)
    → Shaped g
    → s < 64
    → bit_get s g ≡ 1
    → n ≤ 256
    → n ≤ length src
    → n ≤ room
    → (g' : PersistentScripts) × (persistent_scripts_write (pos s) src n g ≡ (1, g'))
      × (persistent_scripts_read (pos s) room g' ≡ (pos n, take n src))
      × (get_or g'.slots s [] ≡ take n src ++ replicate (256 - n) 0)
unfolding persistent_scripts_write persistent_scripts_read bit_get
read-write g s n room src v lt active fits given space = (
  g',
  rw (lt→ltb s 64 lt) (rw active (rw (le→ltb_false 256 n fits) refl)),
  rw (lt→ltb s 64 lt) (
      rw active (
        rw len (
          rw (le→ltb_false room n space) (
            ap (λ d. (pos n, d))
              (ap (take n) (joined-drop (set g.slots s after) s)
                ∙ take-append_le n (get_or (set g.slots s after) s [])
                    (joined (drop (suc s) (set g.slots s after))) room_for
                ∙ ap (take n) stored
                ∙ take-append_of_eq n (take n src) (replicate (256 - n) 0)
                    (length-take n src given)))))),
  stored,
)
  where
    after : Bytes
    after = slot_with (get_or g.slots s []) src n

    g' : PersistentScripts
    g' = record g { slots = set g.slots s after; slot_lens = set g.slot_lens s (n % 2 ^ 16) }

    len : get_or (set g.slot_lens s (n % 2 ^ 16)) s 0 ≡ n
    len = get_or-set_self g.slot_lens s (n % 2 ^ 16) 0 (omega (arith, v.lens)) ∙ omega arith

    stored :
        get_or (set g.slots s (slot_with (get_or g.slots s []) src n)) s []
        ≡ take n src ++ replicate (256 - n) 0
    stored =
        get_or-set_self g.slots s (slot_with (get_or g.slots s []) src n) []
          (omega (arith, v.table))
        ∙ slot_with_lem (get_or g.slots s []) src n (v.slot_size s lt) fits given

    room_for : n ≤ length (get_or (set g.slots s after) s [])
    room_for = omega (
      arith,
      ap length stored,
      length-append (take n src) (replicate (256 - n) 0),
      length-take n src given,
    )

-- In a table of the right shape, freeing a slot in use unmarks it, and it alone; its length and
-- its bytes are zero, and every other slot keeps both.
pub persistent_scripts_free_lem :
    (g : PersistentScripts) (s : ℕ)
    → Shaped g
    → s < 64
    → bit_get s g ≡ 1
    → ((t : ℕ)
        → bit_get t (persistent_scripts_free (pos s) g) ≡ (if s == t then 0 else bit_get t g))
      × ((t : ℕ)
          → get_or (persistent_scripts_free (pos s) g).slot_lens t 0
            ≡ (if s == t then 0 else get_or g.slot_lens t 0))
      × ((t : ℕ)
          → get_or (persistent_scripts_free (pos s) g).slots t []
            ≡ (if s == t then replicate 256 0 else get_or g.slots t []))
unfolding persistent_scripts_free bit_get
persistent_scripts_free_lem g s v lt active = rw (lt→ltb s 64 lt) (
    rw active (
      (λ t. bits t),
      (λ t. replaced g.slot_lens 0 0 t (omega (arith, v.lens))),
      (λ t.
          replaced g.slots (write_at (get_or g.slots s []) 0 (replicate 256 0)) [] t
            (omega (arith, v.table))
          ∙ ap (λ z. if s == t then z else get_or g.slots t []) cleared),
    ))
  where
    bits : (t : ℕ) → bit_get t (bit_clear s g) ≡ (if s == t then 0 else bit_get t g)
    bits t = bit_get-bit_clear g s t v.marked lt

    cleared : write_at (get_or g.slots s []) 0 (replicate 256 0) ≡ replicate 256 0
    cleared =
        overwritten (get_or g.slots s []) (replicate 256 0)
          (omega (arith, v.slot_size s lt, length-replicate {A = ℕ} 256 0))

    replaced :
        {A : Type 0} (xs : List A) (x d : A) (t : ℕ)
        → s < length xs
        → get_or (set xs s x) t d ≡ (if s == t then x else get_or xs t d)
    replaced xs x d t h = elim (Bool-cases (s == t)) [
      | inl e ↦ rw e (
          ap (λ k. get_or (set xs s x) k d) {x = t} {y = s} (ground arith)
          ∙ get_or-set_self xs s x d h)
      | inr e ↦ rw e (get_or-set_ne xs s t x d (λ q. ground arith))
    ]
