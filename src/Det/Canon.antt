-- ===== src/Det/Canon.antt =====
-- Canonicalising the f32 fields of a packed struct in memory. Each `g.x = canonicalize_nanf(g.x)`
-- of the source is one `canon_at` with the field's offset, and a `save` is a row of them.
pub mod Same
use blyt_planning.Prelude.{
  ℕ, ◌+◌, ◌≤◌, ◌<◌, List, [], ◌∷◌, ◌≡◌, refl, ap, ◌∙◌, ◌⊎◌, inl, inr, arith, Bytes, IsBytes, length,
  get_or, All, write_at, length-write_at, load_le, le_bytes, le_bytes-IsBytes, load_le-lt, Apart,
  get_or-write_at_apart, load_le-write_at-Apart, load_le-write_at_self, write_at-IsBytes,
}
use blyt_planning.Det.Nan.{canonicalize_nanf, canonicalize_nanf-lt}

unfoldable pub canon_at : ℕ → Bytes → Bytes
canon_at off bs = write_at bs off (le_bytes 4 (canonicalize_nanf (load_le 4 bs off)))

unfoldable pub canon_fields : List ℕ → Bytes → Bytes
unfolding canon_at
canon_fields [] bs = bs
canon_fields (o ∷ os) bs = canon_fields os (canon_at o bs)

-- The offsets ascend between `lo` and `hi`, 4 bytes apart at least.
abbrev pub Fields : ℕ → ℕ → List ℕ → Type 0
Fields lo hi [] = lo ≤ hi
Fields lo hi (o ∷ os) = (lo ≤ o) × Fields (o + 4) hi os

-- The byte at `j` lies in none of the fields.
abbrev pub Outside : List ℕ → ℕ → Type 0
Outside os j = All (λ o. (j < o) ⊎ (o + 4 ≤ j)) os

pub Fields-le : (lo hi : ℕ) (os : List ℕ) → Fields lo hi os → lo ≤ hi
Fields-le lo hi [] f = f
Fields-le lo hi (o ∷ os) (p, f) = omega (arith, Fields-le (o + 4) hi os f)

pub length-canon_at : (o : ℕ) (bs : Bytes) → length (canon_at o bs) ≡ length bs
unfolding canon_at
length-canon_at o bs = length-write_at bs o (le_bytes 4 (canonicalize_nanf (load_le 4 bs o)))

pub length-canon_fields : (os : List ℕ) (bs : Bytes) → length (canon_fields os bs) ≡ length bs
unfolding canon_fields
length-canon_fields [] bs = refl
length-canon_fields (o ∷ os) bs = length-canon_fields os (canon_at o bs) ∙ length-canon_at o bs

pub canon_at-IsBytes : (o : ℕ) (bs : Bytes) → IsBytes bs → IsBytes (canon_at o bs)
unfolding canon_at
canon_at-IsBytes o bs h =
    write_at-IsBytes bs o (le_bytes 4 (canonicalize_nanf (load_le 4 bs o))) h
      (le_bytes-IsBytes 4 (canonicalize_nanf (load_le 4 bs o)))

pub canon_fields-IsBytes : (os : List ℕ) (bs : Bytes) → IsBytes bs → IsBytes (canon_fields os bs)
unfolding canon_fields
canon_fields-IsBytes [] bs h = h
canon_fields-IsBytes (o ∷ os) bs h =
    canon_fields-IsBytes os (canon_at o bs) (canon_at-IsBytes o bs h)

-- What one assignment does: its own field, the other fields, and every byte outside.
pub load_le-canon_at_self :
    (o : ℕ) (bs : Bytes)
    → IsBytes bs
    → o + 4 ≤ length bs
    → load_le 4 (canon_at o bs) o ≡ canonicalize_nanf (load_le 4 bs o)
unfolding canon_at
load_le-canon_at_self o bs h k =
    load_le-write_at_self 4 bs o (canonicalize_nanf (load_le 4 bs o)) k
      (canonicalize_nanf-lt (load_le 4 bs o) (load_le-lt 4 bs o h))

pub load_le-canon_at-Apart :
    (n o off : ℕ) (bs : Bytes) → Apart off n o 4 → load_le n (canon_at o bs) off ≡ load_le n bs off
unfolding canon_at
load_le-canon_at-Apart n o off bs h =
    load_le-write_at-Apart n bs off o (le_bytes 4 (canonicalize_nanf (load_le 4 bs o))) h

pub get_or-canon_at_apart :
    (o : ℕ) (bs : Bytes) (j : ℕ)
    → (j < o) ⊎ (o + 4 ≤ j)
    → get_or (canon_at o bs) j 0 ≡ get_or bs j 0
unfolding canon_at
get_or-canon_at_apart o bs j h =
    get_or-write_at_apart bs o (le_bytes 4 (canonicalize_nanf (load_le 4 bs o))) j h

load_le-canon_fields_before :
    (n lo hi off : ℕ) (os : List ℕ) (bs : Bytes)
    → Fields lo hi os
    → off + n ≤ lo
    → load_le n (canon_fields os bs) off ≡ load_le n bs off
unfolding canon_fields
load_le-canon_fields_before n lo hi off [] bs f h = refl
load_le-canon_fields_before n lo hi off (o ∷ os) bs (p, f) h =
    load_le-canon_fields_before n (o + 4) hi off os (canon_at o bs) f (omega arith)
    ∙ load_le-canon_at-Apart n o off bs (inl (omega arith))

-- Over bytes, with fields that ascend without overlap between `lo` and `hi` and an array of at
-- least `hi` bytes, each field holds after the row the canonical form of what it held before.
pub load_le-canon_fields :
    (lo hi : ℕ) (os : List ℕ) (bs : Bytes)
    → Fields lo hi os
    → IsBytes bs
    → hi ≤ length bs
    → All (λ o. load_le 4 (canon_fields os bs) o ≡ canonicalize_nanf (load_le 4 bs o)) os
unfolding canon_fields
load_le-canon_fields lo hi [] bs f h k = tt
load_le-canon_fields lo hi (o ∷ os) bs (p, f) h k = (
  load_le-canon_fields_before 4 (o + 4) hi o os (canon_at o bs) f (omega arith)
      ∙ load_le-canon_at_self o bs h (omega (arith, Fields-le (o + 4) hi os f)),
  rest os (o + 4) f (omega arith) (
      load_le-canon_fields (o + 4) hi os (canon_at o bs) f (canon_at-IsBytes o bs h)
        (omega (arith, length-canon_at o bs))),
)
  where
    rest :
        (ps : List ℕ) (lo' : ℕ)
        → Fields lo' hi ps
        → o + 4 ≤ lo'
        → All
            (λ q.
              load_le 4 (canon_fields os (canon_at o bs)) q
              ≡ canonicalize_nanf (load_le 4 (canon_at o bs) q))
            ps
        → All
            (λ q.
              load_le 4 (canon_fields os (canon_at o bs)) q ≡ canonicalize_nanf (load_le 4 bs q))
            ps
    rest [] lo' g l a = tt
    rest (q ∷ ps) lo' (r, g) l (e, a) = (
      e ∙ ap canonicalize_nanf (load_le-canon_at-Apart 4 o q bs (inr (omega arith))),
      rest ps (q + 4) g (omega arith) a,
    )

-- A byte outside all the fields keeps its value.
pub get_or-canon_fields :
    (os : List ℕ) (bs : Bytes) (j : ℕ)
    → Outside os j
    → get_or (canon_fields os bs) j 0 ≡ get_or bs j 0
unfolding canon_fields
get_or-canon_fields [] bs j h = refl
get_or-canon_fields (o ∷ os) bs j (p, h) =
    get_or-canon_fields os (canon_at o bs) j h ∙ get_or-canon_at_apart o bs j p
