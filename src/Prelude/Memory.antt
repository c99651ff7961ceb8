-- ===== src/Prelude/Memory.antt =====
-- Little-endian loads from a byte array, and what a write does to them.
use Prim.Native.Nat.{ℕ, zero, suc, ◌+◌, ◌*◌, ◌^◌, ◌≤◌, ◌<◌}
use mathlib.Core.Path.{◌≡◌, refl, sym, ap, ap₂, ◌∙◌}
use mathlib.Core.Logic.{◌⊎◌, inl, inr}
use mathlib.Core.List.{[], ◌∷◌, append-nil}
use native.Mathlib.Omega.{arith}
use blyt_planning.Prelude.Lists.{
  length, get_or, drop, write_at, get_or-write_at_inside, get_or-write_at_before,
  get_or-write_at_after,
}
use blyt_planning.Prelude.ByteStrings.{
  Bytes, IsBytes, le_bytes, le_value, length-le_bytes, le_value-lt, drop-IsBytes, le_value-le_bytes,
}

-- The `n`-byte number at offset `off`; a byte out of range reads as 0.
abbrev pub load_le : ℕ → Bytes → ℕ → ℕ
load_le n bs off = le_value n (drop off bs)

le_value-nil : (n : ℕ) → le_value n [] ≡ 0
le_value-nil zero = refl
le_value-nil (suc n) = refl

pub load_le-suc :
    (n : ℕ) (bs : Bytes) (off : ℕ)
    → load_le (suc n) bs off ≡ get_or bs off 0 + 256 * load_le n bs (suc off)
load_le-suc n [] zero = omega (arith, le_value-nil n)
load_le-suc n [] (suc off) = omega (arith, le_value-nil n)
load_le-suc n (b ∷ bs) zero = refl
load_le-suc n (b ∷ bs) (suc off) = load_le-suc n bs off

-- A load depends on the bytes in its range alone.
pub load_le_agree :
    (n : ℕ) (bs cs : Bytes) (off off' : ℕ)
    → ((j : ℕ) → j < n → get_or bs (off + j) 0 ≡ get_or cs (off' + j) 0)
    → load_le n bs off ≡ load_le n cs off'
load_le_agree zero bs cs off off' h = refl
load_le_agree (suc n) bs cs off off' h =
    load_le-suc n bs off
    ∙ ap₂ (λ a b. a + 256 * b) first (load_le_agree n bs cs (suc off) (suc off') (λ j p. later j p))
    ∙ sym (load_le-suc n cs off')
  where
    first : get_or bs off 0 ≡ get_or cs off' 0
    first =
        ap (λ k. get_or bs k 0) {x = off} {y = off + 0} (omega arith)
        ∙ h 0 (omega arith)
        ∙ ap (λ k. get_or cs k 0) {x = off' + 0} {y = off'} (omega arith)

    later : (j : ℕ) → j < n → get_or bs (suc off + j) 0 ≡ get_or cs (suc off' + j) 0
    later j p =
        ap (λ k. get_or bs k 0) {x = suc off + j} {y = off + suc j} (omega arith)
        ∙ h (suc j) (omega arith)
        ∙ ap (λ k. get_or cs k 0) {x = off' + suc j} {y = suc off' + j} (omega arith)

pub load_le-lt : (n : ℕ) (bs : Bytes) (off : ℕ) → IsBytes bs → load_le n bs off < 256 ^ n
load_le-lt n bs off h = le_value-lt n (drop off bs) (drop-IsBytes off bs h)

-- Ranges of `n` and `m` bytes that do not meet.
abbrev pub Apart : ℕ → ℕ → ℕ → ℕ → Type 0
Apart off n off' m = (off + n ≤ off') ⊎ (off' + m ≤ off)

pub get_or-write_at_apart :
    (bs : Bytes) (off : ℕ) (vs : Bytes) (j : ℕ)
    → (j < off) ⊎ (off + length vs ≤ j)
    → get_or (write_at bs off vs) j 0 ≡ get_or bs j 0
get_or-write_at_apart bs off vs j (inl h) = get_or-write_at_before bs off vs j 0 h
get_or-write_at_apart bs off vs j (inr h) = get_or-write_at_after bs off vs j 0 h

pub load_le-write_at-Apart :
    (n : ℕ) (bs : Bytes) (off off' : ℕ) (vs : Bytes)
    → Apart off n off' (length vs)
    → load_le n (write_at bs off' vs) off ≡ load_le n bs off
load_le-write_at-Apart n bs off off' vs h =
    load_le_agree n (write_at bs off' vs) bs off off
      (λ j p. get_or-write_at_apart bs off' vs (off + j) (apart j p h))
  where
    apart :
        (j : ℕ)
        → j < n
        → Apart off n off' (length vs)
        → (off + j < off') ⊎ (off' + length vs ≤ off + j)
    apart j p (inl q) = inl (omega arith)
    apart j p (inr q) = inr (omega arith)

pub write_at-IsBytes :
    (bs : Bytes) (off : ℕ) (vs : Bytes) → IsBytes bs → IsBytes vs → IsBytes (write_at bs off vs)
unfolding write_at
write_at-IsBytes bs off [] h k = h
write_at-IsBytes [] off (v ∷ vs) h k = tt
write_at-IsBytes (b ∷ bs) (suc off) (v ∷ vs) (hb, h) k = (hb, write_at-IsBytes bs off (v ∷ vs) h k)
write_at-IsBytes (b ∷ bs) zero (v ∷ vs) (hb, h) (kv, k) = (kv, write_at-IsBytes bs zero vs h k)

-- Reading back what was stored.
pub load_le-write_at_self :
    (n : ℕ) (bs : Bytes) (off v : ℕ)
    → off + n ≤ length bs
    → v < 256 ^ n
    → load_le n (write_at bs off (le_bytes n v)) off ≡ v
load_le-write_at_self n bs off v h k =
    load_le_agree n (write_at bs off (le_bytes n v)) (le_bytes n v) off 0 (λ j p.
      get_or-write_at_inside bs off (le_bytes n v) j 0 (omega (arith, length-le_bytes n v))
        (omega (arith, length-le_bytes n v))
      ∙ ap (λ i. get_or (le_bytes n v) i 0) {x = j} {y = 0 + j} (omega arith))
    ∙ ap (le_value n) (sym (append-nil (le_bytes n v)))
    ∙ le_value-le_bytes n v [] k
