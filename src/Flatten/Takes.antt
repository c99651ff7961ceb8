-- ===== src/Flatten/Takes.antt =====
-- What the `take_…` functions read from the source.
use blyt_planning.Prelude.{
  ℕ, zero, suc, ◌+◌, ◌*◌, ◌/◌, ◌%◌, ◌<◌, ◌≤◌, ◌^◌, false, [], ◌∷◌, ◌++◌, ◌≡◌, refl, sym, ap, ◌∙◌,
  arith, Bytes, bit_or, get_or, drop, length, le_bytes, length-append, length-drop,
  drop-append_of_eq, drop-drop, le→ltb_false,
}
use blyt_planning.Prelude.Bits.{bit_or-halves}
use mathlib.Core.List.{append_assoc}
use mathlib.Core.Path.{subst}
use blyt_planning.Flatten.Puts.{low_high}
use Prim.Native.Nat.{max, bit_or-bitwise}
use native.Mathlib.Nat.{pow-succ'}
use blyt_planning.Flatten.{Source, take_u8, take_u16, take_u32, take_u64}

doubled : (k b : ℕ) → b * 2 ^ suc k ≡ b * 2 ^ k * 2
doubled k b = grind (arith, pow-succ' 2 k)

bit_or-nothing : (y : ℕ) → bit_or 0 y ≡ y
bit_or-nothing y = simp bit_or-bitwise refl

-- Bits below and above position `k`.
pub bit_or-high : (k a b : ℕ) → a < 2 ^ k → bit_or a (b * 2 ^ k) ≡ a + b * 2 ^ k
bit_or-high zero zero b h = bit_or-nothing (b * 2 ^ 0) ∙ omega arith
bit_or-high zero (suc a) b h = absurd (omega arith)
bit_or-high (suc k) a b h =
    ap (bit_or a) (doubled k b)
    ∙ bit_or-halves a (b * 2 ^ k * 2)
    ∙ ap (λ y. bit_or (a / 2) y * 2 + max (a % 2) (b * 2 ^ k * 2 % 2)) {x = b * 2 ^ k * 2 / 2}
        {y = b * 2 ^ k} (omega arith)
    ∙ omega (arith, doubled k b, bit_or-high k (a / 2) b (omega (arith, pow-succ' 2 k)))

-- The source in the middle of the bytes.
abbrev pub reading : Bytes → ℕ → Source
reading full pos = record { src = full; len = length full; at = pos; underflowed = false }

-- A read of the value that takes the bytes, wherever they stand.
abbrev pub Reads : (Source → ℕ × Source) → Bytes → ℕ → Type 0
Reads f bs v =
    (full : Bytes) (pos : ℕ) (rest : Bytes)
    → length full < 2 ^ 32
    → drop pos full ≡ bs ++ rest
    → f (reading full pos) ≡ (v, reading full (pos + length bs))

-- What a read leaves.
pub drop-behind :
    (full : Bytes) (pos : ℕ) (bs rest : Bytes)
    → drop pos full ≡ bs ++ rest
    → drop (pos + length bs) full ≡ rest
drop-behind full pos bs rest e =
    sym (drop-drop pos (length bs) full)
    ∙ ap (drop (length bs)) e
    ∙ drop-append_of_eq (length bs) bs rest refl

pub length-behind :
    (full : Bytes) (pos : ℕ) (bs rest : Bytes)
    → drop pos full ≡ bs ++ rest
    → 0 < length bs
    → pos + length bs ≤ length full
length-behind full pos bs rest e h =
    omega (arith, length-drop pos full, ap length e, length-append bs rest)

get_or-drop : (xs : Bytes) (pos b : ℕ) (rest : Bytes) → drop pos xs ≡ b ∷ rest → get_or xs pos 0 ≡ b
get_or-drop [] zero b rest e = ap (λ l. get_or l 0 0) e
get_or-drop [] (suc pos) b rest e = ap (λ l. get_or l 0 0) e
get_or-drop (x ∷ xs) zero b rest e = ap (λ l. get_or l 0 0) e
get_or-drop (x ∷ xs) (suc pos) b rest e = get_or-drop xs pos b rest e

-- Two reads, their values put together.
abbrev pub both : (ℕ → ℕ → ℕ) → (Source → ℕ × Source) → (Source → ℕ × Source) → Source → ℕ × Source
both op f g s = let (x, s1) = f s in let (y, s2) = g s1 in (op x y, s2)

pub Reads-then :
    (f g : Source → ℕ × Source) (op : ℕ → ℕ → ℕ) (as' bs : Bytes) (a b : ℕ)
    → Reads f as' a
    → Reads g bs b
    → Reads (both op f g) (as' ++ bs) (op a b)
Reads-then f g op as' bs a b rf rg full pos rest small e =
    ap (λ q. let (y, s2) = g q.1 in (op q.0 y, s2)) (rf full pos (bs ++ rest) small split)
    ∙ ap (λ q. (op a q.0, q.1))
        (rg full (pos + length as') rest small (drop-behind full pos as' (bs ++ rest) split))
    ∙ ap (λ n. (op a b, reading full n)) {x = pos + length as' + length bs}
        (omega (arith, length-append as' bs))
  where
    split : drop pos full ≡ as' ++ (bs ++ rest)
    split = e ∙ append_assoc as' bs rest

pub take_u8-Reads : (b : ℕ) → Reads take_u8 (b ∷ []) b
unfolding take_u8
take_u8-Reads b full pos rest small e =
    rw
      (le→ltb_false (length full) ((pos + 1) % 2 ^ 32)
        (omega (arith, length-behind full pos (b ∷ []) rest e (omega arith))))
      (ap (λ x. (x, reading full (pos + 1))) (get_or-drop full pos b rest e))

abbrev pub shifted : ℕ → ℕ → ℕ → ℕ
shifted k a b = bit_or a (b * 2 ^ k)

pub take_u16-Reads : (v : ℕ) → v < 2 ^ 16 → Reads take_u16 (le_bytes 2 v) v
unfolding take_u16
take_u16-Reads v h =
    subst (λ n. Reads take_u16 (le_bytes 2 v) n)
      (bit_or-high 8 (v % 256) (v / 256 % 256) (omega arith) ∙ omega arith)
      (Reads-then take_u8 take_u8 (shifted 8) (v % 256 ∷ []) (v / 256 % 256 ∷ []) (v % 256)
        (v / 256 % 256) (take_u8-Reads (v % 256)) (take_u8-Reads (v / 256 % 256)))

four_bytes :
    (v : ℕ)
    → v < 2 ^ 32
    → bit_or
        (bit_or (bit_or (v % 256) (v / 256 % 256 * 2 ^ 8)) (v / 256 / 256 % 256 * 2 ^ 16))
        (v / 256 / 256 / 256 % 256 * 2 ^ 24)
      ≡ v
four_bytes v h =
    ap (λ x. bit_or (bit_or x (v / 256 / 256 % 256 * 2 ^ 16)) (v / 256 / 256 / 256 % 256 * 2 ^ 24))
      (bit_or-high 8 (v % 256) (v / 256 % 256) (omega arith) ∙ two)
    ∙ ap (λ x. bit_or x (v / 256 / 256 / 256 % 256 * 2 ^ 24))
        (bit_or-high 16 (v % 2 ^ 16) (v / 256 / 256 % 256) (omega arith) ∙ three)
    ∙ bit_or-high 24 (v % 2 ^ 24) (v / 256 / 256 / 256 % 256) (omega arith)
    ∙ omega arith
  where
    two : v % 256 + v / 256 % 256 * 2 ^ 8 ≡ v % 2 ^ 16
    two = omega arith

    three : v % 2 ^ 16 + v / 256 / 256 % 256 * 2 ^ 16 ≡ v % 2 ^ 24
    three = omega arith

pub take_u32-Reads : (v : ℕ) → v < 2 ^ 32 → Reads take_u32 (le_bytes 4 v) v
unfolding take_u32
take_u32-Reads v h =
    subst (λ n. Reads take_u32 (le_bytes 4 v) n) (four_bytes v h)
      (Reads-then (both (shifted 16) (both (shifted 8) take_u8 take_u8) take_u8) take_u8
        (shifted 24) (v % 256 ∷ v / 256 % 256 ∷ v / 256 / 256 % 256 ∷ [])
        (v / 256 / 256 / 256 % 256 ∷ []) _ _
        (Reads-then (both (shifted 8) take_u8 take_u8) take_u8 (shifted 16)
          (v % 256 ∷ v / 256 % 256 ∷ []) (v / 256 / 256 % 256 ∷ []) _ _
          (Reads-then take_u8 take_u8 (shifted 8) (v % 256 ∷ []) (v / 256 % 256 ∷ []) _ _
            (take_u8-Reads (v % 256)) (take_u8-Reads (v / 256 % 256)))
          (take_u8-Reads (v / 256 / 256 % 256)))
        (take_u8-Reads (v / 256 / 256 / 256 % 256)))

pub take_u64-Reads : (v : ℕ) → v < 2 ^ 64 → Reads take_u64 (le_bytes 8 v) v
unfolding take_u64
take_u64-Reads v h =
    subst (λ bs. Reads take_u64 bs v) (low_high v)
      (subst (λ n. Reads take_u64 (le_bytes 4 (v % 2 ^ 32) ++ le_bytes 4 (v / 2 ^ 32)) n)
        (bit_or-high 32 (v % 2 ^ 32) (v / 2 ^ 32) (omega arith) ∙ omega arith)
        (Reads-then take_u32 take_u32 (shifted 32) (le_bytes 4 (v % 2 ^ 32))
          (le_bytes 4 (v / 2 ^ 32)) (v % 2 ^ 32) (v / 2 ^ 32)
          (take_u32-Reads (v % 2 ^ 32) (omega arith)) (take_u32-Reads (v / 2 ^ 32) (omega arith))))
