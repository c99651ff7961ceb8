-- ===== src/Prelude/ByteStrings.antt =====
-- Byte strings and little-endian numbers of `n` bytes.
use Prim.Native.Nat.{ℕ, zero, suc, ◌+◌, ◌*◌, ◌/◌, ◌%◌, ◌^◌, ◌≤◌, ◌<◌}
use Prim.Native.Char.{code}
use Prim.Native.String.{String}
use mathlib.Core.Path.{◌≡◌, refl, ap, ap₂, ◌∙◌}
use mathlib.Core.List.{List, [], ◌∷◌, ◌++◌}
use native.Mathlib.Omega.{arith}
use native.Mathlib.Nat.{pow-succ'}
use blyt_planning.Prelude.Lists.{length, take, drop, All}

abbrev pub Bytes : Type 0
Bytes = List ℕ

abbrev pub IsBytes : Bytes → Type 0
IsBytes bs = All (λ b. b < 256) bs

-- The bytes of an ASCII literal.
abbrev pub codes : String → Bytes
codes String.[] = []
codes (String.◌∷◌ c s) = code c ∷ codes s

-- The `n` bytes of a number in memory, lowest first.
abbrev pub le_bytes : ℕ → ℕ → Bytes
le_bytes zero v = []
le_bytes (suc n) v = (v % 256) ∷ le_bytes n (v / 256)

-- The number that the first `n` bytes hold.
abbrev pub le_value : ℕ → Bytes → ℕ
le_value zero bs = 0
le_value (suc n) [] = 0
le_value (suc n) (b ∷ bs) = b + 256 * le_value n bs

pub length-le_bytes : (n v : ℕ) → length (le_bytes n v) ≡ n
length-le_bytes zero v = refl
length-le_bytes (suc n) v = ap suc (length-le_bytes n (v / 256))

pub le_bytes-IsBytes : (n v : ℕ) → IsBytes (le_bytes n v)
le_bytes-IsBytes zero v = tt
le_bytes-IsBytes (suc n) v = (omega arith, le_bytes-IsBytes n (v / 256))

pub le_value-le_bytes :
    (n v : ℕ) (rest : Bytes) → v < 256 ^ n → le_value n (le_bytes n v ++ rest) ≡ v
le_value-le_bytes zero v rest h = omega arith
le_value-le_bytes (suc n) v rest h =
    omega
      (arith, pow-succ' 256 n, le_value-le_bytes n (v / 256) rest (omega (arith, pow-succ' 256 n)))

pub le_bytes-le_value :
    (n : ℕ) (bs : Bytes) → IsBytes bs → n ≤ length bs → le_bytes n (le_value n bs) ≡ take n bs
le_bytes-le_value zero bs h k = refl
le_bytes-le_value (suc n) [] h k = absurd (omega arith)
le_bytes-le_value (suc n) (b ∷ bs) (hb, h) k =
    ap₂ ◌∷◌ (omega arith) (ap (le_bytes n) (omega arith) ∙ le_bytes-le_value n bs h (omega arith))

pub le_value-lt : (n : ℕ) (bs : Bytes) → IsBytes bs → le_value n bs < 256 ^ n
le_value-lt zero bs h = omega arith
le_value-lt (suc n) [] h = omega (arith, pow-succ' 256 n, le_value-lt n [] tt)
le_value-lt (suc n) (b ∷ bs) (hb, h) = omega (arith, pow-succ' 256 n, le_value-lt n bs h)

pub append-IsBytes : (xs ys : Bytes) → IsBytes xs → IsBytes ys → IsBytes (xs ++ ys)
append-IsBytes [] ys h k = k
append-IsBytes (x ∷ xs) ys (hx, h) k = (hx, append-IsBytes xs ys h k)

pub drop-IsBytes : (n : ℕ) (xs : Bytes) → IsBytes xs → IsBytes (drop n xs)
drop-IsBytes zero xs h = h
drop-IsBytes (suc n) [] h = tt
drop-IsBytes (suc n) (x ∷ xs) (hx, h) = drop-IsBytes n xs h

pub take-IsBytes : (n : ℕ) (xs : Bytes) → IsBytes xs → IsBytes (take n xs)
take-IsBytes zero xs h = tt
take-IsBytes (suc n) [] h = tt
take-IsBytes (suc n) (x ∷ xs) (hx, h) = (hx, take-IsBytes n xs h)

-- The value depends only on the bytes that are read.
pub le_value-append :
    (n : ℕ) (xs ys : Bytes) → length xs ≡ n → le_value n (xs ++ ys) ≡ le_value n xs
le_value-append zero xs ys h = refl
le_value-append (suc n) [] ys h = absurd (omega arith)
le_value-append (suc n) (x ∷ xs) ys h =
    ap (λ t. x + 256 * t) (le_value-append n xs ys (omega arith))
