-- ===== src/Gdb/Hex.antt =====
-- The hexadecimal encoding and its inverse.
use blyt_planning.Prelude.{
  ℕ, zero, suc, ◌+◌, ◌*◌, ◌/◌, ◌%◌, ◌<◌, ◌≤◌, Option, some, [], ◌∷◌, ◌≡◌, refl, ap, ap₂, ◌∙◌, arith,
  Bytes, IsBytes, length, all_below_sound, ◌==◌, Bool, false, ==_iff, true,
}
use blyt_planning.Gdb.Text.{hexnyb, from_hex, hex_encode, hex_decode, hex_byte}

abbrev is_some : Option ℕ → ℕ → Bool
is_some (some m) n = m == n
is_some o n = false

is_some_sound : (o : Option ℕ) (n : ℕ) → is_some o n ≡ true → o ≡ some n
is_some_sound (some m) n h = ap some ((==_iff m n).0 h)
is_some_sound o n h = absurd (ground arith)

pub from_hex-hexnyb : (n : ℕ) → n < 16 → from_hex (hexnyb n) ≡ some n
from_hex-hexnyb n h =
    is_some_sound (from_hex (hexnyb n)) n
      (all_below_sound 16 (λ m. is_some (from_hex (hexnyb m)) m) n refl h)

-- Decoding the encoding of bytes gives them back, as far as the buffer has room for them.
pub hex_decode-hex_encode :
    (bs : Bytes) (cap : ℕ) → IsBytes bs → length bs ≤ cap → hex_decode (hex_encode bs) cap ≡ bs
unfolding hex_decode hex_encode
hex_decode-hex_encode [] cap h k = refl
hex_decode-hex_encode (b ∷ bs) zero h k = absurd (omega arith)
hex_decode-hex_encode (b ∷ bs) (suc cap) (hb, h) k =
    ap₂ (λ x y. hex_byte x y (hex_decode (hex_encode bs) cap))
      (from_hex-hexnyb (b / 16) (omega arith)) (from_hex-hexnyb (b % 16) (omega arith))
    ∙ ap₂ ◌∷◌ {x = b / 16 * 16 + b % 16} {y = b} (omega arith)
        (hex_decode-hex_encode bs cap h (omega arith))
