-- ===== src/Gdb/Text.antt =====
-- What gdb_stub.c uses of C's strings, and its hexadecimal digits.
use blyt_planning.Prelude.{
  ℕ, zero, suc, ◌+◌, ◌-◌, ◌*◌, ◌/◌, ◌%◌, ◌^◌, Bool, true, false, ◌&&◌, ◌||◌, [], ◌∷◌, ◌++◌, Option,
  none, some, ltb, leb, ◌==◌, if◌then◌else◌, Bytes,
}

-- `hexnyb`
abbrev pub hexnyb : ℕ → ℕ
hexnyb n = if ltb (n % 16) 10 then 48 + n % 16 else 87 + n % 16

-- `from_hex`; none is -1.
abbrev pub from_hex : ℕ → Option ℕ
from_hex c =
    if leb 48 c && leb c 57
    then some (c - 48)
    else if leb 97 c && leb c 102
    then some (c - 97 + 10)
    else if leb 65 c && leb c 70
    then some (c - 65 + 10)
    else none

unfoldable pub hex_encode : Bytes → Bytes
hex_encode [] = []
hex_encode (b ∷ bs) = hexnyb (b / 16) ∷ hexnyb (b % 16) ∷ hex_encode bs

-- What follows the two digits of a byte.
abbrev pub hex_byte : Option ℕ → Option ℕ → Bytes → Bytes
hex_byte (some hi) (some lo) rest = (hi * 16 + lo) ∷ rest
hex_byte hi lo rest = []

-- The bytes decoded, at most as many as the second argument.
unfoldable pub hex_decode : Bytes → ℕ → Bytes
hex_decode (h ∷ l ∷ src) (suc cap) = hex_byte (from_hex h) (from_hex l) (hex_decode src cap)
hex_decode src cap = []

-- `strncmp(s, prefix, strlen(prefix)) == 0`
unfoldable pub starts_with : Bytes → Bytes → Bool
starts_with [] s = true
starts_with (p ∷ prefix) [] = false
starts_with (p ∷ prefix) (c ∷ s) = (p == c) && starts_with prefix s

-- `strcmp(s, t) == 0`
unfoldable pub equal : Bytes → Bytes → Bool
equal [] [] = true
equal [] (c ∷ s) = false
equal (p ∷ t) [] = false
equal (p ∷ t) (c ∷ s) = (p == c) && equal t s

-- `strchr(s, c)`, from behind the character.
unfoldable pub after_char : ℕ → Bytes → Option Bytes
after_char c [] = none
after_char c (d ∷ s) = let rest = after_char c s in if c == d then some s else rest

abbrev pub is_space : ℕ → Bool
is_space c = (c == 32) || (leb 9 c && leb c 13)

unfoldable pub skip_spaces : Bytes → Bytes
skip_spaces [] = []
skip_spaces (c ∷ s) = let rest = skip_spaces s in if is_space c then rest else c ∷ s

-- A digit goes on; anything else ends the number in front of it.
abbrev pub next_digit : ℕ → Bytes → Option ℕ → (ℕ → ℕ × Bytes) → ℕ × Bytes
next_digit value s none rest = (value, s)
next_digit value s (some d) rest = rest (value * 16 + d)

-- The hexadecimal digits at the start, onto `value`.
unfoldable pub hex_digits : ℕ → Bytes → ℕ × Bytes
hex_digits value [] = (value, [])
hex_digits value (c ∷ s) = next_digit value (c ∷ s) (from_hex c) (λ v. hex_digits v s)

abbrev pub is_digit : Option ℕ → Bool
is_digit none = false
is_digit (some d) = true

abbrev pub is_hex : Bytes → Bool
is_hex [] = false
is_hex (c ∷ s) = is_digit (from_hex c)

-- A `0x` in front of a digit.
abbrev pub skip_0x : Bytes → Bytes
skip_0x (z ∷ x ∷ s) = if (z == 48) && ((x == 120) || (x == 88)) && is_hex s then s else z ∷ x ∷ s
skip_0x s = s

abbrev pub ulong_max : ℕ
ulong_max = 2 ^ 64 - 1

-- The number behind the sign, or the whole text where there is none.
abbrev pub unsigned_hex : Bool → Bytes → Bytes → ℕ × Bytes
unsigned_hex negative whole s =
    let digits = skip_0x s in
    let (value, end) = hex_digits 0 digits in
    if is_hex digits
    then (
      (if ltb ulong_max value
          then ulong_max
          else if negative
          then (2 ^ 64 - value) % 2 ^ 64
          else value),
      end,
    )
    else (0, whole)

abbrev pub signed_hex : Bytes → Bytes → ℕ × Bytes
signed_hex whole [] = (0, whole)
signed_hex whole (c ∷ s) =
    if c == 45
    then unsigned_hex true whole s
    else if c == 43
    then unsigned_hex false whole s
    else unsigned_hex false whole (c ∷ s)

-- `strtoul(s, &end, 16)` of a 64-bit host.
unfoldable pub strtoul : Bytes → ℕ × Bytes
unfolding skip_spaces hex_digits
strtoul s = signed_hex s (skip_spaces s)

-- `%x`, with `n` digits at most.
unfoldable pub hex_number : ℕ → ℕ → Bytes
hex_number zero v = []
hex_number (suc n) v =
    let rest = hex_number n (v / 16) in if v == 0 then [] else rest ++ (hexnyb v ∷ [])

-- `%x` of 32 bits.
abbrev pub print_x : ℕ → Bytes
print_x v = if v == 0 then 48 ∷ [] else hex_number 8 v

-- `%02x` of a byte.
abbrev pub print_02x : ℕ → Bytes
print_02x v = hexnyb (v / 16) ∷ hexnyb (v % 16) ∷ []
