-- ===== src/SaveIo.antt =====
-- save_io.c: the parser of the hex transport. The source is read as the list `src[i..len)`, and the
-- bytes decoded so far are `dst[0..out)`.
pub mod Emit
pub mod RoundTrip
pub mod ReadFile
use blyt_planning.Prelude.{
  ℕ, ◌+◌, ◌-◌, ◌*◌, Bool, true, false, ◌&&◌, ◌||◌, Option, none, some, List, [], ◌∷◌, ◌++◌, leb,
  ltb, ◌==◌, if◌then◌else◌, Bytes, codes, length, drop,
}

-- -1 is `none`.
unfoldable pub hex_digit : ℕ → Option ℕ
hex_digit c =
    if leb b'0' c && leb c b'9'
    then some (c - b'0')
    else if leb b'a' c && leb c b'f'
    then some (c - b'a' + 10)
    else if leb b'A' c && leb c b'F'
    then some (c - b'A' + 10)
    else none

unfoldable pub is_space : ℕ → Bool
is_space c = c == b' ' || c == b'\t' || c == b'\n' || c == b'\r'

unfoldable pub skip_spaces : Bytes → Bytes
unfolding is_space
skip_spaces [] = []
skip_spaces (c ∷ cs) = let rest = skip_spaces cs in if is_space c then rest else c ∷ cs

-- `while (src[i] >= '0' && src[i] <= '9') i++`
unfoldable pub skip_digits : Bytes → Bytes
skip_digits [] = []
skip_digits (c ∷ cs) =
    let rest = skip_digits cs in if leb b'0' c && leb c b'9' then rest else c ∷ cs

unfoldable pub starts_with : Bytes → Bytes → Bool
starts_with [] cs = true
starts_with (p ∷ ps) [] = false
starts_with (p ∷ ps) (c ∷ cs) = c == p && starts_with ps cs

-- `i + 7 < len` and the seven literal tests, then the frame number and the space behind it.
unfoldable pub skip_prefix : Bytes → Bytes
unfolding starts_with skip_digits skip_spaces
skip_prefix src =
    if ltb 7 (length src) && starts_with (codes "BUFFER ") src
    then skip_spaces (skip_digits (drop 7 src))
    else src

-- What the call returns, `none` for -1, and the bytes that it has written to `dst` by then.
pub record Parsed : Type 0 where
  pub result : Option ℕ
  pub decoded : Bytes

abbrev pub failed : Bytes → Parsed
failed out = record { result = none; decoded = out }

-- A pair of characters that is not read as a byte: go on only if it starts with a space.
abbrev pub not_a_byte : ℕ → Bytes → Parsed → Parsed
not_a_byte c out rest = if is_space c then rest else failed out

-- `go_on` is the loop behind the byte, `resume` the loop behind one character.
unfoldable pub store_byte : ℕ → ℕ → Bytes → Option ℕ → Option ℕ → (Bytes → Parsed) → Parsed → Parsed
store_byte cap c out (some hi) (some lo) go_on resume =
    if leb cap (length out) then failed out else go_on (out ++ (hi * 16 + lo) ∷ [])
store_byte cap c out none lo go_on resume = not_a_byte c out resume
store_byte cap c out (some hi) none go_on resume = not_a_byte c out resume

unfoldable pub parse_pairs : ℕ → Bytes → Bytes → Parsed
unfolding is_space hex_digit store_byte
parse_pairs cap [] out = record { result = some (length out); decoded = out }
parse_pairs cap (c ∷ []) out =
    if is_space c then record { result = some (length out); decoded = out } else failed out
parse_pairs cap (c ∷ d ∷ cs) out =
    let resume = parse_pairs cap (d ∷ cs) out in
    let read =
      store_byte cap c out (hex_digit c) (hex_digit d) (λ out'. parse_pairs cap cs out') resume in
    if is_space c then resume else read

unfoldable pub save_io_parse_hex : Bytes → ℕ → Parsed
unfolding skip_spaces skip_prefix parse_pairs
save_io_parse_hex src cap = parse_pairs cap (skip_prefix (skip_spaces src)) []
