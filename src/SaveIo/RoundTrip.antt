-- ===== src/SaveIo/RoundTrip.antt =====
-- What is emitted parses back.
use mathlib.Core.List.{append_assoc, append-nil}
use blyt_planning.Prelude.{
  ℕ, zero, suc, ◌+◌, ◌*◌, ◌/◌, ◌%◌, ◌≤◌, ◌<◌, Bool, true, false, ◌&&◌, Option, none, some, [], ◌∷◌,
  ◌++◌, ◌≡◌, refl, sym, ap, ◌∙◌, arith, leb, ◌==◌, if◌then◌else◌, Bytes, IsBytes, codes, length,
  length-append, get_or, take, drop, All, load_le, take-append-drop, take-IsBytes, length-take,
  length-drop, all_below, lt→leb_false, all_below_sound, not, lt→ltb,
}
use blyt_planning.SaveIo.{
  hex_digit, is_space, skip_spaces, skip_digits, skip_prefix, parse_pairs, save_io_parse_hex,
}
use blyt_planning.SaveIo.Emit.{hex, hex_chunk, chunk_size, emit_chunks, save_state_emit_hex}

abbrev reads_as : ℕ → Option ℕ → Bool
reads_as d none = false
reads_as d (some e) = e == d

digit_table :
    all_below 16 (λ d. reads_as d (hex_digit (get_or hex d 0)) && not (is_space (get_or hex d 0)))
    ≡ true
unfolding hex_digit is_space
digit_table = refl

reads_as_iff : (d : ℕ) (o : Option ℕ) → reads_as d o ≡ true → o ≡ some d
reads_as_iff d none h = cc
reads_as_iff d (some e) h = ground arith

-- The sixteen digits: each reads back as its value, and none is a space.
hex_digit-hex :
    (d : ℕ) → d < 16 → (hex_digit (get_or hex d 0) ≡ some d) × (is_space (get_or hex d 0) ≡ false)
hex_digit-hex d h =
    let checked =
      all_below_sound 16
        (λ d. reads_as d (hex_digit (get_or hex d 0)) && not (is_space (get_or hex d 0))) d
        digit_table h in
    (reads_as_iff d (hex_digit (get_or hex d 0)) (ground arith), ground arith)

-- One byte, emitted and parsed.
parse_pairs-byte :
    (cap b : ℕ) (cs out : Bytes)
    → b < 256
    → length out < cap
    → parse_pairs cap (get_or hex (b / 16 % 16) 0 ∷ get_or hex (b % 16) 0 ∷ cs) out
      ≡ parse_pairs cap cs (out ++ b ∷ [])
unfolding parse_pairs
parse_pairs-byte cap b cs out h k =
    let hi = hex_digit-hex (b / 16 % 16) (omega arith) in
    let lo = hex_digit-hex (b % 16) (omega arith) in
    rw (hi.1, hi.0, lo.0, lt→leb_false cap (length out) k)
      (ap (λ c. parse_pairs cap cs (out ++ c ∷ [])) {x = b / 16 % 16 * 16 + b % 16} {y = b}
        (omega arith))

parse_pairs-chunk :
    (cap : ℕ) (bs cs out : Bytes)
    → IsBytes bs
    → length out + length bs ≤ cap
    → parse_pairs cap (hex_chunk bs ++ cs) out ≡ parse_pairs cap cs (out ++ bs)
unfolding hex_chunk
parse_pairs-chunk cap [] cs out h k = ap (parse_pairs cap cs) (sym (append-nil out))
parse_pairs-chunk cap (b ∷ bs) cs out (hb, h) k =
    parse_pairs-byte cap b (hex_chunk bs ++ cs) out hb (omega arith)
    ∙ parse_pairs-chunk cap bs cs (out ++ b ∷ []) h (omega (arith, length-append out (b ∷ [])))
    ∙ ap (parse_pairs cap cs) (append_assoc out (b ∷ []) bs)

hex_chunk-append : (xs ys : Bytes) → hex_chunk (xs ++ ys) ≡ hex_chunk xs ++ hex_chunk ys
unfolding hex_chunk
hex_chunk-append [] ys = refl
hex_chunk-append (x ∷ xs) ys =
    ap (λ t. get_or hex (x / 16 % 16) 0 ∷ get_or hex (x % 16) 0 ∷ t) (hex_chunk-append xs ys)

-- The chunks come to the digits of all the bytes, with a round for each byte or more.
emit_chunks-eq : (fuel : ℕ) (bs : Bytes) → length bs ≤ fuel → emit_chunks fuel bs ≡ hex_chunk bs
unfolding emit_chunks hex_chunk
emit_chunks-eq zero [] h = refl
emit_chunks-eq zero (b ∷ bs) h = absurd (omega arith)
emit_chunks-eq (suc fuel) [] h = refl
emit_chunks-eq (suc fuel) (b ∷ bs) h =
    ap (λ t. hex_chunk (take chunk_size (b ∷ bs)) ++ t)
      (emit_chunks-eq fuel (drop chunk_size (b ∷ bs))
        (omega (arith, length-drop chunk_size (b ∷ bs))))
    ∙ sym (hex_chunk-append (take chunk_size (b ∷ bs)) (drop chunk_size (b ∷ bs)))
    ∙ ap hex_chunk (take-append-drop chunk_size (b ∷ bs))

parse_pairs_nil : (cap : ℕ) → parse_pairs cap [] [] ≡ record { result = some 0; decoded = [] }
unfolding parse_pairs
parse_pairs_nil cap = refl

parse_pairs_end :
    (cap : ℕ) (out : Bytes)
    → parse_pairs cap (b'\n' ∷ []) out ≡ record { result = some (length out); decoded = out }
unfolding parse_pairs
parse_pairs_end cap out = refl

-- The characters of a decimal numeral.
abbrev pub AreDigits : Bytes → Type 0
AreDigits ds = All (λ c. (leb b'0' c && leb c b'9') ≡ true) ds

skip_digits-append : (ds cs : Bytes) → AreDigits ds → skip_digits (ds ++ b' ' ∷ cs) ≡ b' ' ∷ cs
unfolding skip_digits
skip_digits-append [] cs h = refl
skip_digits-append (d ∷ ds) cs (hd, h) = rw hd (skip_digits-append ds cs h)

abbrev newline : Bytes
newline = b'\n' ∷ []

-- From the space in front of the digits to the end of the line.
parse_body :
    (cap : ℕ) (bs : Bytes)
    → IsBytes bs
    → length bs ≤ cap
    → parse_pairs cap (skip_spaces (b' ' ∷ (hex_chunk bs ++ newline))) []
      ≡ record { result = some (length bs); decoded = bs }
unfolding skip_spaces hex_chunk
parse_body cap [] h k = parse_pairs_nil cap
parse_body cap (b ∷ bs) (hb, h) k =
    rw ((hex_digit-hex (b / 16 % 16) (omega arith)).1) (
      parse_pairs-chunk cap (b ∷ bs) newline [] (hb, h) (omega arith)
      ∙ parse_pairs_end cap (b ∷ bs))

-- The prefix is recognised and skipped, with whatever digits the frame number has.
skip_prefix-frame :
    (ds rest : Bytes)
    → AreDigits ds
    → skip_prefix (codes "BUFFER " ++ (ds ++ b' ' ∷ rest)) ≡ skip_spaces (b' ' ∷ rest)
unfolding skip_prefix
skip_prefix-frame ds rest h =
    ap
      (λ b.
        if b && true
        then skip_spaces (skip_digits (ds ++ b' ' ∷ rest))
        else codes "BUFFER " ++ (ds ++ b' ' ∷ rest))
      (lt→ltb 7 (length (codes "BUFFER " ++ (ds ++ b' ' ∷ rest)))
        (omega (arith, length-append ds (b' ' ∷ rest))))
    ∙ ap skip_spaces (skip_digits-append ds rest h)

-- Where printf's `%u` prints decimal digits, `save_io_parse_hex` reads back what
-- `save_state_emit_hex` prints for the first `size` bytes of a buffer of bytes that has them, into
-- a destination with room for them: it returns `size`, and has written exactly these bytes.
pub parse_hex-emit_hex :
    (print_u : ℕ → Bytes)
    → ((n : ℕ) → AreDigits (print_u n))
    → (buf : Bytes) (size cap : ℕ) → IsBytes buf
    → size ≤ length buf
    → size ≤ cap
    → save_io_parse_hex (save_state_emit_hex print_u buf size) cap
      ≡ record { result = some size; decoded = take size buf }
unfolding save_io_parse_hex save_state_emit_hex
parse_hex-emit_hex print_u digits buf size cap h k room =
    ap (λ t. parse_pairs cap t [])
      (skip_prefix-frame (print_u (load_le 4 buf 16)) (emit_chunks size (take size buf) ++ newline)
        (digits (load_le 4 buf 16)))
    ∙ ap (λ t. parse_pairs cap (skip_spaces (b' ' ∷ (t ++ newline))) [])
        (emit_chunks-eq size (take size buf) (omega (arith, length-take size buf k)))
    ∙ parse_body cap (take size buf) (take-IsBytes size buf h)
        (omega (arith, length-take size buf k))
    ∙ ap (λ n. record { result = some n; decoded = take size buf }) (length-take size buf k)
