-- ===== src/Tracked/Decimal.antt =====
-- What `string_sink_putu` writes.
use native.Mathlib.Nat.{pow-succ'}
use mathlib.Core.List.{append_assoc, append-nil}
use blyt_planning.Prelude.{
  ℕ, zero, suc, ◌+◌, ◌-◌, ◌*◌, ◌/◌, ◌%◌, ◌^◌, ◌≤◌, ◌<◌, [], ◌∷◌, ◌++◌, ◌≡◌, inl, inr, refl, sym, ap,
  ◌∙◌, arith, ◌==◌, Bool-cases, Bytes, length, length-append,
}
use blyt_planning.Tracked.{
  StringSink, string_sink_putc, decimal_digits, put_reversed, string_sink_putu, tmp_size,
}

-- The number that decimal digits stand for, highest first.
abbrev pub decimal_value : ℕ → Bytes → ℕ
decimal_value acc [] = acc
decimal_value acc (c ∷ cs) = decimal_value (acc * 10 + (c - 48)) cs

abbrev pub reversed : Bytes → Bytes
reversed [] = []
reversed (c ∷ cs) = reversed cs ++ c ∷ []

decimal_value-append :
    (acc : ℕ) (xs : Bytes) (c : ℕ)
    → decimal_value acc (xs ++ c ∷ []) ≡ decimal_value acc xs * 10 + (c - 48)
decimal_value-append acc [] c = refl
decimal_value-append acc (x ∷ xs) c = decimal_value-append (acc * 10 + (x - 48)) xs c

length-decimal_digits : (fuel v : ℕ) → length (decimal_digits fuel v) ≤ fuel
unfolding decimal_digits
length-decimal_digits zero v = omega arith
length-decimal_digits (suc fuel) v = elim (Bool-cases (v == 0)) [
  | inl e ↦ rw e (omega arith)
  | inr e ↦ rw e (omega (arith, length-decimal_digits fuel (v / 10)))
]

length-reversed : (cs : Bytes) → length (reversed cs) ≡ length cs
length-reversed [] = refl
length-reversed (c ∷ cs) = omega (arith, length-append (reversed cs) (c ∷ []), length-reversed cs)

-- With fuel for its digits, a number is read back from them.
decimal_value-digits :
    (fuel v : ℕ) → v < 10 ^ fuel → decimal_value 0 (reversed (decimal_digits fuel v)) ≡ v
unfolding decimal_digits
decimal_value-digits zero v h = omega arith
decimal_value-digits (suc fuel) v h = elim (Bool-cases (v == 0)) [
  | inl e ↦ rw e (ground arith)
  | inr e ↦ rw e (
      decimal_value-append 0 (reversed (decimal_digits fuel (v / 10))) (48 + v % 10)
      ∙ omega (arith, decimal_value-digits fuel (v / 10) (omega (arith, pow-succ' 10 fuel))))
]

putc_room :
    (s : StringSink) (c : ℕ)
    → length s.text + 1 ≤ s.cap
    → string_sink_putc s c ≡ record s { text = s.text ++ c ∷ [] }
unfolding string_sink_putc
putc_room s c h = ground arith

put_reversed_room :
    (s : StringSink) (cs : Bytes)
    → length s.text + length cs ≤ s.cap
    → put_reversed s cs ≡ record s { text = s.text ++ reversed cs }
unfolding put_reversed
put_reversed_room s [] h = ap (λ t. record s { text = t }) (sym (append-nil s.text))
put_reversed_room s (c ∷ cs) h =
    ap (λ t. string_sink_putc t c) (put_reversed_room s cs (omega arith))
    ∙ putc_room (record s { text = s.text ++ reversed cs }) c
        (omega (arith, length-append s.text (reversed cs), length-reversed cs))
    ∙ ap (λ t. record s { text = t }) (append_assoc s.text (reversed cs) (c ∷ []))

-- In a sink with room for 24 more characters, `string_sink_putu` of a number below 2 ^ 64 appends
-- at most 24 characters and overflows nothing, and read as decimal digits they are the number.
pub string_sink_putu_lem :
    (s : StringSink) (v : ℕ)
    → v < 2 ^ 64
    → length s.text + tmp_size ≤ s.cap
    → (ds : Bytes) × (string_sink_putu s v ≡ record s { text = s.text ++ ds })
      × (decimal_value 0 ds ≡ v)
      × (length ds ≤ tmp_size)
unfolding string_sink_putu
string_sink_putu_lem s v h room = elim (Bool-cases (v == 0)) [
  | inl e ↦ (48 ∷ [], rw e (putc_room s 48 (omega arith)), ground arith, omega arith)
  | inr e ↦ (
    reversed (decimal_digits tmp_size v),
    rw e (
        put_reversed_room s (decimal_digits tmp_size v)
          (omega (arith, length-decimal_digits tmp_size v))),
    decimal_value-digits tmp_size v (omega arith),
    omega (arith, length-reversed (decimal_digits tmp_size v), length-decimal_digits tmp_size v),
  )
]
