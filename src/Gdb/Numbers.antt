-- ===== src/Gdb/Numbers.antt =====
-- The hexadecimal numbers of the packets, printed and read.
use mathlib.Core.List.{append_assoc}
use native.Mathlib.Nat.{pow-succ'}
use blyt_planning.Prelude.{
  le→ltb_false, ◌||◌, ◌&&◌, ◌%◌, ◌^◌, sym, ℕ, zero, suc, ◌+◌, ◌*◌, ◌/◌, ◌%◌, ◌<◌, ◌^◌, ◌&&◌, ◌||◌,
  not, none, [], ◌∷◌, ◌++◌, ◌≡◌, refl, sym, ap, ◌∙◌, arith, Bytes, all_below, all_below_sound, ◌==◌,
  Bool, true, false, if◌then◌else◌, inl, inr, Bool-cases, ltb, le→ltb_false,
}
use blyt_planning.Gdb.Text.{
  is_digit, is_hex, skip_0x, unsigned_hex, signed_hex, skip_spaces, is_space, print_x, hexnyb,
  from_hex, hex_digits, next_digit, hex_number, print_x, is_space, skip_spaces, is_hex, skip_0x,
  ulong_max, unsigned_hex, signed_hex, strtoul,
}
use blyt_planning.Gdb.Handlers.{hex_arg}
use blyt_planning.Gdb.Hex.{from_hex-hexnyb}

-- The number ends in front of the text.
abbrev pub Ends : Bytes → Type 0
Ends [] = Unit
Ends (c ∷ s) = (from_hex c ≡ none) × (((c == 120) || (c == 88)) ≡ false)

hex_digits-Ends : (v : ℕ) (s : Bytes) → Ends s → hex_digits v s ≡ (v, s)
unfolding hex_digits
hex_digits-Ends v [] h = refl
hex_digits-Ends v (c ∷ s) (h, k) = ap (λ o. next_digit v (c ∷ s) o (λ w. hex_digits w s)) h

hex_digits-hexnyb :
    (v d : ℕ) (s : Bytes) → d < 16 → hex_digits v (hexnyb d ∷ s) ≡ hex_digits (v * 16 + d) s
unfolding hex_digits
hex_digits-hexnyb v d s h =
    ap (λ o. next_digit v (hexnyb d ∷ s) o (λ w. hex_digits w s)) (from_hex-hexnyb d h)

hexnyb_mod : (v : ℕ) → hexnyb v ≡ hexnyb (v % 16)
hexnyb_mod v =
    ap (λ m. if ltb m 10 then 48 + m else 87 + m) {x = v % 16} {y = v % 16 % 16} (omega arith)

hex_digits-hex_number :
    (n v : ℕ) (s : Bytes) → v < 16 ^ n → hex_digits 0 (hex_number n v ++ s) ≡ hex_digits v s
unfolding hex_number
hex_digits-hex_number zero v s h = ap (λ w. hex_digits w s) {x = 0} {y = v} (omega arith)
hex_digits-hex_number (suc n) v s h = elim (Bool-cases (v == 0)) [
  | inl e ↦ rw e (ap (λ w. hex_digits w s) {x = 0} {y = v} (ground arith))
  | inr e ↦ rw e (
      ap (hex_digits 0) (append_assoc (hex_number n (v / 16)) (hexnyb v ∷ []) s)
      ∙ hex_digits-hex_number n (v / 16) (hexnyb v ∷ s) (omega (arith, pow-succ' 16 n))
      ∙ ap (λ c. hex_digits (v / 16) (c ∷ s)) (hexnyb_mod v)
      ∙ hex_digits-hexnyb (v / 16) (v % 16) s (omega arith)
      ∙ ap (λ w. hex_digits w s) {x = v / 16 * 16 + v % 16} {y = v} (omega arith))
]

-- The first digit of a number that is not 0.
abbrev Leads : Bytes → Type 0
Leads s = (d : ℕ) × (t : Bytes) × (0 < d) × (d < 16) × (s ≡ hexnyb d ∷ t)

hex_number-Leads : (n v : ℕ) → 0 < v → v < 16 ^ n → Leads (hex_number n v)
unfolding hex_number
hex_number-Leads zero v h k = absurd (omega arith)
hex_number-Leads (suc n) v h k = elim (Bool-cases (v == 0)) [
  | inl e ↦ absurd (ground arith)
  | inr e ↦ rw e (elim (Bool-cases (v / 16 == 0)) [
    | inl f ↦ (
      v,
      [],
      h,
      ground arith,
      ap (λ w. hex_number n w ++ (hexnyb v ∷ [])) {x = v / 16} {y = 0} (ground arith)
          ∙ ap (λ t. t ++ (hexnyb v ∷ [])) (hex_number-zero n),
    )
    | inr f ↦
        let (d, t, p, q, same) =
          hex_number-Leads n (v / 16) (ground arith) (omega (arith, pow-succ' 16 n)) in
        (d, t ++ (hexnyb v ∷ []), p, q, ap (λ s. s ++ (hexnyb v ∷ [])) same)
  ])
]
  where
    hex_number-zero : (m : ℕ) → hex_number m 0 ≡ []
    hex_number-zero zero = refl
    hex_number-zero (suc m) = refl

-- A digit is no space and no sign, and other than `0` unless it is 0.
plain_digit :
    (d : ℕ)
    → d < 16
    → (is_space (hexnyb d) ≡ false)
      × ((hexnyb d == 45) ≡ false)
      × ((hexnyb d == 43) ≡ false)
      × (((hexnyb d == 48) && not (d == 0)) ≡ false)
plain_digit d h = (
  flip (λ m. is_space (hexnyb m)) refl,
  flip (λ m. hexnyb m == 45) refl,
  flip (λ m. hexnyb m == 43) refl,
  flip (λ m. (hexnyb m == 48) && not (m == 0)) refl,
)
  where
    flip : (f : ℕ → Bool) → all_below 16 (λ m. not (f m)) ≡ true → f d ≡ false
    flip f e = elim (Bool-cases (f d)) [
      | inl t ↦ absurd (cc (sym (all_below_sound 16 (λ m. not (f m)) d e h) ∙ ap not t))
      | inr t ↦ t
    ]

-- A text with a digit in front, which is no `0x`, is read digit by digit.
strtoul-digits :
    (d : ℕ) (t : Bytes)
    → d < 16
    → skip_0x (hexnyb d ∷ t) ≡ hexnyb d ∷ t
    → strtoul (hexnyb d ∷ t) ≡ (
        let (v, end) = hex_digits 0 (hexnyb d ∷ t) in
        ((if ltb ulong_max v then ulong_max else v), end))
unfolding strtoul skip_spaces
strtoul-digits d t h no_0x =
    let (space, minus, plus, rest) = plain_digit d h in
    ap (signed_hex (hexnyb d ∷ t)) (ap (λ c. if c then skip_spaces t else hexnyb d ∷ t) space)
    ∙ ap
        (λ c.
          if c
          then unsigned_hex true (hexnyb d ∷ t) t
          else if hexnyb d == 43
          then unsigned_hex false (hexnyb d ∷ t) t
          else unsigned_hex false (hexnyb d ∷ t) (hexnyb d ∷ t))
        minus
    ∙ ap
        (λ c.
          if c
          then unsigned_hex false (hexnyb d ∷ t) t
          else unsigned_hex false (hexnyb d ∷ t) (hexnyb d ∷ t))
        plus
    ∙ ap read no_0x
    ∙ ap (λ c. if c then result (hex_digits 0 (hexnyb d ∷ t)) else (0, hexnyb d ∷ t))
        (ap is_digit (from_hex-hexnyb d h))
  where
    result : ℕ × Bytes → ℕ × Bytes
    result q = ((if ltb ulong_max q.0 then ulong_max else q.0), q.1)

    read : Bytes → ℕ × Bytes
    read digits = if is_hex digits then result (hex_digits 0 digits) else (0, hexnyb d ∷ t)

-- Not even a zero in front of what follows it is a `0x`.
no_prefix : (d : ℕ) (t : Bytes) → 0 < d → d < 16 → skip_0x (hexnyb d ∷ t) ≡ hexnyb d ∷ t
no_prefix d [] p h = refl
no_prefix d (x ∷ t) p h =
    ap (λ c. if c && ((x == 120) || (x == 88)) && is_hex t then t else hexnyb d ∷ x ∷ t) not_zero
  where
    not_zero : (hexnyb d == 48) ≡ false
    not_zero = let (space, minus, plus, zero_only) = plain_digit d h in ground (arith, zero_only)

no_prefix_zero : (s : Bytes) → Ends s → skip_0x (48 ∷ s) ≡ 48 ∷ s
no_prefix_zero [] h = refl
no_prefix_zero (x ∷ s) (h, k) = ap (λ c. if c && is_hex s then s else 48 ∷ x ∷ s) k

-- A number of 32 bits that ends in front of a text is read back with that text.
pub hex_arg-print_x : (v : ℕ) (s : Bytes) → v < 2 ^ 32 → Ends s → hex_arg (print_x v ++ s) ≡ (v, s)
hex_arg-print_x v s h ends = elim (Bool-cases (v == 0)) [
  | inl e ↦
      ap (λ c. hex_arg ((if c then 48 ∷ [] else hex_number 8 v) ++ s)) e
      ∙ ap (λ q. (q.0 % 2 ^ 32, q.1))
          (strtoul-digits 0 s (omega arith) (no_prefix_zero s ends)
            ∙ ap limited (hex_digits-hexnyb 0 0 s (omega arith) ∙ hex_digits-Ends 0 s ends))
      ∙ ap (λ w. (w, s)) {x = 0} {y = v} (ground arith)
  | inr e ↦
      let (d, t, p, q, same) = hex_number-Leads 8 v (ground arith) h in
      ap (λ c. hex_arg ((if c then 48 ∷ [] else hex_number 8 v) ++ s)) e
      ∙ ap (λ q. (q.0 % 2 ^ 32, q.1))
          (ap (λ w. strtoul (w ++ s)) same
            ∙ strtoul-digits d (t ++ s) q (no_prefix d (t ++ s) p q)
            ∙ ap (λ w. limited (hex_digits 0 (w ++ s))) (sym same)
            ∙ ap limited (hex_digits-hex_number 8 v s h ∙ hex_digits-Ends v s ends)
            ∙ ap (λ c. ((if c then ulong_max else v), s)) (le→ltb_false ulong_max v (omega arith)))
      ∙ ap (λ w. (w, s)) {x = v % 2 ^ 32} {y = v} (omega arith)
]
  where
    limited : ℕ × Bytes → ℕ × Bytes
    limited q = ((if ltb ulong_max q.0 then ulong_max else q.0), q.1)
