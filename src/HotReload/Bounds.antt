-- ===== src/HotReload/Bounds.antt =====
-- The diagnostic is the whole message, cut where the buffer ends.
use mathlib.Core.List.{append-nil, append_assoc}
use blyt_planning.Prelude.{
  ℕ, zero, suc, ◌^◌, ◌<◌, ◌≤◌, not, ◌&&◌, Option, List, [], ◌∷◌, ◌++◌, ◌≡◌, refl, sym, ap, ◌∙◌, inl,
  inr, arith, ltb, leb, ◌==◌, if◌then◌else◌, Bool-cases, Bytes, codes, length, length-append, take,
  take-append_of_eq, pos,
}
use blyt_planning.Tracked.{decimal_digits}
use blyt_planning.HotReload.{
  Reason, function_not_found, function_deleted, retype_rejected, schema_mismatch,
  save_flatten_failed, emit_str, reversed, emit_uint, name_or_unknown, emit_reason, emit_line,
  hot_reload_diagnostic_format,
}

take_short : {A : Type 0} (n : ℕ) (xs : List A) → length xs ≤ n → take n xs ≡ xs
take_short zero [] h = refl
take_short zero (x ∷ xs) h = absurd (omega arith)
take_short (suc n) [] h = refl
take_short (suc n) (x ∷ xs) h = ap (◌∷◌ x) (take_short n xs (omega arith))

length-take_le : {A : Type 0} (n : ℕ) (xs : List A) → length (take n xs) ≤ n
length-take_le zero xs = omega arith
length-take_le (suc n) [] = omega arith
length-take_le (suc n) (x ∷ xs) = omega (arith, length-take_le n xs)

take-take-append :
    {A : Type 0} (n : ℕ) (xs ys : List A) → take n (take n xs ++ ys) ≡ take n (xs ++ ys)
take-take-append zero xs ys = refl
take-take-append (suc n) [] ys = refl
take-take-append (suc n) (x ∷ xs) ys = ap (◌∷◌ x) (take-take-append n xs ys)

emit_str_lem :
    (n : ℕ) (text s : Bytes) → length text ≤ n → emit_str (pos (suc n)) text s ≡ take n (text ++ s)
unfolding emit_str
emit_str_lem n text [] h = sym (ap (take n) (append-nil text) ∙ take_short n text h)
emit_str_lem n text (c ∷ cs) h = elim (Bool-cases (leb n (length text))) [
  | inl e ↦ rw e (sym (take-append_of_eq n text (c ∷ cs) (ground arith)))
  | inr e ↦ rw e (
      emit_str_lem n (text ++ c ∷ []) cs (room (ground arith))
      ∙ ap (take n) (append_assoc text (c ∷ []) cs))
]
  where
    room : length text < n → length (text ++ c ∷ []) ≤ n
    room p = omega (arith, length-append text (c ∷ []))

-- A row of emits cuts once.
emit_str-take :
    (n : ℕ) (text s : Bytes) → emit_str (pos (suc n)) (take n text) s ≡ take n (text ++ s)
emit_str-take n text s =
    emit_str_lem n (take n text) s (length-take_le n text) ∙ take-take-append n text s

-- The decimal digits of a number, highest first.
abbrev pub decimal : ℕ → Bytes
decimal v = if v == 0 then 48 ∷ [] else reversed (decimal_digits 24 v)

emit_uint-take :
    (n : ℕ) (text : Bytes) (v : ℕ)
    → emit_uint (pos (suc n)) (take n text) v ≡ take n (text ++ decimal v)
unfolding emit_uint
emit_uint-take n text v = emit_str-take n text (decimal v)

-- The message, part by part, as in an unbounded buffer.
abbrev pub reason_part : Option Bytes → Reason → Bytes
reason_part func_name function_not_found =
    codes "function '" ++ (name_or_unknown func_name ++ codes "' not found in new code\n")
reason_part func_name function_deleted =
    codes "function '" ++ (name_or_unknown func_name ++ codes "' was deleted from new code\n")
reason_part func_name retype_rejected = codes "field retype rejected by on_retype callback\n"
reason_part func_name schema_mismatch =
    codes "region layout changed but no migration descriptor registered\n"
reason_part func_name save_flatten_failed =
    codes "pre-reload ctx flatten failed (BLYT_ERR_FLATTEN_UNSUPPORTED_TYPE)\n"

abbrev pub line_part : ℕ → Bytes
line_part old_line =
    if not (old_line == 0) && ltb old_line (2 ^ 31)
    then codes "  body: cart.lua:" ++ (decimal old_line ++ codes " (old) -> cart.lua:??? (new)\n")
    else []

abbrev pub message : ℕ → Option Bytes → ℕ → Reason → Bytes
message slot func_name old_line reason =
    (((((((codes "hot_reload: failed to migrate slot " ++ decimal slot)
                ++ codes " (persistent script)\n")
              ++ line_part old_line)
            ++ codes "  reason: ")
          ++ reason_part func_name reason)
        ++ codes "  surfaced via: blyt32.on_hot_reload_failed(slot=")
      ++ decimal slot)
    ++ codes ", reason=...)\n"

three :
    (n : ℕ) (text a b c : Bytes)
    → emit_str (pos (suc n)) (emit_str (pos (suc n)) (emit_str (pos (suc n)) (take n text) a) b) c
      ≡ take n (text ++ (a ++ (b ++ c)))
three n text a b c =
    ap (λ t. emit_str (pos (suc n)) (emit_str (pos (suc n)) t b) c) (emit_str-take n text a)
    ∙ ap (λ t. emit_str (pos (suc n)) t c) (emit_str-take n (text ++ a) b)
    ∙ emit_str-take n ((text ++ a) ++ b) c
    ∙ ap (take n) (append_assoc (text ++ a) b c ∙ append_assoc text a (b ++ c))

emit_reason-take :
    (n : ℕ) (text : Bytes) (func_name : Option Bytes) (reason : Reason)
    → emit_reason (pos (suc n)) (take n text) func_name reason
      ≡ take n (text ++ reason_part func_name reason)
unfolding emit_reason
emit_reason-take n text func_name function_not_found =
    three n text (codes "function '") (name_or_unknown func_name)
      (codes "' not found in new code\n")
emit_reason-take n text func_name function_deleted =
    three n text (codes "function '") (name_or_unknown func_name)
      (codes "' was deleted from new code\n")
emit_reason-take n text func_name retype_rejected =
    emit_str-take n text (codes "field retype rejected by on_retype callback\n")
emit_reason-take n text func_name schema_mismatch =
    emit_str-take n text (codes "region layout changed but no migration descriptor registered\n")
emit_reason-take n text func_name save_flatten_failed =
    emit_str-take n text
      (codes "pre-reload ctx flatten failed (BLYT_ERR_FLATTEN_UNSUPPORTED_TYPE)\n")

emit_line-take :
    (n : ℕ) (text : Bytes) (old_line : ℕ)
    → emit_line (pos (suc n)) (take n text) old_line ≡ take n (text ++ line_part old_line)
unfolding emit_line
emit_line-take n text old_line = elim (Bool-cases (not (old_line == 0) && ltb old_line (2 ^ 31))) [
  | inl e ↦ rw e (
      ap (λ t. emit_str (pos (suc n)) (emit_uint (pos (suc n)) t old_line) line_end)
        (emit_str-take n text line_start)
      ∙ ap (λ t. emit_str (pos (suc n)) t line_end) (emit_uint-take n (text ++ line_start) old_line)
      ∙ emit_str-take n ((text ++ line_start) ++ decimal old_line) line_end
      ∙ ap (take n) (
          append_assoc (text ++ line_start) (decimal old_line) line_end
          ∙ append_assoc text line_start (decimal old_line ++ line_end)))
  | inr e ↦ rw e (ap (take n) (sym (append-nil text)))
]
  where
    line_start : Bytes
    line_start = codes "  body: cart.lua:"

    line_end : Bytes
    line_end = codes " (old) -> cart.lua:??? (new)\n"

-- With a capacity of 1 + `n`, the diagnostic is the whole message when that has at most `n` bytes
-- and otherwise its first `n` bytes, so that there is always room for the NUL.
pub hot_reload_diagnostic_format_lem :
    (n slot : ℕ) (func_name : Option Bytes) (old_line : ℕ) (reason : Reason)
    → (hot_reload_diagnostic_format (pos (suc n)) slot func_name old_line reason
        ≡ take n (message slot func_name old_line reason))
      × (length (hot_reload_diagnostic_format (pos (suc n)) slot func_name old_line reason) < suc n)
unfolding hot_reload_diagnostic_format
hot_reload_diagnostic_format_lem n slot func_name old_line reason =
    (cut, omega (arith, ap length cut, length-take_le n (message slot func_name old_line reason)))
  where
    str : (t text s : Bytes) → t ≡ take n text → emit_str (pos (suc n)) t s ≡ take n (text ++ s)
    str t text s h = ap (λ u. emit_str (pos (suc n)) u s) h ∙ emit_str-take n text s

    uint :
        (t text : Bytes) (v : ℕ)
        → t ≡ take n text
        → emit_uint (pos (suc n)) t v ≡ take n (text ++ decimal v)
    uint t text v h = ap (λ u. emit_uint (pos (suc n)) u v) h ∙ emit_uint-take n text v

    line :
        (t text : Bytes)
        → t ≡ take n text
        → emit_line (pos (suc n)) t old_line ≡ take n (text ++ line_part old_line)
    line t text h = ap (λ u. emit_line (pos (suc n)) u old_line) h ∙ emit_line-take n text old_line

    because :
        (t text : Bytes)
        → t ≡ take n text
        → emit_reason (pos (suc n)) t func_name reason
          ≡ take n (text ++ reason_part func_name reason)
    because t text h =
        ap (λ u. emit_reason (pos (suc n)) u func_name reason) h
        ∙ emit_reason-take n text func_name reason

    cut :
        hot_reload_diagnostic_format (pos (suc n)) slot func_name old_line reason
        ≡ take n (message slot func_name old_line reason)
    cut = str _ _ _ (
        uint _ _ _ (
          str _ _ _ (
            because _ _ (
              str _ _ _ (
                line _ _ (
                  str _ _ _ (
                    uint _ _ _ (
                      emit_str_lem n [] (codes "hot_reload: failed to migrate slot ")
                        (omega arith)))))))))
