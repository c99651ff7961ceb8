-- ===== src/Flatten/Values.antt =====
-- What `emit_value` appends: elements, arrays and scalars.
use mathlib.Core.Path.{subst}
use mathlib.Core.List.{append-nil}
use blyt_planning.Prelude.{
  take_all, ◌%◌, ◌^◌, length-append, ℕ, zero, suc, ◌+◌, ◌<◌, ◌%◌, Bool, true, false, List, [], ◌∷◌,
  ◌≡◌, refl, sym, ap, ◌∙◌, inl, inr, arith, ◌==◌, All, le_bytes, length, ◌⊎◌, Bool-cases, eq→==,
}
use blyt_planning.Flatten.{
  nil, integer, LuaApi, ok, tag_boolean, tag_integer, tag_float, tag_string, tag_array,
  canonicalize_nan64, put_u8, put_u32, put_bytes,
}
use blyt_planning.Flatten.Emit.{
  Value, bool_byte, element_tag, is_nil, detect_end, detect_from, detect_array, emit_element,
  emit_elements, emit_array, emit_value, emit_detected,
}
use blyt_planning.Flatten.Wire.{
  Scalar, of_boolean, of_integer, of_float, of_string, Plain, scalar, array, scalar_tag, payload,
  payloads, wire, HasTag, IsPlain, to_lua, Elements, Represents,
}
use blyt_planning.Flatten.Puts.{
  Succeeds, Emits, Emits-then, put_bytes-Emits, put_u8-Emits, put_u32-Emits, put_u64-Emits,
}

module _ (api : LuaApi) where
  element_tag-to_lua : (x : Scalar) → element_tag api (to_lua api x) ≡ scalar_tag x
  element_tag-to_lua (of_boolean b) = refl
  element_tag-to_lua (of_integer n) = refl
  element_tag-to_lua (of_float n) = refl
  element_tag-to_lua (of_string s) = refl

  scalar_tag-pos : (x : Scalar) → (scalar_tag x == 0) ≡ false
  scalar_tag-pos (of_boolean b) = refl
  scalar_tag-pos (of_integer n) = refl
  scalar_tag-pos (of_float n) = refl
  scalar_tag-pos (of_string s) = refl

  is_nil-to_lua : (x : Scalar) → is_nil api (to_lua api x) ≡ false
  is_nil-to_lua (of_boolean b) = refl
  is_nil-to_lua (of_integer n) = refl
  is_nil-to_lua (of_float n) = refl
  is_nil-to_lua (of_string s) = refl

  bool_byte-byte : (b : Bool) → bool_byte b % 256 ≡ bool_byte b
  bool_byte-byte true = refl
  bool_byte-byte false = refl

  emit_element-Emits : (x : Scalar) → Emits (emit_element api (to_lua api x)) (payload x)
  unfolding emit_element
  emit_element-Emits (of_boolean b) q fits =
      put_u8-Emits (bool_byte b) (bool_byte b) (bool_byte-byte b) q fits
  emit_element-Emits (of_integer n) q fits = put_u64-Emits n q fits
  emit_element-Emits (of_float n) q fits = put_u64-Emits (canonicalize_nan64 n) q fits
  emit_element-Emits (of_string s) q (small, fits) =
      ap (λ b. put_bytes b (put_u32 (length s) q))
        (take_all (length s % 2 ^ 32) s (omega (arith, length-append (le_bytes 4 (length s)) s)))
      ∙ Emits-then _ _ (le_bytes 4 (length s)) s (put_u32-Emits (length s)) (put_bytes-Emits s) q
          (small, fits)

  Emits-nothing : Emits (λ s. s) []
  Emits-nothing s fits = ap (λ w. record s { written = w }) (sym (append-nil s.written))

  emit_elements-Emits :
      (t : api.Table) (i : ℕ) (xs : List Scalar)
      → Elements api t i xs
      → Emits (emit_elements api t (length xs) i) (payloads xs)
  unfolding emit_elements
  emit_elements-Emits t i [] e = Emits-nothing
  emit_elements-Emits t i (x ∷ xs) (e, es) =
      Emits-then _ _ (payload x) (payloads xs)
        (subst (λ v. Emits (emit_element api v) (payload x)) (sym e) (emit_element-Emits x))
        (emit_elements-Emits t (i + 1) xs es)

  -- One round over an element.
  detect_step :
      (fuel : ℕ) (t : api.Table) (tag n : ℕ) (x : Scalar)
      → api.rawget t (integer (n + 1)) ≡ to_lua api x
      → (n ≡ 0) ⊎ (scalar_tag x ≡ tag)
      → detect_from api (suc fuel) t tag n ≡ detect_from api fuel t (scalar_tag x) (n + 1)
  unfolding detect_from
  detect_step fuel t tag n x e first =
      rw (e, is_nil-to_lua x, element_tag-to_lua x, scalar_tag-pos x)
        (elim (Bool-cases (n == 0)) [
          | inl z ↦ rw z refl
          | inr z ↦ rw (z, eq→== (scalar_tag x) tag (again first z)) refl
        ])
    where
      again : (n ≡ 0) ⊎ (scalar_tag x ≡ tag) → (n == 0) ≡ false → scalar_tag x ≡ tag
      again (inl q) z = absurd (ground arith)
      again (inr q) z = q

  detect_stop :
      (fuel : ℕ) (t : api.Table) (tag n : ℕ)
      → 0 < fuel
      → api.rawget t (integer (n + 1)) ≡ nil
      → length (api.next t) ≡ n
      → detect_from api fuel t tag n ≡ record { code = ok; tag = tag; count = n }
  unfolding detect_from detect_end
  detect_stop zero t tag n h e c = absurd (omega arith)
  detect_stop (suc fuel) t tag n h e c = rw (e, eq→== (length (api.next t)) n c) refl

  -- The elements behind the first `n`.
  detect_rest :
      (fuel : ℕ) (t : api.Table) (tag n : ℕ) (xs : List Scalar)
      → Elements api t n xs
      → All (λ y. scalar_tag y ≡ tag) xs
      → length xs < fuel
      → length (api.next t) ≡ n + length xs
      → detect_from api fuel t tag n ≡ record { code = ok; tag = tag; count = n + length xs }
  detect_rest fuel t tag n [] e h lt c =
      detect_stop fuel t tag n (omega arith) e (omega arith)
      ∙ ap (λ k. record { code = ok; tag = tag; count = k }) {x = n} {y = n + 0} (omega arith)
  detect_rest zero t tag n (x ∷ xs) e h lt c = absurd (omega arith)
  detect_rest (suc fuel) t tag n (x ∷ xs) (e, es) (h, hs) lt c =
      detect_step fuel t tag n x e (inr h)
      ∙ ap (λ g. detect_from api fuel t g (n + 1)) h
      ∙ detect_rest fuel t tag (n + 1) xs es hs (omega arith) (omega arith)
      ∙ ap (λ k. record { code = ok; tag = tag; count = k }) {x = n + 1 + length xs}
          {y = n + suc (length xs)} (omega arith)

  detect_all :
      (fuel : ℕ) (t : api.Table) (tag : ℕ) (xs : List Scalar)
      → Elements api t 0 xs
      → HasTag tag xs
      → length xs < fuel
      → length (api.next t) ≡ length xs
      → detect_from api fuel t 0 0 ≡ record { code = ok; tag = tag; count = length xs }
  detect_all fuel t tag [] e h lt c =
      detect_stop fuel t 0 0 (omega arith) e c
      ∙ ap (λ g. record { code = ok; tag = g; count = 0 }) (sym h)
  detect_all zero t tag (x ∷ xs) e h lt c = absurd (omega arith)
  detect_all (suc fuel) t tag (x ∷ xs) (e, es) (h, hs) lt c =
      detect_step fuel t 0 0 x e (inl refl)
      ∙ ap (λ g. detect_from api fuel t g 1) h
      ∙ detect_rest fuel t tag 1 xs es hs (omega arith) (omega arith)
      ∙ ap (λ k. record { code = ok; tag = tag; count = k }) {x = 1 + length xs}
          {y = suc (length xs)} (omega arith)

  tagged-Emits :
      (tag n : ℕ)
      → tag < 256
      → Emits (λ s. put_u32 n (put_u8 tag (put_u8 tag_array s))) (tag_array ∷ tag ∷ le_bytes 4 n)
  tagged-Emits tag n h =
      Emits-then _ _ (tag_array ∷ tag ∷ []) (le_bytes 4 n)
        (Emits-then _ _ (tag_array ∷ []) (tag ∷ []) (put_u8-Emits tag_array _ refl)
          (put_u8-Emits tag _ (omega arith)))
        (put_u32-Emits n)

  HasTag-byte : (tag : ℕ) (xs : List Scalar) → HasTag tag xs → tag < 256
  HasTag-byte tag [] h = omega arith
  HasTag-byte tag (of_boolean b ∷ xs) (h, hs) = omega arith
  HasTag-byte tag (of_integer n ∷ xs) (h, hs) = omega arith
  HasTag-byte tag (of_float n ∷ xs) (h, hs) = omega arith
  HasTag-byte tag (of_string s ∷ xs) (h, hs) = omega arith

  emit_array-Succeeds :
      (t : api.Table) (tag : ℕ) (xs : List Scalar)
      → Elements api t 0 xs
      → HasTag tag xs
      → length xs < 0xffffffff
      → length (api.next t) ≡ length xs
      → Succeeds (emit_array api t) (wire (array tag xs))
  unfolding emit_array detect_array
  emit_array-Succeeds t tag xs e h lt c s fits =
      ap (λ d. emit_detected api t d.code d s) (detect_all 0xffffffff t tag xs e h lt c)
      ∙ ap (λ q. (ok, q))
          (Emits-then _ _ (tag_array ∷ tag ∷ le_bytes 4 (length xs)) (payloads xs)
            (tagged-Emits tag (length xs) (HasTag-byte tag xs h)) (emit_elements-Emits t 0 xs e) s
            fits)

  emit_scalar-Succeeds : (x : Scalar) → Succeeds (emit_value api (to_lua api x)) (wire (scalar x))
  unfolding emit_value
  emit_scalar-Succeeds (of_boolean b) s fits =
      ap (λ q. (ok, q))
        (Emits-then _ _ (tag_boolean ∷ []) (payload (of_boolean b))
          (put_u8-Emits tag_boolean _ refl) (emit_element-Emits (of_boolean b)) s fits)
  emit_scalar-Succeeds (of_integer n) s fits =
      ap (λ q. (ok, q))
        (Emits-then _ _ (tag_integer ∷ []) (payload (of_integer n))
          (put_u8-Emits tag_integer _ refl) (emit_element-Emits (of_integer n)) s fits)
  emit_scalar-Succeeds (of_float n) s fits =
      ap (λ q. (ok, q))
        (Emits-then _ _ (tag_float ∷ []) (payload (of_float n)) (put_u8-Emits tag_float _ refl)
          (emit_element-Emits (of_float n)) s fits)
  emit_scalar-Succeeds (of_string b) s fits =
      ap (λ q. (ok, q))
        (Emits-then _ _ (tag_string ∷ []) (payload (of_string b)) (put_u8-Emits tag_string _ refl)
          (emit_element-Emits (of_string b)) s fits)

  pub emit_value-Succeeds :
      (v : Value api) (p : Plain)
      → IsPlain p
      → Represents api v p
      → Succeeds (emit_value api v) (wire p)
  unfolding emit_value
  emit_value-Succeeds v (scalar x) h e s fits =
      ap (λ u. emit_value api u s) e ∙ emit_scalar-Succeeds x s fits
  emit_value-Succeeds v (array tag xs) (ht, lt, hs) (t, e, es, c) s fits =
      ap (λ u. emit_value api u s) e ∙ emit_array-Succeeds t tag xs es ht lt c s fits
