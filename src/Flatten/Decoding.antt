-- ===== src/Flatten/Decoding.antt =====
-- What `lua_table_unflatten` makes of the wire format.
use mathlib.Core.List.{append_assoc}
use blyt_planning.Prelude.{
  if◌then◌else◌, ℕ, ◌+◌, ◌/◌, ◌%◌, ◌<◌, ◌≤◌, ◌^◌, Bool, true, false, not, ◌&&◌, List, [], ◌∷◌, ◌++◌,
  ◌≡◌, refl, sym, ap, ◌∙◌, arith, inl, inr, Bytes, All, drop, take, length, le_bytes, length-append,
  length-drop, take-append, ltb, ◌==◌, le→ltb_false, Bool-cases,
}
use blyt_planning.Flatten.{
  boolean, integer, float, string, table, LuaApi, ok, canonicalize_nan64, Source, suc, take_u32,
  tag_boolean, tag_integer, tag_float, tag_string, tag_array, err_overflow,
}
use blyt_planning.Flatten.Emit.{Value, bool_byte}
use blyt_planning.Flatten.Unflatten.{
  Step, Stack, step, truth, take_string, take_payload, next_element, unflatten_elements,
  unflatten_array, unflatten_value,
}
use blyt_planning.Flatten.Wire.{
  Scalar, of_boolean, of_integer, of_float, of_string, Plain, scalar, array, scalar_tag, canonical,
  canonicals, payload, payloads, IsScalar, to_lua, HasTag, IsPlain, wire,
}
use blyt_planning.Flatten.Takes.{
  reading, drop-behind, length-behind, take_u8-Reads, take_u32-Reads, take_u64-Reads,
}

canonicalize_nan64-lt : (n : ℕ) → n < 2 ^ 64 → canonicalize_nan64 n < 2 ^ 64
unfolding canonicalize_nan64
canonicalize_nan64-lt n h =
    elim (Bool-cases ((n / 2 ^ 52 % 2 ^ 11 == 0x7ff) && not (n % 2 ^ 52 == 0))) [
      | inl e ↦ rw e (omega arith)
      | inr e ↦ rw e h
    ]

truth-bool_byte : (api : LuaApi) (b : Bool) → truth api (bool_byte b) ≡ b
truth-bool_byte api true = refl
truth-bool_byte api false = refl

module _ (api : LuaApi) where
  -- The array as the calls of `lua_rawseti` fill it, from index `i` on.
  abbrev pub filled : api.Table → ℕ → List Scalar → api.Table
  filled t i [] = t
  filled t i (x ∷ xs) = filled (api.rawset t (integer (i + 1)) (to_lua api x)) (i + 1) xs

  -- The value that comes back: NaNs are canonical.
  abbrev pub restored : Plain → Value api
  restored (scalar x) = to_lua api (canonical x)
  restored (array tag xs) = table (filled api.createtable 0 (canonicals xs))

  -- A call that takes the bytes and pushes the value.
  abbrev pub Pushes : (Source → Stack api → Step (Value api)) → Bytes → Value api → Type 0
  Pushes f bs v =
      (full : Bytes) (pos : ℕ) (rest : Bytes) (stack : Stack api)
      → length full < 2 ^ 32
      → drop pos full ≡ bs ++ rest
      → f (reading full pos) stack ≡ step api ok (reading full (pos + length bs)) (v ∷ stack)

  -- The bytes that are taken behind a position.
  abbrev pub Taken : Bytes → ℕ → Bytes → Type 0
  Taken full pos s =
      (ltb (length full) ((pos + length s) % 2 ^ 32) ≡ false)
      × (ltb (length full) (pos + length s) ≡ false)
      × ((pos + length s) % 2 ^ 32 ≡ pos + length s)
      × (take (length s) (drop pos full) ≡ s)

  pub taken :
      (full : Bytes) (pos : ℕ) (s rest : Bytes)
      → length full < 2 ^ 32
      → pos ≤ length full
      → drop pos full ≡ s ++ rest
      → Taken full pos s
  taken full pos s rest small h e = (
    le→ltb_false (length full) ((pos + length s) % 2 ^ 32) (omega (arith, fits)),
    le→ltb_false (length full) (pos + length s) fits,
    omega (arith, fits),
    ap (take (length s)) e ∙ take-append s rest,
  )
    where
      fits : pos + length s ≤ length full
      fits = omega (arith, length-drop pos full, ap length e, length-append s rest)

  take_string_lem :
      (s : Bytes) (popped : Stack api) (full : Bytes) (pos : ℕ) (rest : Bytes) (stack : Stack api)
      → length full < 2 ^ 32
      → pos ≤ length full
      → drop pos full ≡ s ++ rest
      → take_string api (length s) (reading full pos) stack popped
        ≡ step api ok (reading full (pos + length s)) (string s ∷ stack)
  unfolding take_string
  take_string_lem s popped full pos rest stack small h e =
      let (inside, tame, at, bytes) = taken full pos s rest small h e in
      rw (inside, tame, at, bytes) refl

  take_payload-Pushes :
      (x : Scalar) (popped : Stack api)
      → IsScalar x
      → Pushes
          (λ q stack. take_payload api (scalar_tag x) q stack popped)
          (payload x)
          (to_lua api (canonical x))
  unfolding take_payload
  take_payload-Pushes (of_boolean b) popped h full pos rest stack small e =
      ap (λ q. step api ok q.1 (boolean (truth api q.0) ∷ stack))
        (take_u8-Reads (bool_byte b) full pos rest small e)
      ∙ ap (λ c. step api ok (reading full (pos + 1)) (boolean c ∷ stack)) (truth-bool_byte api b)
  take_payload-Pushes (of_integer n) popped h full pos rest stack small e =
      ap (λ q. step api ok q.1 (integer q.0 ∷ stack)) (take_u64-Reads n h full pos rest small e)
  take_payload-Pushes (of_float n) popped h full pos rest stack small e =
      ap (λ q. step api ok q.1 (float q.0 ∷ stack))
        (take_u64-Reads (canonicalize_nan64 n) (canonicalize_nan64-lt n h) full pos rest small e)
  take_payload-Pushes (of_string s) popped h full pos rest stack small e =
      ap (λ q. take_string api q.0 q.1 stack popped)
        (take_u32-Reads (length s) h full pos (s ++ rest) small split)
      ∙ take_string_lem s popped full (pos + 4) rest stack small
          (length-behind full pos (le_bytes 4 (length s)) (s ++ rest) split (omega arith))
          (drop-behind full pos (le_bytes 4 (length s)) (s ++ rest) split)
      ∙ ap (λ n. step api ok (reading full n) (string s ∷ stack)) {x = pos + 4 + length s}
          {y = pos + length (payload (of_string s))}
          (omega (arith, length-append (le_bytes 4 (length s)) s))
    where
      split : drop pos full ≡ le_bytes 4 (length s) ++ (s ++ rest)
      split = e ∙ append_assoc (le_bytes 4 (length s)) s rest

  unflatten_elements_lem :
      (tag i : ℕ) (xs : List Scalar) (t : api.Table) (full : Bytes) (pos : ℕ) (rest : Bytes)
      (stack : Stack api)
      → All (λ x. scalar_tag x ≡ tag) xs
      → All IsScalar xs
      → length full < 2 ^ 32
      → drop pos full ≡ payloads xs ++ rest
      → unflatten_elements api tag (length xs) i (reading full pos) (table t ∷ stack)
        ≡ step api ok
            (reading full (pos + length (payloads xs)))
            (table (filled t i (canonicals xs)) ∷ stack)
  unfolding unflatten_elements
  unflatten_elements_lem tag i [] t full pos rest stack h k small e =
      ap (λ n. step api ok (reading full n) (table t ∷ stack)) {x = pos} {y = pos + 0} (omega arith)
  unflatten_elements_lem tag i (x ∷ xs) t full pos rest stack (h, hs) (k, ks) small e =
      ap
        (λ q.
          next_element api q.code i q.source q.stack
            (λ s' stack'. unflatten_elements api tag (length xs) (i + 1) s' stack'))
        (ap (λ g. take_payload api g (reading full pos) (table t ∷ stack) stack) (sym h)
          ∙ take_payload-Pushes x stack k full pos (payloads xs ++ rest) (table t ∷ stack) small
              split)
      ∙ unflatten_elements_lem tag (i + 1) xs
          (api.rawset t (integer (i + 1)) (to_lua api (canonical x))) full
          (pos + length (payload x)) rest stack hs ks small
          (drop-behind full pos (payload x) (payloads xs ++ rest) split)
      ∙ ap (λ n. step api ok (reading full n) (table (filled t i (canonicals (x ∷ xs))) ∷ stack))
          {x = pos + length (payload x) + length (payloads xs)}
          {y = pos + length (payloads (x ∷ xs))}
          (omega (arith, length-append (payload x) (payloads xs)))
    where
      split : drop pos full ≡ payload x ++ (payloads xs ++ rest)
      split = e ∙ append_assoc (payload x) (payloads xs) rest

  HasTag-All : (tag : ℕ) (xs : List Scalar) → HasTag tag xs → All (λ x. scalar_tag x ≡ tag) xs
  HasTag-All tag [] h = tt
  HasTag-All tag (x ∷ xs) h = h

  unflatten_array-Pushes :
      (tag : ℕ) (xs : List Scalar)
      → IsPlain (array tag xs)
      → Pushes
          (unflatten_array api)
          (tag ∷ (le_bytes 4 (length xs) ++ payloads xs))
          (restored (array tag xs))
  unfolding unflatten_array
  unflatten_array-Pushes tag xs (ht, lt, hs) full pos rest stack small e =
      ap
        (λ q.
          (let (n, s2) = take_u32 q.1 in
            if s2.underflowed
            then step api err_overflow s2 stack
            else unflatten_elements api q.0 n 0 s2 (table api.createtable ∷ stack)))
        (take_u8-Reads tag full pos (le_bytes 4 (length xs) ++ (payloads xs ++ rest)) small tagged)
      ∙ ap
          (λ q.
            if q.1.underflowed
            then step api err_overflow q.1 stack
            else unflatten_elements api tag q.0 0 q.1 (table api.createtable ∷ stack))
          (take_u32-Reads (length xs) (omega arith) full (pos + 1) (payloads xs ++ rest) small
            counted)
      ∙ unflatten_elements_lem tag 0 xs api.createtable full (pos + 1 + 4) rest stack
          (HasTag-All tag xs ht) hs small
          (drop-behind full (pos + 1) (le_bytes 4 (length xs)) (payloads xs ++ rest) counted)
      ∙ ap (λ n. step api ok (reading full n) (restored (array tag xs) ∷ stack))
          {x = pos + 1 + 4 + length (payloads xs)}
          {y = pos + length (tag ∷ (le_bytes 4 (length xs) ++ payloads xs))}
          (omega (arith, length-append (le_bytes 4 (length xs)) (payloads xs)))
    where
      tagged : drop pos full ≡ (tag ∷ []) ++ (le_bytes 4 (length xs) ++ (payloads xs ++ rest))
      tagged = e ∙ ap (◌∷◌ tag) (append_assoc (le_bytes 4 (length xs)) (payloads xs) rest)

      counted : drop (pos + 1) full ≡ le_bytes 4 (length xs) ++ (payloads xs ++ rest)
      counted =
          drop-behind full pos (tag ∷ []) (le_bytes 4 (length xs) ++ (payloads xs ++ rest)) tagged

  -- The tag of a value, and what reads the bytes behind it.
  abbrev dispatch : ℕ → Source → Stack api → Step (Value api)
  dispatch tag s stack =
      if s.underflowed
      then step api err_overflow s stack
      else if tag == tag_array
      then unflatten_array api s stack
      else take_payload api tag s stack stack

  tagged-Pushes :
      (tag : ℕ) (bs : Bytes) (v : Value api)
      → Pushes (λ s stack. dispatch tag s stack) bs v
      → Pushes (unflatten_value api) (tag ∷ bs) v
  unfolding unflatten_value
  tagged-Pushes tag bs v p full pos rest stack small e =
      ap (λ q. dispatch q.0 q.1 stack) (take_u8-Reads tag full pos (bs ++ rest) small e)
      ∙ p full (pos + 1) rest stack small (drop-behind full pos (tag ∷ []) (bs ++ rest) e)
      ∙ ap (λ n. step api ok (reading full n) (v ∷ stack)) {x = pos + 1 + length bs}
          {y = pos + suc (length bs)} (omega arith)

  pub unflatten_value-Pushes :
      (p : Plain) → IsPlain p → Pushes (unflatten_value api) (wire p) (restored p)
  unflatten_value-Pushes (scalar (of_boolean b)) h =
      tagged-Pushes tag_boolean (payload (of_boolean b)) _
        (λ full pos rest stack. take_payload-Pushes (of_boolean b) stack h full pos rest stack)
  unflatten_value-Pushes (scalar (of_integer n)) h =
      tagged-Pushes tag_integer (payload (of_integer n)) _
        (λ full pos rest stack. take_payload-Pushes (of_integer n) stack h full pos rest stack)
  unflatten_value-Pushes (scalar (of_float n)) h =
      tagged-Pushes tag_float (payload (of_float n)) _
        (λ full pos rest stack. take_payload-Pushes (of_float n) stack h full pos rest stack)
  unflatten_value-Pushes (scalar (of_string s)) h =
      tagged-Pushes tag_string (payload (of_string s)) _
        (λ full pos rest stack. take_payload-Pushes (of_string s) stack h full pos rest stack)
  unflatten_value-Pushes (array tag xs) h =
      tagged-Pushes tag_array (tag ∷ (le_bytes 4 (length xs) ++ payloads xs)) _
        (unflatten_array-Pushes tag xs h)
