-- ===== src/Flatten/Capacity.antt =====
-- What `lua_table_flatten` writes stays inside the buffer.
use blyt_planning.Prelude.{
  zero, suc, ◌+◌, ◌/◌, List, All, leb, take, length-take, refl, inl, inr, ℕ, ◌<◌, ◌≤◌, ◌^◌, ◌%◌,
  ◌≡◌, arith, Bytes, length, length-append, Bool-cases, ltb,
}
use blyt_planning.Flatten.{
  nil, other, boolean, integer, float, string, table, LuaApi, LtfCode, ok, put_u8, put_u16, put_u32,
  put_u64, tag_boolean, tag_integer, tag_float, tag_string, tag_array, canonicalize_nan64,
  max_key_len, max_fields, ◌∷◌, [], Sink, put_bytes,
}
use blyt_planning.Flatten.Emit.{
  Value, bool_byte, Detected, Flattened, emit_element, emit_elements, emit_detected, emit_array,
  emit_value, collect_keys, next_field, emit_fields, empty_sink, flatten_keys, lua_table_flatten,
  detect_array,
}
use blyt_planning.Flatten.Keys.{key_sort}
use blyt_planning.Flatten.Sorting.{All-key_sort}

-- The sink of a buffer of `cap` bytes, with no byte behind the buffer's end.
abbrev pub Inside : ℕ → Sink → Type 0
Inside cap s = (s.cap ≡ cap) × (length s.written ≤ cap)

put_bytes-Inside :
    (cap : ℕ) (bs : Bytes) (s : Sink)
    → cap < 2 ^ 31
    → length bs < 2 ^ 31
    → Inside cap s
    → Inside cap (put_bytes bs s)
unfolding put_bytes
put_bytes-Inside cap bs s small short (c, h) =
    elim (Bool-cases (ltb s.cap ((length s.written + length bs) % 2 ^ 32))) [
      | inl e ↦ rw e (c, h)
      | inr e ↦ rw e (c, ground (arith, length-append s.written bs))
    ]

module _ (cap : ℕ) (small : cap < 2 ^ 31) where
  put_u8-Inside : (v : ℕ) (s : Sink) → Inside cap s → Inside cap (put_u8 v s)
  unfolding put_u8
  put_u8-Inside v s h = put_bytes-Inside cap (v % 256 ∷ []) s small (omega arith) h

  put_u16-Inside : (v : ℕ) (s : Sink) → Inside cap s → Inside cap (put_u16 v s)
  unfolding put_u16
  put_u16-Inside v s h = put_u8-Inside (v / 2 ^ 8) _ (put_u8-Inside v s h)

  put_u32-Inside : (v : ℕ) (s : Sink) → Inside cap s → Inside cap (put_u32 v s)
  unfolding put_u32
  put_u32-Inside v s h =
      put_u8-Inside (v / 2 ^ 24) _
        (put_u8-Inside (v / 2 ^ 16) _ (put_u8-Inside (v / 2 ^ 8) _ (put_u8-Inside v s h)))

  put_u64-Inside : (v : ℕ) (s : Sink) → Inside cap s → Inside cap (put_u64 v s)
  unfolding put_u64
  put_u64-Inside v s h = put_u32-Inside (v / 2 ^ 32) _ (put_u32-Inside (v % 2 ^ 32) s h)

  module _ (api : LuaApi) where
    -- A value that is no longer string.
    abbrev pub HasShort : Value api → Type 0
    HasShort (string s) = length s < 2 ^ 31
    HasShort v = Unit

    emit_element-Inside :
        (v : Value api) (s : Sink) → HasShort v → Inside cap s → Inside cap (emit_element api v s)
    unfolding emit_element
    emit_element-Inside (boolean b) s short h = put_u8-Inside (bool_byte b) s h
    emit_element-Inside (integer n) s short h = put_u64-Inside n s h
    emit_element-Inside (float n) s short h = put_u64-Inside (canonicalize_nan64 n) s h
    emit_element-Inside (string bs) s short h =
        put_bytes-Inside cap (take (length bs % 2 ^ 32) bs) _ small
          (omega (arith, length-take (length bs % 2 ^ 32) bs (omega arith)))
          (put_u32-Inside (length bs) s h)
    emit_element-Inside v s short h = h

    -- Every string in a table is short.
    abbrev pub AllShort : Type 0
    AllShort = (t : api.Table) (k : Value api) → HasShort (api.rawget t k)

    emit_elements-Inside :
        (t : api.Table) (n i : ℕ) (s : Sink)
        → AllShort
        → Inside cap s
        → Inside cap (emit_elements api t n i s)
    unfolding emit_elements
    emit_elements-Inside t zero i s short h = h
    emit_elements-Inside t (suc n) i s short h =
        emit_elements-Inside t n (i + 1) _ short
          (emit_element-Inside (api.rawget t (integer (i + 1))) s (short t (integer (i + 1))) h)

    emit_detected-Inside :
        (t : api.Table) (code : LtfCode) (d : Detected) (s : Sink)
        → AllShort
        → Inside cap s
        → Inside cap (emit_detected api t code d s).1
    emit_detected-Inside t ok d s short h =
        emit_elements-Inside t d.count 0 _ short
          (put_u32-Inside d.count _ (put_u8-Inside d.tag _ (put_u8-Inside tag_array s h)))
    emit_detected-Inside t code d s short h = h

    emit_value-Inside :
        (v : Value api) (s : Sink)
        → AllShort
        → HasShort v
        → Inside cap s
        → Inside cap (emit_value api v s).1
    unfolding emit_value emit_array
    emit_value-Inside nil s all short h = h
    emit_value-Inside other s all short h = h
    emit_value-Inside (table t) s all short h =
        emit_detected-Inside t (detect_array api t).code (detect_array api t) s all h
    emit_value-Inside (boolean b) s all short h =
        emit_element-Inside (boolean b) _ short (put_u8-Inside tag_boolean s h)
    emit_value-Inside (integer n) s all short h =
        emit_element-Inside (integer n) _ short (put_u8-Inside tag_integer s h)
    emit_value-Inside (float n) s all short h =
        emit_element-Inside (float n) _ short (put_u8-Inside tag_float s h)
    emit_value-Inside (string b) s all short h =
        emit_element-Inside (string b) _ short (put_u8-Inside tag_string s h)

    -- What an outcome holds of the buffer.
    abbrev Within : Flattened → Type 0
    Within r = (length r.written ≤ cap) × (r.out_len ≤ length r.written)

    next_field-Within :
        (code : LtfCode) (s : Sink) (rest : Flattened)
        → Inside cap s
        → Within rest
        → Within (next_field api code s rest)
    next_field-Within ok s rest (c, h) k = elim (Bool-cases s.overflowed) [
      | inl e ↦ rw e (h, omega arith)
      | inr e ↦ rw e k
    ]
    next_field-Within code s rest (c, h) k = (h, omega arith)

    emit_fields-Within :
        (t : api.Table) (keys : List Bytes) (s : Sink)
        → AllShort
        → All (λ k. length k ≤ max_key_len) keys
        → Inside cap s
        → Within (emit_fields api t keys s)
    unfolding emit_fields
    emit_fields-Within t [] s all short (c, h) = elim (Bool-cases s.overflowed) [
      | inl e ↦ rw e (h, omega arith)
      | inr e ↦ rw e (h, omega arith)
    ]
    emit_fields-Within t (key ∷ keys) s all (short, shorts) h =
        let filled =
          put_bytes-Inside cap key _ small (omega arith) (put_u16-Inside (length key) s h) in
        let emitted =
          emit_value-Inside (api.rawget t (string key)) _ all (all t (string key)) filled in
        next_field-Within _ _ _ emitted (emit_fields-Within t keys _ all shorts emitted)

    collect_keys-short :
        (n : ℕ) (pairs : List (Value api × Value api))
        → All (λ k. length k ≤ max_key_len) (collect_keys api n pairs).1
    unfolding collect_keys
    collect_keys-short n [] = tt
    collect_keys-short n ((string key, v) ∷ pairs) = elim (Bool-cases (leb max_fields n)) [
      | inl e ↦ rw e tt
      | inr e ↦ elim (Bool-cases (ltb max_key_len (length key))) [
        | inl f ↦ rw (e, f) tt
        | inr f ↦ rw (e, f) (ground arith, collect_keys-short (n + 1) pairs)
      ]
    ]
    collect_keys-short n ((k, v) ∷ pairs) = tt

    flatten_keys-Within :
        (t : api.Table) (code : LtfCode) (keys : List Bytes)
        → AllShort
        → All (λ k. length k ≤ max_key_len) keys
        → Within (flatten_keys api t cap code keys)
    flatten_keys-Within t ok keys all short =
        emit_fields-Within t (key_sort keys) _ all (All-key_sort _ keys short)
          (put_u32-Inside (length keys) (empty_sink api cap) (refl, omega arith))
    flatten_keys-Within t code keys all short = (omega arith, omega arith)

    -- The buffer has less than 2 ^ 31 bytes, and so has every string that a table holds. Then, for
    -- any value and on success as on error, what `lua_table_flatten` writes fits the buffer, and the
    -- length that it reports is at most what it has written.
    pub lua_table_flatten_within :
        (v : Value api)
        → AllShort
        → (length (lua_table_flatten api v cap).written ≤ cap)
          × ((lua_table_flatten api v cap).out_len ≤ length (lua_table_flatten api v cap).written)
    unfolding lua_table_flatten
    lua_table_flatten_within (table t) all =
        let collected = collect_keys api 0 (api.next t) in
        flatten_keys-Within t collected.0 collected.1 all (collect_keys-short 0 (api.next t))
    lua_table_flatten_within v all = (omega arith, omega arith)
