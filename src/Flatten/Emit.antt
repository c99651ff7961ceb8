-- ===== src/Flatten/Emit.antt =====
-- `lua_table_flatten`. Every call pushes to Lua's stack what it pops again, and so the stack is left
-- out.
use blyt_planning.Prelude.{
  ◌%◌, ◌^◌, take, ℕ, zero, suc, ◌+◌, Bool, true, false, not, List, [], ◌∷◌, ltb, leb, ◌==◌,
  if◌then◌else◌, Bytes, length,
}
use blyt_planning.Flatten.{
  LuaValue, nil, other, boolean, integer, float, string, table, LuaApi, LtfCode, ok, err_overflow,
  err_unsupported_type, err_non_string_key, err_key_too_long, err_array_mixed_types,
  err_array_non_sequence, tag_boolean, tag_integer, tag_float, tag_string, tag_array, max_key_len,
  max_fields, canonicalize_nan64, Sink, put_bytes, put_u8, put_u16, put_u32, put_u64,
}
use blyt_planning.Flatten.Keys.{key_sort}

abbrev pub bool_byte : Bool → ℕ
bool_byte true = 1
bool_byte false = 0

-- The outcome of `detect_array`: a code, the tag and the length.
pub record Detected : Type 0 where
  pub code : LtfCode
  pub tag : ℕ
  pub count : ℕ

abbrev pub detect_error : LtfCode → Detected
detect_error code = record { code = code; tag = 0; count = 0 }

-- The outcome of `lua_table_flatten`; `written` is what `dst` holds from its start.
pub record Flattened : Type 0 where
  pub code : LtfCode
  pub out_len : ℕ
  pub written : Bytes

abbrev pub flatten_error : LtfCode → Bytes → Flattened
flatten_error code written = record { code = code; out_len = 0; written = written }

abbrev pub flatten_end : Sink → Flattened
flatten_end s =
    if s.overflowed
    then flatten_error err_overflow s.written
    else record { code = ok; out_len = length s.written; written = s.written }

module _ (api : LuaApi) where
  abbrev pub Value : Type 0
  Value = LuaValue api.Table

  -- The tag of an element, 0 where its type is not supported.
  abbrev pub element_tag : Value → ℕ
  element_tag nil = 0
  element_tag other = 0
  element_tag (boolean b) = tag_boolean
  element_tag (integer n) = tag_integer
  element_tag (float n) = tag_float
  element_tag (string s) = tag_string
  element_tag (table t) = 0

  abbrev pub is_nil : Value → Bool
  is_nil nil = true
  is_nil v = false

  -- The count against all fields of the table.
  unfoldable pub detect_end : api.Table → ℕ → ℕ → Detected
  detect_end t tag n =
      if not (length (api.next t) == n)
      then detect_error err_array_non_sequence
      else record { code = ok; tag = tag; count = n }

  -- The loop with `n` elements seen; it ends with an overflow once `n` is above 0xfffffffe, which
  -- the fuel counts.
  unfoldable pub detect_from : ℕ → api.Table → ℕ → ℕ → Detected
  unfolding detect_end
  detect_from zero t tag n = detect_error err_overflow
  detect_from (suc fuel) t tag n =
      let v = api.rawget t (integer (n + 1)) in
      let this_tag = element_tag v in
      let rest = detect_from fuel t this_tag (n + 1) in
      if is_nil v
      then detect_end t tag n
      else if this_tag == 0
      then detect_error err_unsupported_type
      else if not (n == 0)
      then (if this_tag == tag then rest else detect_error err_array_mixed_types)
      else rest

  abbrev pub detect_fuel : ℕ
  detect_fuel = 0xffffffff

  unfoldable pub detect_array : api.Table → Detected
  detect_array t = detect_from detect_fuel t 0 0

  -- One element, by the tag of the array; `lua_toboolean` and its kin read a value of that type. The
  -- length of a string is a `uint32_t`.
  unfoldable pub emit_element : Value → Sink → Sink
  unfolding put_u8 put_u32 put_u64 put_bytes canonicalize_nan64
  emit_element nil s = s
  emit_element other s = s
  emit_element (table t) s = s
  emit_element (boolean b) s = put_u8 (bool_byte b) s
  emit_element (integer n) s = put_u64 n s
  emit_element (float n) s = put_u64 (canonicalize_nan64 n) s
  emit_element (string bs) s = put_bytes (take (length bs % 2 ^ 32) bs) (put_u32 (length bs) s)

  -- The elements from index `i` on, `n` of them.
  unfoldable pub emit_elements : api.Table → ℕ → ℕ → Sink → Sink
  unfolding emit_element
  emit_elements t zero i s = s
  emit_elements t (suc n) i s =
      emit_elements t n (i + 1) (emit_element (api.rawget t (integer (i + 1))) s)

  abbrev pub emit_detected : api.Table → LtfCode → Detected → Sink → LtfCode × Sink
  emit_detected t ok d s =
      (ok, emit_elements t d.count 0 (put_u32 d.count (put_u8 d.tag (put_u8 tag_array s))))
  emit_detected t code d s = (code, s)

  unfoldable pub emit_array : api.Table → Sink → LtfCode × Sink
  unfolding detect_array emit_elements
  emit_array t s = emit_detected t (detect_array t).code (detect_array t) s

  unfoldable pub emit_value : Value → Sink → LtfCode × Sink
  unfolding emit_array emit_element
  emit_value nil s = (err_unsupported_type, s)
  emit_value other s = (err_unsupported_type, s)
  emit_value (table t) s = emit_array t s
  emit_value (boolean b) s = (ok, emit_element (boolean b) (put_u8 tag_boolean s))
  emit_value (integer n) s = (ok, emit_element (integer n) (put_u8 tag_integer s))
  emit_value (float n) s = (ok, emit_element (float n) (put_u8 tag_float s))
  emit_value (string bs) s = (ok, emit_element (string bs) (put_u8 tag_string s))

  -- Phase 1, with `n` keys collected before: the keys in the order of `lua_next`, or an error.
  unfoldable pub collect_keys : ℕ → List (Value × Value) → LtfCode × List Bytes
  collect_keys n [] = (ok, [])
  collect_keys n ((string key, v) ∷ pairs) =
      let (code, keys) = collect_keys (n + 1) pairs in
      if leb max_fields n
      then (err_overflow, [])
      else if ltb max_key_len (length key)
      then (err_key_too_long, [])
      else (code, key ∷ keys)
  collect_keys n ((k, v) ∷ pairs) = (err_non_string_key, [])

  -- What follows a field: its error, an overflow, or the other fields.
  abbrev pub next_field : LtfCode → Sink → Flattened → Flattened
  next_field ok s rest = if s.overflowed then flatten_error err_overflow s.written else rest
  next_field code s rest = flatten_error code s.written

  -- Phase 3, over the sorted keys.
  unfoldable pub emit_fields : api.Table → List Bytes → Sink → Flattened
  unfolding emit_value put_u16 put_bytes
  emit_fields t [] s = flatten_end s
  emit_fields t (key ∷ keys) s =
      let (code, s') =
        emit_value (api.rawget t (string key)) (put_bytes key (put_u16 (length key) s)) in
      let rest = emit_fields t keys s' in next_field code s' rest

  abbrev pub empty_sink : ℕ → Sink
  empty_sink cap_bytes = record { written = []; cap = cap_bytes; overflowed = false }

  abbrev pub flatten_keys : api.Table → ℕ → LtfCode → List Bytes → Flattened
  flatten_keys t cap_bytes ok keys =
      emit_fields t (key_sort keys) (put_u32 (length keys) (empty_sink cap_bytes))
  flatten_keys t cap_bytes code keys = flatten_error code []

  unfoldable pub lua_table_flatten : Value → ℕ → Flattened
  unfolding collect_keys emit_fields key_sort
  lua_table_flatten (table t) cap_bytes =
      let (code, keys) = collect_keys 0 (api.next t) in flatten_keys t cap_bytes code keys
  lua_table_flatten v cap_bytes = flatten_error err_unsupported_type []
