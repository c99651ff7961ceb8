-- ===== src/Flatten/Unflatten.antt =====
-- `lua_table_unflatten`, with Lua's stack: the top is its first value, and a table on it is the
-- table as filled so far. Where a sum of `uint32_t` values wraps, a test lets a string or a key
-- through that ends beyond the blob: from that read on nothing is modelled.
use blyt_planning.Prelude.{
  ℕ, zero, suc, ◌+◌, ◌^◌, ◌%◌, Bool, true, false, not, List, ◌∷◌, ◌||◌, ltb, ◌==◌, if◌then◌else◌,
  Bytes, take, drop,
}
use blyt_planning.Flatten.{
  nil, boolean, integer, float, string, table, LuaApi, LtfCode, ok, err_overflow,
  err_unsupported_type, tag_boolean, tag_integer, tag_float, tag_string, tag_array, max_key_len,
  max_fields, Source, take_u8, take_u16, take_u32, take_u64,
}
use blyt_planning.Flatten.Emit.{Value}

-- A code is returned, or the source has read beyond the blob.
pub data Ending : Type 0 where
  returned : LtfCode → Ending
  wild_read : Ending

-- A code with what the call leaves of the source and of the stack.
pub record Step (V : Type 0) : Type 0 where
  pub code : Ending
  pub source : Source
  pub stack : List V

module _ (api : LuaApi) where
  abbrev pub Stack : Type 0
  Stack = List (Value api)

  abbrev pub step : LtfCode → Source → Stack → Step (Value api)
  step code source stack = record { code = returned code; source = source; stack = stack }

  abbrev pub wild_step : Source → Stack → Step (Value api)
  wild_step source stack = record { code = wild_read; source = source; stack = stack }

  -- `lua_pop(L, n)`
  abbrev pub lua_pop : ℕ → Stack → Stack
  lua_pop n stack = drop n stack

  -- `lua_rawset(L, -3)`: the value, the key and the table below them.
  abbrev pub lua_rawset : Stack → Stack
  lua_rawset (v ∷ k ∷ table t ∷ stack) = table (api.rawset t k v) ∷ stack
  lua_rawset stack = stack

  -- `lua_rawseti(L, -2, i)`
  abbrev pub lua_rawseti : ℕ → Stack → Stack
  lua_rawseti i (v ∷ table t ∷ stack) = table (api.rawset t (integer i) v) ∷ stack
  lua_rawseti i stack = stack

  abbrev pub truth : ℕ → Bool
  truth b = not (b == 0)

  -- A string of `sl` bytes, with the sum `pos + sl` of `uint32_t` values; `popped` is the stack of
  -- the error.
  unfoldable pub take_string : ℕ → Source → Stack → Stack → Step (Value api)
  take_string sl s stack popped =
      if ltb s.len ((s.at + sl) % 2 ^ 32)
      then step err_overflow (record s { underflowed = true }) popped
      else if ltb s.len (s.at + sl)
      then wild_step s stack
      else step ok (record s { at = (s.at + sl) % 2 ^ 32 })
          (string (take sl (drop s.at s.src)) ∷ stack)

  -- The payload of a tag; `popped` is the stack that an error leaves.
  unfoldable pub take_payload : ℕ → Source → Stack → Stack → Step (Value api)
  unfolding take_string take_u8 take_u32 take_u64
  take_payload tag s stack popped =
      if tag == tag_boolean
      then (let (b, s') = take_u8 s in step ok s' (boolean (truth b) ∷ stack))
      else if tag == tag_integer
      then (let (v, s') = take_u64 s in step ok s' (integer v ∷ stack))
      else if tag == tag_float
      then (let (v, s') = take_u64 s in step ok s' (float v ∷ stack))
      else if tag == tag_string
      then (let (sl, s') = take_u32 s in take_string sl s' stack popped)
      else step err_unsupported_type s popped

  -- What follows an element at index `i`, with the loop's rest as a function.
  abbrev pub next_element :
      Ending → ℕ → Source → Stack → (Source → Stack → Step (Value api)) → Step (Value api)
  next_element (returned ok) i s stack rest =
      if s.underflowed
      then step err_overflow s (lua_pop 2 stack)
      else rest s (lua_rawseti (i + 1) stack)
  next_element code i s stack rest = record { code = code; source = s; stack = stack }

  -- The elements from index `i` on, `n` of them.
  unfoldable pub unflatten_elements : ℕ → ℕ → ℕ → Source → Stack → Step (Value api)
  unfolding take_payload
  unflatten_elements tag zero i s stack = step ok s stack
  unflatten_elements tag (suc n) i s stack =
      let q = take_payload tag s stack (lua_pop 1 stack) in
      next_element q.code i q.source q.stack
        (λ s' stack'. unflatten_elements tag n (i + 1) s' stack')

  unfoldable pub unflatten_array : Source → Stack → Step (Value api)
  unfolding unflatten_elements take_u8 take_u32
  unflatten_array s stack =
      let (elem_tag, s1) = take_u8 s in
      let (n, s2) = take_u32 s1 in
      if s2.underflowed
      then step err_overflow s2 stack
      else unflatten_elements elem_tag n 0 s2 (table api.createtable ∷ stack)

  unfoldable pub unflatten_value : Source → Stack → Step (Value api)
  unfolding take_payload unflatten_array take_u8
  unflatten_value s stack =
      let (tag, s') = take_u8 s in
      if s'.underflowed
      then step err_overflow s' stack
      else if tag == tag_array
      then unflatten_array s' stack
      else take_payload tag s' stack stack

  -- What `lua_table_unflatten` returns, with the stack.
  abbrev pub Unflattened : Type 0
  Unflattened = Ending × Stack

  -- The error paths: `n` values go, and nil is pushed.
  abbrev pub fail : LtfCode → ℕ → Stack → Unflattened
  fail code n stack = (returned code, nil ∷ lua_pop n stack)

  abbrev pub next_key : Ending → Source → Stack → (Source → Stack → Unflattened) → Unflattened
  next_key (returned ok) s stack rest = rest s (lua_rawset stack)
  next_key (returned code) s stack rest = fail code 2 stack
  next_key wild_read s stack rest = (wild_read, stack)

  -- The loop over `n` fields, with the test behind it.
  unfoldable pub unflatten_fields : ℕ → Source → Stack → Unflattened
  unfolding unflatten_value take_u16
  unflatten_fields zero s stack =
      if s.underflowed then fail err_overflow 1 stack else (returned ok, stack)
  unflatten_fields (suc n) s stack =
      let (kl, s1) = take_u16 s in
      if s1.underflowed || ltb max_key_len kl
      then fail err_overflow 1 stack
      else if ltb s1.len ((s1.at + kl) % 2 ^ 32)
      then fail err_overflow 1 stack
      else if ltb s1.len (s1.at + kl)
      then (wild_read, stack)
      else let q =
          unflatten_value (record s1 { at = (s1.at + kl) % 2 ^ 32 })
            (string (take kl (drop s1.at s1.src)) ∷ stack) in
        next_key q.code q.source q.stack (λ s' stack'. unflatten_fields n s' stack')

  unfoldable pub lua_table_unflatten : Bytes → ℕ → Stack → Unflattened
  unfolding unflatten_fields take_u32
  lua_table_unflatten src n stack =
      let (nkeys, s) = take_u32 (record { src = src; len = n; at = 0; underflowed = false }) in
      if s.underflowed
      then (returned err_overflow, nil ∷ stack)
      else if ltb max_fields nkeys
      then (returned err_overflow, nil ∷ stack)
      else unflatten_fields nkeys s (table api.createtable ∷ stack)
