-- ===== src/Flatten/Encoding.antt =====
-- What `lua_table_flatten` writes is the wire format.
use mathlib.Core.Path.{subst}
use mathlib.Core.List.{append_assoc, append-nil}
use blyt_planning.Prelude.{
  ℕ, ◌+◌, ◌<◌, ◌≤◌, ◌^◌, false, List, [], ◌∷◌, ◌++◌, ◌≡◌, refl, sym, ap, ◌∙◌, arith, if◌then◌else◌,
  le→ltb_false, lt→leb_false, Bytes, All, le_bytes, length, length-append,
}
use blyt_planning.Flatten.{
  string, table, LuaApi, ok, max_key_len, max_fields, Sink, put_bytes, put_u16, err_overflow,
}
use blyt_planning.Flatten.Keys.{key_sort}
use blyt_planning.Flatten.Emit.{
  Value, emit_value, collect_keys, emit_fields, Flattened, empty_sink, lua_table_flatten,
  next_field, flatten_keys, flatten_error,
}
use blyt_planning.Flatten.Wire.{Plain, wire, fields_wire, table_wire, IsPlain, Represents}
use blyt_planning.Flatten.Puts.{
  Succeeds, Succeeds-after, pushed, Fits, Emits-then, put_bytes-Emits, put_u16-Emits, put_u32-Emits,
}
use blyt_planning.Flatten.Values.{emit_value-Succeeds}
use blyt_planning.Flatten.Sorting.{length-key_sort, All-key_sort}

module _ (api : LuaApi) where
  -- The value of each key in the table.
  abbrev pub Holds : api.Table → (Bytes → Plain) → List Bytes → Type 0
  Holds t value ks =
      All (λ k. IsPlain (value k) × Represents api (api.rawget t (string k)) (value k)) ks

  abbrev pub field_wire : (Bytes → Plain) → Bytes → Bytes
  field_wire value k = le_bytes 2 (length k) ++ (k ++ wire (value k))

  field-Succeeds :
      (t : api.Table) (value : Bytes → Plain) (k : Bytes)
      → IsPlain (value k)
      → Represents api (api.rawget t (string k)) (value k)
      → Succeeds
          (λ s. emit_value api (api.rawget t (string k)) (put_bytes k (put_u16 (length k) s)))
          (field_wire value k)
  field-Succeeds t value k plain rep =
      subst
        (λ bs.
          Succeeds
            (λ s. emit_value api (api.rawget t (string k)) (put_bytes k (put_u16 (length k) s))) bs)
        (append_assoc (le_bytes 2 (length k)) k (wire (value k)))
        (Succeeds-after _ _ (le_bytes 2 (length k) ++ k) (wire (value k))
          (Emits-then _ _ (le_bytes 2 (length k)) k (put_u16-Emits (length k)) (put_bytes-Emits k))
          (emit_value-Succeeds api (api.rawget t (string k)) (value k) plain rep))

  -- The outcome that leaves the bytes.
  abbrev pub done : Bytes → Flattened
  done bs = record { code = ok; out_len = length bs; written = bs }

  emit_fields_lem :
      (t : api.Table) (value : Bytes → Plain) (ks : List Bytes) (s : Sink)
      → Holds t value ks
      → s.overflowed ≡ false
      → Fits s (fields_wire value ks)
      → emit_fields api t ks s ≡ done (s.written ++ fields_wire value ks)
  unfolding emit_fields
  emit_fields_lem t value [] s h o fits = rw o (ap done (sym (append-nil s.written)))
  emit_fields_lem t value (k ∷ ks) s ((plain, rep), h) o (small, fits) =
      let b = field_wire value k in
      ap (λ q. next_field api q.0 q.1 (emit_fields api t ks q.1))
        (field-Succeeds t value k plain rep s
          (small, omega (arith, length-append b (fields_wire value ks))))
      ∙ ap
          (λ f.
            if f
            then flatten_error err_overflow (s.written ++ b)
            else emit_fields api t ks (pushed s b))
          o
      ∙ emit_fields_lem t value ks (pushed s b) h o
          (small, omega (arith, length-append b (fields_wire value ks), length-append s.written b))
      ∙ ap done (append_assoc s.written b (fields_wire value ks))

  -- The keys that `lua_next` walks through, all of them strings.
  abbrev pub string_keys : List Bytes → List (Value api) → List (Value api × Value api)
  string_keys (k ∷ ks) (v ∷ vs) = (string k, v) ∷ string_keys ks vs
  string_keys ks vs = []

  -- A table of the constrained shape: its keys, in the order of `lua_next`, and the value of each.
  pub record Shape (t : api.Table) (keys : List Bytes) (value : Bytes → Plain) : Type 0 where
    pub values : List (Value api)
    pub same_length : length values ≡ length keys
    pub walked : api.next t ≡ string_keys keys values
    pub few : length keys ≤ max_fields
    pub short : All (λ k. length k ≤ max_key_len) keys
    pub held : Holds t value keys

  collect_keys_lem :
      (n : ℕ) (ks : List Bytes) (vs : List (Value api))
      → length vs ≡ length ks
      → n + length ks ≤ max_fields
      → All (λ k. length k ≤ max_key_len) ks
      → collect_keys api n (string_keys ks vs) ≡ (ok, ks)
  unfolding collect_keys
  collect_keys_lem n [] vs e few short = refl
  collect_keys_lem n (k ∷ ks) [] e few short = absurd (omega arith)
  collect_keys_lem n (k ∷ ks) (v ∷ vs) e few (short, shorts) =
      rw (lt→leb_false max_fields n (omega arith), le→ltb_false max_key_len (length k) short)
        (ap (λ q. (q.0, k ∷ q.1))
          (collect_keys_lem (n + 1) ks vs (omega arith) (omega arith) shorts))

  -- A table has the constrained shape and the wire format of its fields, in the order of the sorted
  -- keys, fits a buffer of less than 2 ^ 32 bytes. Then flattening succeeds, writes exactly that wire
  -- format and reports its length.
  pub lua_table_flatten_lem :
      (t : api.Table) (keys : List Bytes) (value : Bytes → Plain) (cap_bytes : ℕ)
      → Shape t keys value
      → cap_bytes < 2 ^ 32
      → length (table_wire value (key_sort keys)) ≤ cap_bytes
      → lua_table_flatten api (table t) cap_bytes ≡ done (table_wire value (key_sort keys))
  unfolding lua_table_flatten
  lua_table_flatten_lem t keys value cap_bytes h small fits =
      ap (λ ps. let (code, ks) = collect_keys api 0 ps in flatten_keys api t cap_bytes code ks)
        h.walked
      ∙ ap (λ q. flatten_keys api t cap_bytes q.0 q.1)
          (collect_keys_lem 0 keys h.values h.same_length (omega (arith, h.few)) h.short)
      ∙ ap (λ s. emit_fields api t sorted s)
          (put_u32-Emits (length keys) (empty_sink api cap_bytes) (small, omega (arith, size)))
      ∙ emit_fields_lem t value sorted
          (record { written = le_bytes 4 (length keys); cap = cap_bytes; overflowed = false })
          (All-key_sort _ keys h.held) refl (small, omega (arith, size))
      ∙ ap (λ n. done (le_bytes 4 n ++ fields_wire value sorted)) (sym (length-key_sort keys))
    where
      sorted : List Bytes
      sorted = key_sort keys

      size : length (table_wire value sorted) ≡ 4 + length (fields_wire value sorted)
      size = length-append (le_bytes 4 (length sorted)) (fields_wire value sorted)
