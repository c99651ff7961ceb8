-- ===== src/Flatten/RoundTrip.antt =====
-- `lua_table_unflatten` on the wire format, and after `lua_table_flatten`.
use mathlib.Core.List.{append_assoc, append-nil}
use blyt_planning.Prelude.{
  Bool, false, ap₂, ◌%◌, ◌||◌, if◌then◌else◌, ltb, ℕ, ◌+◌, ◌<◌, ◌≤◌, ◌^◌, List, [], ◌∷◌, ◌++◌, ◌≡◌,
  refl, sym, ap, ◌∙◌, arith, Bytes, All, drop, length, le_bytes, le→ltb_false, ◌||◌,
}
use blyt_planning.Flatten.{
  string, table, LuaApi, ok, max_key_len, max_fields, Source, err_overflow, nil, take,
}
use blyt_planning.Flatten.Unflatten.{
  returned, wild_read, Stack, unflatten_fields, lua_table_unflatten, next_key, Unflattened, fail,
  unflatten_value,
}
use blyt_planning.Flatten.Wire.{Plain, fields_wire, IsPlain, wire, table_wire}
use blyt_planning.Flatten.Takes.{
  reading, drop-behind, length-behind, take_u32-Reads, take_u16-Reads,
}
use blyt_planning.Flatten.Decoding.{restored, taken, unflatten_value-Pushes}
use blyt_planning.Flatten.Encoding.{field_wire}

module _ (api : LuaApi) where
  -- The table as the calls of `lua_rawset` fill it.
  abbrev pub built : api.Table → (Bytes → Plain) → List Bytes → api.Table
  built t value [] = t
  built t value (k ∷ ks) = built (api.rawset t (string k) (restored api (value k))) value ks

  -- What a field wants of its key and of its value.
  abbrev pub IsField : (Bytes → Plain) → Bytes → Type 0
  IsField value k = (length k ≤ max_key_len) × IsPlain (value k)

  -- The field whose key has the length that was read.
  abbrev after_length : ℕ → Stack api → ℕ × Source → Unflattened api
  after_length n stack (kl, s1) =
      if s1.underflowed || ltb max_key_len kl
      then fail api err_overflow 1 stack
      else if ltb s1.len ((s1.at + kl) % 2 ^ 32)
      then fail api err_overflow 1 stack
      else if ltb s1.len (s1.at + kl)
      then (wild_read, stack)
      else let q =
          unflatten_value api (record s1 { at = (s1.at + kl) % 2 ^ 32 })
            (string (take kl (drop s1.at s1.src)) ∷ stack) in
        next_key api q.code q.source q.stack (λ s' stack'. unflatten_fields api n s' stack')

  -- The field behind its tests, with the key and the position behind it.
  abbrev guarded : ℕ → Stack api → Bytes → Bool → Bool → Bool → ℕ → Bytes → Unflattened api
  guarded n stack full too_long outside wild pos key =
      if too_long
      then fail api err_overflow 1 stack
      else if outside
      then fail api err_overflow 1 stack
      else if wild
      then (wild_read, stack)
      else let q = unflatten_value api (reading full pos) (string key ∷ stack) in
        next_key api q.code q.source q.stack (λ s' stack'. unflatten_fields api n s' stack')

  key_taken :
      (n : ℕ) (stack : Stack api) (full : Bytes) (pos : ℕ) (k rest : Bytes)
      → length full < 2 ^ 32
      → pos ≤ length full
      → drop pos full ≡ k ++ rest
      → length k ≤ max_key_len
      → after_length n stack (length k, reading full pos)
        ≡ guarded n stack full false false false (pos + length k) k
  key_taken n stack full pos k rest small h e short =
      let (inside, tame, at, bytes) = taken api full pos k rest small h e in
      ap (λ c. guarded n stack full c outside wild end key)
        (le→ltb_false max_key_len (length k) short)
      ∙ ap (λ c. guarded n stack full false c wild end key) inside
      ∙ ap (λ c. guarded n stack full false false c end key) tame
      ∙ ap₂ (guarded n stack full false false false) at bytes
    where
      outside : Bool
      outside = ltb (length full) ((pos + length k) % 2 ^ 32)

      wild : Bool
      wild = ltb (length full) (pos + length k)

      end : ℕ
      end = (pos + length k) % 2 ^ 32

      key : Bytes
      key = take (length k) (drop pos full)

  -- The fields whose number was read.
  abbrev after_count : Stack api → ℕ × Source → Unflattened api
  after_count stack (nkeys, s) =
      if s.underflowed
      then (returned err_overflow, nil ∷ stack)
      else if ltb max_fields nkeys
      then (returned err_overflow, nil ∷ stack)
      else unflatten_fields api nkeys s (table api.createtable ∷ stack)

  unflatten_fields_lem :
      (value : Bytes → Plain) (ks : List Bytes) (t : api.Table) (full : Bytes) (pos : ℕ)
      (rest : Bytes) (stack : Stack api)
      → All (IsField value) ks
      → length full < 2 ^ 32
      → drop pos full ≡ fields_wire value ks ++ rest
      → unflatten_fields api (length ks) (reading full pos) (table t ∷ stack)
        ≡ (returned ok, table (built t value ks) ∷ stack)
  unfolding unflatten_fields
  unflatten_fields_lem value [] t full pos rest stack h small e = refl
  unflatten_fields_lem value (k ∷ ks) t full pos rest stack ((short, plain), h) small e =
      let sized =
        drop-behind full pos (le_bytes 2 (length k))
          (k ++ (wire (value k) ++ (fields_wire value ks ++ rest))) split in
      let behind =
        drop-behind full (pos + 2) k (wire (value k) ++ (fields_wire value ks ++ rest)) sized in
      let fits =
        length-behind full pos (le_bytes 2 (length k))
          (k ++ (wire (value k) ++ (fields_wire value ks ++ rest))) split (omega arith) in
      ap (after_length (length ks) (table t ∷ stack)) (
        take_u16-Reads (length k) (omega arith) full pos
          (k ++ (wire (value k) ++ (fields_wire value ks ++ rest))) small split)
      ∙ key_taken (length ks) (table t ∷ stack) full (pos + 2) k
          (wire (value k) ++ (fields_wire value ks ++ rest)) small fits sized short
      ∙ ap
          (λ q.
            next_key api q.code q.source q.stack
              (λ s' stack'. unflatten_fields api (length ks) s' stack'))
          (unflatten_value-Pushes api (value k) plain full (pos + 2 + length k)
            (fields_wire value ks ++ rest) (string k ∷ table t ∷ stack) small behind)
      ∙ unflatten_fields_lem value ks (api.rawset t (string k) (restored api (value k))) full
          (pos + 2 + length k + length (wire (value k))) rest stack h small
          (drop-behind full (pos + 2 + length k) (wire (value k)) (fields_wire value ks ++ rest)
            behind)
    where
      split :
          drop pos full
          ≡ le_bytes 2 (length k) ++ (k ++ (wire (value k) ++ (fields_wire value ks ++ rest)))
      split =
          e
          ∙ append_assoc (field_wire api value k) (fields_wire value ks) rest
          ∙ append_assoc (le_bytes 2 (length k)) (k ++ wire (value k))
              (fields_wire value ks ++ rest)
          ∙ ap (λ z. le_bytes 2 (length k) ++ z)
              (append_assoc k (wire (value k)) (fields_wire value ks ++ rest))

  pub lua_table_unflatten_lem :
      (value : Bytes → Plain) (ks : List Bytes) (stack : Stack api)
      → length ks ≤ max_fields
      → All (IsField value) ks
      → length (table_wire value ks) < 2 ^ 32
      → lua_table_unflatten api (table_wire value ks) (length (table_wire value ks)) stack
        ≡ (returned ok, table (built api.createtable value ks) ∷ stack)
  unfolding lua_table_unflatten
  lua_table_unflatten_lem value ks stack few h small =
      ap (after_count stack) (
        take_u32-Reads (length ks) (omega arith) (table_wire value ks) 0 (fields_wire value ks)
          small refl)
      ∙ rw (le→ltb_false max_fields (length ks) few) (
          unflatten_fields_lem value ks api.createtable (table_wire value ks) 4 [] stack h small
            (sym (append-nil (fields_wire value ks))))
