-- ===== src/Flatten/Rebuilt.antt =====
-- The table that `lua_table_unflatten` builds, read back, for an implementation of Lua's tables
-- that keeps their laws.
use blyt_planning.Flatten.{table, ok, nil, string, LuaApi, max_key_len}
use blyt_planning.Flatten.Emit.{lua_table_flatten}
use blyt_planning.Flatten.Unflatten.{Stack, lua_table_unflatten, returned}
use blyt_planning.Flatten.Wire.{table_wire, IsPlain, Plain, Represents}
use blyt_planning.Flatten.Keys.{key_sort}
use blyt_planning.Prelude.{
  ◌^◌, ◌∙◌, ℕ, ◌<◌, ◌≤◌, List, [], ◌∷◌, ◌≡◌, refl, sym, ap, arith, Bytes, All, length,
}
use blyt_planning.Flatten.Encoding.{Shape, lua_table_flatten_lem}
use blyt_planning.Flatten.RoundTrip.{lua_table_unflatten_lem, built, IsField}
use blyt_planning.Flatten.Sorting.{All-key_sort_back, All-key_sort, length-key_sort}
use mathlib.Core.Path.{subst}
use mathlib.Core.Logic.{◌≢◌}
use blyt_planning.Flatten.Decoding.{restored}
use blyt_planning.Flatten.Laws.{
  Laws, string_ne, restored-Represents, Bytes-discrete, canonical_plain,
}

module _ (api : LuaApi) where
  built_kept :
      (t : api.Table) (value : Bytes → Plain) (ks : List Bytes) (k : Bytes)
      → Laws api
      → api.rawget t (string k) ≡ restored api (value k)
      → api.rawget (built api t value ks) (string k) ≡ restored api (value k)
  built_kept t value [] k laws h = h
  built_kept t value (l ∷ ks) k laws h =
      built_kept (api.rawset t (string l) (restored api (value l))) value ks k laws
        (elim (Bytes-discrete l k) [
          | yes e ↦
              subst
                (λ m.
                  api.rawget (api.rawset t (string l) (restored api (value l))) (string m)
                  ≡ restored api (value m))
                e (laws.rawget-rawset t (string l) (restored api (value l)) tt)
          | no n ↦
              laws.rawget-rawset_ne t (string l) (string k) (restored api (value l)) tt tt
                (string_ne api l k n)
              ∙ h
        ])

  built_found :
      (t : api.Table) (value : Bytes → Plain) (ks : List Bytes)
      → Laws api
      → (u : api.Table) × (built api t value ks ≡ u)
        × All (λ k. api.rawget u (string k) ≡ restored api (value k)) ks
  built_found t value [] laws = (t, refl, tt)
  built_found t value (k ∷ ks) laws =
      let next = api.rawset t (string k) (restored api (value k)) in
      let (u, e, h) = built_found next value ks laws in
      (
        u,
        e,
        (
          ap (λ w. api.rawget w (string k)) (sym e)
              ∙ built_kept next value ks k laws
                  (laws.rawget-rawset t (string k) (restored api (value k)) tt),
          h,
        ),
      )

  built_other :
      (t : api.Table) (value : Bytes → Plain) (ks : List Bytes) (k : Bytes)
      → Laws api
      → All (λ l. l ≢ k) ks
      → api.rawget (built api t value ks) (string k) ≡ api.rawget t (string k)
  built_other t value [] k laws h = refl
  built_other t value (l ∷ ks) k laws (h, hs) =
      built_other (api.rawset t (string l) (restored api (value l))) value ks k laws hs
      ∙ laws.rawget-rawset_ne t (string l) (string k) (restored api (value l)) tt tt
          (string_ne api l k h)

  fields-Represents :
      (u : api.Table) (value : Bytes → Plain) (ks : List Bytes)
      → Laws api
      → All (λ k. api.rawget u (string k) ≡ restored api (value k)) ks
      → All (λ k. Represents api (api.rawget u (string k)) (canonical_plain (value k))) ks
  fields-Represents u value [] laws h = tt
  fields-Represents u value (k ∷ ks) laws (h, hs) = (
    subst (λ v. Represents api v (canonical_plain (value k))) (sym h)
        (restored-Represents api (value k) laws),
    fields-Represents u value ks laws hs,
  )

  fields-IsField :
      (t : api.Table) (value : Bytes → Plain) (ks : List Bytes)
      → All (λ k. length k ≤ max_key_len) ks
      → All (λ k. IsPlain (value k) × Represents api (api.rawget t (string k)) (value k)) ks
      → All (IsField api value) ks
  fields-IsField t value [] short held = tt
  fields-IsField t value (k ∷ ks) (short, shorts) ((plain, rep), held) =
      ((short, plain), fields-IsField t value ks shorts held)

  -- Lua's tables keep their laws, a table has the constrained shape, its encoding fits a buffer of
  -- less than 2 ^ 32 bytes, and `absent` is none of its keys. Then flattening succeeds, and
  -- unflattening the bytes that it writes pushes one table, in which each key of the first has its
  -- value with NaNs made canonical, and `absent` has none.
  pub lua_table_flatten_round_trip :
      (t : api.Table) (keys : List Bytes) (value : Bytes → Plain) (cap_bytes : ℕ)
      (stack : Stack api) (absent : Bytes)
      → Laws api
      → Shape api t keys value
      → cap_bytes < 2 ^ 32
      → length (table_wire value (key_sort keys)) ≤ cap_bytes
      → All (λ l. l ≢ absent) keys
      → ((lua_table_flatten api (table t) cap_bytes).code ≡ ok)
        × (u : api.Table) × (lua_table_unflatten api
              (lua_table_flatten api (table t) cap_bytes).written
              (lua_table_flatten api (table t) cap_bytes).out_len
              stack
            ≡ (returned ok, table u ∷ stack))
        × All (λ k. Represents api (api.rawget u (string k)) (canonical_plain (value k))) keys
        × (api.rawget u (string absent) ≡ nil)
  lua_table_flatten_round_trip t keys value cap_bytes stack absent laws shape small fits no_key =
      let sorted = key_sort keys in
      let flat = lua_table_flatten_lem api t keys value cap_bytes shape small fits in
      let (u, e, h) = built_found api.createtable value sorted laws in
      (
        ap (λ r. r.code) flat,
        u,
        ap (λ r. lua_table_unflatten api r.written r.out_len stack) flat
            ∙ lua_table_unflatten_lem api value sorted stack
                (omega (arith, length-key_sort keys, shape.few))
                (All-key_sort _ keys (fields-IsField t value keys shape.short shape.held))
                (omega arith)
            ∙ ap (λ w. (returned ok, table w ∷ stack)) e,
        All-key_sort_back _ keys (fields-Represents u value sorted laws h),
        ap (λ w. api.rawget w (string absent)) (sym e)
            ∙ built_other api.createtable value sorted absent laws (All-key_sort _ keys no_key)
            ∙ laws.rawget-createtable (string absent),
      )
