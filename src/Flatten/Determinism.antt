-- ===== src/Flatten/Determinism.antt =====
-- Flattening against the order in which `lua_next` hands out the keys.
use mathlib.Core.Path.{subst}
use mathlib.Core.List.{Perm}
use blyt_planning.Prelude.{ℕ, ◌<◌, ◌≤◌, ◌^◌, List, ◌≡◌, sym, ap, ◌∙◌, Bytes, length}
use blyt_planning.Flatten.{table, LuaApi}
use blyt_planning.Flatten.Keys.{key_sort}
use blyt_planning.Flatten.Emit.{lua_table_flatten}
use blyt_planning.Flatten.Wire.{Plain, table_wire}
use blyt_planning.Flatten.Encoding.{Shape, done, lua_table_flatten_lem}
use blyt_planning.Flatten.Order.{key_sort_perm}

-- Two tables of the constrained shape hold the same values under the same keys, which `lua_next`
-- hands out in any two orders, and the encoding fits a buffer of less than 2 ^ 32 bytes. Then both
-- flatten to the same bytes.
pub lua_table_flatten_deterministic :
    (api : LuaApi) (t u : api.Table) (ks ls : List Bytes) (value : Bytes → Plain) (cap_bytes : ℕ)
    → Shape api t ks value
    → Shape api u ls value
    → Perm ks ls
    → cap_bytes < 2 ^ 32
    → length (table_wire value (key_sort ks)) ≤ cap_bytes
    → lua_table_flatten api (table t) cap_bytes ≡ lua_table_flatten api (table u) cap_bytes
lua_table_flatten_deterministic api t u ks ls value cap_bytes h k p small fits =
    let same = key_sort_perm ks ls p in
    lua_table_flatten_lem api t ks value cap_bytes h small fits
    ∙ ap (λ zs. done api (table_wire value zs)) same
    ∙ sym (
        lua_table_flatten_lem api u ls value cap_bytes k small
          (subst (λ zs. length (table_wire value zs) ≤ cap_bytes) same fits))
