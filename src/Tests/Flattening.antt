-- ===== src/Tests/Flattening.antt =====
-- The table flattener at concrete inputs.
use mathlib.Core.List.Perm
use mathlib.Core.Path.{subst}
use blyt_planning.Flatten.Balance.{lua_table_unflatten_balanced, LengthWraps}
use blyt_planning.Flatten.Capacity.{AllShort, lua_table_flatten_within}
use blyt_planning.Flatten.Encoding.{Shape, done, lua_table_flatten_lem}
use blyt_planning.Flatten.Laws.{canonical_plain}
use blyt_planning.Flatten.Rebuilt.{lua_table_flatten_round_trip}
use blyt_planning.Flatten.Determinism.{lua_table_flatten_deterministic}
use blyt_planning.Flatten.{
  ok, tag_float, LuaValue, nil, other, boolean, integer, float, string, table, LuaApi, LtfCode,
}
use blyt_planning.Flatten.Emit.{lua_table_flatten}
use blyt_planning.Flatten.Keys.{key_sort}
use blyt_planning.Flatten.Unflatten.{lua_table_unflatten, returned, wild_read}
use blyt_planning.Flatten.Wire.{
  IsPlain, Plain, scalar, array, table_wire, Represents, of_integer, of_float, of_string,
}
use blyt_planning.Prelude.{
  ℕ, ap, sym, codes, All, ◌≤◌, ◌⊎◌, Bytes, Bool, true, false, List, [], ◌∷◌, ◌≡◌, refl, arith,
  length, if◌then◌else◌,
}
use mathlib.Core.Logic.{◌≢◌}
use blyt_planning.Tests.Stores.{Stores, empty, put, nest, same_bytes, lookup, lua, lua_laws}

abbrev hp : Bytes
hp = codes "hp"

abbrev at : Bytes
at = codes "at"

-- A place with a NaN in it.
abbrev place : Stores
place = put (of_integer 2) (of_float 0x7ff0000000000001) (put (of_integer 1) (of_float 0) empty)

abbrev player : Stores
player = put (of_string hp) (of_integer 7) (nest (of_string at) place empty)

abbrev twin : Stores
twin = nest (of_string at) place (put (of_string hp) (of_integer 7) empty)

abbrev player_value : Bytes → Plain
player_value k =
    if same_bytes k hp
    then scalar (of_integer 7)
    else array tag_float (of_float 0 ∷ of_float 0x7ff0000000000001 ∷ [])

place-Represents : IsPlain (player_value at) × Represents lua (table place) (player_value at)
place-Represents = (
  ((refl, (refl, tt)), omega arith, (omega arith, (omega arith, tt))),
  (place, refl, (refl, (refl, refl)), refl),
)

player-Shape : Shape lua player (hp ∷ at ∷ []) player_value
player-Shape = record {
  values = integer 7 ∷ table place ∷ [];
  same_length = refl;
  walked = refl;
  few = omega arith;
  short = (omega arith, (omega arith, tt));
  held = ((omega arith, refl), (place-Represents, tt));
}

twin-Shape : Shape lua twin (at ∷ hp ∷ []) player_value
twin-Shape = record {
  values = table place ∷ integer 7 ∷ [];
  same_length = refl;
  walked = refl;
  few = omega arith;
  short = (omega arith, (omega arith, tt));
  held = (place-Represents, ((omega arith, refl), tt));
}

sorted_keys : key_sort (hp ∷ at ∷ []) ≡ at ∷ hp ∷ []
unfolding blyt_planning.Flatten.Keys.key_sort blyt_planning.Flatten.Keys.sort_from
    blyt_planning.Flatten.Keys.key_insert blyt_planning.Flatten.Keys.key_cmp
    blyt_planning.Flatten.Keys.cmp_from
sorted_keys = refl

player_fits : length (table_wire player_value (key_sort (hp ∷ at ∷ []))) ≤ 64
player_fits = subst (λ ks. length (table_wire player_value ks) ≤ 64) (sym sorted_keys) (omega arith)

lua_table_flatten_lem_example :
    lua_table_flatten lua (table player) 64
    ≡ done lua (table_wire player_value (key_sort (hp ∷ at ∷ [])))
lua_table_flatten_lem_example =
    lua_table_flatten_lem lua player (hp ∷ at ∷ []) player_value 64 player-Shape (omega arith)
      player_fits

lua_table_flatten_deterministic_example :
    lua_table_flatten lua (table player) 64 ≡ lua_table_flatten lua (table twin) 64
lua_table_flatten_deterministic_example =
    lua_table_flatten_deterministic lua player twin (hp ∷ at ∷ []) (at ∷ hp ∷ []) player_value 64
      player-Shape twin-Shape (Perm.swap at hp []) (omega arith) player_fits

longer : {a b : ℕ} → a ∷ b ∷ [] ≡ codes "x" → ⊥
longer e = absurd (omega (arith, ap length e))

lua_table_flatten_round_trip_example :
    ((lua_table_flatten lua (table player) 64).code ≡ ok)
    × (u : Stores) × (lua_table_unflatten lua
          (lua_table_flatten lua (table player) 64).written
          (lua_table_flatten lua (table player) 64).out_len
          []
        ≡ (returned ok, table u ∷ []))
    × All
        (λ k. Represents lua (lookup u (string k)) (canonical_plain (player_value k)))
        (hp ∷ at ∷ [])
    × (lookup u (string (codes "x")) ≡ nil)
lua_table_flatten_round_trip_example =
    lua_table_flatten_round_trip lua player (hp ∷ at ∷ []) player_value 64 [] (codes "x") lua_laws
      player-Shape (omega arith) player_fits ((λ e. longer e), ((λ e. longer e), tt))

-- One field whose key `a` holds a string of 2 ^ 32 - 1 bytes.
abbrev wrapping : Bytes
wrapping = 1 ∷ 0 ∷ 0 ∷ 0 ∷ 1 ∷ 0 ∷ 97 ∷ 4 ∷ 255 ∷ 255 ∷ 255 ∷ 255 ∷ []

lua_table_unflatten_balanced_example :
    (((lua_table_unflatten lua wrapping 12 []).0 ≡ returned ok)
      × (t : Stores) × ((lua_table_unflatten lua wrapping 12 []).1 ≡ table t ∷ []))
    ⊎ (((code : LtfCode) × (code ≢ ok)
          × (lua_table_unflatten lua wrapping 12 [] ≡ (returned code, nil ∷ [])))
        ⊎ (((lua_table_unflatten lua wrapping 12 []).0 ≡ wild_read) × LengthWraps wrapping 12))
lua_table_unflatten_balanced_example = lua_table_unflatten_balanced lua wrapping 12 (omega arith) []

-- This blob passes the bound test, and its string is read beyond the blob.
wrapping_read : (lua_table_unflatten lua wrapping 12 []).0 ≡ wild_read
unfolding lua_table_unflatten blyt_planning.Flatten.Unflatten.unflatten_fields
    blyt_planning.Flatten.Unflatten.unflatten_value blyt_planning.Flatten.Unflatten.take_payload
    blyt_planning.Flatten.Unflatten.take_string blyt_planning.Flatten.take_u32
    blyt_planning.Flatten.take_u16 blyt_planning.Flatten.take_u8
wrapping_read = refl

-- Two tables, of which one has a string.
abbrev tiny_get : Bool → LuaValue Bool → LuaValue Bool
tiny_get true (string s) = string (codes "x")
tiny_get t k = nil

abbrev tiny_next : Bool → List (LuaValue Bool × LuaValue Bool)
tiny_next true = (string hp, string (codes "x")) ∷ []
tiny_next false = []

abbrev tiny : LuaApi
tiny = record {
  Table = Bool;
  next = tiny_next;
  rawget = tiny_get;
  createtable = false;
  rawset = λ t k v. t;
}

tiny-AllShort : AllShort 64 (omega arith) tiny
tiny-AllShort true (string s) = omega arith
tiny-AllShort true nil = tt
tiny-AllShort true other = tt
tiny-AllShort true (boolean b) = tt
tiny-AllShort true (integer n) = tt
tiny-AllShort true (float n) = tt
tiny-AllShort true (table t) = tt
tiny-AllShort false k = tt

lua_table_flatten_within_example :
    (length (lua_table_flatten tiny (table true) 64).written ≤ 64)
    × ((lua_table_flatten tiny (table true) 64).out_len
        ≤ length (lua_table_flatten tiny (table true) 64).written)
lua_table_flatten_within_example =
    lua_table_flatten_within 64 (omega arith) tiny (table true) tiny-AllShort
