-- ===== src/Tests/Stores.antt =====
-- Tables of Lua's as lists of stores, for the tests.
use blyt_planning.Flatten.Laws.{Laws, IsKey}
use blyt_planning.Flatten.{LuaValue, nil, other, boolean, integer, float, string, table, LuaApi}
use blyt_planning.Flatten.Emit.{is_nil}
use blyt_planning.Flatten.Wire.{Scalar, of_boolean, of_integer, of_float, of_string}
use blyt_planning.Prelude.{
  ◌∙◌, Bytes, suc, Bool, true, false, ◌&&◌, List, [], ◌∷◌, ◌≡◌, refl, ap, ap₂, arith, length, ◌==◌,
  if◌then◌else◌, ==_iff, ==_refl, Bool-cases, inl, inr,
}
use mathlib.Core.Logic.{◌≢◌}

-- The stores into a table, the last one first.
pub data Stores : Type 0 where
  empty : Stores
  put : Scalar → Scalar → Stores → Stores
  nest : Scalar → Stores → Stores → Stores
  odd : Scalar → Stores → Stores
  erased : Scalar → Stores → Stores

abbrev pub as_lua : Scalar → LuaValue Stores
as_lua (of_boolean b) = boolean b
as_lua (of_integer n) = integer n
as_lua (of_float n) = float n
as_lua (of_string s) = string s

abbrev pub same_bytes : Bytes → Bytes → Bool
same_bytes [] [] = true
same_bytes [] (b ∷ bs) = false
same_bytes (a ∷ as') [] = false
same_bytes (a ∷ as') (b ∷ bs) = (a == b) && same_bytes as' bs

abbrev pub same_key : Scalar → LuaValue Stores → Bool
same_key (of_integer m) (integer n) = m == n
same_key (of_string a) (string b) = same_bytes a b
same_key k v = false

abbrev pub lookup : Stores → LuaValue Stores → LuaValue Stores
lookup empty j = nil
lookup (put k x t) j = let rest = lookup t j in if same_key k j then as_lua x else rest
lookup (nest k u t) j = let rest = lookup t j in if same_key k j then table u else rest
lookup (odd k t) j = let rest = lookup t j in if same_key k j then other else rest
lookup (erased k t) j = let rest = lookup t j in if same_key k j then nil else rest

abbrev pub absent : LuaValue Stores → Bool
absent nil = true
absent v = false

-- Another value for the key in the pairs.
abbrev pub replaced :
    Scalar
    → LuaValue Stores
    → List (LuaValue Stores × LuaValue Stores)
    → List (LuaValue Stores × LuaValue Stores)
replaced k v [] = []
replaced k v ((j, w) ∷ pairs) =
    let rest = replaced k v pairs in if same_key k j then (j, v) ∷ rest else (j, w) ∷ rest

abbrev pub without :
    Scalar → List (LuaValue Stores × LuaValue Stores) → List (LuaValue Stores × LuaValue Stores)
without k [] = []
without k ((j, w) ∷ pairs) =
    let rest = without k pairs in if same_key k j then rest else (j, w) ∷ rest

abbrev pub added :
    Scalar
    → LuaValue Stores
    → Stores
    → List (LuaValue Stores × LuaValue Stores)
    → List (LuaValue Stores × LuaValue Stores)
added k v t pairs =
    if absent (lookup t (as_lua k)) then (as_lua k, v) ∷ pairs else replaced k v pairs

abbrev pub pairs_of : Stores → List (LuaValue Stores × LuaValue Stores)
pairs_of empty = []
pairs_of (put k x t) = added k (as_lua x) t (pairs_of t)
pairs_of (nest k u t) = added k (table u) t (pairs_of t)
pairs_of (odd k t) = added k other t (pairs_of t)
pairs_of (erased k t) = without k (pairs_of t)

abbrev pub store : Stores → Scalar → LuaValue Stores → Stores
store t k nil = erased k t
store t k other = odd k t
store t k (boolean b) = put k (of_boolean b) t
store t k (integer n) = put k (of_integer n) t
store t k (float n) = put k (of_float n) t
store t k (string s) = put k (of_string s) t
store t k (table u) = nest k u t

abbrev pub set_key : Stores → LuaValue Stores → LuaValue Stores → Stores
set_key t (string s) v = store t (of_string s) v
set_key t (integer n) v = store t (of_integer n) v
set_key t k v = t

abbrev pub lua : LuaApi
lua = record {
  Table = Stores;
  next = pairs_of;
  rawget = lookup;
  createtable = empty;
  rawset = set_key;
}

lookup-store :
    (t : Stores) (k : Scalar) (v j : LuaValue Stores)
    → lookup (store t k v) j ≡ (if same_key k j then v else lookup t j)
lookup-store t k nil j = refl
lookup-store t k other j = refl
lookup-store t k (boolean b) j = refl
lookup-store t k (integer n) j = refl
lookup-store t k (float n) j = refl
lookup-store t k (string s) j = refl
lookup-store t k (table u) j = refl

pairs_of-store :
    (t : Stores) (k : Scalar) (v : LuaValue Stores)
    → is_nil lua v ≡ false
    → lookup t (as_lua k) ≡ nil
    → length (pairs_of (store t k v)) ≡ suc (length (pairs_of t))
pairs_of-store t k nil h e = absurd (ground arith)
pairs_of-store t k other h e = rw e refl
pairs_of-store t k (boolean b) h e = rw e refl
pairs_of-store t k (integer n) h e = rw e refl
pairs_of-store t k (float n) h e = rw e refl
pairs_of-store t k (string s) h e = rw e refl
pairs_of-store t k (table u) h e = rw e refl

same_bytes_refl : (a : Bytes) → same_bytes a a ≡ true
same_bytes_refl [] = refl
same_bytes_refl (x ∷ a) = rw (==_refl x) (same_bytes_refl a)

same_bytes_sound : (a b : Bytes) → same_bytes a b ≡ true → a ≡ b
same_bytes_sound [] [] h = refl
same_bytes_sound [] (b ∷ bs) h = absurd (ground arith)
same_bytes_sound (a ∷ as') [] h = absurd (ground arith)
same_bytes_sound (a ∷ as') (b ∷ bs) h =
    ap₂ ◌∷◌ (ground arith) (same_bytes_sound as' bs (ground arith))

same_key_sound : (k : Scalar) (j : LuaValue Stores) → same_key k j ≡ true → as_lua k ≡ j
same_key_sound (of_integer m) (integer n) h = ap integer ((==_iff m n).0 h)
same_key_sound (of_string a) (string b) h = ap string (same_bytes_sound a b h)
same_key_sound k j h = absurd (ground arith)

other_key : (k : Scalar) (j : LuaValue Stores) → as_lua k ≢ j → same_key k j ≡ false
other_key k j n = elim (Bool-cases (same_key k j)) [
  | inl e ↦ absurd (n (same_key_sound k j e))
  | inr e ↦ e
]

pub lua_laws : Laws lua
lua_laws = record {
  rawget-createtable = λ k. refl;
  next-createtable = refl;
  rawget-rawset = get_set;
  rawget-rawset_ne = get_set_ne;
  length-next-rawset = next_set;
}
  where
    get_set : (t : Stores) (k v : LuaValue Stores) → IsKey lua k → lookup (set_key t k v) k ≡ v
    get_set t (string s) v h =
        lookup-store t (of_string s) v (string s) ∙ rw (same_bytes_refl s) refl
    get_set t (integer n) v h = lookup-store t (of_integer n) v (integer n) ∙ rw (==_refl n) refl
    get_set t k v h = absurd h

    get_set_ne :
        (t : Stores) (k j v : LuaValue Stores)
        → IsKey lua k
        → IsKey lua j
        → k ≢ j
        → lookup (set_key t k v) j ≡ lookup t j
    get_set_ne t (string s) j v h i n =
        lookup-store t (of_string s) v j ∙ rw (other_key (of_string s) j n) refl
    get_set_ne t (integer m) j v h i n =
        lookup-store t (of_integer m) v j ∙ rw (other_key (of_integer m) j n) refl
    get_set_ne t k j v h i n = absurd h

    next_set :
        (t : Stores) (k v : LuaValue Stores)
        → IsKey lua k
        → lookup t k ≡ nil
        → is_nil lua v ≡ false
        → length (pairs_of (set_key t k v)) ≡ suc (length (pairs_of t))
    next_set t (string s) v h e f = pairs_of-store t (of_string s) v f e
    next_set t (integer n) v h e f = pairs_of-store t (of_integer n) v f e
    next_set t k v h e f = absurd h
