-- ===== src/Flatten/Wire.antt =====
-- The wire format of the header's comment, for the values that a table of the constrained shape
-- holds.
use blyt_planning.Prelude.{
  ℕ, ◌+◌, ◌<◌, ◌^◌, Bool, List, [], ◌∷◌, ◌++◌, ◌≡◌, Bytes, All, le_bytes, length,
}
use blyt_planning.Flatten.{
  nil, boolean, integer, float, string, table, LuaApi, tag_boolean, tag_integer, tag_float,
  tag_string, tag_array, canonicalize_nan64,
}
use blyt_planning.Flatten.Emit.{Value, bool_byte}

pub data Scalar : Type 0 where
  of_boolean : Bool → Scalar
  of_integer of_float : ℕ → Scalar
  of_string : Bytes → Scalar

-- A scalar, or an array with the tag of its elements, which is 0 for the empty one.
pub data Plain : Type 0 where
  scalar : Scalar → Plain
  array : ℕ → List Scalar → Plain

abbrev pub scalar_tag : Scalar → ℕ
scalar_tag (of_boolean b) = tag_boolean
scalar_tag (of_integer n) = tag_integer
scalar_tag (of_float n) = tag_float
scalar_tag (of_string s) = tag_string

-- The scalar with the one NaN in place of any other.
abbrev pub canonical : Scalar → Scalar
canonical (of_boolean b) = of_boolean b
canonical (of_integer n) = of_integer n
canonical (of_float n) = of_float (canonicalize_nan64 n)
canonical (of_string s) = of_string s

abbrev pub canonicals : List Scalar → List Scalar
canonicals [] = []
canonicals (x ∷ xs) = canonical x ∷ canonicals xs

abbrev pub payload : Scalar → Bytes
payload (of_boolean b) = bool_byte b ∷ []
payload (of_integer n) = le_bytes 8 n
payload (of_float n) = le_bytes 8 (canonicalize_nan64 n)
payload (of_string s) = le_bytes 4 (length s) ++ s

abbrev pub payloads : List Scalar → Bytes
payloads [] = []
payloads (x ∷ xs) = payload x ++ payloads xs

abbrev pub wire : Plain → Bytes
wire (scalar x) = scalar_tag x ∷ payload x
wire (array tag xs) = tag_array ∷ tag ∷ (le_bytes 4 (length xs) ++ payloads xs)

-- The fields of the keys, whose values `value` gives.
abbrev pub fields_wire : (Bytes → Plain) → List Bytes → Bytes
fields_wire value [] = []
fields_wire value (k ∷ ks) =
    (le_bytes 2 (length k) ++ (k ++ wire (value k))) ++ fields_wire value ks

abbrev pub table_wire : (Bytes → Plain) → List Bytes → Bytes
table_wire value ks = le_bytes 4 (length ks) ++ fields_wire value ks

-- Numbers of 64 bits and strings of fewer than 2 ^ 32 bytes.
abbrev pub IsScalar : Scalar → Type 0
IsScalar (of_boolean b) = Unit
IsScalar (of_integer n) = n < 2 ^ 64
IsScalar (of_float n) = n < 2 ^ 64
IsScalar (of_string s) = length s < 2 ^ 32

-- The elements have the array's tag, which is 0 without elements.
abbrev pub HasTag : ℕ → List Scalar → Type 0
HasTag tag [] = tag ≡ 0
HasTag tag (x ∷ xs) = All (λ y. scalar_tag y ≡ tag) (x ∷ xs)

abbrev pub IsPlain : Plain → Type 0
IsPlain (scalar x) = IsScalar x
IsPlain (array tag xs) = HasTag tag xs × (length xs < 0xffffffff) × All IsScalar xs

module _ (api : LuaApi) where
  abbrev pub to_lua : Scalar → Value api
  to_lua (of_boolean b) = boolean b
  to_lua (of_integer n) = integer n
  to_lua (of_float n) = float n
  to_lua (of_string s) = string s

  -- The elements of the table from index `i` on, with nil behind them.
  abbrev pub Elements : api.Table → ℕ → List Scalar → Type 0
  Elements t i [] = api.rawget t (integer (i + 1)) ≡ nil
  Elements t i (x ∷ xs) = (api.rawget t (integer (i + 1)) ≡ to_lua x) × Elements t (i + 1) xs

  -- A Lua value of the constrained shape, as a plain value. An array has no other field than its
  -- elements.
  abbrev pub Represents : Value api → Plain → Type 0
  Represents v (scalar x) = v ≡ to_lua x
  Represents v (array tag xs) =
      (t : api.Table) × (v ≡ table t) × Elements t 0 xs × (length (api.next t) ≡ length xs)
