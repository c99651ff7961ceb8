-- ===== src/Flatten.antt =====
-- lua_table_flatten.c and lua_table_flatten.h (spikes/spike-m/lib): the Lua values that it meets,
-- what it asks of Lua, the error codes, and the byte sink and source.
pub mod Keys
pub mod Emit
pub mod Unflatten
pub mod Wire
pub mod Puts
pub mod Values
pub mod Encoding
pub mod Takes
pub mod Decoding
pub mod Sorting
pub mod Order
pub mod RoundTrip
pub mod Laws
pub mod Rebuilt
pub mod Determinism
pub mod Capacity
pub mod Balance
use blyt_planning.Prelude.{
  ℕ, zero, suc, ◌+◌, ◌*◌, ◌/◌, ◌%◌, ◌^◌, ℤ, pos, negsuc, Bool, true, false, not, ◌&&◌, List, [],
  ◌∷◌, ◌++◌, bit_or, ltb, ◌==◌, if◌then◌else◌, Bytes, codes, length, get_or, take,
}

-- A Lua value, with tables as references `T`: an integer and a float are their 64 bits, and `other`
-- is a function, a userdata or a thread.
pub data LuaValue (T : Type 0) : Type 0 where
  nil other : LuaValue T
  boolean : Bool → LuaValue T
  integer float : ℕ → LuaValue T
  string : Bytes → LuaValue T
  table : T → LuaValue T

-- What the source calls of Lua: the pairs that `lua_next` walks through, in its order,
-- `lua_rawget`, `lua_createtable`, and `lua_rawset`, which gives the table after the store.
pub record LuaApi : Type 1 where
  pub Table : Type 0
  pub next : Table → List (LuaValue Table × LuaValue Table)
  pub rawget : Table → LuaValue Table → LuaValue Table
  pub createtable : Table
  pub rawset : Table → LuaValue Table → LuaValue Table → Table

-- `LTF_OK` and the `LTF_ERR_…` codes.
pub data LtfCode : Type 0 where
  ok err_overflow err_unsupported_type err_non_string_key err_key_too_long err_array_mixed_types
        err_array_non_sequence :
      LtfCode

-- The values of the macros.
abbrev pub ltf_code : LtfCode → ℤ
ltf_code ok = pos 0
ltf_code err_overflow = negsuc 0
ltf_code err_unsupported_type = negsuc 1
ltf_code err_non_string_key = negsuc 2
ltf_code err_key_too_long = negsuc 3
ltf_code err_array_mixed_types = negsuc 4
ltf_code err_array_non_sequence = negsuc 5

unfoldable pub lua_table_flatten_strerror : ℤ → Bytes
lua_table_flatten_strerror (pos zero) = codes "ok"
lua_table_flatten_strerror (negsuc zero) = codes "BLYT_ERR_FLATTEN_OVERFLOW"
lua_table_flatten_strerror (negsuc (suc zero)) = codes "BLYT_ERR_FLATTEN_UNSUPPORTED_TYPE"
lua_table_flatten_strerror (negsuc (suc (suc zero))) = codes "BLYT_ERR_FLATTEN_NON_STRING_KEY"
lua_table_flatten_strerror (negsuc (suc (suc (suc zero)))) = codes "BLYT_ERR_FLATTEN_KEY_TOO_LONG"
lua_table_flatten_strerror (negsuc (suc (suc (suc (suc zero))))) =
    codes "BLYT_ERR_FLATTEN_ARRAY_MIXED_TYPES"
lua_table_flatten_strerror (negsuc (suc (suc (suc (suc (suc zero)))))) =
    codes "BLYT_ERR_FLATTEN_ARRAY_NON_SEQUENCE"
lua_table_flatten_strerror code = codes "BLYT_ERR_FLATTEN_UNKNOWN"

abbrev pub tag_boolean : ℕ
tag_boolean = 1

abbrev pub tag_integer : ℕ
tag_integer = 2

abbrev pub tag_float : ℕ
tag_float = 3

abbrev pub tag_string : ℕ
tag_string = 4

abbrev pub tag_array : ℕ
tag_array = 5

abbrev pub max_key_len : ℕ
max_key_len = 64

abbrev pub max_fields : ℕ
max_fields = 32

abbrev pub canonical_qnan64_bits : ℕ
canonical_qnan64_bits = 0x7ff8000000000000

-- Over the bits of a double.
unfoldable pub canonicalize_nan64 : ℕ → ℕ
canonicalize_nan64 u =
    if (u / 2 ^ 52 % 2 ^ 11 == 0x7ff) && not (u % 2 ^ 52 == 0) then canonical_qnan64_bits else u

-- `sink_t`; `written` is `dst[0..pos)`.
pub record Sink : Type 0 where
  pub written : Bytes
  pub cap : ℕ
  pub overflowed : Bool

-- A byte or a run of bytes is stored whole or not at all; `pos + n` is a `uint32_t`.
unfoldable pub put_bytes : Bytes → Sink → Sink
put_bytes bs s =
    if ltb s.cap ((length s.written + length bs) % 2 ^ 32)
    then record s { overflowed = true }
    else record s { written = s.written ++ bs }

unfoldable pub put_u8 : ℕ → Sink → Sink
unfolding put_bytes
put_u8 v s = put_bytes (v % 256 ∷ []) s

unfoldable pub put_u16 : ℕ → Sink → Sink
unfolding put_u8
put_u16 v s = put_u8 (v / 2 ^ 8) (put_u8 v s)

unfoldable pub put_u32 : ℕ → Sink → Sink
unfolding put_u8
put_u32 v s = put_u8 (v / 2 ^ 24) (put_u8 (v / 2 ^ 16) (put_u8 (v / 2 ^ 8) (put_u8 v s)))

unfoldable pub put_u64 : ℕ → Sink → Sink
unfolding put_u32
put_u64 v s = put_u32 (v / 2 ^ 32) (put_u32 (v % 2 ^ 32) s)

-- `source_t`
pub record Source : Type 0 where
  pub src : Bytes
  pub len : ℕ
  pub at : ℕ
  pub underflowed : Bool

unfoldable pub take_u8 : Source → ℕ × Source
take_u8 s =
    if ltb s.len ((s.at + 1) % 2 ^ 32)
    then (0, record s { underflowed = true })
    else (get_or s.src s.at 0, record s { at = s.at + 1 })

unfoldable pub take_u16 : Source → ℕ × Source
unfolding take_u8
take_u16 s = let (a, s1) = take_u8 s in let (b, s2) = take_u8 s1 in (bit_or a (b * 2 ^ 8), s2)

unfoldable pub take_u32 : Source → ℕ × Source
unfolding take_u8
take_u32 s =
    let (a, s1) = take_u8 s in
    let (b, s2) = take_u8 s1 in
    let (c, s3) = take_u8 s2 in
    let (d, s4) = take_u8 s3 in
    (bit_or (bit_or (bit_or a (b * 2 ^ 8)) (c * 2 ^ 16)) (d * 2 ^ 24), s4)

unfoldable pub take_u64 : Source → ℕ × Source
unfolding take_u32
take_u64 s =
    let (lo, s1) = take_u32 s in let (hi, s2) = take_u32 s1 in (bit_or lo (hi * 2 ^ 32), s2)
