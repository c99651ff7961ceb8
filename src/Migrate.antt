-- ===== src/Migrate.antt =====
-- migrate.c and migrate.h (spikes/spike-n/cart_runtime): the field-level walk from an old struct
-- layout to a new one. A C string is the list of its characters, none of them NUL.
pub mod Fields
use blyt_planning.Prelude.{
  ℕ, ◌+◌, ◌%◌, ◌^◌, Bool, true, false, ◌&&◌, Option, none, some, List, [], ◌∷◌, ltb, ◌==◌,
  if◌then◌else◌, Bytes, codes, take, drop, replicate, write_at,
}

-- `mfield_type_t`
pub data FieldType : Type 0 where
  u8 u32 i32 u64 i64 f32 f64 : FieldType

-- The values of the enumeration.
abbrev pub type_code : FieldType → ℕ
type_code u8 = 0
type_code u32 = 1
type_code i32 = 2
type_code u64 = 3
type_code i64 = 4
type_code f32 = 5
type_code f64 = 6

unfoldable pub mfield_type_name : FieldType → Bytes
mfield_type_name u8 = codes "u8"
mfield_type_name u32 = codes "u32"
mfield_type_name i32 = codes "i32"
mfield_type_name u64 = codes "u64"
mfield_type_name i64 = codes "i64"
mfield_type_name f32 = codes "f32"
mfield_type_name f64 = codes "f64"

-- `mfield_desc_t`
pub record FieldDesc : Type 0 where
  pub name : Bytes
  pub type : FieldType
  pub offset : ℕ
  pub size : ℕ

-- `mlayout_t`; `count` is the length of `fields`.
pub record Layout : Type 0 where
  pub fields : List FieldDesc
  pub total_size : ℕ

-- `mretype_fn_t`: given the old bytes from the field on and the two types, its verdict with the
-- bytes that it writes from the start of the new field on.
abbrev pub Retype : Type 0
Retype = Bytes → FieldType → FieldType → Bool × Bytes

unfoldable pub str_eq : Bytes → Bytes → Bool
str_eq [] [] = true
str_eq [] (b ∷ bs) = false
str_eq (a ∷ as') [] = false
str_eq (a ∷ as') (b ∷ bs) = a == b && str_eq as' bs

-- The first field of the name.
unfoldable pub find_field : Bytes → List FieldDesc → Option FieldDesc
unfolding str_eq
find_field name [] = none
find_field name (f ∷ fs) =
    let rest = find_field name fs in if str_eq name f.name then some f else rest

-- `of->type == nf->type && of->size == nf->size`
abbrev pub same_kind : FieldDesc → FieldDesc → Bool
same_kind of nf = type_code of.type == type_code nf.type && of.size == nf.size

-- `offset + size`, a `uint32_t`, beyond the struct.
abbrev pub overflows : FieldDesc → ℕ → Bool
overflows f total = ltb total ((f.offset + f.size) % 2 ^ 32)

module _ (old_layout : Layout) (old_bytes : Bytes) (on_retype : Option Retype) where
  -- What is written for a field found under both layouts with another type or size; with no
  -- callback it is dropped.
  abbrev pub retyped : Option Retype → FieldDesc → FieldDesc → Bytes
  retyped none of nf = []
  retyped (some f) of nf = (f (drop of.offset old_bytes) of.type nf.type).1

  unfoldable pub migrate_found : FieldDesc → Bytes → Option FieldDesc → Bool × Bytes
  migrate_found nf new_bytes none = (true, new_bytes)
  migrate_found nf new_bytes (some of) =
      if overflows of old_layout.total_size
      then (false, new_bytes)
      else if same_kind of nf
      then (true, write_at new_bytes nf.offset (take nf.size (drop of.offset old_bytes)))
      else (true, write_at new_bytes nf.offset (retyped on_retype of nf))

  module _ (new_total : ℕ) where
    unfoldable pub migrate_field : FieldDesc → Bytes → Bool × Bytes
    unfolding migrate_found find_field
    migrate_field nf new_bytes =
        if overflows nf new_total
        then (false, new_bytes)
        else migrate_found nf new_bytes (find_field nf.name old_layout.fields)

    unfoldable pub migrate_fields : List FieldDesc → Bytes → Bool × Bytes
    unfolding migrate_field
    migrate_fields [] new_bytes = (true, new_bytes)
    migrate_fields (nf ∷ nfs) new_bytes =
        let (ok, written) = migrate_field nf new_bytes in
        let rest = migrate_fields nfs written in if ok then rest else (false, written)

  unfoldable pub migrate_region_bytes : Bytes → Layout → Bool × Bytes
  unfolding migrate_fields
  migrate_region_bytes new_bytes new_layout =
      migrate_fields new_layout.total_size new_layout.fields
        (write_at new_bytes 0 (replicate new_layout.total_size 0))
