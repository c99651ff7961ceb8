-- ===== src/Flatten/Laws.antt =====
-- What Lua documents of its tables, and the arrays that `lua_table_unflatten` fills under these laws.
use native.Mathlib.Decide.{ℕ_discrete}
use blyt_planning.Flatten.{nil, integer, string, LuaApi}
use blyt_planning.Flatten.Emit.{Value, is_nil}
use blyt_planning.Flatten.Wire.{
  Scalar, of_boolean, of_integer, of_float, of_string, Plain, scalar, array, canonical, canonicals,
  to_lua, Elements, Represents,
}
use blyt_planning.Prelude.{
  ◌∙◌, ℕ, suc, ◌+◌, ◌<◌, ◌≤◌, false, List, [], ◌∷◌, ◌≡◌, refl, sym, ap, arith, Bytes, length,
}
use mathlib.Core.Logic.{◌≢◌}
use blyt_planning.Flatten.Decoding.{filled, restored}

abbrev pub canonical_plain : Plain → Plain
canonical_plain (scalar x) = scalar (canonical x)
canonical_plain (array tag xs) = array tag (canonicals xs)

pub Bytes-discrete : Discrete Bytes
Bytes-discrete = hlevel ℕ_discrete

module _ (api : LuaApi) where
  -- The keys that the code stores under.
  abbrev pub IsKey : Value api → Type 0
  IsKey (string s) = Unit
  IsKey (integer n) = Unit
  IsKey v = ⊥

  -- What Lua documents of raw access to tables.
  pub record Laws : Type 0 where
    pub rawget-createtable : (k : Value api) → api.rawget api.createtable k ≡ nil
    pub next-createtable : api.next api.createtable ≡ []
    pub rawget-rawset :
        (t : api.Table) (k v : Value api) → IsKey k → api.rawget (api.rawset t k v) k ≡ v
    pub rawget-rawset_ne :
        (t : api.Table) (k j v : Value api)
        → IsKey k
        → IsKey j
        → k ≢ j
        → api.rawget (api.rawset t k v) j ≡ api.rawget t j
    pub length-next-rawset :
        (t : api.Table) (k v : Value api)
        → IsKey k
        → api.rawget t k ≡ nil
        → is_nil api v ≡ false
        → length (api.next (api.rawset t k v)) ≡ suc (length (api.next t))

  key_bytes : Value api → Bytes
  key_bytes (string s) = s
  key_bytes v = []

  key_number : Value api → ℕ
  key_number (integer n) = n
  key_number v = 0

  pub string_ne : (a b : Bytes) → a ≢ b → ◌≢◌ {A = Value api} (string a) (string b)
  unfolding key_bytes
  string_ne a b h e = h (ap key_bytes e)

  integer_ne : (m n : ℕ) → m < n → ◌≢◌ {A = Value api} (integer n) (integer m)
  unfolding key_number
  integer_ne m n h e = absurd (omega (arith, ap key_number e))

  is_nil-to_lua : (x : Scalar) → is_nil api (to_lua api x) ≡ false
  is_nil-to_lua (of_boolean b) = refl
  is_nil-to_lua (of_integer n) = refl
  is_nil-to_lua (of_float n) = refl
  is_nil-to_lua (of_string s) = refl

  -- Nothing is stored above index `i`.
  abbrev Free : api.Table → ℕ → Type 0
  Free t i = (j : ℕ) → i < j → api.rawget t (integer j) ≡ nil

  Free-rawset :
      (t : api.Table) (i : ℕ) (v : Value api)
      → Laws
      → Free t i
      → Free (api.rawset t (integer (i + 1)) v) (i + 1)
  Free-rawset t i v laws free j h =
      laws.rawget-rawset_ne t (integer (i + 1)) (integer j) v tt tt
        (λ e. integer_ne (i + 1) j h (sym e))
      ∙ free j (omega arith)

  filled_below :
      (t : api.Table) (i j : ℕ) (xs : List Scalar)
      → Laws
      → j ≤ i
      → api.rawget (filled api t i xs) (integer j) ≡ api.rawget t (integer j)
  filled_below t i j [] laws h = refl
  filled_below t i j (x ∷ xs) laws h =
      filled_below (api.rawset t (integer (i + 1)) (to_lua api x)) (i + 1) j xs laws (omega arith)
      ∙ laws.rawget-rawset_ne t (integer (i + 1)) (integer j) (to_lua api x) tt tt
          (integer_ne j (i + 1) (omega arith))

  filled-Elements :
      (t : api.Table) (i : ℕ) (xs : List Scalar)
      → Laws
      → Free t i
      → Elements api (filled api t i xs) i xs
  filled-Elements t i [] laws free = free (i + 1) (omega arith)
  filled-Elements t i (x ∷ xs) laws free =
      let next = api.rawset t (integer (i + 1)) (to_lua api x) in
      (
        filled_below next (i + 1) (i + 1) xs laws (omega arith)
            ∙ laws.rawget-rawset t (integer (i + 1)) (to_lua api x) tt,
        filled-Elements next (i + 1) xs laws (Free-rawset t i (to_lua api x) laws free),
      )

  length-filled :
      (t : api.Table) (i : ℕ) (xs : List Scalar)
      → Laws
      → Free t i
      → length (api.next (filled api t i xs)) ≡ length (api.next t) + length xs
  length-filled t i [] laws free = omega arith
  length-filled t i (x ∷ xs) laws free = omega (
    arith,
    length-filled (api.rawset t (integer (i + 1)) (to_lua api x)) (i + 1) xs laws
        (Free-rawset t i (to_lua api x) laws free),
    laws.length-next-rawset t (integer (i + 1)) (to_lua api x) tt (free (i + 1) (omega arith))
        (is_nil-to_lua x),
  )

  pub restored-Represents : (p : Plain) → Laws → Represents api (restored api p) (canonical_plain p)
  restored-Represents (scalar x) laws = refl
  restored-Represents (array tag xs) laws =
      let empty = λ (j : ℕ) (h : 0 < j). laws.rawget-createtable (integer j) in
      (
        filled api api.createtable 0 (canonicals xs),
        refl,
        filled-Elements api.createtable 0 (canonicals xs) laws empty,
        length-filled api.createtable 0 (canonicals xs) laws empty
            ∙ omega (arith, ap length laws.next-createtable),
      )
