-- ===== src/Flatten/Balance.antt =====
-- The stack that `lua_table_unflatten` leaves, for any bytes.
use mathlib.Core.Path.{subst}
use mathlib.Core.Logic.{◌≢◌, ◌⊎◌, inl, inr}
use blyt_planning.Prelude.{
  zero, suc, ◌||◌, take, drop, sym, ap, ap₂, arith, ℕ, ◌+◌, ◌^◌, ◌%◌, ◌<◌, ◌≤◌, Bool, true, false,
  ◌∷◌, ◌≡◌, refl, ◌∙◌, ltb, ◌==◌, if◌then◌else◌, Bool-cases,
}
use blyt_planning.Flatten.{
  integer, string, table, nil, max_key_len, max_fields, err_overflow, tag_array, take_u8, take_u16,
  take_u64, Bytes, LuaApi, LtfCode, ok, tag_boolean, tag_integer, tag_float, tag_string, Source,
  take_u32,
}
use blyt_planning.Flatten.Unflatten.{
  Ending, returned, wild_read, lua_pop, unflatten_elements, unflatten_array, unflatten_value,
  unflatten_fields, lua_table_unflatten, Step, Stack, take_string, take_payload, next_element,
  Unflattened, fail, next_key,
}
use blyt_planning.Flatten.Emit.{Value}

-- The source reads the `n` bytes of `src`, and has not left them.
pub record Within (src : Bytes) (n : ℕ) (s : Source) : Type 0 where
  pub same : s.src ≡ src
  pub size : s.len ≡ n
  pub inside : s.at ≤ n

-- Somewhere in the bytes a 32-bit length is read which, added to the position behind it, reaches
-- 2 ^ 32.
abbrev pub LengthWraps : Bytes → ℕ → Type 0
LengthWraps src n = (s : Source) × Within src n s × (2 ^ 32 ≤ (take_u32 s).1.at + (take_u32 s).0)

-- A code of an error was returned.
abbrev is_error : Ending → Bool
is_error (returned ok) = false
is_error (returned code) = true
is_error wild_read = false

module _ (src : Bytes) (n : ℕ) (small : n < 2 ^ 31) where
  take_u8-Within : (s : Source) → Within src n s → Within src n (take_u8 s).1
  unfolding take_u8
  take_u8-Within s w = elim (Bool-cases (ltb s.len ((s.at + 1) % 2 ^ 32))) [
    | inl e ↦ rw e (record { same = w.same; size = w.size; inside = w.inside })
    | inr e ↦
        rw e (record { same = w.same; size = w.size; inside = ground (arith, w.size, w.inside) })
  ]

  take_u16-Within : (s : Source) → Within src n s → Within src n (take_u16 s).1
  unfolding take_u16
  take_u16-Within s w = take_u8-Within (take_u8 s).1 (take_u8-Within s w)

  take_u32-Within : (s : Source) → Within src n s → Within src n (take_u32 s).1
  unfolding take_u32 take_u16
  take_u32-Within s w = let s2 = (take_u16 s).1 in take_u16-Within s2 (take_u16-Within s w)

  take_u64-Within : (s : Source) → Within src n s → Within src n (take_u64 s).1
  unfolding take_u64
  take_u64-Within s w = take_u32-Within (take_u32 s).1 (take_u32-Within s w)

module _ (api : LuaApi) (src : Bytes) (n : ℕ) (small : n < 2 ^ 31) where
  -- One more value on `kept`, or an error that leaves `popped`, or a length that wraps.
  abbrev Balanced : Step (Value api) → Stack api → Stack api → Type 0
  Balanced q popped kept =
      ((q.code ≡ returned ok) × Within src n q.source × (v : Value api) × (q.stack ≡ v ∷ kept))
      ⊎ (((is_error q.code ≡ true) × (q.stack ≡ popped))
          ⊎ ((q.code ≡ wild_read) × LengthWraps src n))

  branch :
      (c : Bool) (p q : Step (Value api)) (popped kept : Stack api)
      → Balanced p popped kept
      → Balanced q popped kept
      → Balanced (if c then p else q) popped kept
  branch true p q popped kept h k = h
  branch false p q popped kept h k = k

  take_string-Balanced :
      (sl : ℕ) (s : Source) (stack popped : Stack api)
      → Within src n s
      → (2 ^ 32 ≤ s.at + sl → LengthWraps src n)
      → Balanced (take_string api sl s stack popped) popped stack
  unfolding take_string
  take_string-Balanced sl s stack popped w wraps =
      elim (Bool-cases (ltb s.len ((s.at + sl) % 2 ^ 32))) [
        | inl e ↦ rw e (inr (inl (refl, refl)))
        | inr e ↦ rw e (elim (Bool-cases (ltb s.len (s.at + sl))) [
          | inl f ↦ rw f (inr (inr (refl, wraps (ground arith))))
          | inr f ↦ rw f (
              inl (
                refl,
                record { same = w.same; size = w.size; inside = ground (arith, w.size) },
                string (take sl (drop s.at s.src)),
                refl,
              ))
        ])
      ]

  take_payload-Balanced :
      (tag : ℕ) (s : Source) (stack popped : Stack api)
      → Within src n s
      → Balanced (take_payload api tag s stack popped) popped stack
  unfolding take_payload
  take_payload-Balanced tag s stack popped w =
      branch (tag == tag_boolean) _ _ popped stack
        (inl (refl, take_u8-Within src n small s w, _, refl))
        (branch (tag == tag_integer) _ _ popped stack
          (inl (refl, take_u64-Within src n small s w, _, refl))
          (branch (tag == tag_float) _ _ popped stack
            (inl (refl, take_u64-Within src n small s w, _, refl))
            (branch (tag == tag_string) _ _ popped stack
              (take_string-Balanced (take_u32 s).0 (take_u32 s).1 stack popped
                (take_u32-Within src n small s w) (λ h. (s, w, h)))
              (inr (inl (refl, refl))))))

  next_element_error :
      (code : Ending) (i : ℕ) (s : Source) (stack : Stack api)
      (rest : Source → Stack api → Step (Value api))
      → is_error code ≡ true
      → next_element api code i s stack rest ≡ record { code = code; source = s; stack = stack }
  next_element_error (returned ok) i s stack rest h = absurd (ground arith)
  next_element_error (returned code) i s stack rest h = refl
  next_element_error wild_read i s stack rest h = refl

  next_key_error :
      (code : Ending) (s : Source) (stack : Stack api) (rest : Source → Stack api → Unflattened api)
      → is_error code ≡ true
      → (c : LtfCode) × (c ≢ ok) × (next_key api code s stack rest ≡ fail api c 2 stack)
  next_key_error (returned ok) s stack rest h = absurd (ground arith)
  next_key_error (returned code) s stack rest h =
      (code, (λ e. absurd (ground (arith, h, ap (λ c. is_error (returned c)) e))), refl)
  next_key_error wild_read s stack rest h = absurd (ground arith)

  next_element-Balanced :
      (q : Step (Value api)) (i : ℕ) (t : api.Table) (stack : Stack api)
      (rest : Source → Stack api → Step (Value api))
      → Balanced q stack (table t ∷ stack)
      → ((s : Source) (t' : api.Table)
          → Within src n s
          → Balanced (rest s (table t' ∷ stack)) stack stack)
      → Balanced (next_element api q.code i q.source q.stack rest) stack stack
  next_element-Balanced q i t stack rest (inl (e, w, v, h)) k =
      subst (λ z. Balanced z stack stack)
        (sym (ap₂ (λ c st. next_element api c i q.source st rest) e h))
        (branch q.source.underflowed _ _ stack stack (inr (inl (refl, refl)))
          (k q.source (api.rawset t (integer (i + 1)) v) w))
  next_element-Balanced q i t stack rest (inr (inl (e, h))) k =
      subst (λ z. Balanced z stack stack)
        (sym (next_element_error q.code i q.source q.stack rest e)) (inr (inl (e, h)))
  next_element-Balanced q i t stack rest (inr (inr (e, wraps))) k =
      subst (λ z. Balanced z stack stack)
        (sym (ap (λ c. next_element api c i q.source q.stack rest) e)) (inr (inr (refl, wraps)))

  unflatten_elements-Balanced :
      (tag m i : ℕ) (s : Source) (t : api.Table) (stack : Stack api)
      → Within src n s
      → Balanced (unflatten_elements api tag m i s (table t ∷ stack)) stack stack
  unfolding unflatten_elements
  unflatten_elements-Balanced tag zero i s t stack w = inl (refl, w, table t, refl)
  unflatten_elements-Balanced tag (suc m) i s t stack w =
      next_element-Balanced (take_payload api tag s (table t ∷ stack) stack) i t stack _
        (take_payload-Balanced tag s (table t ∷ stack) stack w)
        (λ s' t' w'. unflatten_elements-Balanced tag m (i + 1) s' t' stack w')

  unflatten_array-Balanced :
      (s : Source) (stack : Stack api)
      → Within src n s
      → Balanced (unflatten_array api s stack) stack stack
  unfolding unflatten_array
  unflatten_array-Balanced s stack w =
      let tag = (take_u8 s).0 in
      let counted = take_u32 (take_u8 s).1 in
      branch counted.1.underflowed _ _ stack stack (inr (inl (refl, refl))) (
        unflatten_elements-Balanced tag counted.0 0 counted.1 api.createtable stack
          (take_u32-Within src n small (take_u8 s).1 (take_u8-Within src n small s w)))

  unflatten_value-Balanced :
      (s : Source) (stack : Stack api)
      → Within src n s
      → Balanced (unflatten_value api s stack) stack stack
  unfolding unflatten_value
  unflatten_value-Balanced s stack w =
      let tagged = take_u8 s in
      let w' = take_u8-Within src n small s w in
      branch tagged.1.underflowed _ _ stack stack (inr (inl (refl, refl))) (
        branch (tagged.0 == tag_array) _ _ stack stack (unflatten_array-Balanced tagged.1 stack w')
          (take_payload-Balanced tagged.0 tagged.1 stack stack w'))

  -- A table on the stack, or an error with nil, or a length that wraps.
  abbrev Ends : Unflattened api → Stack api → Type 0
  Ends r stack =
      ((r.0 ≡ returned ok) × (t : api.Table) × (r.1 ≡ table t ∷ stack))
      ⊎ (((code : LtfCode) × (code ≢ ok) × (r ≡ (returned code, nil ∷ stack)))
          ⊎ ((r.0 ≡ wild_read) × LengthWraps src n))

  Ends-branch :
      (c : Bool) (p q : Unflattened api) (stack : Stack api)
      → Ends p stack
      → Ends q stack
      → Ends (if c then p else q) stack
  Ends-branch true p q stack h k = h
  Ends-branch false p q stack h k = k

  fails :
      (m : ℕ) (code : LtfCode) (st stack : Stack api)
      → code ≢ ok
      → lua_pop api m st ≡ stack
      → Ends (fail api code m st) stack
  fails m code st stack h e = inr (inl (code, h, ap (λ z. (returned code, nil ∷ z)) e))

  overflow_ne : err_overflow ≢ ok
  overflow_ne e = absurd (ground (arith, ap (λ c. is_error (returned c)) e))

  overflows :
      (m : ℕ) (st stack : Stack api)
      → lua_pop api m st ≡ stack
      → Ends (fail api err_overflow m st) stack
  overflows m st stack e = fails m err_overflow st stack overflow_ne e

  next_key-Ends :
      (q : Step (Value api)) (k : Bytes) (t : api.Table) (stack : Stack api)
      (rest : Source → Stack api → Unflattened api)
      → Balanced q (string k ∷ table t ∷ stack) (string k ∷ table t ∷ stack)
      → ((s : Source) (t' : api.Table) → Within src n s → Ends (rest s (table t' ∷ stack)) stack)
      → Ends (next_key api q.code q.source q.stack rest) stack
  next_key-Ends q k t stack rest (inl (e, w, v, h)) f =
      subst (λ z. Ends z stack) (sym (ap₂ (λ c st. next_key api c q.source st rest) e h))
        (f q.source (api.rawset t (string k) v) w)
  next_key-Ends q k t stack rest (inr (inl (e, h))) f =
      let (c, ne, same) = next_key_error q.code q.source q.stack rest e in
      subst (λ z. Ends z stack) (sym same) (fails 2 c q.stack stack ne (ap (lua_pop api 2) h))
  next_key-Ends q k t stack rest (inr (inr (e, wraps))) f =
      subst (λ z. Ends z stack) (sym (ap (λ c. next_key api c q.source q.stack rest) e))
        (inr (inr (refl, wraps)))

  -- A key that the tests let through lies in the bytes.
  key_inside :
      (s : Source) (kl : ℕ)
      → Within src n s
      → (s.underflowed || ltb max_key_len kl) ≡ false
      → ltb s.len ((s.at + kl) % 2 ^ 32) ≡ false
      → (s.at + kl) % 2 ^ 32 ≡ s.at + kl
  key_inside s kl w short e = elim (Bool-cases s.underflowed) [
    | inl f ↦ absurd (ground (arith, f, short))
    | inr f ↦ ground (arith, w.inside, w.size, small)
  ]

  unflatten_fields-Ends :
      (m : ℕ) (s : Source) (t : api.Table) (stack : Stack api)
      → Within src n s
      → Ends (unflatten_fields api m s (table t ∷ stack)) stack
  unfolding unflatten_fields
  unflatten_fields-Ends zero s t stack w =
      Ends-branch s.underflowed _ _ stack (overflows 1 (table t ∷ stack) stack refl)
        (inl (refl, t, refl))
  unflatten_fields-Ends (suc m) s t stack w =
      elim (Bool-cases (s1.underflowed || ltb max_key_len kl)) [
        | inl e ↦ rw e (overflows 1 (table t ∷ stack) stack refl)
        | inr e ↦ rw e (elim (Bool-cases (ltb s1.len ((s1.at + kl) % 2 ^ 32))) [
          | inl f ↦ rw f (overflows 1 (table t ∷ stack) stack refl)
          | inr f ↦ rw f (
              rw (tame e f) (
                next_key-Ends
                  (unflatten_value api (record s1 { at = (s1.at + kl) % 2 ^ 32 })
                    (string key ∷ table t ∷ stack))
                  key t stack _
                  (unflatten_value-Balanced (record s1 { at = (s1.at + kl) % 2 ^ 32 })
                    (string key ∷ table t ∷ stack)
                    (record { same = w1.same; size = w1.size; inside = ground (arith, w1.size) }))
                  (λ s' t' w'. unflatten_fields-Ends m s' t' stack w')))
        ])
      ]
    where
      kl : ℕ
      kl = (take_u16 s).0

      s1 : Source
      s1 = (take_u16 s).1

      key : Bytes
      key = take kl (drop s1.at s1.src)

      w1 : Within src n s1
      w1 = take_u16-Within src n small s w

      tame :
          (s1.underflowed || ltb max_key_len kl) ≡ false
          → ltb s1.len ((s1.at + kl) % 2 ^ 32) ≡ false
          → ltb s1.len (s1.at + kl) ≡ false
      tame e f = ap (ltb s1.len) (sym (key_inside s1 kl w1 e f)) ∙ f

  -- For fewer than 2 ^ 31 bytes, whatever they are, `lua_table_unflatten` returns with exactly one
  -- more value on Lua's stack, a table when it succeeds and nil when it fails, or it reads beyond the
  -- bytes, and then at some position they hold a 32-bit length that, added to the position behind
  -- it, reaches 2 ^ 32.
  pub lua_table_unflatten_balanced :
      (stack : Stack api)
      → ((lua_table_unflatten api src n stack).0 ≡ returned ok
          × (t : api.Table) × ((lua_table_unflatten api src n stack).1 ≡ table t ∷ stack))
        ⊎ (((code : LtfCode) × (code ≢ ok)
              × (lua_table_unflatten api src n stack ≡ (returned code, nil ∷ stack)))
            ⊎ (((lua_table_unflatten api src n stack).0 ≡ wild_read) × LengthWraps src n))
  unfolding lua_table_unflatten
  lua_table_unflatten_balanced stack =
      let start : Source = record { src = src; len = n; at = 0; underflowed = false } in
      let counted = take_u32 start in
      let w : Within src n start = record { same = refl; size = refl; inside = omega arith } in
      Ends-branch counted.1.underflowed _ _ stack (overflows 0 stack stack refl) (
        Ends-branch (ltb max_fields counted.0) _ _ stack (overflows 0 stack stack refl) (
          unflatten_fields-Ends counted.0 counted.1 api.createtable stack
            (take_u32-Within src n small start w)))
