-- ===== src/Flatten/Keys.antt =====
-- The comparison and the sort of the keys. A key is its bytes.
use blyt_planning.Prelude.{
  ℕ, ◌-◌, ℤ, pos, negsuc, Bool, false, List, [], ◌∷◌, ltb, ◌==◌, if◌then◌else◌, Bytes, length,
}
use mathlib.Core.List.{reverse}

-- `(int)a - (int)b`
abbrev pub difference : ℕ → ℕ → ℤ
difference a b = if ltb a b then negsuc (b - a - 1) else pos (a - b)

-- The loop over the shorter length, then the difference of the lengths.
unfoldable pub cmp_from : ℕ → ℕ → Bytes → Bytes → ℤ
cmp_from la lb [] bs = difference la lb
cmp_from la lb (a ∷ as') [] = difference la lb
cmp_from la lb (a ∷ as') (b ∷ bs) = if a == b then cmp_from la lb as' bs else difference a b

unfoldable pub key_cmp : Bytes → Bytes → ℤ
unfolding cmp_from
key_cmp a b = cmp_from (length a) (length b) a b

abbrev pub is_positive : ℤ → Bool
is_positive (negsuc k) = false
is_positive (pos n) = ltb 0 n

-- The inner loop: `sorted` is `arr[0..i)` from its end, and a greater key moves up by one.
unfoldable pub key_insert : Bytes → List Bytes → List Bytes
unfolding key_cmp
key_insert cur [] = cur ∷ []
key_insert cur (a ∷ sorted) =
    if is_positive (key_cmp a cur) then a ∷ key_insert cur sorted else cur ∷ a ∷ sorted

-- The outer loop.
unfoldable pub sort_from : List Bytes → List Bytes → List Bytes
unfolding key_insert
sort_from sorted [] = reverse sorted
sort_from sorted (cur ∷ rest) = sort_from (key_insert cur sorted) rest

unfoldable pub key_sort : List Bytes → List Bytes
unfolding sort_from
key_sort keys = sort_from [] keys
