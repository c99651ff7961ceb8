-- ===== src/Flatten/Sorting.antt =====
-- `key_sort` rearranges the keys.
use mathlib.Core.Path.{subst}
use mathlib.Core.List.{Permᴰ}
use mathlib.Core.List.Permᴰ
use blyt_planning.Prelude.{
  suc, List, [], ◌∷◌, ◌++◌, ◌≡◌, refl, sym, ap, ◌∙◌, inl, inr, Bytes, All, length, Bool-cases,
}
use blyt_planning.Flatten.Keys.{key_cmp, is_positive, key_insert, sort_from, key_sort}

module _ {ℓ} {A : Type ℓ} where
  length-Permᴰ : {xs ys : List A} → Permᴰ xs ys → length xs ≡ length ys
  length-Permᴰ Permᴰ.nil = refl
  length-Permᴰ (Permᴰ.cons e d) = ap suc (length-Permᴰ d)
  length-Permᴰ (Permᴰ.swap e f) = refl
  length-Permᴰ (Permᴰ.trans d e) = length-Permᴰ d ∙ length-Permᴰ e

  All-Permᴰ {κ} : (P : A → Type κ) {xs ys : List A} → Permᴰ xs ys → All P xs → All P ys
  All-Permᴰ P Permᴰ.nil h = tt
  All-Permᴰ P (Permᴰ.cons e d) (h, hs) = (subst P e h, All-Permᴰ P d hs)
  All-Permᴰ P (Permᴰ.swap e f) (h, (k, hs)) = (subst P f k, (subst P e h, hs))
  All-Permᴰ P (Permᴰ.trans d e) h = All-Permᴰ P e (All-Permᴰ P d h)

key_insert-Permᴰ : (k : Bytes) (ks : List Bytes) → Permᴰ (key_insert k ks) (k ∷ ks)
unfolding key_insert
key_insert-Permᴰ k [] = Permᴰ.refl (k ∷ [])
key_insert-Permᴰ k (a ∷ ks) = elim (Bool-cases (is_positive (key_cmp a k))) [
  | inl e ↦ rw e (Permᴰ.trans (Permᴰ.cons refl (key_insert-Permᴰ k ks)) (Permᴰ.swap refl refl))
  | inr e ↦ rw e (Permᴰ.refl (k ∷ a ∷ ks))
]

sort_from-Permᴰ : (sorted keys : List Bytes) → Permᴰ (sort_from sorted keys) (sorted ++ keys)
unfolding sort_from
sort_from-Permᴰ sorted [] = Permᴰ.reverse_aux sorted []
sort_from-Permᴰ sorted (k ∷ keys) = Permᴰ.trans (sort_from-Permᴰ (key_insert k sorted) keys) (
    Permᴰ.trans (Permᴰ.append_right keys (key_insert-Permᴰ k sorted))
      (Permᴰ.symm (Permᴰ.middle k sorted keys)))

pub key_sort-Permᴰ : (keys : List Bytes) → Permᴰ keys (key_sort keys)
unfolding key_sort
key_sort-Permᴰ keys = Permᴰ.symm (sort_from-Permᴰ [] keys)

pub length-key_sort : (keys : List Bytes) → length (key_sort keys) ≡ length keys
length-key_sort keys = sym (length-Permᴰ (key_sort-Permᴰ keys))

pub All-key_sort {κ} : (P : Bytes → Type κ) (keys : List Bytes) → All P keys → All P (key_sort keys)
All-key_sort P keys h = All-Permᴰ P (key_sort-Permᴰ keys) h

pub All-key_sort_back {κ} :
    (P : Bytes → Type κ) (keys : List Bytes) → All P (key_sort keys) → All P keys
All-key_sort_back P keys h = All-Permᴰ P (Permᴰ.symm (key_sort-Permᴰ keys)) h
