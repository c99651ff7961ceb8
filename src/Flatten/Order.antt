-- ===== src/Flatten/Order.antt =====
-- The order of the keys, and the sort against a rearrangement of its input.
use mathlib.Core.Path.{subst}
use mathlib.Core.List.{Perm, Permᴰ, is_set}
use mathlib.Core.Logic.{∥∥₁_elim}
use blyt_planning.Prelude.{
  ℕ, suc, ◌+◌, Bool, true, false, [], ◌∷◌, ◌≡◌, refl, ap₂, ◌∙◌, arith, inl, inr, ltb, ◌==◌,
  if◌then◌else◌, Bytes, length, Bool-cases, lt→ltb, le→ltb_false, compare_cases, List, ap, sym,
}
use blyt_planning.Flatten.Keys.{
  cmp_from, is_positive, difference, key_cmp, key_insert, sort_from, key_sort,
}

-- The byte order with a proper prefix first: the first key is the greater one.
unfoldable greater : Bytes → Bytes → Bool
greater [] bs = false
greater (a ∷ as') [] = true
greater (a ∷ as') (b ∷ bs) = let rest = greater as' bs in if a == b then rest else ltb b a

difference-is_positive : (a b : ℕ) → is_positive (difference a b) ≡ ltb b a
difference-is_positive a b = elim (compare_cases a b) [
  | inl h ↦ rw (lt→ltb a b h, le→ltb_false b a (omega arith)) refl
  | inr (inl h) ↦ ground arith
  | inr (inr h) ↦ ground arith
]

cmp_from-greater :
    (la lb n : ℕ) (a b : Bytes)
    → la ≡ n + length a
    → lb ≡ n + length b
    → is_positive (cmp_from la lb a b) ≡ greater a b
unfolding cmp_from greater
cmp_from-greater la lb n [] b h k = difference-is_positive la lb ∙ le→ltb_false lb la (omega arith)
cmp_from-greater la lb n (a ∷ as') [] h k =
    difference-is_positive la lb ∙ lt→ltb lb la (omega arith)
cmp_from-greater la lb n (a ∷ as') (b ∷ bs) h k = elim (Bool-cases (a == b)) [
  | inl e ↦ rw e (cmp_from-greater la lb (suc n) as' bs (omega arith) (omega arith))
  | inr e ↦ rw e (difference-is_positive a b)
]

key_cmp-greater : (a b : Bytes) → is_positive (key_cmp a b) ≡ greater a b
unfolding key_cmp
key_cmp-greater a b = cmp_from-greater (length a) (length b) 0 a b (omega arith) (omega arith)

greater_asym : (a b : Bytes) → greater a b ≡ true → greater b a ≡ false
unfolding greater
greater_asym [] b h = absurd (ground arith)
greater_asym (a ∷ as') [] h = refl
greater_asym (a ∷ as') (b ∷ bs) h = elim (compare_cases a b) [
  | inl q ↦ absurd (ground arith)
  | inr (inl q) ↦ ground (arith, greater_asym as' bs)
  | inr (inr q) ↦ ground arith
]

greater_total : (a b : Bytes) → greater a b ≡ false → greater b a ≡ false → a ≡ b
unfolding greater
greater_total [] [] h k = refl
greater_total [] (b ∷ bs) h k = absurd (ground arith)
greater_total (a ∷ as') [] h k = absurd (ground arith)
greater_total (a ∷ as') (b ∷ bs) h k = elim (compare_cases a b) [
  | inl q ↦ absurd (ground arith)
  | inr (inl q) ↦ ap₂ ◌∷◌ q (greater_total as' bs (ground arith) (ground arith))
  | inr (inr q) ↦ absurd (ground arith)
]

greater_trans : (a b c : Bytes) → greater a b ≡ true → greater b c ≡ true → greater a c ≡ true
unfolding greater
greater_trans [] b c h k = absurd (ground arith)
greater_trans (a ∷ as') [] c h k = absurd (ground arith)
greater_trans (a ∷ as') (b ∷ bs) [] h k = refl
greater_trans (a ∷ as') (b ∷ bs) (c ∷ cs) h k = ground (arith, greater_trans as' bs cs)

-- What is not above a key is below whatever is.
greater_below : (a b c : Bytes) → greater c a ≡ true → greater c b ≡ false → greater b a ≡ true
greater_below a b c h k = elim (Bool-cases (greater b c)) [
  | inl e ↦ greater_trans b c a e h
  | inr e ↦ subst (λ x. greater x a ≡ true) (greater_total c b k e) h
]

key_insert_above :
    (a k : Bytes) (ks : List Bytes)
    → greater a k ≡ true
    → key_insert k (a ∷ ks) ≡ a ∷ key_insert k ks
unfolding key_insert
key_insert_above a k ks h = rw (key_cmp-greater a k, h) refl

key_insert_here :
    (a k : Bytes) (ks : List Bytes) → greater a k ≡ false → key_insert k (a ∷ ks) ≡ k ∷ a ∷ ks
unfolding key_insert
key_insert_here a k ks h = rw (key_cmp-greater a k, h) refl

-- Two keys in front of the rest, none of which is above them.
key_insert_two :
    (a b : Bytes) (ks : List Bytes)
    → key_insert a ks ≡ a ∷ ks
    → key_insert b ks ≡ b ∷ ks
    → key_insert a (b ∷ ks) ≡ key_insert b (a ∷ ks)
key_insert_two a b ks h k = elim (Bool-cases (greater b a)) [
  | inl e ↦
      key_insert_above b a ks e ∙ ap (◌∷◌ b) h ∙ sym (key_insert_here a b ks (greater_asym b a e))
  | inr e ↦ elim (Bool-cases (greater a b)) [
    | inl f ↦ key_insert_here b a ks e ∙ ap (◌∷◌ a) (sym k) ∙ sym (key_insert_above a b ks f)
    | inr f ↦ ap₂ (λ x y. key_insert x (y ∷ ks)) (greater_total a b f e) (greater_total b a e f)
  ]
]

-- The first key is above the rest's head, the second is not.
key_insert_apart :
    (a b c : Bytes) (ks : List Bytes)
    → greater c a ≡ true
    → greater c b ≡ false
    → key_insert a (b ∷ c ∷ ks) ≡ key_insert b (c ∷ key_insert a ks)
key_insert_apart a b c ks h k =
    key_insert_above b a (c ∷ ks) (greater_below a b c h k)
    ∙ ap (◌∷◌ b) (key_insert_above c a ks h)
    ∙ sym (key_insert_here c b (key_insert a ks) k)

key_insert_comm :
    (a b : Bytes) (ks : List Bytes)
    → key_insert a (key_insert b ks) ≡ key_insert b (key_insert a ks)
unfolding key_insert
key_insert_comm a b [] = key_insert_two a b [] refl refl
key_insert_comm a b (c ∷ ks) = elim (Bool-cases (greater c a)) [
  | inl e ↦ elim (Bool-cases (greater c b)) [
    | inl f ↦
        ap (key_insert a) (key_insert_above c b ks f)
        ∙ key_insert_above c a (key_insert b ks) e
        ∙ ap (◌∷◌ c) (key_insert_comm a b ks)
        ∙ sym (key_insert_above c b (key_insert a ks) f)
        ∙ sym (ap (key_insert b) (key_insert_above c a ks e))
    | inr f ↦
        ap (key_insert a) (key_insert_here c b ks f)
        ∙ key_insert_apart a b c ks e f
        ∙ sym (ap (key_insert b) (key_insert_above c a ks e))
  ]
  | inr e ↦ elim (Bool-cases (greater c b)) [
    | inl f ↦
        ap (key_insert a) (key_insert_above c b ks f)
        ∙ sym (key_insert_apart b a c ks f e)
        ∙ sym (ap (key_insert b) (key_insert_here c a ks e))
    | inr f ↦
        ap (key_insert a) (key_insert_here c b ks f)
        ∙ key_insert_two a b (c ∷ ks) (key_insert_here c a ks e) (key_insert_here c b ks f)
        ∙ sym (ap (key_insert b) (key_insert_here c a ks e))
  ]
]

sort_from-Permᴰ-eq :
    {ks ls : List Bytes} (sorted : List Bytes)
    → Permᴰ ks ls
    → sort_from sorted ks ≡ sort_from sorted ls
unfolding sort_from
sort_from-Permᴰ-eq sorted Permᴰ.nil = refl
sort_from-Permᴰ-eq sorted (Permᴰ.cons {a = a} {b = b} {l₁ = ks} e d) =
    ap (λ k. sort_from (key_insert k sorted) ks) e ∙ sort_from-Permᴰ-eq (key_insert b sorted) d
sort_from-Permᴰ-eq sorted (Permᴰ.swap {a = a} {b = b} {l = ks} e f) =
    ap (λ s. sort_from s ks)
      (key_insert_comm b a sorted ∙ ap₂ (λ x y. key_insert x (key_insert y sorted)) e f)
sort_from-Permᴰ-eq sorted (Permᴰ.trans d e) =
    sort_from-Permᴰ-eq sorted d ∙ sort_from-Permᴰ-eq sorted e

-- The sort gives the same list for every order in which `lua_next` hands out the keys.
pub key_sort_perm : (ks ls : List Bytes) → Perm ks ls → key_sort ks ≡ key_sort ls
unfolding key_sort
key_sort_perm ks ls p =
    ∥∥₁_elim p (is_set (is_set hlevel) (key_sort ks) (key_sort ls)) (λ d. sort_from-Permᴰ-eq [] d)
