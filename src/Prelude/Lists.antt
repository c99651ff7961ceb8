-- ===== src/Prelude/Lists.antt =====
-- Lists measured and indexed by native numbers, under the library's names, and writing a run of
-- elements into an array at an offset.
use Prim.Native.Nat.{ℕ, zero, suc, ◌+◌, ◌-◌, ◌≤◌, ◌<◌}
use mathlib.Core.Path.{◌≡◌, refl, ap, ap₂, ◌∙◌, sym}
use mathlib.Core.Logic.{◌≢◌}
use mathlib.Core.List.{List, [], ◌∷◌, ◌++◌, append-nil, append_assoc}
use native.Mathlib.Omega.{arith}

module _ {ℓ} {A : Type ℓ} where
  abbrev pub length : List A → ℕ
  length [] = 0
  length (x ∷ xs) = suc (length xs)

  abbrev pub get_or : List A → ℕ → A → A
  get_or [] i d = d
  get_or (x ∷ xs) zero d = x
  get_or (x ∷ xs) (suc i) d = get_or xs i d

  -- A write out of bounds changes nothing.
  abbrev pub set : List A → ℕ → A → List A
  set [] i v = []
  set (x ∷ xs) zero v = v ∷ xs
  set (x ∷ xs) (suc i) v = x ∷ set xs i v

  abbrev pub take : ℕ → List A → List A
  take zero xs = []
  take (suc n) [] = []
  take (suc n) (x ∷ xs) = x ∷ take n xs

  abbrev pub drop : ℕ → List A → List A
  drop zero xs = xs
  drop (suc n) [] = []
  drop (suc n) (x ∷ xs) = drop n xs

  abbrev pub replicate : ℕ → A → List A
  replicate zero a = []
  replicate (suc n) a = a ∷ replicate n a

  -- A predicate at each element.
  abbrev pub All {κ} : (A → Type κ) → List A → Type κ
  All P [] = Unit
  All P (x ∷ xs) = P x × All P xs

  -- Arrays that lie one behind the other.
  abbrev pub joined : List (List A) → List A
  joined [] = []
  joined (xs ∷ rest) = xs ++ joined rest

  -- `for (i = 0; i < n; i++) dst[off + i] = src[i]`, with `src` the `n` elements.
  unfoldable pub write_at : List A → ℕ → List A → List A
  write_at dst off [] = dst
  write_at [] off (v ∷ vs) = []
  write_at (x ∷ dst) (suc off) (v ∷ vs) = x ∷ write_at dst off (v ∷ vs)
  write_at (x ∷ dst) zero (v ∷ vs) = v ∷ write_at dst zero vs

module _ {ℓ} {A : Type ℓ} where
  pub length-append : (xs ys : List A) → length (xs ++ ys) ≡ length xs + length ys
  length-append [] ys = omega arith
  length-append (x ∷ xs) ys = omega (arith, length-append xs ys)

  pub length-set : (xs : List A) (i : ℕ) (v : A) → length (set xs i v) ≡ length xs
  length-set [] i v = refl
  length-set (x ∷ xs) zero v = refl
  length-set (x ∷ xs) (suc i) v = ap suc (length-set xs i v)

  pub get_or-set_self :
      (xs : List A) (i : ℕ) (v d : A) → i < length xs → get_or (set xs i v) i d ≡ v
  get_or-set_self [] i v d h = absurd (omega arith)
  get_or-set_self (x ∷ xs) zero v d h = refl
  get_or-set_self (x ∷ xs) (suc i) v d h = get_or-set_self xs i v d (omega arith)

  pub get_or-set_ne :
      (xs : List A) (i j : ℕ) (v d : A) → i ≢ j → get_or (set xs i v) j d ≡ get_or xs j d
  get_or-set_ne [] i j v d h = refl
  get_or-set_ne (x ∷ xs) zero zero v d h = absurd (h refl)
  get_or-set_ne (x ∷ xs) zero (suc j) v d h = refl
  get_or-set_ne (x ∷ xs) (suc i) zero v d h = refl
  get_or-set_ne (x ∷ xs) (suc i) (suc j) v d h = get_or-set_ne xs i j v d (λ e. h (ap suc e))

  pub length-take : (n : ℕ) (xs : List A) → n ≤ length xs → length (take n xs) ≡ n
  length-take zero xs h = refl
  length-take (suc n) [] h = absurd (omega arith)
  length-take (suc n) (x ∷ xs) h = ap suc (length-take n xs (omega arith))

  pub length-drop : (n : ℕ) (xs : List A) → length (drop n xs) ≡ length xs - n
  length-drop zero xs = omega arith
  length-drop (suc n) [] = omega arith
  length-drop (suc n) (x ∷ xs) = omega (arith, length-drop n xs)

  pub length-replicate : (n : ℕ) (a : A) → length (replicate n a) ≡ n
  length-replicate zero a = refl
  length-replicate (suc n) a = ap suc (length-replicate n a)

  pub take-append : (xs ys : List A) → take (length xs) (xs ++ ys) ≡ xs
  take-append [] ys = refl
  take-append (x ∷ xs) ys = ap (◌∷◌ x) (take-append xs ys)

  pub take-append_of_eq : (n : ℕ) (xs ys : List A) → length xs ≡ n → take n (xs ++ ys) ≡ xs
  take-append_of_eq zero [] ys h = refl
  take-append_of_eq zero (x ∷ xs) ys h = absurd (omega arith)
  take-append_of_eq (suc n) [] ys h = absurd (omega arith)
  take-append_of_eq (suc n) (x ∷ xs) ys h = ap (◌∷◌ x) (take-append_of_eq n xs ys (omega arith))

  -- The elements before a write, with the element written.
  pub take-set :
      (xs : List A) (i : ℕ) (v : A)
      → i < length xs
      → take (suc i) (set xs i v) ≡ take i xs ++ v ∷ []
  take-set [] i v h = absurd (omega arith)
  take-set (x ∷ xs) zero v h = refl
  take-set (x ∷ xs) (suc i) v h = ap (◌∷◌ x) (take-set xs i v (omega arith))

  pub take-append_le : (n : ℕ) (xs ys : List A) → n ≤ length xs → take n (xs ++ ys) ≡ take n xs
  take-append_le zero xs ys h = refl
  take-append_le (suc n) [] ys h = absurd (omega arith)
  take-append_le (suc n) (x ∷ xs) ys h = ap (◌∷◌ x) (take-append_le n xs ys (omega arith))

  -- From array `i` on, the arrays start with that array.
  pub joined-drop :
      (xss : List (List A)) (i : ℕ)
      → joined (drop i xss) ≡ get_or xss i [] ++ joined (drop (suc i) xss)
  joined-drop [] zero = refl
  joined-drop [] (suc i) = refl
  joined-drop (xs ∷ xss) zero = refl
  joined-drop (xs ∷ xss) (suc i) = joined-drop xss i

  pub joined-append_one :
      (xss : List (List A)) (xs : List A) → joined (xss ++ xs ∷ []) ≡ joined xss ++ xs
  joined-append_one [] xs = append-nil xs
  joined-append_one (ys ∷ xss) xs =
      ap (◌++◌ ys) (joined-append_one xss xs) ∙ sym (append_assoc ys (joined xss) xs)

  pub drop-append_of_eq : (n : ℕ) (xs ys : List A) → length xs ≡ n → drop n (xs ++ ys) ≡ ys
  drop-append_of_eq zero [] ys h = refl
  drop-append_of_eq zero (x ∷ xs) ys h = absurd (omega arith)
  drop-append_of_eq (suc n) [] ys h = absurd (omega arith)
  drop-append_of_eq (suc n) (x ∷ xs) ys h = drop-append_of_eq n xs ys (omega arith)

  pub take_all : (n : ℕ) (xs : List A) → length xs ≡ n → take n xs ≡ xs
  take_all zero [] h = refl
  take_all zero (x ∷ xs) h = absurd (omega arith)
  take_all (suc n) [] h = absurd (omega arith)
  take_all (suc n) (x ∷ xs) h = ap (◌∷◌ x) (take_all n xs (omega arith))

  pub drop-nil : (n : ℕ) → drop {A = A} n [] ≡ []
  drop-nil zero = refl
  drop-nil (suc n) = refl

  pub drop-drop : (m n : ℕ) (xs : List A) → drop n (drop m xs) ≡ drop (m + n) xs
  drop-drop zero n xs = ap (λ k. drop k xs) (omega arith)
  drop-drop (suc m) n [] = drop-nil n ∙ sym (drop-nil (suc m + n))
  drop-drop (suc m) n (x ∷ xs) =
      drop-drop m n xs ∙ ap (λ k. drop k (x ∷ xs)) {x = suc (m + n)} (omega arith)

  pub take-append-drop : (n : ℕ) (xs : List A) → take n xs ++ drop n xs ≡ xs
  take-append-drop zero xs = refl
  take-append-drop (suc n) [] = refl
  take-append-drop (suc n) (x ∷ xs) = ap (◌∷◌ x) (take-append-drop n xs)

  pub length-write_at :
      (dst : List A) (off : ℕ) (vs : List A) → length (write_at dst off vs) ≡ length dst
  unfolding write_at
  length-write_at dst off [] = refl
  length-write_at [] off (v ∷ vs) = refl
  length-write_at (x ∷ dst) (suc off) (v ∷ vs) = ap suc (length-write_at dst off (v ∷ vs))
  length-write_at (x ∷ dst) zero (v ∷ vs) = ap suc (length-write_at dst zero vs)

  -- Writing over the middle of an array, the three parts given.
  pub write_at-append :
      (pre mid post vs : List A) (off : ℕ)
      → length pre ≡ off
      → length vs ≡ length mid
      → write_at (pre ++ (mid ++ post)) off vs ≡ pre ++ (vs ++ post)
  unfolding write_at
  write_at-append [] [] post [] off h k = refl
  write_at-append [] [] post (v ∷ vs) off h k = absurd (omega arith)
  write_at-append [] (m ∷ mid) post [] off h k = absurd (omega arith)
  write_at-append [] (m ∷ mid) post (v ∷ vs) zero h k =
      ap (◌∷◌ v) (write_at-append [] mid post vs zero refl (omega arith))
  write_at-append [] (m ∷ mid) post (v ∷ vs) (suc off) h k = absurd (omega arith)
  write_at-append (p ∷ pre) mid post vs zero h k = absurd (omega arith)
  write_at-append (p ∷ pre) [] post [] (suc off) h k = refl
  write_at-append (p ∷ pre) [] post (v ∷ vs) (suc off) h k = absurd (omega arith)
  write_at-append (p ∷ pre) (m ∷ mid) post [] (suc off) h k = absurd (omega arith)
  write_at-append (p ∷ pre) (m ∷ mid) post (v ∷ vs) (suc off) h k =
      ap (◌∷◌ p) (write_at-append pre (m ∷ mid) post (v ∷ vs) off (omega arith) k)

  -- An element at an index, on either side of a write.
  pub get_or-append_left :
      (xs ys : List A) (i : ℕ) (d : A) → i < length xs → get_or (xs ++ ys) i d ≡ get_or xs i d
  get_or-append_left [] ys i d h = absurd (omega arith)
  get_or-append_left (x ∷ xs) ys zero d h = refl
  get_or-append_left (x ∷ xs) ys (suc i) d h = get_or-append_left xs ys i d (omega arith)

  pub get_or-write_at_inside :
      (dst : List A) (off : ℕ) (vs : List A) (j : ℕ) (d : A)
      → off + length vs ≤ length dst
      → j < length vs
      → get_or (write_at dst off vs) (off + j) d ≡ get_or vs j d
  unfolding write_at
  get_or-write_at_inside dst off [] j d h k = absurd (omega arith)
  get_or-write_at_inside [] off (v ∷ vs) j d h k = absurd (omega arith)
  get_or-write_at_inside (x ∷ dst) (suc off) (v ∷ vs) j d h k =
      ap (λ i. get_or (x ∷ write_at dst off (v ∷ vs)) i d) {y = suc (off + j)} (omega arith)
      ∙ get_or-write_at_inside dst off (v ∷ vs) j d (omega arith) k
  get_or-write_at_inside (x ∷ dst) zero (v ∷ vs) zero d h k = refl
  get_or-write_at_inside (x ∷ dst) zero (v ∷ vs) (suc j) d h k =
      ap (λ i. get_or (v ∷ write_at dst zero vs) i d) {y = suc (0 + j)} (omega arith)
      ∙ get_or-write_at_inside dst zero vs j d (omega arith) (omega arith)

  pub get_or-write_at_before :
      (dst : List A) (off : ℕ) (vs : List A) (j : ℕ) (d : A)
      → j < off
      → get_or (write_at dst off vs) j d ≡ get_or dst j d
  unfolding write_at
  get_or-write_at_before dst off [] j d h = refl
  get_or-write_at_before [] off (v ∷ vs) j d h = refl
  get_or-write_at_before (x ∷ dst) zero (v ∷ vs) j d h = absurd (omega arith)
  get_or-write_at_before (x ∷ dst) (suc off) (v ∷ vs) zero d h = refl
  get_or-write_at_before (x ∷ dst) (suc off) (v ∷ vs) (suc j) d h =
      get_or-write_at_before dst off (v ∷ vs) j d (omega arith)

  pub get_or-write_at_after :
      (dst : List A) (off : ℕ) (vs : List A) (j : ℕ) (d : A)
      → off + length vs ≤ j
      → get_or (write_at dst off vs) j d ≡ get_or dst j d
  unfolding write_at
  get_or-write_at_after dst off [] j d h = refl
  get_or-write_at_after [] off (v ∷ vs) j d h = refl
  get_or-write_at_after (x ∷ dst) off (v ∷ vs) zero d h = absurd (omega arith)
  get_or-write_at_after (x ∷ dst) zero (v ∷ vs) (suc j) d h =
      get_or-write_at_after dst zero vs j d (omega arith)
  get_or-write_at_after (x ∷ dst) (suc off) (v ∷ vs) (suc j) d h =
      get_or-write_at_after dst off (v ∷ vs) j d (omega arith)

  -- Arrays of one length that agree at each index are equal.
  pub list_ext :
      (xs ys : List A) (d : A)
      → length xs ≡ length ys
      → ((j : ℕ) → get_or xs j d ≡ get_or ys j d)
      → xs ≡ ys
  list_ext [] [] d h k = refl
  list_ext [] (y ∷ ys) d h k = absurd (omega arith)
  list_ext (x ∷ xs) [] d h k = absurd (omega arith)
  list_ext (x ∷ xs) (y ∷ ys) d h k = ap₂ ◌∷◌ (k 0) (list_ext xs ys d (omega arith) (λ j. k (suc j)))

  -- Past the end there is the default.
  pub get_or-past : (xs : List A) (j : ℕ) (d : A) → length xs ≤ j → get_or xs j d ≡ d
  get_or-past [] j d h = refl
  get_or-past (x ∷ xs) zero d h = absurd (omega arith)
  get_or-past (x ∷ xs) (suc j) d h = get_or-past xs j d (omega arith)

  pub get_or-replicate : (n j : ℕ) (d : A) → get_or (replicate n d) j d ≡ d
  get_or-replicate zero j d = refl
  get_or-replicate (suc n) zero d = refl
  get_or-replicate (suc n) (suc j) d = get_or-replicate n j d

  -- A part of an array, indexed.
  pub get_or-take-drop :
      (n o : ℕ) (xs : List A) (j : ℕ) (d : A)
      → j < n
      → get_or (take n (drop o xs)) j d ≡ get_or xs (o + j) d
  get_or-take-drop zero o xs j d h = absurd (omega arith)
  get_or-take-drop (suc n) zero [] j d h = refl
  get_or-take-drop (suc n) zero (x ∷ xs) zero d h = refl
  get_or-take-drop (suc n) zero (x ∷ xs) (suc j) d h =
      get_or-take-drop n zero xs j d (omega arith)
      ∙ ap (λ k. get_or (x ∷ xs) k d) {x = suc (0 + j)} (omega arith)
  get_or-take-drop (suc n) (suc o) [] j d h = refl
  get_or-take-drop (suc n) (suc o) (x ∷ xs) j d h =
      get_or-take-drop (suc n) o xs j d h
      ∙ ap (λ k. get_or (x ∷ xs) k d) {x = suc (o + j)} (omega arith)
