-- ===== src/Det/Canon/Same.antt =====
-- Two struct images that differ in NaN payloads alone.
use blyt_planning.Prelude.{
  ℕ, ◌+◌, ◌-◌, ◌≤◌, ◌<◌, List, [], ◌∷◌, ◌≡◌, sym, ap, ◌∙◌, ◌⊎◌, inl, inr, arith, Bytes, length,
  get_or, All, load_le, le_bytes, list_ext, get_or-write_at_inside,
}
use native.Mathlib.Decide.{dec_le, dec_lt}
use blyt_planning.Det.Nan.{canonicalize_nanf}
use blyt_planning.Det.Canon.{
  canon_at, canon_fields, Fields, Fields-le, Outside, length-canon_at, load_le-canon_at-Apart,
  get_or-canon_at_apart,
}

-- The images agree outside the fields, and each field holds the same number or a NaN in both.
pub record SameUpToNan (os : List ℕ) (bs cs : Bytes) : Type 0 where
  pub same_length : length bs ≡ length cs
  pub fields : All (λ o. canonicalize_nanf (load_le 4 bs o) ≡ canonicalize_nanf (load_le 4 cs o)) os
  pub outside : (j : ℕ) → Outside os j → get_or bs j 0 ≡ get_or cs j 0

-- Inside the field just written, both images hold the bytes of one canonical number.
get_or-canon_at_self :
    (o : ℕ) (bs cs : Bytes) (j : ℕ)
    → o + 4 ≤ length bs
    → o + 4 ≤ length cs
    → canonicalize_nanf (load_le 4 bs o) ≡ canonicalize_nanf (load_le 4 cs o)
    → j < 4
    → get_or (canon_at o bs) (o + j) 0 ≡ get_or (canon_at o cs) (o + j) 0
unfolding canon_at
get_or-canon_at_self o bs cs j h k e p =
    get_or-write_at_inside bs o (le_bytes 4 (canonicalize_nanf (load_le 4 bs o))) j 0 h p
    ∙ ap (λ v. get_or (le_bytes 4 v) j 0) e
    ∙ sym (get_or-write_at_inside cs o (le_bytes 4 (canonicalize_nanf (load_le 4 cs o))) j 0 k p)

canon_at-Outside :
    (o : ℕ) (os : List ℕ) (bs cs : Bytes)
    → o + 4 ≤ length bs
    → SameUpToNan (o ∷ os) bs cs
    → (j : ℕ) → Outside os j
    → get_or (canon_at o bs) j 0 ≡ get_or (canon_at o cs) j 0
canon_at-Outside o os bs cs h s j out = elim (dec_lt j o) [
  | yes p ↦ away (inl p)
  | no p ↦ elim (dec_le (o + 4) j) [
    | yes q ↦ away (inr q)
    | no q ↦
        ap (λ k. get_or (canon_at o bs) k 0) {x = j} {y = o + (j - o)} (omega arith)
        ∙ get_or-canon_at_self o bs cs (j - o) h (omega (arith, s.same_length)) s.fields.0
            (omega arith)
        ∙ ap (λ k. get_or (canon_at o cs) k 0) {x = o + (j - o)} {y = j} (omega arith)
  ]
]
  where
    away : (j < o) ⊎ (o + 4 ≤ j) → get_or (canon_at o bs) j 0 ≡ get_or (canon_at o cs) j 0
    away r =
        get_or-canon_at_apart o bs j r ∙ s.outside j (r, out) ∙ sym (get_or-canon_at_apart o cs j r)

canon_at-Fields :
    (o lo hi : ℕ) (os : List ℕ) (bs cs : Bytes)
    → Fields lo hi os
    → o + 4 ≤ lo
    → All (λ q. canonicalize_nanf (load_le 4 bs q) ≡ canonicalize_nanf (load_le 4 cs q)) os
    → All
        (λ q.
          canonicalize_nanf (load_le 4 (canon_at o bs) q)
          ≡ canonicalize_nanf (load_le 4 (canon_at o cs) q))
        os
canon_at-Fields o lo hi [] bs cs f h a = tt
canon_at-Fields o lo hi (q ∷ os) bs cs (p, f) h (e, a) = (
  ap canonicalize_nanf (load_le-canon_at-Apart 4 o q bs (inr (omega arith)))
      ∙ e
      ∙ sym (ap canonicalize_nanf (load_le-canon_at-Apart 4 o q cs (inr (omega arith)))),
  canon_at-Fields o (q + 4) hi os bs cs f (omega arith) a,
)

-- Images that differ in NaN payloads alone are canonicalised to the same bytes.
pub canon_fields-SameUpToNan :
    (lo hi : ℕ) (os : List ℕ) (bs cs : Bytes)
    → Fields lo hi os
    → hi ≤ length bs
    → SameUpToNan os bs cs
    → canon_fields os bs ≡ canon_fields os cs
unfolding canon_fields
canon_fields-SameUpToNan lo hi [] bs cs f h s = list_ext bs cs 0 s.same_length (λ j. s.outside j tt)
canon_fields-SameUpToNan lo hi (o ∷ os) bs cs (p, f) h s =
    canon_fields-SameUpToNan (o + 4) hi os (canon_at o bs) (canon_at o cs) f
      (omega (arith, length-canon_at o bs))
      (record {
        same_length = length-canon_at o bs ∙ s.same_length ∙ sym (length-canon_at o cs);
        fields = canon_at-Fields o (o + 4) hi os bs cs f (omega arith) s.fields.1;
        outside = canon_at-Outside o os bs cs (omega (arith, Fields-le (o + 4) hi os f)) s;
      })
