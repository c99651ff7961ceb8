-- ===== src/Migrate/Fields.antt =====
-- What the walk leaves in each field of the new struct.
use blyt_planning.Prelude.{
  ℕ, ◌≤◌, ◌<◌, ◌+◌, ◌^◌, ◌%◌, ◌≡◌, ◌∙◌, refl, sym, ap, ◌⊎◌, inl, inr, true, false, Option, none,
  some, List, [], ◌∷◌, arith, if◌then◌else◌, Bytes, take, drop, replicate, length, get_or, All,
  write_at, Apart, Bool-cases, ltb, ltb→lt, le→ltb_false, get_or-write_at_inside,
  get_or-write_at_after, get_or-write_at_apart, length-write_at, get_or-past, get_or-replicate,
  length-replicate,
}
use blyt_planning.Migrate.{
  FieldDesc, Layout, Retype, find_field, same_kind, retyped, overflows, migrate_found,
  migrate_field, migrate_fields, migrate_region_bytes,
}

module _ (old_layout : Layout) (old_bytes : Bytes) (on_retype : Option Retype) where
  -- The bytes that a field of the new struct starts with; those behind them are zero. A field
  -- found unchanged has its old bytes, a retyped one what the callback writes, and an added one,
  -- or a retyped one with no callback, none.
  abbrev pub value_found : FieldDesc → Option FieldDesc → Bytes
  value_found nf none = []
  value_found nf (some of) =
      if same_kind of nf
      then take nf.size (drop of.offset old_bytes)
      else retyped old_layout old_bytes on_retype on_retype of nf

  abbrev pub field_value : FieldDesc → Bytes
  field_value nf = value_found nf (find_field nf.name old_layout.fields)

  -- A field found under the old layout lies inside the old struct.
  abbrev pub FoundFits : Option FieldDesc → Type 0
  FoundFits none = Unit
  FoundFits (some of) = of.offset + of.size ≤ old_layout.total_size

  -- The field and the one it is found as lie inside their structs, and no more than the field is
  -- written.
  abbrev pub Fits : ℕ → FieldDesc → Type 0
  Fits total nf =
      (nf.offset + nf.size ≤ total)
      × (length (field_value nf) ≤ nf.size)
      × FoundFits (find_field nf.name old_layout.fields)

  -- The byte at `p` lies outside a field.
  abbrev pub OutsideField : ℕ → FieldDesc → Type 0
  OutsideField p nf = (p < nf.offset) ⊎ (nf.offset + nf.size ≤ p)

  -- No two fields share a byte.
  abbrev pub AllApart : List FieldDesc → Type 0
  AllApart [] = Unit
  AllApart (f ∷ fs) = All (λ g. Apart f.offset f.size g.offset g.size) fs × AllApart fs

  -- The writes of the walk, one per field.
  abbrev pub written : List FieldDesc → Bytes → Bytes
  written [] bs = bs
  written (nf ∷ nfs) bs = written nfs (write_at bs nf.offset (field_value nf))

  inside_struct :
      (f : FieldDesc) (total : ℕ)
      → total < 2 ^ 32
      → f.offset + f.size ≤ total
      → overflows f total ≡ false
  inside_struct f total h k = le→ltb_false total ((f.offset + f.size) % 2 ^ 32) (omega arith)

  migrate_found_lem :
      (nf : FieldDesc) (bs : Bytes) (of : Option FieldDesc)
      → old_layout.total_size < 2 ^ 32
      → FoundFits of
      → migrate_found old_layout old_bytes on_retype nf bs of
        ≡ (true, write_at bs nf.offset (value_found nf of))
  unfolding migrate_found write_at
  migrate_found_lem nf bs none h fits = refl
  migrate_found_lem nf bs (some of) h fits =
      rw (inside_struct of old_layout.total_size h fits)
        (elim (Bool-cases (same_kind of nf)) [ inl e ↦ rw e refl | inr e ↦ rw e refl ])

  migrate_field_lem :
      (total : ℕ) (nf : FieldDesc) (bs : Bytes)
      → old_layout.total_size < 2 ^ 32
      → total < 2 ^ 32
      → Fits total nf
      → migrate_field old_layout old_bytes on_retype total nf bs
        ≡ (true, write_at bs nf.offset (field_value nf))
  unfolding migrate_field
  migrate_field_lem total nf bs h k (inside, short, found) =
      rw (inside_struct nf total k inside)
        (migrate_found_lem nf bs (find_field nf.name old_layout.fields) h found)

  pub migrate_fields_lem :
      (total : ℕ) (nfs : List FieldDesc) (bs : Bytes)
      → old_layout.total_size < 2 ^ 32
      → total < 2 ^ 32
      → All (Fits total) nfs
      → migrate_fields old_layout old_bytes on_retype total nfs bs ≡ (true, written nfs bs)
  unfolding migrate_fields
  migrate_fields_lem total [] bs h k fits = refl
  migrate_fields_lem total (nf ∷ nfs) bs h k (fit, fits) =
      ap
        (λ q.
          let rest = migrate_fields old_layout old_bytes on_retype total nfs q.1 in
          if q.0 then rest else (false, q.1))
        (migrate_field_lem total nf bs h k fit)
      ∙ migrate_fields_lem total nfs (write_at bs nf.offset (field_value nf)) h k fits

  -- The walk leaves the bytes outside the fields alone.
  pub written-outside :
      (total : ℕ) (nfs : List FieldDesc) (bs : Bytes) (p : ℕ)
      → All (Fits total) nfs
      → All (OutsideField p) nfs
      → get_or (written nfs bs) p 0 ≡ get_or bs p 0
  written-outside total [] bs p fits out = refl
  written-outside total (nf ∷ nfs) bs p ((inside, short, found), fits) (out, outs) =
      written-outside total nfs (write_at bs nf.offset (field_value nf)) p fits outs
      ∙ get_or-write_at_apart bs nf.offset (field_value nf) p (apart out)
    where
      apart : OutsideField p nf → (p < nf.offset) ⊎ (nf.offset + length (field_value nf) ≤ p)
      apart (inl q) = inl q
      apart (inr q) = inr (omega arith)

  -- Every byte of the fields is zero.
  abbrev Zeroed : Bytes → FieldDesc → Type 0
  Zeroed bs nf = (j : ℕ) → j < nf.size → get_or bs (nf.offset + j) 0 ≡ 0

  -- The field holds its value, and zero behind it.
  abbrev pub Holds : Bytes → FieldDesc → Type 0
  Holds bs nf = (j : ℕ) → j < nf.size → get_or bs (nf.offset + j) 0 ≡ get_or (field_value nf) j 0

  own_field :
      (total : ℕ) (nf : FieldDesc) (bs : Bytes)
      → total ≤ length bs
      → Fits total nf
      → Zeroed bs nf
      → Holds (write_at bs nf.offset (field_value nf)) nf
  own_field total nf bs h (inside, short, found) zeroed j lt =
      elim (Bool-cases (ltb j (length (field_value nf)))) [
        | inl e ↦
            get_or-write_at_inside bs nf.offset (field_value nf) j 0 (omega arith)
              (ltb→lt j (length (field_value nf)) e)
        | inr e ↦
            let beyond : length (field_value nf) ≤ j = ground arith in
            get_or-write_at_after bs nf.offset (field_value nf) (nf.offset + j) 0 (omega arith)
            ∙ zeroed j lt
            ∙ sym (get_or-past (field_value nf) j 0 beyond)
      ]

  outside_rest :
      (nf : FieldDesc) (nfs : List FieldDesc) (j : ℕ)
      → j < nf.size
      → All (λ g. Apart nf.offset nf.size g.offset g.size) nfs
      → All (OutsideField (nf.offset + j)) nfs
  outside_rest nf [] j h aparts = tt
  outside_rest nf (g ∷ gs) j h (apart, aparts) = (out apart, outside_rest nf gs j h aparts)
    where
      out : Apart nf.offset nf.size g.offset g.size → OutsideField (nf.offset + j) g
      out (inl q) = inl (omega arith)
      out (inr q) = inr (omega arith)

  still-Zeroed :
      (nf : FieldDesc) (bs : Bytes) (gs : List FieldDesc)
      → length (field_value nf) ≤ nf.size
      → All (λ g. Apart nf.offset nf.size g.offset g.size) gs
      → All (Zeroed bs) gs
      → All (Zeroed (write_at bs nf.offset (field_value nf))) gs
  still-Zeroed nf bs [] short aparts zs = tt
  still-Zeroed nf bs (g ∷ gs) short (apart, aparts) (z, zs) = (
    (λ j lt.
        get_or-write_at_apart bs nf.offset (field_value nf) (g.offset + j) (away j lt apart)
        ∙ z j lt),
    still-Zeroed nf bs gs short aparts zs,
  )
    where
      away :
          (j : ℕ)
          → j < g.size
          → Apart nf.offset nf.size g.offset g.size
          → (g.offset + j < nf.offset) ⊎ (nf.offset + length (field_value nf) ≤ g.offset + j)
      away j lt (inl q) = inr (omega arith)
      away j lt (inr q) = inl (omega arith)

  pub written-Holds :
      (total : ℕ) (nfs : List FieldDesc) (bs : Bytes)
      → total ≤ length bs
      → All (Fits total) nfs
      → AllApart nfs
      → All (Zeroed bs) nfs
      → All (Holds (written nfs bs)) nfs
  written-Holds total [] bs h fits aparts zs = tt
  written-Holds total (nf ∷ nfs) bs h ((inside, short, found), fits) (apart, aparts) (z, zs) = (
    (λ j lt.
        written-outside total nfs (write_at bs nf.offset (field_value nf)) (nf.offset + j) fits
          (outside_rest nf nfs j lt apart)
        ∙ own_field total nf bs h (inside, short, found) z j lt),
    written-Holds total nfs (write_at bs nf.offset (field_value nf))
        (omega (arith, length-write_at bs nf.offset (field_value nf))) fits aparts
        (still-Zeroed nf bs nfs short apart zs),
  )

  -- The struct starts zeroed.
  pub zero_filled :
      (bs : Bytes) (n p : ℕ)
      → n ≤ length bs
      → p < n
      → get_or (write_at bs 0 (replicate n 0)) p 0 ≡ 0
  zero_filled bs n p h lt =
      ap (λ i. get_or (write_at bs 0 (replicate n 0)) i 0) {x = p} {y = 0 + p} (omega arith)
      ∙ get_or-write_at_inside bs 0 (replicate n 0) p 0
          (omega (arith, length-replicate {A = ℕ} n 0))
          (omega (arith, length-replicate {A = ℕ} n 0))
      ∙ get_or-replicate n p 0

  All-Zeroed :
      (bs : Bytes) (n : ℕ) (nfs : List FieldDesc)
      → n ≤ length bs
      → All (Fits n) nfs
      → All (Zeroed (write_at bs 0 (replicate n 0))) nfs
  All-Zeroed bs n [] h fits = tt
  All-Zeroed bs n (nf ∷ nfs) h ((inside, short, found), fits) =
      ((λ j lt. zero_filled bs n (nf.offset + j) h (omega arith)), All-Zeroed bs n nfs h fits)

  pub migrate_region_bytes-Holds :
      (new_bytes : Bytes) (new_layout : Layout)
      → old_layout.total_size < 2 ^ 32
      → new_layout.total_size < 2 ^ 32
      → new_layout.total_size ≤ length new_bytes
      → All (Fits new_layout.total_size) new_layout.fields
      → AllApart new_layout.fields
      → ((migrate_region_bytes old_layout old_bytes on_retype new_bytes new_layout).0 ≡ true)
        × All
            (Holds (migrate_region_bytes old_layout old_bytes on_retype new_bytes new_layout).1)
            new_layout.fields
  unfolding migrate_region_bytes
  migrate_region_bytes-Holds new_bytes new_layout h k sized fits aparts =
      let start = write_at new_bytes 0 (replicate new_layout.total_size 0) in
      let walked = migrate_fields_lem new_layout.total_size new_layout.fields start h k fits in
      (
        ap (λ q. q.0) walked,
        rw (ap (λ q. q.1) walked) (
            written-Holds new_layout.total_size new_layout.fields start
              (omega (arith, length-write_at new_bytes 0 (replicate new_layout.total_size 0))) fits
              aparts (All-Zeroed new_bytes new_layout.total_size new_layout.fields sized fits)),
      )

  -- Under the same conditions on sizes and fields, every byte of the new struct that lies in no
  -- field is zero after the walk.
  pub migrate_region_bytes-padding :
      (new_bytes : Bytes) (new_layout : Layout) (p : ℕ)
      → old_layout.total_size < 2 ^ 32
      → new_layout.total_size < 2 ^ 32
      → new_layout.total_size ≤ length new_bytes
      → All (Fits new_layout.total_size) new_layout.fields
      → p < new_layout.total_size
      → All (OutsideField p) new_layout.fields
      → get_or (migrate_region_bytes old_layout old_bytes on_retype new_bytes new_layout).1 p 0 ≡ 0
  unfolding migrate_region_bytes
  migrate_region_bytes-padding new_bytes new_layout p h k sized fits lt out =
      let start = write_at new_bytes 0 (replicate new_layout.total_size 0) in
      ap (λ q. get_or q.1 p 0)
        (migrate_fields_lem new_layout.total_size new_layout.fields start h k fits)
      ∙ written-outside new_layout.total_size new_layout.fields start p fits out
      ∙ zero_filled new_bytes new_layout.total_size p sized lt
