-- ===== src/MigrateLoad/Saved.antt =====
-- What the plain load loads, the migrating load loads in the same way.
use blyt_planning.Prelude.{
  ℕ, Bool, true, false, Option, none, some, List, ◌≡◌, refl, ap, inl, inr, Bytes, ltb, ◌==◌,
  Bool-cases, arith, ◌∙◌,
}
use blyt_planning.SaveState.{
  Runtime, header_size, read_header, save_state_magic, save_state_version, save_state_load,
  ensure_init, load_checked, ◌>>=◌,
}
use blyt_planning.MigrateLoad.{MigrateRegion, save_state_load_migrate}

abbrev verdict : Option (Bool × Runtime) → Bool
verdict none = false
verdict (some q) = q.0

contradiction : {A : Type 0} (b : Bool) → b ≡ true → b ≡ false → A
contradiction b p q = ground arith

-- The way to the plain load.
matched :
    (migrate_regions : List (Option MigrateRegion)) (buf : Bytes) (size : ℕ) (rt : Runtime)
    (scratch : Bytes)
    → ltb size header_size ≡ false
    → ((read_header buf).magic == save_state_magic) ≡ true
    → ((read_header buf).version == save_state_version) ≡ true
    → ltb size (read_header buf).total_size ≡ false
    → ((read_header buf).layout_hash == rt.layout_hash) ≡ true
    → save_state_load_migrate migrate_regions buf size rt scratch
      ≡ (save_state_load buf size rt >>= λ q. some (q.0, q.1, scratch))
unfolding save_state_load_migrate
matched migrate_regions buf size rt scratch a b c e d = rw (a, b, c, e, d) refl

-- Once `save_state_init` has run, whatever buffer `save_state_load` loads with success,
-- `save_state_load_migrate` loads with success too and leaves the same runtime, whatever
-- migrations are registered, and the scratch buffer as it was.
pub load_migrate-load :
    (migrate_regions : List (Option MigrateRegion)) (buf : Bytes) (size : ℕ) (rt rt' : Runtime)
    (scratch : Bytes)
    → rt.initialized ≡ true
    → save_state_load buf size rt ≡ some (true, rt')
    → save_state_load_migrate migrate_regions buf size rt scratch ≡ some (true, rt', scratch)
unfolding save_state_load ensure_init load_checked
load_migrate-load migrate_regions buf size rt rt' scratch on ok =
    elim (Bool-cases (ltb size header_size)) [
      | inl a ↦ contradiction _ (ap verdict ok) (rw a refl)
      | inr a ↦ elim (Bool-cases ((read_header buf).magic == save_state_magic)) [
        | inr b ↦ contradiction _ (ap verdict ok) (rw (a, b) refl)
        | inl b ↦ elim (Bool-cases ((read_header buf).version == save_state_version)) [
          | inr c ↦ contradiction _ (ap verdict ok) (rw (a, b, c) refl)
          | inl c ↦ elim (Bool-cases ((read_header buf).layout_hash == rt.layout_hash)) [
            | inr d ↦ contradiction _ (ap verdict ok) (rw (a, b, c, on, d) refl)
            | inl d ↦ elim (Bool-cases (ltb size (read_header buf).total_size)) [
              | inl e ↦ contradiction _ (ap verdict ok) (rw (a, b, c, on, d, e) refl)
              | inr e ↦
                  matched migrate_regions buf size rt scratch a b c e d
                  ∙ ap (λ o. o >>= λ q. some (q.0, q.1, scratch)) ok
            ]
          ]
        ]
      ]
    ]
