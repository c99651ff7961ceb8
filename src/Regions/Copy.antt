-- ===== src/Regions/Copy.antt =====
-- What the regions' callbacks share: the copy loops, and a save that canonicalises f32 fields.
use blyt_planning.Prelude.{
  ℕ, Bool, true, false, List, ◌++◌, ◌≡◌, refl, ap, ◌∙◌, Bytes, length, take, take-append_of_eq,
  ◌==◌, if◌then◌else◌, eq→==, sym,
}
use blyt_planning.Det.Canon.{canon_fields, length-canon_fields}
use blyt_planning.Tracked.{TrackedRegion}
use blyt_planning.SaveState.Regions.{Saves}

-- `if (n != sizeof(g)) return 0;`, then `n` bytes are copied over the struct.
unfoldable pub copy_in : ℕ → Bytes → ℕ → Bytes → Bool × Bytes
copy_in size src n storage = if n == size then (true, take n src) else (false, storage)

-- The struct as it is, copied out.
unfoldable pub copy_out : Bytes → Bytes × Bytes
copy_out storage = (storage, storage)

-- The f32 fields at the given offsets are canonicalised in the struct, which is then copied out.
unfoldable pub canon_copy_out : List ℕ → Bytes → Bytes × Bytes
canon_copy_out fields storage = copy_out (canon_fields fields storage)

pub copy_in-append :
    (size : ℕ) (bytes rest old : Bytes)
    → length bytes ≡ size
    → copy_in size (bytes ++ rest) size old ≡ (true, bytes)
unfolding copy_in
copy_in-append size bytes rest old h =
    rw (eq→== size size refl) (ap (λ b. (true, b)) (take-append_of_eq size bytes rest h))

-- A region whose callbacks are these copies keeps the save state's contract at every storage of
-- its size.
module _ (r : TrackedRegion) (load_is : r.load ≡ copy_in r.size) (storage : Bytes)
    (sized : length storage ≡ r.size) where
  pub copied-Saves :
      r.save storage ≡ copy_out storage → Saves (record { region = r; storage = storage })
  unfolding copy_out
  copied-Saves save_is = record {
    save_length = ap (λ q. length q.0) save_is ∙ sized;
    load_save = λ rest old.
        ap (λ f. f ((r.save storage).0 ++ rest) r.size old) load_is
        ∙ ap (λ q. copy_in r.size (q.0 ++ rest) r.size old) save_is
        ∙ copy_in-append r.size storage rest old sized
        ∙ ap (λ q. (true, q.1)) (sym save_is);
  }

  pub canonical-Saves :
      (fields : List ℕ)
      → r.save storage ≡ canon_copy_out fields storage
      → Saves (record { region = r; storage = storage })
  unfolding canon_copy_out copy_out
  canonical-Saves fields save_is = record {
    save_length = ap (λ q. length q.0) save_is ∙ length-canon_fields fields storage ∙ sized;
    load_save = λ rest old.
        ap (λ f. f ((r.save storage).0 ++ rest) r.size old) load_is
        ∙ ap (λ q. copy_in r.size (q.0 ++ rest) r.size old) save_is
        ∙ copy_in-append r.size (canon_fields fields storage) rest old
            (length-canon_fields fields storage ∙ sized)
        ∙ ap (λ q. (true, q.1)) (sym save_is);
  }
