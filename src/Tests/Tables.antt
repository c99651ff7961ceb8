-- ===== src/Tests/Tables.antt =====
-- The slot table of the persistent scripts and the diagnostic at concrete inputs.
use blyt_planning.Prelude.{
  ℕ, zero, suc, ◌<◌, pos, some, [], ◌∷◌, ◌++◌, ◌≡◌, refl, ap, arith, Bytes, codes, length, get_or,
  replicate, take, ◌==◌, if◌then◌else◌, negsuc, ◌⊎◌,
}
use blyt_planning.Regions.PersistentScripts.{
  PersistentScripts, bit_get, persistent_scripts_alloc, persistent_scripts_unmark_all,
  persistent_scripts_write, persistent_scripts_read, persistent_scripts_free,
}
use blyt_planning.Regions.PersistentScripts.Alloc.{Marked, Allocates, persistent_scripts_alloc_lem}
use blyt_planning.Regions.PersistentScripts.Blob.{Shaped, read-write, persistent_scripts_free_lem}
use blyt_planning.Regions.PersistentScripts.Resume.{allocated, alloc-resumes}
use blyt_planning.HotReload.{function_deleted, hot_reload_diagnostic_format}
use blyt_planning.HotReload.Bounds.{message, hot_reload_diagnostic_format_lem}

-- Slots 0, 1 and 33 are in use, and every slot holds a blob of two bytes.
abbrev scripts : PersistentScripts
scripts = record {
  active_bits = 3 ∷ 2 ∷ [];
  slot_lens = replicate 64 2;
  slots = replicate 64 (8 ∷ 9 ∷ replicate 254 0);
}

scripts-Marked : Marked scripts
scripts-Marked = record { words = refl; word_bound = λ k. bound k }
  where
    bound : (k : ℕ) → get_or (3 ∷ 2 ∷ []) k 0 < 4294967296
    bound zero = omega arith
    bound (suc zero) = omega arith
    bound (suc (suc k)) = omega arith

get_or-blobs : (n s : ℕ) (blob : Bytes) → s < n → get_or (replicate n blob) s [] ≡ blob
get_or-blobs zero s blob h = absurd (omega arith)
get_or-blobs (suc n) zero blob h = refl
get_or-blobs (suc n) (suc s) blob h = get_or-blobs n s blob (omega arith)

scripts-Shaped : Shaped scripts
scripts-Shaped = record {
  marked = scripts-Marked;
  lens = refl;
  table = refl;
  slot_size = λ s h. ap length (get_or-blobs 64 s (8 ∷ 9 ∷ replicate 254 0) h);
}

persistent_scripts_alloc_lem_example :
    ((persistent_scripts_alloc scripts ≡ (negsuc 0, scripts))
      × ((t : ℕ) → t < 64 → bit_get t scripts ≡ 1))
    ⊎ ((k : ℕ) × (g' : PersistentScripts) × (persistent_scripts_alloc scripts ≡ (pos k, g'))
        × Allocates k scripts g')
persistent_scripts_alloc_lem_example = persistent_scripts_alloc_lem scripts refl

read-write_example :
    (g' : PersistentScripts) × (persistent_scripts_write (pos 33) (codes "abcd") 3 scripts
      ≡ (1, g'))
    × (persistent_scripts_read (pos 33) 256 g' ≡ (pos 3, codes "abc"))
    × (get_or g'.slots 33 [] ≡ codes "abc" ++ replicate 253 0)
unfolding bit_get
read-write_example =
    read-write scripts 33 3 256 (codes "abcd") scripts-Shaped (omega arith) refl (omega arith)
      (omega arith) (omega arith)

persistent_scripts_free_lem_example :
    ((t : ℕ)
      → bit_get t (persistent_scripts_free (pos 33) scripts)
        ≡ (if 33 == t then 0 else bit_get t scripts))
    × ((t : ℕ)
        → get_or (persistent_scripts_free (pos 33) scripts).slot_lens t 0
          ≡ (if 33 == t then 0 else get_or scripts.slot_lens t 0))
    × ((t : ℕ)
        → get_or (persistent_scripts_free (pos 33) scripts).slots t []
          ≡ (if 33 == t then replicate 256 0 else get_or scripts.slots t []))
unfolding bit_get
persistent_scripts_free_lem_example =
    persistent_scripts_free_lem scripts 33 scripts-Shaped (omega arith) refl

alloc-resumes_example :
    ((persistent_scripts_alloc (allocated 2 (persistent_scripts_unmark_all scripts))).0 ≡ pos 2)
    × (persistent_scripts_read (pos 2) 256 (allocated 3 (persistent_scripts_unmark_all scripts))
        ≡ (pos 2, 8 ∷ 9 ∷ []))
alloc-resumes_example = alloc-resumes scripts 2 256 refl (omega arith) (omega arith) (omega arith)

hot_reload_diagnostic_format_lem_example :
    (hot_reload_diagnostic_format (pos 40) 3 (some (codes "update")) 12 function_deleted
      ≡ take 39 (message 3 (some (codes "update")) 12 function_deleted))
    × (length (hot_reload_diagnostic_format (pos 40) 3 (some (codes "update")) 12 function_deleted)
        < 40)
hot_reload_diagnostic_format_lem_example =
    hot_reload_diagnostic_format_lem 39 3 (some (codes "update")) 12 function_deleted
