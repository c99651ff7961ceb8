-- ===== src/SaveIo/ReadFile/Whole.antt =====
-- `save_io_read_file` reads a whole file, however short the single reads are.
use mathlib.Core.Path.{subst}
use blyt_planning.Prelude.{
  ◌⊎◌, ◌-◌, compare_cases, lt→ltb, le→ltb_false, length-take, length-drop, inl, inr, if◌then◌else◌,
  ltb, sym, pos, ℕ, zero, suc, ◌+◌, ◌-◌, ◌<◌, ◌≤◌, ℤ, pos, [], ◌∷◌, ◌++◌, ◌≡◌, refl, sym, ap, ◌∙◌,
  arith, inl, inr, some, ltb, if◌then◌else◌, Bytes, length, take, drop, length-take, length-drop,
  lt→ltb, le→ltb_false, compare_cases,
}
use blyt_planning.SaveIo.ReadFile.{
  chunk, read_end, read_opened, save_io_read_file, FileCalls, FileRead, chunk, read_end, next_chunk,
  read_from, read_opened, save_io_read_file,
}

take_beyond : (n : ℕ) (xs : Bytes) → length xs ≤ n → take n xs ≡ xs
take_beyond zero [] h = refl
take_beyond zero (x ∷ xs) h = absurd (omega arith)
take_beyond (suc n) [] h = refl
take_beyond (suc n) (x ∷ xs) h = ap (◌∷◌ x) (take_beyond n xs (omega arith))

take-plus : (m n : ℕ) (xs : Bytes) → take m xs ++ take n (drop m xs) ≡ take (m + n) xs
take-plus zero n xs = ap (λ k. take k xs) {x = n} {y = 0 + n} (omega arith)
take-plus (suc m) n [] =
    take_beyond n [] (omega arith) ∙ sym (take_beyond (suc m + n) [] (omega arith))
take-plus (suc m) n (x ∷ xs) =
    ap (◌∷◌ x) (take-plus m n xs)
    ∙ ap (λ k. take k (x ∷ xs)) {x = suc (m + n)} {y = suc m + n} (omega arith)

module _ (calls : FileCalls) where
  -- What `read` documents of a regular file: at an offset inside it, it gives some of the bytes there,
  -- one at least and no more than wanted; at its end it gives none.
  pub record Delivers (file : Bytes) (fd : ℤ) (At : calls.Host → ℕ → Type 0) : Type 1 where
    pub some_bytes :
        (host : calls.Host) (off want : ℕ)
        → At host off
        → 0 < want
        → off < length file
        → (n : ℕ) × (0 < n)
          × (n ≤ want)
          × (off + n ≤ length file)
          × ((calls.read_file fd want host).0 ≡ some (take n (drop off file)))
          × At (calls.read_file fd want host).1 (off + n)
    pub at_end :
        (host : calls.Host) (want : ℕ)
        → At host (length file)
        → (calls.read_file fd want host).0 ≡ some []

  -- The whole file, as far as the buffer has room.
  abbrev pub Whole : Bytes → ℕ → FileRead calls.Host → Type 0
  Whole file cap r = (r.result ≡ some (length (take cap file))) × (r.stored ≡ take cap file)

  next_chunk-some :
      (bytes stored : Bytes) (fd : ℤ) (host : calls.Host) (rest : Bytes → FileRead calls.Host)
      → 0 < length bytes
      → next_chunk calls (some bytes) fd stored host rest ≡ rest (stored ++ bytes)
  next_chunk-some [] stored fd host rest h = absurd (omega arith)
  next_chunk-some (b ∷ bs) stored fd host rest h = refl

  read_from-Whole :
      (file : Bytes) (fd : ℤ) (At : calls.Host → ℕ → Type 0) (fuel cap off : ℕ) (host : calls.Host)
      → Delivers file fd At
      → At host off
      → off ≤ length file
      → off ≤ cap
      → cap ≤ off + fuel
      → Whole file cap (read_from calls fuel fd cap (take off file) host)
  unfolding read_from
  read_from-Whole file fd At zero cap off host d a h k enough =
      let same = ap (λ m. take m file) {x = off} {y = cap} (omega arith) in
      (ap (λ t. some (length t)) same, same)
  read_from-Whole file fd At (suc fuel) cap off host d a h k enough =
      subst (Whole file cap) (sym (ap round (length-take off file h)))
        (elim (compare_cases off cap) [
          | inl lt ↦
              subst (Whole file cap)
                (sym (ap (λ c. if c then going else ended) (lt→ltb off cap lt)))
                (elim (compare_cases off (length file)) [
                  | inl inside ↦
                      let (n, p, q, r, e, next) =
                        d.some_bytes host off want a (ground arith) inside in
                      subst (Whole file cap)
                        (sym (
                          ap (λ o. next_chunk calls o fd (take off file) host' rest) e
                          ∙ next_chunk-some (take n (drop off file)) (take off file) fd host' rest (
                              omega (
                                arith,
                                length-take n (drop off file) (omega (arith, length-drop off file)),
                              ))
                          ∙ ap rest (take-plus off n file)))
                        (read_from-Whole file fd At fuel cap (off + n) host' d next r (ground arith)
                          (omega arith))
                  | inr behind ↦
                      subst (Whole file cap)
                        (sym (
                          ap (λ o. next_chunk calls o fd (take off file) host' rest)
                            (d.at_end host want (subst (At host) (at_length behind) a))))
                        (let same =
                            take_beyond off file (omega (arith, at_length behind))
                            ∙ sym (take_beyond cap file (omega (arith, at_length behind))) in
                          (ap (λ t. some (length t)) same, same))
                ])
          | inr full ↦
              subst (Whole file cap)
                (sym (ap (λ c. if c then going else ended) (le→ltb_false off cap (ground arith))))
                (
                  ap some (omega (arith, length-take cap file (ground arith), at_cap full)),
                  ap (λ m. take m file) (at_cap full),
                )
        ])
    where
      want : ℕ
      want = if ltb chunk (cap - off) then chunk else cap - off

      host' : calls.Host
      host' = (calls.read_file fd want host).1

      rest : Bytes → FileRead calls.Host
      rest stored' = read_from calls fuel fd cap stored' host'

      going : FileRead calls.Host
      going = next_chunk calls (calls.read_file fd want host).0 fd (take off file) host' rest

      ended : FileRead calls.Host
      ended = read_end calls (some off) fd (take off file) host

      round : ℕ → FileRead calls.Host
      round l =
          let w = if ltb chunk (cap - l) then chunk else cap - l in
          let (bytes, after) = calls.read_file fd w host in
          if ltb l cap
          then next_chunk calls bytes fd (take off file) after
              (λ stored'. read_from calls fuel fd cap stored' after)
          else read_end calls (some l) fd (take off file) host

      at_length : (off ≡ length file) ⊎ (length file < off) → off ≡ length file
      at_length b = ground arith

      at_cap : (off ≡ cap) ⊎ (cap < off) → off ≡ cap
      at_cap b = ground arith

  -- The path opens as the descriptor `n` of a file whose reads may be short. Then the call returns
  -- the length of the file or the size of the buffer, whichever is less, and the buffer holds that
  -- many bytes of the file from its start.
  pub save_io_read_file-Whole :
      (path file : Bytes) (cap n : ℕ) (host : calls.Host) (At : calls.Host → ℕ → Type 0)
      → (calls.open_file path host).0 ≡ pos n
      → At (calls.open_file path host).1 0
      → Delivers file (pos n) At
      → Whole file cap (save_io_read_file calls path cap host)
  unfolding save_io_read_file
  save_io_read_file-Whole path file cap n host At e a d =
      subst (Whole file cap)
        (sym (ap (λ fd. read_opened calls fd cap (calls.open_file path host).1) e))
        (read_from-Whole file (pos n) At cap cap 0 (calls.open_file path host).1 d a (omega arith)
          (omega arith) (omega arith))
