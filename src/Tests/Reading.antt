-- ===== src/Tests/Reading.antt =====
-- Reading a file at a concrete input: the host's state is the offset, and a read gives one byte.
use blyt_planning.Prelude.{ℕ, ◌+◌, pos, [], ◌∷◌, ◌≡◌, refl, ap, arith, some, Bytes, take, drop}
use blyt_planning.SaveIo.ReadFile.{FileCalls, save_io_read_file}
use blyt_planning.SaveIo.ReadFile.Whole.{Delivers, Whole, save_io_read_file-Whole}

abbrev saved : Bytes
saved = 70 ∷ 67 ∷ 50 ∷ 83 ∷ []

abbrev slow : FileCalls
slow = record {
  Host = ℕ;
  open_file = λ path host. (pos 3, 0);
  read_file = λ fd want host. (some (take 1 (drop host saved)), host + 1);
  close_file = λ fd host. 0;
}

abbrev StandsAt : ℕ → ℕ → Type 0
StandsAt host off = host ≡ off

slow-Delivers : Delivers slow saved (pos 3) StandsAt
slow-Delivers = record {
  some_bytes = λ host off want a h k.
      (1, omega arith, h, omega arith, ap (λ o. some (take 1 (drop o saved))) a, ap (λ o. o + 1) a);
  at_end = λ host want a. ap (λ o. some (take 1 (drop o saved))) a;
}

save_io_read_file-Whole_example : Whole slow saved 3 (save_io_read_file slow [] 3 9)
save_io_read_file-Whole_example =
    save_io_read_file-Whole slow [] saved 3 3 9 StandsAt refl refl slow-Delivers
