-- ===== src/SaveIo/ReadFile.antt =====
-- `save_io_read_file`, with the system calls as parameters.
pub mod Whole
use blyt_planning.Prelude.{
  ℕ, zero, suc, ◌-◌, ℤ, pos, negsuc, List, [], ◌∷◌, ◌++◌, Option, none, some, ltb, if◌then◌else◌,
  Bytes, length,
}

-- `sys_open` for reading, `sys_read` and `sys_close`, on the state of the host. A read gives the bytes
-- that it stores, or none for a negative result.
pub record FileCalls : Type 1 where
  pub Host : Type 0
  pub open_file : Bytes → Host → ℤ × Host
  pub read_file : ℤ → ℕ → Host → Option Bytes × Host
  pub close_file : ℤ → Host → Host

-- What the call returns, `none` for -1, the bytes that it has stored from the buffer's start, and
-- the host.
pub record FileRead (Host : Type 0) : Type 0 where
  pub result : Option ℕ
  pub stored : Bytes
  pub host : Host

abbrev pub chunk : ℕ
chunk = 4096

module _ (calls : FileCalls) where
  abbrev pub read_end : Option ℕ → ℤ → Bytes → calls.Host → FileRead calls.Host
  read_end result fd stored host = record {
    result = result;
    stored = stored;
    host = calls.close_file fd host;
  }

  -- What follows a read.
  abbrev pub next_chunk :
      Option Bytes → ℤ → Bytes → calls.Host → (Bytes → FileRead calls.Host) → FileRead calls.Host
  next_chunk none fd stored host rest = read_end none fd stored host
  next_chunk (some []) fd stored host rest = read_end (some (length stored)) fd stored host
  next_chunk (some (b ∷ bs)) fd stored host rest = rest (stored ++ (b ∷ bs))

  -- The loop; each round that goes on stores a byte at least, and `cap` rounds are enough.
  unfoldable pub read_from : ℕ → ℤ → ℕ → Bytes → calls.Host → FileRead calls.Host
  read_from zero fd cap stored host = read_end (some (length stored)) fd stored host
  read_from (suc fuel) fd cap stored host =
      let room = cap - length stored in
      let want = if ltb chunk room then chunk else room in
      let (bytes, host') = calls.read_file fd want host in
      if ltb (length stored) cap
      then next_chunk bytes fd stored host' (λ stored'. read_from fuel fd cap stored' host')
      else read_end (some (length stored)) fd stored host

  abbrev pub read_opened : ℤ → ℕ → calls.Host → FileRead calls.Host
  read_opened (negsuc e) cap host = record { result = none; stored = []; host = host }
  read_opened (pos fd) cap host = read_from cap (pos fd) cap [] host

  unfoldable pub save_io_read_file : Bytes → ℕ → calls.Host → FileRead calls.Host
  unfolding read_from
  save_io_read_file path cap host =
      let (fd, host') = calls.open_file path host in read_opened fd cap host'
