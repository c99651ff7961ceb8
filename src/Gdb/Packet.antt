-- ===== src/Gdb/Packet.antt =====
-- `read_pkt` and `send_pkt`, on the bytes of the socket. A `recv` of one byte gives it, or the
-- connection has ended; `recv_two` says of the bytes to come whether a `recv` of two gives both, as it
-- may also give one.
use blyt_planning.Prelude.{
  Bool, ◌&&◌, length, ℕ, zero, suc, ◌+◌, ◌-◌, ◌%◌, [], ◌∷◌, ◌++◌, Option, none, some, ◌==◌,
  if◌then◌else◌, Bytes, drop,
}
use blyt_planning.Gdb.{GdbState}
use blyt_planning.Gdb.Text.{print_02x}

abbrev pub byte_sum : Bytes → ℕ
byte_sum [] = 0
byte_sum (b ∷ bs) = b % 256 + byte_sum bs

-- `$<payload>#<csum>`
abbrev pub frame : Bytes → Bytes
frame payload = 36 ∷ (payload ++ (35 ∷ print_02x (byte_sum payload % 256)))

-- The wait for `$`: what comes behind it.
unfoldable pub find_start : Bytes → Option Bytes
find_start [] = none
find_start (c ∷ input) = let rest = find_start input in if c == 36 then some input else rest

-- The loop up to `#`, with room for as many bytes as the first argument: the payload and what comes
-- behind it.
abbrev pub with_byte : ℕ → Option (Bytes × Bytes) → Option (Bytes × Bytes)
with_byte c none = none
with_byte c (some (payload, rest)) = some (c ∷ payload, rest)

unfoldable pub read_payload : ℕ → Bytes → Option (Bytes × Bytes)
read_payload zero input = some ([], input)
read_payload (suc room) [] = none
read_payload (suc room) (c ∷ input) =
    let rest = read_payload room input in if c == 35 then some ([], input) else with_byte c rest

-- The two bytes of the sum, which are not tested.
abbrev pub drain : (Bytes → Bool) → Option (Bytes × Bytes) → Option (Bytes × Bytes)
drain recv_two none = none
drain recv_two (some (payload, a ∷ b ∷ rest)) =
    if recv_two (a ∷ b ∷ rest) then some (payload, rest) else none
drain recv_two (some (payload, rest)) = none

abbrev pub read_behind : (Bytes → Bool) → ℕ → Option Bytes → Option (Bytes × Bytes)
read_behind recv_two cap none = none
read_behind recv_two cap (some input) = drain recv_two (read_payload (cap - 1) input)

-- The payload with the rest of the input, or none for -1. The acknowledgement `+` goes out with it.
unfoldable pub read_pkt : (Bytes → Bool) → ℕ → Bytes → Option (Bytes × Bytes)
unfolding find_start read_payload
read_pkt recv_two cap input = read_behind recv_two cap (find_start input)

module _ {Cpu : Type 0} (malloc : ℕ → Bool) where
  -- Where `malloc` gives the buffer, the frame goes out, and one byte, the client's acknowledgement,
  -- is taken.
  abbrev pub send_pkt : Bytes → GdbState Cpu → GdbState Cpu
  send_pkt payload g =
      if g.connected && malloc (length payload + 16)
      then record g { output = g.output ++ frame payload; input = drop 1 g.input }
      else g
