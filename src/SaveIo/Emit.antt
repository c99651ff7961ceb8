-- ===== src/SaveIo/Emit.antt =====
-- `save_state_emit_hex` of save_state.c: the characters that its calls of printf print, one behind
-- the other. `print_u` is printf's `%u`.
use blyt_planning.Prelude.{
  ℕ, zero, suc, ◌/◌, ◌%◌, [], ◌∷◌, ◌++◌, Bytes, codes, get_or, take, drop, load_le,
}

abbrev pub hex : Bytes
hex = codes "0123456789abcdef"

-- `hex[(b >> 4) & 0xf]` and `hex[b & 0xf]`, for each byte of a chunk.
unfoldable pub hex_chunk : Bytes → Bytes
hex_chunk [] = []
hex_chunk (b ∷ bs) = get_or hex (b / 16 % 16) 0 ∷ get_or hex (b % 16) 0 ∷ hex_chunk bs

abbrev pub chunk_size : ℕ
chunk_size = 256

-- The loop on fuel over the bytes not yet emitted; `[]` with fuel left is `emitted_bytes == size`.
unfoldable pub emit_chunks : ℕ → Bytes → Bytes
unfolding hex_chunk
emit_chunks zero rest = []
emit_chunks (suc fuel) [] = []
emit_chunks (suc fuel) (b ∷ bs) =
    hex_chunk (take chunk_size (b ∷ bs)) ++ emit_chunks fuel (drop chunk_size (b ∷ bs))

module _ (print_u : ℕ → Bytes) where
  -- A round emits a byte at least, so `size` rounds are enough.
  unfoldable pub save_state_emit_hex : Bytes → ℕ → Bytes
  unfolding emit_chunks
  save_state_emit_hex buf size =
      codes "BUFFER "
      ++ (print_u (load_le 4 buf 16)
          ++ (codes " " ++ (emit_chunks size (take size buf) ++ codes "\n")))
