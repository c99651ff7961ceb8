-- ===== src/Gdb/Memory.antt =====
-- The guest's memory through the packets `M` and `m`.
use blyt_planning.Prelude.{
  [], ℕ, ◌+◌, ◌*◌, ◌%◌, ◌^◌, ◌<◌, ◌≤◌, Bool, true, not, ◌||◌, some, ◌∷◌, ◌++◌, ◌≡◌, refl, ap, ◌∙◌,
  arith, Bytes, IsBytes, codes, length, ◌==◌, ltb, if◌then◌else◌, eq→==, le→ltb_false,
}
use blyt_planning.Gdb.{CpuOps, GdbState, max_packet}
use blyt_planning.Gdb.Text.{hex_encode, hex_decode, print_x}
use blyt_planning.Gdb.Handlers.{
  State, hex_arg, expect, write_mem_at, write_mem_data, write_mem_with, read_mem_at, read_mem_with,
}
use blyt_planning.Gdb.Dispatch.{reply}
use blyt_planning.Gdb.Hex.{hex_decode-hex_encode}
use blyt_planning.Gdb.Numbers.{hex_arg-print_x}

-- `addr,len`
abbrev pub span : ℕ → ℕ → Bytes → Bytes
span addr len rest = print_x addr ++ (44 ∷ (print_x len ++ rest))

-- The processor has both callbacks for its memory, and reads back the bytes, at most 4096, that were
-- written at the address; the host has memory for them. Then the packet `M` with the address, the
-- length and the encoding of the bytes hands them to the processor and is answered with OK, and the
-- packet `m` with the address and the length behind it is answered with the same encoding.
pub memory_round_trip :
    (ops : CpuOps) (malloc : ℕ → Bool) (g : State ops) (addr : ℕ) (bytes : Bytes)
    (read : ℕ → ℕ → ops.Cpu → Bytes) (write : ℕ → Bytes → ops.Cpu → ops.Cpu)
    → ops.read_mem ≡ some read
    → ops.write_mem ≡ some write
    → read addr (length bytes) (write addr bytes g.cpu) ≡ bytes
    → IsBytes bytes
    → addr < 2 ^ 32
    → length bytes ≤ 4096
    → malloc (length bytes) ≡ true
    → (reply ops malloc (codes "M" ++ span addr (length bytes) (58 ∷ hex_encode bytes)) g
        ≡ some (codes "OK", record g { cpu = write addr bytes g.cpu }))
      × (reply ops malloc
            (codes "m" ++ span addr (length bytes) [])
            (record g { cpu = write addr bytes g.cpu })
          ≡ some (hex_encode bytes, record g { cpu = write addr bytes g.cpu }))
unfolding reply blyt_planning.Gdb.Text.starts_with blyt_planning.Gdb.Text.equal
memory_round_trip ops malloc g addr bytes read write r w law h small few room = (
  ap (λ q. some (write_mem_at ops malloc q.0 (expect 44 q.1) g))
        (hex_arg-print_x addr _ small (refl, refl))
      ∙ ap (λ q. some (write_mem_data ops malloc addr q.0 (expect 58 q.1) g))
          (hex_arg-print_x len _ (omega arith) (refl, refl))
      ∙ ap (λ f. some (write_mem_with ops malloc f addr len (hex_encode bytes) g)) w
      ∙ ap
          (λ c.
            some (if not c then (codes "E04", g) else stored (hex_decode (hex_encode bytes) len)))
          room
      ∙ ap (λ b. some (stored b)) (hex_decode-hex_encode bytes len h (omega arith))
      ∙ ap (λ c. some (if c then (codes "OK", after) else (codes "E05", g))) (eq→== len len refl),
  ap (λ q. some (read_mem_at ops malloc q.0 (expect 44 q.1) after, after))
        (hex_arg-print_x addr _ small (refl, refl))
      ∙ ap (λ q. some (read_mem_with ops malloc ops.read_mem addr q.0 after, after)) (read_len)
      ∙ ap (λ f. some (read_mem_with ops malloc f addr len after, after)) r
      ∙ ap
          (λ c. some (
            (if c || ltb max_packet ((len * 2 + 1) % 2 ^ 32)
                then codes "E03"
                else if malloc len
                then hex_encode found
                else codes "E04"),
            after,
          ))
          (le→ltb_false 4096 len few)
      ∙ ap
          (λ c. some (
            (if c then codes "E03" else if malloc len then hex_encode found else codes "E04"),
            after,
          ))
          (le→ltb_false max_packet ((len * 2 + 1) % 2 ^ 32) (omega arith))
      ∙ ap (λ c. some ((if c then hex_encode found else codes "E04"), after)) room
      ∙ ap (λ b. some (hex_encode b, after)) law,
)
  where
    len : ℕ
    len = length bytes

    after : State ops
    after = record g { cpu = write addr bytes g.cpu }

    stored : Bytes → Bytes × State ops
    stored b =
        if length b == length bytes
        then (codes "OK", record g { cpu = write addr b g.cpu })
        else (codes "E05", g)

    found : Bytes
    found = read addr (length bytes) (write addr bytes g.cpu)

    read_len : hex_arg (print_x (length bytes) ++ []) ≡ (length bytes, [])
    read_len = hex_arg-print_x (length bytes) [] (omega arith) tt
