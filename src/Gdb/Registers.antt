-- ===== src/Gdb/Registers.antt =====
-- The registers through the packets `G` and `g`.
use blyt_planning.Prelude.{
  ℕ, ◌*◌, Bool, some, ◌++◌, ◌≡◌, ap, ◌∙◌, arith, Bytes, IsBytes, codes, length, ◌==◌, if◌then◌else◌,
  eq→==,
}
use blyt_planning.Gdb.{CpuOps, GdbState}
use blyt_planning.Gdb.Text.{hex_encode, hex_decode}
use blyt_planning.Gdb.Handlers.{State, regs_size, write_regs_with, read_regs_with}
use blyt_planning.Gdb.Dispatch.{reply}
use blyt_planning.Gdb.Hex.{hex_decode-hex_encode}

-- The processor has both callbacks for its registers, and reads back what was written. Then the
-- packet `G` with the encoding of 33 words hands these words to the processor and is answered with
-- OK, and the packet `g` behind it is answered with the same encoding.
pub registers_round_trip :
    (ops : CpuOps) (malloc : ℕ → Bool) (g : State ops) (regs : Bytes) (read : ops.Cpu → Bytes)
    (write : Bytes → ops.Cpu → ops.Cpu)
    → ops.read_regs ≡ some read
    → ops.write_regs ≡ some write
    → read (write regs g.cpu) ≡ regs
    → IsBytes regs
    → length regs ≡ 33 * 4
    → (reply ops malloc (codes "G" ++ hex_encode regs) g
        ≡ some (codes "OK", record g { cpu = write regs g.cpu }))
      × (reply ops malloc (codes "g") (record g { cpu = write regs g.cpu })
          ≡ some (hex_encode regs, record g { cpu = write regs g.cpu }))
unfolding reply blyt_planning.Gdb.Text.starts_with blyt_planning.Gdb.Text.equal
registers_round_trip ops malloc g regs read write r w law bytes size = (
  ap (λ f. some (write_regs_with ops f (hex_encode regs) g)) w
      ∙ ap
          (λ b. some (
            if length b == regs_size
            then (codes "OK", record g { cpu = write b g.cpu })
            else (codes "E02", g)))
          (hex_decode-hex_encode regs regs_size bytes (omega arith))
      ∙ ap
          (λ c.
            some
              (if c then (codes "OK", record g { cpu = write regs g.cpu }) else (codes "E02", g)))
          (eq→== (length regs) regs_size size),
  ap (λ f. some (read_regs_with ops f after, after)) r ∙ ap (λ b. some (hex_encode b, after)) law,
)
  where
    after : State ops
    after = record g { cpu = write regs g.cpu }
