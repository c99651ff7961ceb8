-- ===== src/Gdb/Keeps.antt =====
-- What the handlers keep: a predicate of the breakpoints and of the client's socket survives every
-- handler, where it survives what Z0 and z0 do to the table.
use blyt_planning.Prelude.{
  List, ℕ, Bool, true, false, not, [], ◌∷◌, ◌++◌, Option, none, some, ◌≡◌, inl, inr, ◌==◌, leb,
  if◌then◌else◌, Bytes, codes, drop, length, Bool-cases,
}
use blyt_planning.Gdb.{CpuOps, max_breaks}
use blyt_planning.Gdb.Text.{starts_with, equal, hex_decode}
use blyt_planning.Gdb.Handlers.{
  State, Reply, hex_arg, handle_Z0, handle_z0, kept, handle_qxfer_libraries, handle_vcont,
  handle_qfc32_reload, write_regs_with, write_mem_at, write_mem_data, write_mem_with, reload_with,
  expect, regs_size,
}
use blyt_planning.Gdb.Dispatch.{reply, with_state}

-- A predicate of the breakpoints, of whether a client is connected, and of the bytes to come and the
-- bytes sent, that survives a new address in a table that has room, and the removal of an address.
pub record Survives (P : List ℕ → Bool → Bytes → Bytes → Type 0) : Type 0 where
  pub appended :
      (addr : ℕ) (breaks : List ℕ) (connected : Bool) (input output : Bytes)
      → leb max_breaks (length breaks) ≡ false
      → P breaks connected input output
      → P (breaks ++ addr ∷ []) connected input output
  pub removed :
      (addr : ℕ) (breaks : List ℕ) (connected : Bool) (input output : Bytes)
      → P breaks connected input output
      → P (kept addr breaks) connected input output

module _ (ops : CpuOps) (malloc : ℕ → Bool) (P : List ℕ → Bool → Bytes → Bytes → Type 0)
    (law : Survives P) where
  abbrev pub Holds : State ops → Type 0
  Holds g = P g.breaks g.connected g.input g.output

  abbrev pub AllHold : Option (Reply ops) → Type 0
  AllHold none = Unit
  AllHold (some (out, g)) = Holds g

  choose :
      (c : Bool) (p q : Option (Reply ops)) → AllHold p → AllHold q → AllHold (if c then p else q)
  choose true p q h k = h
  choose false p q h k = k

  either : (c : Bool) (p q : Reply ops) → Holds p.1 → Holds q.1 → Holds (if c then p else q).1
  either true p q h k = h
  either false p q h k = k

  with_state-Holds :
      (g : State ops) (o : Option Bytes) → Holds g → AllHold (with_state ops malloc g o)
  with_state-Holds g none h = tt
  with_state-Holds g (some out) h = h

  write_regs-Holds :
      (o : Option (Bytes → ops.Cpu → ops.Cpu)) (args : Bytes) (g : State ops)
      → Holds g
      → Holds (write_regs_with ops o args g).1
  write_regs-Holds none args g h = h
  write_regs-Holds (some f) args g h =
      either (length (hex_decode args regs_size) == regs_size) _ _ h h

  write_mem-Holds :
      (o : Option (ℕ → Bytes → ops.Cpu → ops.Cpu)) (addr len : ℕ) (s : Bytes) (g : State ops)
      → Holds g
      → Holds (write_mem_with ops malloc o addr len s g).1
  write_mem-Holds none addr len s g h = h
  write_mem-Holds (some f) addr len s g h =
      either (not (malloc len)) _ _ h (either (length (hex_decode s len) == len) _ _ h h)

  write_mem_data-Holds :
      (addr len : ℕ) (o : Option Bytes) (g : State ops)
      → Holds g
      → Holds (write_mem_data ops malloc addr len o g).1
  write_mem_data-Holds addr len none g h = h
  write_mem_data-Holds addr len (some s) g h = write_mem-Holds ops.write_mem addr len s g h

  write_mem_at-Holds :
      (addr : ℕ) (o : Option Bytes) (g : State ops)
      → Holds g
      → Holds (write_mem_at ops malloc addr o g).1
  write_mem_at-Holds addr none g h = h
  write_mem_at-Holds addr (some s) g h =
      write_mem_data-Holds addr (hex_arg s).0 (expect 58 (hex_arg s).1) g h

  reload-Holds :
      (o : Option (Bytes → ops.Cpu → Bool × ops.Cpu)) (args : Bytes) (g : State ops)
      → Holds g
      → Holds (reload_with ops o args g).1
  reload-Holds none args g h = h
  reload-Holds (some f) args g h = either (f args g.cpu).0 _ _ h h

  handle_Z0-Holds : (args : Bytes) (g : State ops) → Holds g → Holds (handle_Z0 ops args g).1
  unfolding handle_Z0
  handle_Z0-Holds args g h = elim (Bool-cases (leb max_breaks (length g.breaks))) [
    | inl e ↦ rw e h
    | inr e ↦ rw e (law.appended (hex_arg args).0 g.breaks g.connected g.input g.output e h)
  ]

  handle_z0-Holds : (args : Bytes) (g : State ops) → Holds g → Holds (handle_z0 ops args g).1
  unfolding handle_z0
  handle_z0-Holds args g h = law.removed (hex_arg args).0 g.breaks g.connected g.input g.output h

  pub reply-Holds : (pkt : Bytes) (g : State ops) → Holds g → AllHold (reply ops malloc pkt g)
  unfolding reply handle_vcont handle_qfc32_reload
  reply-Holds pkt g h = choose (starts_with (codes "qSupported") pkt) _ _ h (
      choose (starts_with (codes "qXfer:exec-file:read:") pkt) _ _ h (
        choose (starts_with (codes "qXfer:libraries-svr4:read:") pkt) _ _
          (with_state-Holds g (handle_qxfer_libraries g.layout (drop 26 pkt)) h)
          (choose (starts_with (codes "?") pkt) _ _ h (
            choose (equal (codes "g") pkt) _ _ h (
              choose (starts_with (codes "G") pkt) _ _
                (write_regs-Holds ops.write_regs (drop 1 pkt) g h)
                (choose (starts_with (codes "m") pkt) _ _ h (
                  choose (starts_with (codes "M") pkt) _ _
                    (write_mem_at-Holds (hex_arg (drop 1 pkt)).0
                      (expect 44 (hex_arg (drop 1 pkt)).1) g h)
                    (choose (starts_with (codes "Z0,") pkt) _ _ (handle_Z0-Holds (drop 3 pkt) g h) (
                      choose (starts_with (codes "z0,") pkt) _ _ (handle_z0-Holds (drop 3 pkt) g h)
                        (choose (equal (codes "vCont?") pkt) _ _ h (
                          choose (starts_with (codes "vCont") pkt) _ _ h (
                            choose (starts_with (codes "qFc32:reload:") pkt) _ _
                              (reload-Holds ops.reload_cart (drop 13 pkt) g h)
                              (choose (equal (codes "qAttached") pkt) _ _ h
                                (choose (starts_with (codes "qC") pkt) _ _ h h))))))))))))))
