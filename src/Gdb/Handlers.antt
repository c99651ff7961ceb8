-- ===== src/Gdb/Handlers.antt =====
-- The handlers: the text that each puts out and the state that it leaves. `malloc` says whether the
-- host has memory for as many bytes.
use blyt_planning.Prelude.{
  ℕ, ◌+◌, ◌-◌, ◌*◌, ◌%◌, ◌^◌, Bool, true, false, not, ◌||◌, List, [], ◌∷◌, ◌++◌, Option, none, some,
  ltb, leb, ◌==◌, if◌then◌else◌, Bytes, codes, length, take, drop,
}
use blyt_planning.Gdb.{CpuOps, Library, Layout, GdbState, max_packet, max_breaks}
use blyt_planning.Gdb.Text.{hex_encode, hex_decode, after_char, strtoul, print_x}

abbrev pub regs_size : ℕ
regs_size = 33 * 4

-- `(uint32_t)strtoul(s, &end, 16)`
abbrev pub hex_arg : Bytes → ℕ × Bytes
hex_arg s = let (v, end) = strtoul s in (v % 2 ^ 32, end)

abbrev pub skip_comma : Bytes → Bytes
skip_comma [] = []
skip_comma (c ∷ s) = if c == 44 then s else c ∷ s

-- What stands behind the character, where the text starts with it.
abbrev pub expect : ℕ → Bytes → Option Bytes
expect c [] = none
expect c (d ∷ s) = if d == c then some s else none

-- A part of a text, behind `l` where it reaches the end and behind `m` where it does not.
abbrev pub xfer : Bytes → ℕ → ℕ → Bytes
xfer text off len =
    let avail = (length text - off) % 2 ^ 32 in
    let n = if ltb avail len then avail else len in
    if leb (length text) off
    then codes "l"
    else if ltb max_packet (n + 2)
    then codes "E02"
    else (if leb (length text) ((off + n) % 2 ^ 32) then 108 else 109) ∷ take n (drop off text)

abbrev pub xfer_args : Bytes → Bytes → Bytes
xfer_args text p =
    let (off, end) = hex_arg p in let (len, rest) = hex_arg (skip_comma end) in xfer text off len

abbrev pub handle_qsupported : Bytes
handle_qsupported =
    codes
      "PacketSize=4000;qXfer:libraries-svr4:read+;qXfer:exec-file:read+;swbreak+;vContSupported+"

abbrev pub exec_file_at : Bytes → Option Bytes → Bytes
exec_file_at path none = codes "E01"
exec_file_at path (some p) = xfer_args path p

abbrev pub handle_qxfer_exec_file : Layout → Bytes → Bytes
handle_qxfer_exec_file layout args = exec_file_at layout.exec_path (after_char 58 args)

abbrev pub library_xml : Library → Bytes
library_xml lib =
    codes "<library name=\""
    ++ (lib.path
        ++ (codes "\" lm=\"0x"
            ++ (print_x lib.l_addr
                ++ (codes "\" l_addr=\"0x"
                    ++ (print_x lib.l_addr
                        ++ (codes "\" l_ld=\"0x"
                            ++ (print_x lib.l_ld ++ codes "\" lmid=\"0x0\"/>")))))))

abbrev pub libraries_xml : List Library → Bytes
libraries_xml [] = codes "</library-list-svr4>"
libraries_xml (lib ∷ libs) = library_xml lib ++ libraries_xml libs

abbrev pub library_list : List Library → Bytes
library_list libs =
    codes "<library-list-svr4 version=\"1.0\" main-lm=\"0x0\">" ++ libraries_xml libs

abbrev pub libraries_at : Bytes → Option Bytes → Option Bytes
libraries_at xml none = some (codes "E01")
libraries_at xml (some p) = if ltb (length xml) 4096 then some (xfer_args xml p) else none

-- None where the list does not fit the array of 4096 bytes with its NUL.
abbrev pub handle_qxfer_libraries : Layout → Bytes → Option Bytes
handle_qxfer_libraries layout args =
    libraries_at (library_list layout.libraries) (after_char 58 args)

abbrev pub handle_vcont_q : Bytes
handle_vcont_q = codes "vCont;c;C;s;S"

-- The loop that keeps the other addresses.
unfoldable pub kept : ℕ → List ℕ → List ℕ
kept addr [] = []
kept addr (b ∷ breaks) = let rest = kept addr breaks in if b == addr then rest else b ∷ rest

-- `fc_gdb_stub_check_break`
unfoldable pub check_break : ℕ → List ℕ → Bool
check_break pc [] = false
check_break pc (b ∷ breaks) = let rest = check_break pc breaks in if b == pc then true else rest

abbrev pub vcont_action : Option Bytes → ℕ
vcont_action (some s) = 1
vcont_action none = 0

module _ (ops : CpuOps) where
  abbrev pub State : Type 0
  State = GdbState ops.Cpu

  -- The text and the state.
  abbrev pub Reply : Type 0
  Reply = Bytes × State

  abbrev pub read_regs_with : Option (ops.Cpu → Bytes) → State → Bytes
  read_regs_with none g = codes "E01"
  read_regs_with (some f) g =
      if ltb max_packet (regs_size * 2 + 1) then codes "E02" else hex_encode (f g.cpu)

  abbrev pub handle_g : State → Reply
  handle_g g = (read_regs_with ops.read_regs g, g)

  abbrev pub write_regs_with : Option (Bytes → ops.Cpu → ops.Cpu) → Bytes → State → Reply
  write_regs_with none args g = (codes "E01", g)
  write_regs_with (some f) args g =
      let regs = hex_decode args regs_size in
      if length regs == regs_size
      then (codes "OK", record g { cpu = f regs g.cpu })
      else (codes "E02", g)

  abbrev pub handle_G : Bytes → State → Reply
  handle_G args g = write_regs_with ops.write_regs args g

  module _ (malloc : ℕ → Bool) where
    abbrev pub read_mem_with : Option (ℕ → ℕ → ops.Cpu → Bytes) → ℕ → ℕ → State → Bytes
    read_mem_with none addr len g = codes "E02"
    read_mem_with (some f) addr len g =
        if ltb 4096 len || ltb max_packet ((len * 2 + 1) % 2 ^ 32)
        then codes "E03"
        else if malloc len
        then hex_encode (f addr len g.cpu)
        else codes "E04"

    abbrev pub read_mem_at : ℕ → Option Bytes → State → Bytes
    read_mem_at addr none g = codes "E01"
    read_mem_at addr (some s) g = read_mem_with ops.read_mem addr (hex_arg s).0 g

    abbrev pub handle_m : Bytes → State → Reply
    handle_m args g = let (addr, end) = hex_arg args in (read_mem_at addr (expect 44 end) g, g)

    abbrev pub write_mem_with :
        Option (ℕ → Bytes → ops.Cpu → ops.Cpu) → ℕ → ℕ → Bytes → State → Reply
    write_mem_with none addr len s g = (codes "E03", g)
    write_mem_with (some f) addr len s g =
        let bytes = hex_decode s len in
        if not (malloc len)
        then (codes "E04", g)
        else if length bytes == len
        then (codes "OK", record g { cpu = f addr bytes g.cpu })
        else (codes "E05", g)

    abbrev pub write_mem_data : ℕ → ℕ → Option Bytes → State → Reply
    write_mem_data addr len none g = (codes "E02", g)
    write_mem_data addr len (some s) g = write_mem_with ops.write_mem addr len s g

    abbrev pub write_mem_at : ℕ → Option Bytes → State → Reply
    write_mem_at addr none g = (codes "E01", g)
    write_mem_at addr (some s) g =
        let (len, end) = hex_arg s in write_mem_data addr len (expect 58 end) g

    abbrev pub handle_M : Bytes → State → Reply
    handle_M args g = let (addr, end) = hex_arg args in write_mem_at addr (expect 44 end) g

  -- A callback on an address, where it is not NULL.
  abbrev pub patched : Option (ℕ → ops.Cpu → ops.Cpu) → ℕ → ops.Cpu → ops.Cpu
  patched none addr cpu = cpu
  patched (some f) addr cpu = f addr cpu

  unfoldable pub handle_Z0 : Bytes → State → Reply
  handle_Z0 args g =
      let addr = (hex_arg args).0 in
      if leb max_breaks (length g.breaks) then (codes "E01", g) else (
        codes "OK",
        record g { breaks = g.breaks ++ (addr ∷ []); cpu = patched ops.set_breakpoint addr g.cpu },
      )

  unfoldable pub handle_z0 : Bytes → State → Reply
  unfolding kept
  handle_z0 args g =
      let addr = (hex_arg args).0 in
      (
        codes "OK",
        record g { breaks = kept addr g.breaks; cpu = patched ops.clear_breakpoint addr g.cpu },
      )

  unfoldable pub handle_vcont : Bytes → State → Reply
  handle_vcont args g =
      ([], record g { pending_action = vcont_action (after_char 115 args); halted = false })

  abbrev pub reload_with : Option (Bytes → ops.Cpu → Bool × ops.Cpu) → Bytes → State → Reply
  reload_with none args g = (codes "E01", g)
  reload_with (some f) args g =
      let (failed, cpu) = f args g.cpu in
      if failed
      then (codes "E02", record g { cpu = cpu })
      else (codes "OK", record g { cpu = cpu; reload_pending = true })

  unfoldable pub handle_qfc32_reload : Bytes → State → Reply
  handle_qfc32_reload args g = reload_with ops.reload_cart args g
