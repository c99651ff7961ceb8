-- ===== src/Gdb.antt =====
-- gdb_stub.c (spikes/spike-j/host): the packets of GDB's remote protocol. Text is the bytes before
-- the NUL; `Text` holds what the code uses of C's string functions.
pub mod Text
pub mod Packet
pub mod Handlers
pub mod Dispatch
pub mod Framing
pub mod Hex
pub mod Breaks
pub mod Keeps
pub mod Room
pub mod Numbers
pub mod Memory
pub mod Registers
use blyt_planning.Prelude.{ℕ, Bool, Option, List, Bytes}

-- The callbacks of `fc_gdb_cpu_ops_t`, each of which may be NULL, on the state of the processor. The
-- reads give the bytes that they transfer; the outcome of the reload is its test against 0.
pub record CpuOps : Type 1 where
  pub Cpu : Type 0
  pub read_regs : Option (Cpu → Bytes)
  pub write_regs : Option (Bytes → Cpu → Cpu)
  pub read_mem : Option (ℕ → ℕ → Cpu → Bytes)
  pub write_mem : Option (ℕ → Bytes → Cpu → Cpu)
  pub set_breakpoint : Option (ℕ → Cpu → Cpu)
  pub clear_breakpoint : Option (ℕ → Cpu → Cpu)
  pub reload_cart : Option (Bytes → Cpu → Bool × Cpu)

-- `fc_gdb_library_t`
pub record Library : Type 0 where
  pub path : Bytes
  pub l_addr : ℕ
  pub l_ld : ℕ

-- `fc_gdb_layout_t`; a path that is NULL is the empty one.
pub record Layout : Type 0 where
  pub exec_path : Bytes
  pub libraries : List Library

-- `gdb_state_t` less its thread and its lock, with the processor and with the socket of the client:
-- the bytes to come and the bytes sent. `breaks` is `breaks[0..n_breaks)`; `connected` says that
-- `client_fd` is open.
pub record GdbState (Cpu : Type 0) : Type 0 where
  pub connected : Bool
  pub input : Bytes
  pub output : Bytes
  pub layout : Layout
  pub breaks : List ℕ
  pub halted : Bool
  pub pending_action : ℕ
  pub reload_pending : Bool
  pub cpu : Cpu

abbrev pub max_packet : ℕ
max_packet = 0x10000

abbrev pub max_breaks : ℕ
max_breaks = 128
