-- ===== src/Tests/Debugging.antt =====
-- The GDB stub at concrete inputs, on a processor whose state is its memory.
use blyt_planning.Gdb.Text.{hex_encode}
use blyt_planning.Gdb.Packet.{send_pkt, frame}
use blyt_planning.Gdb.Dispatch.{reply, step, after_reload}
use blyt_planning.Prelude.{
  leb, ◌++◌, length, drop, take, write_at, replicate, if◌then◌else◌, false, ℕ, Bool, true, some,
  none, [], ◌∷◌, ◌≡◌, refl, arith, Bytes, codes, ◌==◌,
}
use blyt_planning.Gdb.{CpuOps, GdbState, Layout, max_packet}
use blyt_planning.Gdb.Handlers.{hex_arg, check_break, handle_Z0, handle_z0}
use blyt_planning.Gdb.Framing.{step_lem}
use blyt_planning.Gdb.Memory.{span, memory_round_trip}
use blyt_planning.Gdb.Breaks.{check_break-handle}
use blyt_planning.Gdb.Room.{HasRoom, step-HasRoom}

abbrev machine : CpuOps
machine = record {
  Cpu = Bytes;
  read_regs = some (λ cpu. take 132 cpu);
  write_regs = some (λ regs cpu. regs ++ drop 132 cpu);
  read_mem = some (λ addr n cpu. take n (drop addr cpu));
  write_mem = some (λ addr bytes cpu. write_at cpu addr bytes);
  set_breakpoint = none;
  clear_breakpoint = none;
  reload_cart = none;
}

abbrev has_memory : ℕ → Bool
has_memory n = true

abbrev idle : GdbState Bytes
idle = record {
  connected = true;
  input = codes "+" ++ (frame (codes "?") ++ codes "+");
  output = [];
  layout = record { exec_path = codes "cart"; libraries = [] };
  breaks = 64 ∷ [];
  halted = true;
  pending_action = 0;
  reload_pending = false;
  cpu = replicate 140 0;
}

abbrev asked : GdbState Bytes
asked = record idle { input = codes "+"; output = codes "+" }

question : reply machine has_memory (codes "?") asked ≡ some (codes "T05", asked)
unfolding reply blyt_planning.Gdb.Text.starts_with
question = refl

abbrev at_once : Bytes → Bool
at_once input = true

step_lem_example :
    step machine has_memory at_once idle
    ≡ some (record asked { input = []; output = codes "+$T05#b9" })
step_lem_example =
    step_lem machine has_memory at_once idle asked (codes "+") (codes "?") (codes "+") (codes "T05")
      b'3' b'f' refl refl (refl, tt) (refl, tt) (refl, tt) (omega arith) refl question refl refl

first_round : step machine has_memory at_once idle ≡ some (send_pkt has_memory (codes "T05") asked)
unfolding step blyt_planning.Gdb.Dispatch.serve blyt_planning.Gdb.Dispatch.handle_packet reply
    blyt_planning.Gdb.Text.starts_with blyt_planning.Gdb.Packet.read_pkt
    blyt_planning.Gdb.Packet.find_start blyt_planning.Gdb.Packet.read_payload
first_round = refl

step-HasRoom_example : HasRoom machine has_memory (send_pkt has_memory (codes "T05") asked)
step-HasRoom_example =
    step-HasRoom machine has_memory at_once idle (send_pkt has_memory (codes "T05") asked)
      (omega arith) first_round

abbrev word : Bytes
word = 1 ∷ 255 ∷ []

stored_word : take 2 (drop 16 (write_at (replicate 140 0) 16 word)) ≡ word
unfolding write_at
stored_word = refl

memory_round_trip_example :
    (reply machine has_memory (codes "M" ++ span 16 2 (58 ∷ hex_encode word)) idle
      ≡ some (codes "OK", record idle { cpu = write_at (replicate 140 0) 16 word }))
    × (reply machine has_memory
          (codes "m" ++ span 16 2 [])
          (record idle { cpu = write_at (replicate 140 0) 16 word })
        ≡ some (hex_encode word, record idle { cpu = write_at (replicate 140 0) 16 word }))
memory_round_trip_example =
    memory_round_trip machine has_memory idle 16 word (λ addr n cpu. take n (drop addr cpu))
      (λ addr bytes cpu. write_at cpu addr bytes) refl refl stored_word
      (omega arith, (omega arith, tt)) (omega arith) (omega arith) refl

check_break-handle_example :
    ((handle_Z0 machine (codes "80,4") idle).0
      ≡ (if leb 128 (length idle.breaks) then codes "E01" else codes "OK"))
    × (check_break 64 (handle_Z0 machine (codes "80,4") idle).1.breaks ≡ (
        if leb 128 (length idle.breaks)
        then check_break 64 idle.breaks
        else if (hex_arg (codes "80,4")).0 == 64
        then true
        else check_break 64 idle.breaks))
    × (check_break 64 (handle_z0 machine (codes "80,4") idle).1.breaks
        ≡ (if (hex_arg (codes "80,4")).0 == 64 then false else check_break 64 idle.breaks))
check_break-handle_example = check_break-handle machine idle (codes "80,4") 64
