-- ===== src/Gdb/Dispatch.antt =====
-- `handle_packet`, and the loop over the packets of a client.
use blyt_planning.Prelude.{
  ℕ, ◌++◌, Bool, true, false, [], ◌∷◌, Option, none, some, ◌==◌, if◌then◌else◌, Bytes, codes, drop,
}
use blyt_planning.Gdb.{Layout, CpuOps, GdbState, max_packet}
use blyt_planning.Gdb.Text.{starts_with, equal}
use blyt_planning.Gdb.Packet.{send_pkt, read_pkt}
use blyt_planning.Gdb.Handlers.{
  State, Reply, handle_qsupported, handle_qxfer_exec_file, handle_qxfer_libraries, handle_g,
  handle_G, handle_m, handle_M, handle_Z0, handle_z0, handle_vcont_q, handle_vcont,
  handle_qfc32_reload,
}

-- The text up to the first NUL of a buffer.
abbrev pub c_string : Bytes → Bytes
c_string [] = []
c_string (c ∷ s) = let rest = c_string s in if c == 0 then [] else c ∷ rest

module _ (ops : CpuOps) (malloc : ℕ → Bool) where
  abbrev pub with_state : State ops → Option Bytes → Option (Reply ops)
  with_state g none = none
  with_state g (some out) = some (out, g)

  -- The reply to a packet.
  unfoldable pub reply : Bytes → State ops → Option (Reply ops)
  unfolding starts_with equal handle_Z0 handle_z0 handle_vcont handle_qfc32_reload
  reply pkt g =
      if starts_with (codes "qSupported") pkt
      then some (handle_qsupported, g)
      else if starts_with (codes "qXfer:exec-file:read:") pkt
      then some (handle_qxfer_exec_file g.layout (drop 21 pkt), g)
      else if starts_with (codes "qXfer:libraries-svr4:read:") pkt
      then with_state g (handle_qxfer_libraries g.layout (drop 26 pkt))
      else if starts_with (codes "?") pkt
      then some (codes "T05", g)
      else if equal (codes "g") pkt
      then some (handle_g ops g)
      else if starts_with (codes "G") pkt
      then some (handle_G ops (drop 1 pkt) g)
      else if starts_with (codes "m") pkt
      then some (handle_m ops malloc (drop 1 pkt) g)
      else if starts_with (codes "M") pkt
      then some (handle_M ops malloc (drop 1 pkt) g)
      else if starts_with (codes "Z0,") pkt
      then some (handle_Z0 ops (drop 3 pkt) g)
      else if starts_with (codes "z0,") pkt
      then some (handle_z0 ops (drop 3 pkt) g)
      else if equal (codes "vCont?") pkt
      then some (handle_vcont_q, g)
      else if starts_with (codes "vCont") pkt
      then some (handle_vcont ops (drop 5 pkt) g)
      else if starts_with (codes "qFc32:reload:") pkt
      then some (handle_qfc32_reload ops (drop 13 pkt) g)
      else if equal (codes "qAttached") pkt
      then some (codes "1", g)
      else if starts_with (codes "qC") pkt
      then some (codes "QC1", g)
      else some ([], g)

  abbrev pub answered : Option (Reply ops) → Option (State ops)
  answered none = none
  answered (some (out, g)) = some (send_pkt malloc out g)

  unfoldable pub handle_packet : Bytes → State ops → Option (State ops)
  unfolding reply
  handle_packet pkt g = answered (reply (c_string pkt) g)

  -- The stop reply behind a packet that has reloaded the cart.
  abbrev pub after_reload : State ops → State ops
  after_reload g =
      if g.reload_pending
      then (let h = send_pkt malloc (codes "T05library:;") g in record h { reload_pending = false })
      else g

  -- One packet that was read: its acknowledgement, its reply and the stop reply.
  abbrev pub reloaded : Option (State ops) → Option (State ops)
  reloaded none = none
  reloaded (some g) = some (after_reload g)

  unfoldable pub serve : Bytes → Bytes → State ops → Option (State ops)
  unfolding handle_packet
  serve pkt rest g =
      reloaded (handle_packet pkt (record g { input = rest; output = g.output ++ codes "+" }))

  -- A round of the loop: none where the connection has ended.
  abbrev pub round : Option (Bytes × Bytes) → State ops → Option (State ops)
  round none g = none
  round (some (pkt, rest)) g = serve pkt rest g

  unfoldable pub step : (Bytes → Bool) → State ops → Option (State ops)
  unfolding serve read_pkt
  step recv_two g = round (read_pkt recv_two max_packet g.input) g

-- A client arrives, and leaves.
abbrev pub connect : {Cpu : Type 0} → Bytes → GdbState Cpu → GdbState Cpu
connect input g = record g { connected = true; input = input; halted = true }

abbrev pub disconnect : {Cpu : Type 0} → GdbState Cpu → GdbState Cpu
disconnect g = record g { connected = false; halted = false }

-- `fc_gdb_stub_set_layout`
abbrev pub set_layout : {Cpu : Type 0} → Layout → GdbState Cpu → GdbState Cpu
set_layout layout g = record g { layout = layout }

-- `fc_gdb_stub_step` up to its wait for the client; behind it, it returns `pending_action`.
abbrev pub stub_step : {Cpu : Type 0} → (ℕ → Bool) → GdbState Cpu → GdbState Cpu
stub_step malloc g = send_pkt malloc (codes "T05swbreak:;") (record g { halted = true })

-- `fc_gdb_stub_notify_reload`
abbrev pub notify_reload : {Cpu : Type 0} → GdbState Cpu → GdbState Cpu
notify_reload g = record g { reload_pending = true }
