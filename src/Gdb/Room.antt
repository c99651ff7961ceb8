-- ===== src/Gdb/Room.antt =====
-- The table of breakpoints stays inside its array, whatever the client sends.
use mathlib.Core.Path.{subst}
use blyt_planning.Prelude.{
  List, ◌&&◌, ◌+◌, ℕ, ◌≤◌, Bool, true, false, [], ◌∷◌, ◌++◌, Option, none, some, ◌≡◌, arith,
  if◌then◌else◌, Bytes, codes, length, length-append,
}
use blyt_planning.Gdb.{CpuOps, max_packet}
use blyt_planning.Gdb.Packet.{send_pkt, read_pkt}
use blyt_planning.Gdb.Handlers.{State, Reply}
use blyt_planning.Gdb.Dispatch.{
  c_string, reply, answered, handle_packet, after_reload, reloaded, serve, round, step,
}
use blyt_planning.Gdb.Breaks.{length-kept}
use blyt_planning.Gdb.Keeps.{Survives, AllHold, reply-Holds}

-- The table has room for its addresses.
abbrev Fits : List ℕ → Bool → Bytes → Bytes → Type 0
Fits breaks connected input output = length breaks ≤ 128

Fits-Survives : Survives Fits
Fits-Survives = record {
  appended = λ addr breaks c i o e h. ground (arith, length-append breaks (addr ∷ []));
  removed = λ addr breaks c i o h. omega (arith, length-kept addr breaks);
}

module _ (ops : CpuOps) (malloc : ℕ → Bool) where
  -- `breaks` holds at most the 128 addresses of its array.
  abbrev pub HasRoom : State ops → Type 0
  HasRoom g = length g.breaks ≤ 128

  abbrev Bounded : Option (Reply ops) → Type 0
  Bounded none = Unit
  Bounded (some (out, g)) = HasRoom g

  abbrev Kept : Option (State ops) → Type 0
  Kept none = Unit
  Kept (some g) = HasRoom g

  reply-Bounded : (pkt : Bytes) (g : State ops) → HasRoom g → Bounded (reply ops malloc pkt g)
  reply-Bounded pkt g h =
      bounded (reply ops malloc pkt g) (reply-Holds ops malloc Fits Fits-Survives pkt g h)
    where
      bounded : (o : Option (Reply ops)) → AllHold ops malloc Fits Fits-Survives o → Bounded o
      bounded none k = tt
      bounded (some (out, g')) k = k

  pick : (c : Bool) (p q : State ops) → HasRoom p → HasRoom q → HasRoom (if c then p else q)
  pick true p q h k = h
  pick false p q h k = k

  send_pkt-HasRoom : (out : Bytes) (g : State ops) → HasRoom g → HasRoom (send_pkt malloc out g)
  send_pkt-HasRoom out g h = pick (g.connected && malloc (length out + 16)) _ _ h h

  after_reload-HasRoom : (g : State ops) → HasRoom g → HasRoom (after_reload ops malloc g)
  after_reload-HasRoom g h =
      pick g.reload_pending _ _ (send_pkt-HasRoom (codes "T05library:;") g h) h

  answered-Kept :
      (o : Option (Reply ops)) → Bounded o → Kept (reloaded ops malloc (answered ops malloc o))
  answered-Kept none h = tt
  answered-Kept (some (out, g)) h =
      after_reload-HasRoom (send_pkt malloc out g) (send_pkt-HasRoom out g h)

  round-Kept :
      (o : Option (Bytes × Bytes)) (g : State ops) → HasRoom g → Kept (round ops malloc o g)
  unfolding serve handle_packet
  round-Kept none g h = tt
  round-Kept (some (pkt, rest)) g h =
      answered-Kept _
        (reply-Bounded (c_string pkt) (record g { input = rest; output = g.output ++ codes "+" }) h)

  -- The table of breakpoints holds at most 128 addresses, as many as its array. Then so it does after
  -- a round of the loop, whatever bytes the client has sent.
  pub step-HasRoom :
      (recv_two : Bytes → Bool) (g g' : State ops)
      → HasRoom g
      → step ops malloc recv_two g ≡ some g'
      → HasRoom g'
  unfolding step
  step-HasRoom recv_two g g' h e =
      subst Kept e (round-Kept (read_pkt recv_two max_packet g.input) g h)
