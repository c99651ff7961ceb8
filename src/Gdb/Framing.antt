-- ===== src/Gdb/Framing.antt =====
-- Packets on the wire.
use blyt_planning.Prelude.{
  ℕ, zero, suc, List, true, none, ◌/◌, ◌&&◌, if◌then◌else◌, ap₂, get_or, drop, ◌+◌, ◌%◌, ◌<◌, Bool,
  false, [], ◌∷◌, ◌++◌, some, ◌≡◌, refl, ap, ◌∙◌, arith, ◌==◌, Bytes, codes, All, length, ◌-◌,
}
use blyt_planning.Gdb.{CpuOps, max_packet}
use blyt_planning.Gdb.Packet.{
  find_start, read_payload, with_byte, drain, read_behind, read_pkt, frame, byte_sum, send_pkt,
}
use blyt_planning.Gdb.Text.{hexnyb}
use blyt_planning.Gdb.Handlers.{State}
use blyt_planning.Gdb.Keeps.{Survives, AllHold, reply-Holds}
use mathlib.Core.Path.{subst}
use blyt_planning.Gdb.Dispatch.{
  c_string, reply, answered, handle_packet, after_reload, reloaded, serve, round, step,
}

-- No byte of the text is the given one.
abbrev pub IsWithout : ℕ → Bytes → Type 0
IsWithout c s = All (λ b. (b == c) ≡ false) s

find_start-append :
    (junk input : Bytes) → IsWithout 36 junk → find_start (junk ++ (36 ∷ input)) ≡ some input
unfolding find_start
find_start-append [] input h = refl
find_start-append (c ∷ junk) input (h, hs) = rw h (find_start-append junk input hs)

read_payload-append :
    (room : ℕ) (payload rest : Bytes)
    → IsWithout 35 payload
    → length payload < room
    → read_payload room (payload ++ (35 ∷ rest)) ≡ some (payload, rest)
unfolding read_payload
read_payload-append zero payload rest h k = absurd (omega arith)
read_payload-append (suc room) [] rest h k = refl
read_payload-append (suc room) (c ∷ payload) rest (h, hs) k =
    rw h (ap (with_byte c) (read_payload-append room payload rest hs (omega arith)))

read_pkt-frame :
    (recv_two : Bytes → Bool) (cap : ℕ) (junk payload rest : Bytes) (a b : ℕ)
    → IsWithout 36 junk
    → IsWithout 35 payload
    → length payload + 1 < cap
    → recv_two (a ∷ b ∷ rest) ≡ true
    → read_pkt recv_two cap (junk ++ (36 ∷ payload ++ (35 ∷ a ∷ b ∷ rest))) ≡ some (payload, rest)
unfolding read_pkt
read_pkt-frame recv_two cap junk payload rest a b h k fits both =
    ap (read_behind recv_two cap) (find_start-append junk (payload ++ (35 ∷ a ∷ b ∷ rest)) h)
    ∙ ap (drain recv_two) (read_payload-append (cap - 1) payload (a ∷ b ∷ rest) k (omega arith))
    ∙ ap (λ c. if c then some (payload, rest) else none) both

c_string_lem : (s : Bytes) → IsWithout 0 s → c_string s ≡ s
c_string_lem [] h = refl
c_string_lem (c ∷ s) (h, hs) = rw h (ap (◌∷◌ c) (c_string_lem s hs))

-- A packet as the protocol has it: `$`, the text, `#`, and the sum of the text's bytes modulo 256 in
-- two hexadecimal digits.
abbrev pub total : Bytes → ℕ
total [] = 0
total (b ∷ bs) = b + total bs

abbrev pub digit : ℕ → ℕ
digit d = get_or (codes "0123456789abcdef") d 0

abbrev pub packet : Bytes → Bytes
packet text = 36 ∷ (text ++ (35 ∷ digit (total text % 256 / 16) ∷ digit (total text % 16) ∷ []))

byte_sum-total : (s : Bytes) → byte_sum s % 256 ≡ total s % 256
byte_sum-total [] = refl
byte_sum-total (b ∷ s) = omega (arith, byte_sum-total s)

digit_table : (n : ℕ) → n < 16 → hexnyb n ≡ digit n
digit_table zero h = refl
digit_table (suc zero) h = refl
digit_table (suc (suc zero)) h = refl
digit_table (suc (suc (suc zero))) h = refl
digit_table (suc (suc (suc (suc zero)))) h = refl
digit_table (suc (suc (suc (suc (suc zero))))) h = refl
digit_table (suc (suc (suc (suc (suc (suc zero)))))) h = refl
digit_table (suc (suc (suc (suc (suc (suc (suc zero))))))) h = refl
digit_table (suc (suc (suc (suc (suc (suc (suc (suc zero)))))))) h = refl
digit_table (suc (suc (suc (suc (suc (suc (suc (suc (suc zero))))))))) h = refl
digit_table (suc (suc (suc (suc (suc (suc (suc (suc (suc (suc zero)))))))))) h = refl
digit_table (suc (suc (suc (suc (suc (suc (suc (suc (suc (suc (suc zero))))))))))) h = refl
digit_table (suc (suc (suc (suc (suc (suc (suc (suc (suc (suc (suc (suc zero)))))))))))) h = refl
digit_table (suc (suc (suc (suc (suc (suc (suc (suc (suc (suc (suc (suc (suc zero))))))))))))) h =
    refl
digit_table (suc (suc (suc (suc (suc (suc (suc (suc (suc (suc (suc (suc (suc (suc zero))))))))))))))
      h =
    refl
digit_table
      (suc (suc (suc (suc (suc (suc (suc (suc (suc (suc (suc (suc (suc (suc (suc zero)))))))))))))))
      h =
    refl
digit_table
      (suc
        (suc (suc (suc (suc (suc (suc (suc (suc (suc (suc (suc (suc (suc (suc (suc n))))))))))))))))
      h =
    absurd (omega arith)

frame-packet : (s : Bytes) → frame s ≡ packet s
frame-packet s =
    ap (λ n. 36 ∷ (s ++ (35 ∷ hexnyb (n / 16) ∷ hexnyb (n % 16) ∷ []))) (byte_sum-total s)
    ∙ ap (λ n. 36 ∷ (s ++ (35 ∷ hexnyb (total s % 256 / 16) ∷ hexnyb n ∷ [])))
        {x = total s % 256 % 16} {y = total s % 16} (omega arith)
    ∙ ap₂ (λ hi lo. 36 ∷ (s ++ (35 ∷ hi ∷ lo ∷ [])))
        (digit_table (total s % 256 / 16) (omega arith)) (digit_table (total s % 16) (omega arith))

module _ (ops : CpuOps) (malloc : ℕ → Bool) where
  abbrev sent : List Bytes → State ops → State ops
  sent [] g = g
  sent (text ∷ texts) g =
      sent texts (record g { output = g.output ++ packet text; input = drop 1 g.input })

  send_pkt_lem :
      (out : Bytes) (g : State ops)
      → g.connected ≡ true
      → malloc (length out + 16) ≡ true
      → send_pkt malloc out g ≡ record g { output = g.output ++ packet out; input = drop 1 g.input }
  send_pkt_lem out g c m =
      ap (λ t. if t then record g { output = g.output ++ frame out; input = drop 1 g.input } else g)
        (ap (λ t. t && malloc (length out + 16)) c ∙ m)
      ∙ ap (λ f. record g { output = g.output ++ f; input = drop 1 g.input }) (frame-packet out)

  after_reload_lem :
      (g : State ops)
      → g.connected ≡ true
      → malloc 28 ≡ true
      → after_reload ops malloc g ≡ (
          if g.reload_pending
          then record (sent (codes "T05library:;" ∷ []) g) { reload_pending = false }
          else g)
  after_reload_lem g c m =
      ap (λ h. if g.reload_pending then record h { reload_pending = false } else g)
        (send_pkt_lem (codes "T05library:;") g c m)

  -- Connected, with these bytes to come and these sent.
  abbrev Socket : Bytes → Bytes → List ℕ → Bool → Bytes → Bytes → Type 0
  Socket input output breaks c i o = (c ≡ true) × (i ≡ input) × (o ≡ output)

  Socket-Survives : (input output : Bytes) → Survives (Socket input output)
  Socket-Survives input output = record {
    appended = λ addr breaks c i o e h. h;
    removed = λ addr breaks c i o h. h;
  }

  -- No handler touches the socket.
  reply-Socket :
      (text : Bytes) (g g' : State ops) (out : Bytes)
      → g.connected ≡ true
      → reply ops malloc text g ≡ some (out, g')
      → Socket g.input g.output g'.breaks g'.connected g'.input g'.output
  reply-Socket text g g' out c r =
      subst (AllHold ops malloc (Socket g.input g.output) (Socket-Survives g.input g.output)) r (
        reply-Holds ops malloc (Socket g.input g.output) (Socket-Survives g.input g.output) text g
          (c, refl, refl))

  -- A state behind an answer, over the bytes to come and the bytes sent before it.
  abbrev behind : Bytes → State ops → Bytes → Bytes → State ops
  behind out g' input output =
      if g'.reload_pending
      then record g' {
        input = drop 1 (drop 1 input);
        output = (output ++ packet out) ++ packet (codes "T05library:;");
        reload_pending = false;
      }
      else record g' { input = drop 1 input; output = output ++ packet out }

  -- With a client connected, the input goes on, behind bytes that are no `$`, with a packet whose
  -- text has no `#` and no NUL and fits the buffer, with any two bytes for its sum, which one `recv`
  -- gives; `malloc` gives the buffers of the answers. Then a round of the loop takes exactly that
  -- packet and leaves the state that the handler of the text leaves, with the acknowledgement `+` and
  -- the reply as a packet sent behind all that was sent before, and the byte that follows in the
  -- input, the acknowledgement of the reply, taken; where the handler has left a reload pending, the
  -- stop reply and its acknowledgement follow the same way, and it is no longer pending.
  pub step_lem :
      (recv_two : Bytes → Bool) (g g' : State ops) (junk text rest out : Bytes) (a b : ℕ)
      → g.connected ≡ true
      → g.input ≡ junk ++ (36 ∷ text ++ (35 ∷ a ∷ b ∷ rest))
      → IsWithout 36 junk
      → IsWithout 35 text
      → IsWithout 0 text
      → length text + 1 < max_packet
      → recv_two (a ∷ b ∷ rest) ≡ true
      → reply ops malloc text (record g { input = rest; output = g.output ++ codes "+" })
        ≡ some (out, g')
      → malloc (length out + 16) ≡ true
      → malloc 28 ≡ true
      → step ops malloc recv_two g
        ≡ some (
            if g'.reload_pending
            then record g' {
              input = drop 1 (drop 1 rest);
              output = ((g.output ++ codes "+") ++ packet out) ++ packet (codes "T05library:;");
              reload_pending = false;
            }
            else record g' { input = drop 1 rest; output = (g.output ++ codes "+") ++ packet out })
  unfolding step serve handle_packet
  step_lem recv_two g g' junk text rest out a b c e h k z fits both r m m' =
      let (c', input, output) = reply-Socket text acknowledged g' out c r in
      ap (λ q. round ops malloc q g)
        (ap (read_pkt recv_two max_packet) e
          ∙ read_pkt-frame recv_two max_packet junk text rest a b h k fits both)
      ∙ ap (λ q. reloaded ops malloc (answered ops malloc q))
          (ap (λ s. reply ops malloc s acknowledged) (c_string_lem text z) ∙ r)
      ∙ ap (λ q. some (after_reload ops malloc q)) (send_pkt_lem out g' c' m)
      ∙ ap some (after_reload_lem (sent (out ∷ []) g') c' m')
      ∙ ap some (ap₂ (behind out g') input output)
    where
      acknowledged : State ops
      acknowledged = record g { input = rest; output = g.output ++ codes "+" }
