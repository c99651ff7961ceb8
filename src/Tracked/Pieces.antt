-- ===== src/Tracked/Pieces.antt =====
-- A region's `describe` callback: a row of calls of the string sink.
use blyt_planning.Prelude.{ℕ, List, [], ◌∷◌, Bytes}
use blyt_planning.Tracked.{StringSink, string_sink_puts, string_sink_putu, string_sink_putc}

-- `text` is a `string_sink_puts`, `number` a `string_sink_putu`, `char` a `string_sink_putc`.
pub data Piece : Type 0 where
  text : Bytes → Piece
  number : ℕ → Piece
  char : ℕ → Piece

unfoldable pub emit_piece : Piece → StringSink → StringSink
unfolding string_sink_puts string_sink_putu string_sink_putc
emit_piece (text t) out = string_sink_puts out t
emit_piece (number n) out = string_sink_putu out n
emit_piece (char c) out = string_sink_putc out c

unfoldable pub emit_pieces : List Piece → StringSink → StringSink
unfolding emit_piece
emit_pieces [] out = out
emit_pieces (p ∷ ps) out = emit_pieces ps (emit_piece p out)
