-- ===== src/Tracked.antt =====
-- runtime_tracked.c and runtime_tracked.h (spikes/spike-k/cart_runtime): the string sink and the
-- registry of tracked regions.
pub mod Decimal
pub mod Pieces
use blyt_planning.Prelude.{
  ℕ, zero, suc, ◌+◌, ◌/◌, ◌%◌, ◌^◌, Bool, true, false, Option, none, some, List, [], ◌∷◌, ◌++◌, ltb,
  ◌==◌, if◌then◌else◌, Bytes, codes, length,
}

-- `text` is `buf[0..pos)`, so `pos` is its length.
pub record StringSink : Type 0 where
  pub text : Bytes
  pub cap : ℕ
  pub overflowed : Bool

unfoldable pub string_sink_putc : StringSink → ℕ → StringSink
string_sink_putc s c =
    if ltb s.cap (length s.text + 1)
    then record s { overflowed = true }
    else record s { text = s.text ++ c ∷ [] }

unfoldable pub string_sink_puts : StringSink → Bytes → StringSink
unfolding string_sink_putc
string_sink_puts s [] = s
string_sink_puts s (c ∷ cs) = string_sink_puts (string_sink_putc s c) cs

-- `while (v) { tmp[n++] = '0' + v % 10; v /= 10; }`: the digits, lowest first.
unfoldable pub decimal_digits : ℕ → ℕ → Bytes
decimal_digits zero v = []
decimal_digits (suc fuel) v =
    let rest = (48 + v % 10) ∷ decimal_digits fuel (v / 10) in if v == 0 then [] else rest

-- `while (n--) string_sink_putc(s, tmp[n]);`
unfoldable pub put_reversed : StringSink → Bytes → StringSink
unfolding string_sink_putc
put_reversed s [] = s
put_reversed s (c ∷ cs) = string_sink_putc (put_reversed s cs) c

-- `tmp` has room for 24 digits, more than any 64-bit number has.
abbrev pub tmp_size : ℕ
tmp_size = 24

unfoldable pub string_sink_putu : StringSink → ℕ → StringSink
string_sink_putu s v =
    if v == 0 then string_sink_putc s 48 else put_reversed s (decimal_digits tmp_size v)

-- A region's callbacks over its storage, the byte image of its struct. `save` returns the bytes
-- that it writes with the storage that it leaves; `load` takes the bytes from the source pointer
-- on and `n`, and returns its verdict with the storage.
pub record TrackedRegion : Type 0 where
  pub name : Bytes
  pub size : ℕ
  pub describe : Option (StringSink → StringSink)
  pub save : Bytes → Bytes × Bytes
  pub load : Bytes → ℕ → Bytes → Bool × Bytes

-- An entry of the registry with the storage of its region.
pub record Slot : Type 0 where
  pub region : TrackedRegion
  pub storage : Bytes

abbrev pub call_describe : Option (StringSink → StringSink) → StringSink → StringSink
call_describe none s = s
call_describe (some f) s = f s

unfoldable pub describe_region : TrackedRegion → StringSink → StringSink
unfolding string_sink_puts string_sink_putu string_sink_putc
describe_region r out =
    let opened = string_sink_puts (string_sink_puts out (codes "REGION:")) r.name in
    let sized = string_sink_putu (string_sink_puts opened (codes ":size=")) r.size in
    string_sink_putc (call_describe r.describe (string_sink_putc sized b':')) 0

unfoldable pub runtime_tracked_describe : List Slot → StringSink → StringSink
unfolding describe_region
runtime_tracked_describe [] out = out
runtime_tracked_describe (s ∷ slots) out =
    runtime_tracked_describe slots (describe_region s.region out)

-- A `uint32_t` sum.
unfoldable pub runtime_tracked_total_size : List Slot → ℕ
runtime_tracked_total_size [] = 0
runtime_tracked_total_size (s ∷ slots) = (s.region.size + runtime_tracked_total_size slots) % 2 ^ 32
