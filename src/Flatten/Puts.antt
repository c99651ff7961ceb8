-- ===== src/Flatten/Puts.antt =====
-- What the `put_…` functions append to the sink.
use mathlib.Core.Path.{subst}
use mathlib.Core.List.{append_assoc}
use blyt_planning.Prelude.{
  ℕ, ◌+◌, ◌<◌, ◌≤◌, ◌/◌, ◌%◌, ◌^◌, [], ◌∷◌, ◌++◌, ◌≡◌, refl, ap, ap₂, ◌∙◌, arith, le→ltb_false,
  Bytes, le_bytes, length, length-append,
}
use blyt_planning.Flatten.{LtfCode, ok, Sink, put_bytes, put_u8, put_u16, put_u32, put_u64}

-- The sink behind the bytes.
abbrev pub pushed : Sink → Bytes → Sink
pushed s bs = record s { written = s.written ++ bs }

-- The bytes fit the sink.
abbrev pub Fits : Sink → Bytes → Type 0
Fits s bs = (s.cap < 2 ^ 32) × (length s.written + length bs ≤ s.cap)

-- A call that appends the bytes wherever they fit.
abbrev pub Emits : (Sink → Sink) → Bytes → Type 0
Emits f bs = (s : Sink) → Fits s bs → f s ≡ pushed s bs

pub Emits-then :
    (f g : Sink → Sink) (a b : Bytes) → Emits f a → Emits g b → Emits (λ s. g (f s)) (a ++ b)
Emits-then f g a b ef eg s (small, fits) =
    ap g (ef s (small, omega (arith, length-append a b)))
    ∙ eg (pushed s a) (small, omega (arith, length-append a b, length-append s.written a))
    ∙ ap (λ w. record s { written = w }) (append_assoc s.written a b)

pub put_bytes-Emits : (bs : Bytes) → Emits (put_bytes bs) bs
unfolding put_bytes
put_bytes-Emits bs s (small, fits) =
    rw (le→ltb_false s.cap ((length s.written + length bs) % 2 ^ 32) (omega arith)) refl

pub put_u8-Emits : (v b : ℕ) → v % 256 ≡ b → Emits (put_u8 v) (b ∷ [])
unfolding put_u8
put_u8-Emits v b e s fits = ap (λ c. put_bytes (c ∷ []) s) e ∙ put_bytes-Emits (b ∷ []) s fits

pub put_u16-Emits : (v : ℕ) → Emits (put_u16 v) (le_bytes 2 v)
unfolding put_u16
put_u16-Emits v =
    Emits-then _ _ (v % 256 ∷ []) _ (put_u8-Emits v _ refl) (put_u8-Emits (v / 2 ^ 8) _ refl)

pub put_u32-Emits : (v : ℕ) → Emits (put_u32 v) (le_bytes 4 v)
unfolding put_u32
put_u32-Emits v =
    Emits-then _ _ (v % 256 ∷ v / 256 % 256 ∷ v / 256 / 256 % 256 ∷ []) _
      (Emits-then _ _ (v % 256 ∷ v / 256 % 256 ∷ []) _
        (Emits-then _ _ (v % 256 ∷ []) _ (put_u8-Emits v _ refl) (put_u8-Emits (v / 2 ^ 8) _ refl))
        (put_u8-Emits (v / 2 ^ 16) _ (omega arith)))
      (put_u8-Emits (v / 2 ^ 24) _ (omega arith))

pub low_high : (v : ℕ) → le_bytes 4 (v % 2 ^ 32) ++ le_bytes 4 (v / 2 ^ 32) ≡ le_bytes 8 v
low_high v = ap₂ ◌∷◌ (omega arith) (
    ap₂ ◌∷◌ (omega arith) (
      ap₂ ◌∷◌ (omega arith) (
        ap₂ ◌∷◌ (omega arith) (
          ap₂ ◌∷◌ (omega arith)
            (ap₂ ◌∷◌ (omega arith) (ap₂ ◌∷◌ (omega arith) (ap₂ ◌∷◌ (omega arith) refl)))))))

pub put_u64-Emits : (v : ℕ) → Emits (put_u64 v) (le_bytes 8 v)
unfolding put_u64
put_u64-Emits v =
    subst (λ bs. Emits (put_u64 v) bs) (low_high v)
      (Emits-then _ _ (le_bytes 4 (v % 2 ^ 32)) (le_bytes 4 (v / 2 ^ 32))
        (put_u32-Emits (v % 2 ^ 32)) (put_u32-Emits (v / 2 ^ 32)))

-- A call that succeeds and appends the bytes.
abbrev pub Succeeds : (Sink → LtfCode × Sink) → Bytes → Type 0
Succeeds f bs = (s : Sink) → Fits s bs → f s ≡ (ok, pushed s bs)

pub Succeeds-after :
    (f : Sink → Sink) (g : Sink → LtfCode × Sink) (a b : Bytes)
    → Emits f a
    → Succeeds g b
    → Succeeds (λ s. g (f s)) (a ++ b)
Succeeds-after f g a b ef eg s (small, fits) =
    ap g (ef s (small, omega (arith, length-append a b)))
    ∙ eg (pushed s a) (small, omega (arith, length-append a b, length-append s.written a))
    ∙ ap (λ w. (ok, record s { written = w })) (append_assoc s.written a b)
