-- ===== src/Tests/Digests.antt =====
-- The determinism helpers at concrete inputs.
use blyt_planning.Prelude.{
  zero, suc, ◌<◌, ◌⊎◌, ◌*◌, ℕ, ◌+◌, ◌≤◌, ◌≢◌, [], ◌∷◌, ◌++◌, ◌≡◌, refl, sym, ap, ◌∙◌, inl, inr,
  arith, Bytes, codes, length, get_or, replicate, write_at, load_le, load_le-write_at-Apart,
  get_or-write_at_apart, length-write_at, false, length-replicate,
}
use blyt_planning.Prelude.Bits.{bit}
use blyt_planning.Det.Nan.{canonicalize_nanf}
use blyt_planning.Det.Canon.{canon_fields, get_or-canon_fields}
use blyt_planning.Det.FrameState.{frame_state_emit_digest}
use blyt_planning.Det.FrameState.Digests.{SameNumbers, emit_digest-SameUpToNan}
use blyt_planning.Det.Fnv.{fnv1a_64_bytes, fnv1a_64_bytes_one_byte}
use blyt_planning.Det.Pcg32.{advance, retreat, retreat-advance, rotate_right}
use blyt_planning.Det.Pcg32.Rotate.{rotate_right-bit}
use blyt_planning.Tracked.{StringSink, string_sink_putu, tmp_size}
use blyt_planning.Tracked.Decimal.{decimal_value, string_sink_putu_lem}

-- A frame of zeros, and two NaNs of different payloads for `accum_sin`.
abbrev zeros : Bytes
zeros = replicate 1316 0

abbrev quiet_nan : Bytes
quiet_nan = 1 ∷ 0 ∷ 192 ∷ 127 ∷ []

abbrev other_nan : Bytes
other_nan = 5 ∷ 4 ∷ 240 ∷ 255 ∷ []

-- What holds behind the first accumulator.
elsewhere :
    (o : ℕ)
    → 24 ≤ o
    → canonicalize_nanf (load_le 4 (write_at zeros 20 quiet_nan) o)
      ≡ canonicalize_nanf (load_le 4 (write_at zeros 20 other_nan) o)
elsewhere o h = ap canonicalize_nanf (
    load_le-write_at-Apart 4 zeros o 20 quiet_nan (inr (omega arith))
    ∙ sym (load_le-write_at-Apart 4 zeros o 20 other_nan (inr (omega arith))))

same_byte :
    (j : ℕ)
    → (j < 20) ⊎ (24 ≤ j)
    → get_or (write_at zeros 20 quiet_nan) j 0 ≡ get_or (write_at zeros 20 other_nan) j 0
same_byte j out =
    get_or-write_at_apart zeros 20 quiet_nan j out
    ∙ sym (get_or-write_at_apart zeros 20 other_nan j out)

two_nans : SameNumbers (write_at zeros 20 quiet_nan) (write_at zeros 20 other_nan)
unfolding canonicalize_nanf write_at
two_nans = record {
  same_length = refl;
  accumulators = λ k h. accumulator k;
  mobs = λ i k p q. elsewhere (36 + 20 * i + 4 * k) (omega arith);
  counters = λ j h. same_byte j (inl h);
  states = λ i k p q. same_byte (52 + 20 * i + k) (inr (omega arith));
  behind = λ j h. same_byte j (inr (omega arith));
}
  where
    accumulator :
        (k : ℕ)
        → canonicalize_nanf (load_le 4 (write_at zeros 20 quiet_nan) (20 + 4 * k))
          ≡ canonicalize_nanf (load_le 4 (write_at zeros 20 other_nan) (20 + 4 * k))
    accumulator zero = refl
    accumulator (suc k) = elsewhere (20 + 4 * suc k) (omega arith)

emit_digest-SameUpToNan_example :
    frame_state_emit_digest (write_at zeros 20 quiet_nan)
    ≡ frame_state_emit_digest (write_at zeros 20 other_nan)
emit_digest-SameUpToNan_example =
    emit_digest-SameUpToNan (write_at zeros 20 quiet_nan) (write_at zeros 20 other_nan)
      (omega (arith, length-write_at zeros 20 quiet_nan, length-replicate {A = ℕ} 1316 0)) two_nans

get_or-canon_fields_example : get_or (canon_fields (2 ∷ []) (9 ∷ 9 ∷ other_nan)) 1 0 ≡ 9
get_or-canon_fields_example =
    get_or-canon_fields (2 ∷ []) (9 ∷ 9 ∷ other_nan) 1 (inl (omega arith), tt)

fnv1a_64_bytes_one_byte_example :
    fnv1a_64_bytes (codes "ab" ++ 99 ∷ 7 ∷ []) ≢ fnv1a_64_bytes (codes "ab" ++ 100 ∷ 7 ∷ [])
fnv1a_64_bytes_one_byte_example =
    fnv1a_64_bytes_one_byte (codes "ab") 99 100 (7 ∷ []) (omega arith) (omega arith)
      (omega arith, tt) (λ e. omega arith)

retreat-advance_example : retreat 3 (advance 3 0xfc320001) ≡ 0xfc320001
retreat-advance_example = retreat-advance 3 0xfc320001 (omega arith) (omega arith)

rotate_right-bit_example : bit (rotate_right 0x80000001 5) 27 ≡ bit 0x80000001 0
rotate_right-bit_example =
    rotate_right-bit 0x80000001 5 27 (omega arith) (omega arith) (omega arith)

abbrev roomy_sink : StringSink
roomy_sink = record { text = codes "n="; cap = 64; overflowed = false }

string_sink_putu_lem_example :
    (ds : Bytes) × (string_sink_putu roomy_sink 1316
      ≡ record roomy_sink { text = codes "n=" ++ ds })
    × (decimal_value 0 ds ≡ 1316)
    × (length ds ≤ tmp_size)
string_sink_putu_lem_example = string_sink_putu_lem roomy_sink 1316 (omega arith) (omega arith)
