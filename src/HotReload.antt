-- ===== src/HotReload.antt =====
-- hot_reload_diagnostic.c and hot_reload_diagnostic.h (spikes/spike-n/cart_runtime): the text of a
-- failed hot reload. `text` is `buf[0..*pos)`; an `int` argument is its 32-bit pattern.
pub mod Bounds
use blyt_planning.Prelude.{
  ℕ, suc, zero, ◌+◌, ◌-◌, ◌/◌, ◌%◌, ◌^◌, Bool, true, false, not, ◌&&◌, Option, none, some, List, [],
  ◌∷◌, ◌++◌, ltb, leb, ◌==◌, if◌then◌else◌, Bytes, codes, length, ℤ, pos, negsuc,
}
use blyt_planning.Tracked.{decimal_digits}

-- `hot_reload_reason_t`
pub data Reason : Type 0 where
  function_not_found function_deleted retype_rejected schema_mismatch save_flatten_failed : Reason

-- `*pos >= buf_cap - 1`, over a signed capacity.
abbrev pub is_full : ℤ → ℕ → Bool
is_full (negsuc k) at = true
is_full (pos zero) at = true
is_full (pos (suc n)) at = leb n at

unfoldable pub emit_str : ℤ → Bytes → Bytes → Bytes
emit_str buf_cap text [] = text
emit_str buf_cap text (c ∷ cs) =
    if is_full buf_cap (length text) then text else emit_str buf_cap (text ++ c ∷ []) cs

-- `reverse`
abbrev pub reversed : Bytes → Bytes
reversed [] = []
reversed (c ∷ cs) = reversed cs ++ c ∷ []

-- `tmp` has room for 24 digits, more than any `unsigned long` has.
unfoldable pub emit_uint : ℤ → Bytes → ℕ → Bytes
unfolding emit_str
emit_uint buf_cap text v =
    emit_str buf_cap text (if v == 0 then 48 ∷ [] else reversed (decimal_digits 24 v))

-- `func_name ? func_name : "(unknown)"`
abbrev pub name_or_unknown : Option Bytes → Bytes
name_or_unknown none = codes "(unknown)"
name_or_unknown (some name) = name

module _ (buf_cap : ℤ) where
  unfoldable pub emit_reason : Bytes → Option Bytes → Reason → Bytes
  unfolding emit_str
  emit_reason text func_name function_not_found =
      emit_str buf_cap
        (emit_str buf_cap (emit_str buf_cap text (codes "function '")) (name_or_unknown func_name))
        (codes "' not found in new code\n")
  emit_reason text func_name function_deleted =
      emit_str buf_cap
        (emit_str buf_cap (emit_str buf_cap text (codes "function '")) (name_or_unknown func_name))
        (codes "' was deleted from new code\n")
  emit_reason text func_name retype_rejected =
      emit_str buf_cap text (codes "field retype rejected by on_retype callback\n")
  emit_reason text func_name schema_mismatch =
      emit_str buf_cap text (codes "region layout changed but no migration descriptor registered\n")
  emit_reason text func_name save_flatten_failed =
      emit_str buf_cap text
        (codes "pre-reload ctx flatten failed (BLYT_ERR_FLATTEN_UNSUPPORTED_TYPE)\n")

  -- `old_line > 0`, over the 32-bit pattern.
  unfoldable pub emit_line : Bytes → ℕ → Bytes
  unfolding emit_str emit_uint
  emit_line text old_line =
      if not (old_line == 0) && ltb old_line (2 ^ 31)
      then emit_str buf_cap
          (emit_uint buf_cap (emit_str buf_cap text (codes "  body: cart.lua:")) old_line)
          (codes " (old) -> cart.lua:??? (new)\n")
      else text

  -- The text in `buf`, whose length is the value returned; a NUL follows it where there is room.
  unfoldable pub hot_reload_diagnostic_format : ℕ → Option Bytes → ℕ → Reason → Bytes
  unfolding emit_line emit_reason emit_str emit_uint
  hot_reload_diagnostic_format slot func_name old_line reason =
      let opened =
        emit_uint buf_cap (emit_str buf_cap [] (codes "hot_reload: failed to migrate slot "))
          slot in
      let headed = emit_line (emit_str buf_cap opened (codes " (persistent script)\n")) old_line in
      let explained = emit_reason (emit_str buf_cap headed (codes "  reason: ")) func_name reason in
      let surfaced =
        emit_str buf_cap explained (codes "  surfaced via: blyt32.on_hot_reload_failed(slot=") in
      emit_str buf_cap (emit_uint buf_cap surfaced slot) (codes ", reason=...)\n")

abbrev pub hot_reload_diag_max : ℕ
hot_reload_diag_max = 512

-- A hook is called with the slot and the text; `none` is a null pointer.
abbrev pub Hook : Type 0
Hook = Option (ℕ → Bytes → Bytes)

-- `g_hook = fn`
unfoldable pub hot_reload_set_hook : Hook → Hook → Hook
hot_reload_set_hook fn g_hook = fn

abbrev pub call_hook : Hook → ℕ → Bytes → Bytes
call_hook none slot diag = []
call_hook (some hook) slot diag = hook slot diag

-- What is printed, and behind it what the hook puts out.
unfoldable pub hot_reload_diagnostic_emit : Hook → ℕ → Option Bytes → ℕ → Reason → Bytes
unfolding hot_reload_diagnostic_format
hot_reload_diagnostic_emit g_hook slot func_name old_line reason =
    let diag =
      hot_reload_diagnostic_format (pos hot_reload_diag_max) slot func_name old_line reason in
    (codes "STDERR " ++ diag) ++ call_hook g_hook slot diag
