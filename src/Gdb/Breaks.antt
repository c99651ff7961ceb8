-- ===== src/Gdb/Breaks.antt =====
-- The breakpoints as the packets `Z0` and `z0` set and clear them.
use blyt_planning.Prelude.{
  Bool-cases, inl, inr, leb, ℕ, ◌≤◌, true, false, List, [], ◌∷◌, ◌++◌, ◌≡◌, refl, arith, ◌==◌,
  if◌then◌else◌, Bytes, codes, length,
}
use blyt_planning.Gdb.{CpuOps}
use blyt_planning.Gdb.Handlers.{State, hex_arg, handle_Z0, handle_z0, kept, check_break}

check_break-append :
    (pc addr : ℕ) (breaks : List ℕ)
    → check_break pc (breaks ++ (addr ∷ [])) ≡ (if addr == pc then true else check_break pc breaks)
unfolding check_break
check_break-append pc addr [] = refl
check_break-append pc addr (b ∷ breaks) = ground (arith, check_break-append pc addr breaks)

check_break-kept :
    (pc addr : ℕ) (breaks : List ℕ)
    → check_break pc (kept addr breaks) ≡ (if addr == pc then false else check_break pc breaks)
unfolding check_break kept
check_break-kept pc addr [] = ground arith
check_break-kept pc addr (b ∷ breaks) = ground (arith, check_break-kept pc addr breaks)

pub length-kept : (addr : ℕ) (breaks : List ℕ) → length (kept addr breaks) ≤ length breaks
unfolding kept
length-kept addr [] = omega arith
length-kept addr (b ∷ breaks) = ground (arith, length-kept addr breaks)

module _ (ops : CpuOps) where
  -- With a full table, `Z0` is answered with E01 and leaves every breakpoint as it was; with room in
  -- it, `Z0` is answered with OK and makes its address a breakpoint, and changes no other. `z0` makes
  -- its address none, however often it was set, and changes no other. This holds for every address
  -- that the processor may be at.
  pub check_break-handle :
      (g : State ops) (args : Bytes) (pc : ℕ)
      → ((handle_Z0 ops args g).0 ≡ (if leb 128 (length g.breaks) then codes "E01" else codes "OK"))
        × (check_break pc (handle_Z0 ops args g).1.breaks ≡ (
            if leb 128 (length g.breaks)
            then check_break pc g.breaks
            else if (hex_arg args).0 == pc
            then true
            else check_break pc g.breaks))
        × (check_break pc (handle_z0 ops args g).1.breaks
            ≡ (if (hex_arg args).0 == pc then false else check_break pc g.breaks))
  unfolding handle_Z0 handle_z0
  check_break-handle g args pc = elim (Bool-cases (leb 128 (length g.breaks))) [
    | inl e ↦ rw e (refl, refl, check_break-kept pc (hex_arg args).0 g.breaks)
    | inr e ↦ rw e (
      refl,
      check_break-append pc (hex_arg args).0 g.breaks,
      check_break-kept pc (hex_arg args).0 g.breaks,
    )
  ]
