-- ===== src/Sha256/Stream.antt =====
-- The streaming context: the blocks of the message that are absorbed, and the bytes that wait.
use mathlib.Core.Path.{subst}
use mathlib.Core.List.{append_assoc, append-nil}
use blyt_planning.Prelude.{
  ℕ, suc, ◌+◌, ◌*◌, ◌%◌, ◌^◌, ◌<◌, List, [], ◌∷◌, ◌++◌, ◌≡◌, refl, sym, ap, ◌∙◌, inl, inr, arith,
  ◌==◌, Bool-cases, Bytes, length, length-set, length-append, take, set, All, joined,
  joined-append_one, take-set, take_all,
}
use blyt_planning.Sha256.{
  Words, Sha256Ctx, sha256_init, sha256_transform, update_byte, sha256_update,
}

-- The words behind blocks that are absorbed one after the other.
abbrev pub absorbed : Words → List Bytes → Words
absorbed w [] = w
absorbed w (block ∷ blocks) = absorbed (sha256_transform w block) blocks

absorbed-append_one :
    (w : Words) (blocks : List Bytes) (block : Bytes)
    → absorbed w (blocks ++ block ∷ []) ≡ sha256_transform (absorbed w blocks) block
absorbed-append_one w [] block = refl
absorbed-append_one w (b ∷ blocks) block = absorbed-append_one (sha256_transform w b) blocks block

abbrev pub AreBlocks : List Bytes → Type 0
AreBlocks blocks = All (λ b. length b ≡ 64) blocks

AreBlocks-append_one :
    (blocks : List Bytes) (block : Bytes)
    → AreBlocks blocks
    → length block ≡ 64
    → AreBlocks (blocks ++ block ∷ [])
AreBlocks-append_one [] block h e = (e, tt)
AreBlocks-append_one (b ∷ blocks) block (p, h) e = (p, AreBlocks-append_one blocks block h e)

-- The context behind the bytes `message`: they are blocks of 64 bytes with fewer than 64 bytes
-- behind them; the state has absorbed the blocks, from the initial words on, the bits of the blocks
-- are counted modulo 2 ^ 64, and the other bytes wait at the start of the block.
pub record Streamed (message : Bytes) (ctx : Sha256Ctx) : Type 0 where
  pub blocks : List Bytes
  pub rest : Bytes
  pub parts : message ≡ joined blocks ++ rest
  pub sizes : AreBlocks blocks
  pub few : length rest < 64
  pub room : length ctx.block ≡ 64
  pub waiting : ctx.datalen ≡ length rest
  pub kept : take ctx.datalen ctx.block ≡ rest
  pub counted : ctx.bitlen ≡ length blocks * 512 % 2 ^ 64
  pub state : ctx.state ≡ absorbed (sha256_init []).state blocks

Streamed-update_byte :
    (message : Bytes) (ctx : Sha256Ctx) (byte : ℕ)
    → Streamed message ctx
    → Streamed (message ++ byte ∷ []) (update_byte ctx byte)
unfolding update_byte
Streamed-update_byte message ctx byte s = elim (Bool-cases (ctx.datalen + 1 == 64)) [
  | inl e ↦ rw e (record {
    blocks = s.blocks ++ (s.rest ++ byte ∷ []) ∷ [];
    rest = [];
    parts =
        longer
        ∙ sym (joined-append_one s.blocks (s.rest ++ byte ∷ []))
        ∙ sym (append-nil (joined (s.blocks ++ (s.rest ++ byte ∷ []) ∷ [])));
    sizes =
        AreBlocks-append_one s.blocks (s.rest ++ byte ∷ []) s.sizes
          (ground (arith, length-append s.rest (byte ∷ []), s.waiting));
    few = omega arith;
    room = length-set ctx.block ctx.datalen byte ∙ s.room;
    waiting = refl;
    kept = refl;
    counted = ground (arith, length-append s.blocks ((s.rest ++ byte ∷ []) ∷ []), s.counted);
    state =
        ap (λ w. sha256_transform w (set ctx.block ctx.datalen byte)) s.state
        ∙ ap (sha256_transform (absorbed (sha256_init []).state s.blocks)) (full (ground arith))
        ∙ sym (absorbed-append_one (sha256_init []).state s.blocks (s.rest ++ byte ∷ []));
  })
  | inr e ↦ rw e (record {
    blocks = s.blocks;
    rest = s.rest ++ byte ∷ [];
    parts = longer;
    sizes = s.sizes;
    few = ground (arith, length-append s.rest (byte ∷ []), s.waiting, s.few);
    room = length-set ctx.block ctx.datalen byte ∙ s.room;
    waiting = omega (arith, length-append s.rest (byte ∷ []), s.waiting);
    kept =
        ap (λ k. take k (set ctx.block ctx.datalen byte)) {x = ctx.datalen + 1}
          {y = suc ctx.datalen} (omega arith)
        ∙ stored;
    counted = s.counted;
    state = s.state;
  })
]
  where
    longer : message ++ byte ∷ [] ≡ joined s.blocks ++ (s.rest ++ byte ∷ [])
    longer = ap (λ m. m ++ byte ∷ []) s.parts ∙ append_assoc (joined s.blocks) s.rest (byte ∷ [])

    stored : take (suc ctx.datalen) (set ctx.block ctx.datalen byte) ≡ s.rest ++ byte ∷ []
    stored =
        take-set ctx.block ctx.datalen byte (omega (arith, s.waiting, s.few, s.room))
        ∙ ap (λ r. r ++ byte ∷ []) s.kept

    full : suc ctx.datalen ≡ 64 → set ctx.block ctx.datalen byte ≡ s.rest ++ byte ∷ []
    full e =
        sym (
          take_all (suc ctx.datalen) (set ctx.block ctx.datalen byte)
            (omega (arith, length-set ctx.block ctx.datalen byte, s.room)))
        ∙ stored

-- On a context that stands behind a message (its full blocks absorbed in order, from the initial
-- words on, their bits counted modulo 2 ^ 64, its other bytes waiting in the block), an update
-- leaves a context that stands behind the message and the bytes of the update.
pub Streamed-sha256_update :
    (message : Bytes) (ctx : Sha256Ctx) (bytes : Bytes)
    → Streamed message ctx
    → Streamed (message ++ bytes) (sha256_update ctx bytes)
unfolding sha256_update
Streamed-sha256_update message ctx [] s = subst (λ m. Streamed m ctx) (sym (append-nil message)) s
Streamed-sha256_update message ctx (byte ∷ bytes) s =
    subst (λ m. Streamed m (sha256_update (update_byte ctx byte) bytes))
      (append_assoc message (byte ∷ []) bytes)
      (Streamed-sha256_update (message ++ byte ∷ []) (update_byte ctx byte) bytes
        (Streamed-update_byte message ctx byte s))
