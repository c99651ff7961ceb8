-- ===== src/Sha256.antt =====
-- The SHA-256 of stub_packer.c (spikes/spike-n/harness): 32-bit words, and the streaming context.
pub mod Stream
use blyt_planning.Prelude.{
  ℕ, zero, suc, ◌+◌, ◌-◌, ◌*◌, ◌/◌, ◌%◌, ◌^◌, List, [], ◌∷◌, ◌++◌, bit_and, bit_or, bit_xor, ltb,
  ◌==◌, if◌then◌else◌, Bytes, get_or, set, take, replicate, write_at,
}

abbrev pub sha256_k : List ℕ
sha256_k =
    0x428a2f98 ∷ 0x71374491 ∷ 0xb5c0fbcf ∷ 0xe9b5dba5 ∷ 0x3956c25b ∷ 0x59f111f1 ∷ 0x923f82a4
    ∷ 0xab1c5ed5 ∷ 0xd807aa98 ∷ 0x12835b01 ∷ 0x243185be ∷ 0x550c7dc3 ∷ 0x72be5d74 ∷ 0x80deb1fe
    ∷ 0x9bdc06a7 ∷ 0xc19bf174 ∷ 0xe49b69c1 ∷ 0xefbe4786 ∷ 0x0fc19dc6 ∷ 0x240ca1cc ∷ 0x2de92c6f
    ∷ 0x4a7484aa ∷ 0x5cb0a9dc ∷ 0x76f988da ∷ 0x983e5152 ∷ 0xa831c66d ∷ 0xb00327c8 ∷ 0xbf597fc7
    ∷ 0xc6e00bf3 ∷ 0xd5a79147 ∷ 0x06ca6351 ∷ 0x14292967 ∷ 0x27b70a85 ∷ 0x2e1b2138 ∷ 0x4d2c6dfc
    ∷ 0x53380d13 ∷ 0x650a7354 ∷ 0x766a0abb ∷ 0x81c2c92e ∷ 0x92722c85 ∷ 0xa2bfe8a1 ∷ 0xa81a664b
    ∷ 0xc24b8b70 ∷ 0xc76c51a3 ∷ 0xd192e819 ∷ 0xd6990624 ∷ 0xf40e3585 ∷ 0x106aa070 ∷ 0x19a4c116
    ∷ 0x1e376c08 ∷ 0x2748774c ∷ 0x34b0bcb5 ∷ 0x391c0cb3 ∷ 0x4ed8aa4a ∷ 0x5b9cca4f ∷ 0x682e6ff3
    ∷ 0x748f82ee ∷ 0x78a5636f ∷ 0x84c87814 ∷ 0x8cc70208 ∷ 0x90befffa ∷ 0xa4506ceb ∷ 0xbef9a3f7
    ∷ 0xc67178f2 ∷ []

-- Sums and shifts of `u32` values wrap at 2 ^ 32.
unfoldable pub rotr32 : ℕ → ℕ → ℕ
rotr32 x n = bit_or (x / 2 ^ n) (x * 2 ^ (32 - n) % 2 ^ 32)

unfoldable pub ch : ℕ → ℕ → ℕ → ℕ
ch e f g = bit_xor (bit_and e f) (bit_and (2 ^ 32 - 1 - e) g)

unfoldable pub maj : ℕ → ℕ → ℕ → ℕ
maj a b c = bit_xor (bit_xor (bit_and a b) (bit_and a c)) (bit_and b c)

unfoldable pub ep0 : ℕ → ℕ
unfolding rotr32
ep0 a = bit_xor (bit_xor (rotr32 a 2) (rotr32 a 13)) (rotr32 a 22)

unfoldable pub ep1 : ℕ → ℕ
unfolding rotr32
ep1 e = bit_xor (bit_xor (rotr32 e 6) (rotr32 e 11)) (rotr32 e 25)

unfoldable pub sig0 : ℕ → ℕ
unfolding rotr32
sig0 x = bit_xor (bit_xor (rotr32 x 7) (rotr32 x 18)) (x / 2 ^ 3)

unfoldable pub sig1 : ℕ → ℕ
unfolding rotr32
sig1 x = bit_xor (bit_xor (rotr32 x 17) (rotr32 x 19)) (x / 2 ^ 10)

-- The eight words `a` to `h`.
pub record Words : Type 0 where
  pub a : ℕ
  pub b : ℕ
  pub c : ℕ
  pub d : ℕ
  pub e : ℕ
  pub f : ℕ
  pub g : ℕ
  pub h : ℕ

-- `sha256_ctx_t`
pub record Sha256Ctx : Type 0 where
  pub block : Bytes
  pub datalen : ℕ
  pub bitlen : ℕ
  pub state : Words

-- `m[0..16)`, the big-endian words of the block, from word `i` on.
abbrev pub block_words : ℕ → ℕ → Bytes → List ℕ
block_words zero i block = []
block_words (suc n) i block =
    (get_or block (i * 4) 0 * 2 ^ 24
      + get_or block (i * 4 + 1) 0 * 2 ^ 16
      + get_or block (i * 4 + 2) 0 * 2 ^ 8
      + get_or block (i * 4 + 3) 0)
    ∷ block_words n (i + 1) block

-- `m[i]` for the `n` words from `i` on.
unfoldable pub extended : ℕ → ℕ → List ℕ → List ℕ
unfolding sig0 sig1
extended zero i m = m
extended (suc n) i m = extended n (i + 1) (
    m
    ++ (sig1 (get_or m (i - 2) 0)
          + get_or m (i - 7) 0
          + sig0 (get_or m (i - 15) 0)
          + get_or m (i - 16) 0)
        % 2 ^ 32
      ∷ [])

-- The rounds from `i` on, `n` of them.
unfoldable pub rounds : ℕ → ℕ → List ℕ → Words → Words
unfolding ep0 ep1 ch maj
rounds zero i m w = w
rounds (suc n) i m w =
    let t1 = (w.h + ep1 w.e + ch w.e w.f w.g + get_or sha256_k i 0 + get_or m i 0) % 2 ^ 32 in
    let t2 = (ep0 w.a + maj w.a w.b w.c) % 2 ^ 32 in
    rounds n (i + 1) m (record {
      a = (t1 + t2) % 2 ^ 32;
      b = w.a;
      c = w.b;
      d = w.c;
      e = (w.d + t1) % 2 ^ 32;
      f = w.e;
      g = w.f;
      h = w.g;
    })

abbrev pub words_add : Words → Words → Words
words_add s w = record {
  a = (s.a + w.a) % 2 ^ 32;
  b = (s.b + w.b) % 2 ^ 32;
  c = (s.c + w.c) % 2 ^ 32;
  d = (s.d + w.d) % 2 ^ 32;
  e = (s.e + w.e) % 2 ^ 32;
  f = (s.f + w.f) % 2 ^ 32;
  g = (s.g + w.g) % 2 ^ 32;
  h = (s.h + w.h) % 2 ^ 32;
}

unfoldable pub sha256_transform : Words → Bytes → Words
sha256_transform state block =
    words_add state (rounds 64 0 (extended 48 16 (block_words 16 0 block)) state)

-- `block` is what the memory held, since the source does not clear it.
abbrev pub sha256_init : Bytes → Sha256Ctx
sha256_init block = record {
  block = block;
  datalen = 0;
  bitlen = 0;
  state = record {
    a = 0x6a09e667;
    b = 0xbb67ae85;
    c = 0x3c6ef372;
    d = 0xa54ff53a;
    e = 0x510e527f;
    f = 0x9b05688c;
    g = 0x1f83d9ab;
    h = 0x5be0cd19;
  };
}

unfoldable pub update_byte : Sha256Ctx → ℕ → Sha256Ctx
update_byte ctx byte =
    let block = set ctx.block ctx.datalen byte in
    if ctx.datalen + 1 == 64
    then record ctx {
      block = block;
      datalen = 0;
      bitlen = (ctx.bitlen + 512) % 2 ^ 64;
      state = sha256_transform ctx.state block;
    }
    else record ctx { block = block; datalen = ctx.datalen + 1 }

unfoldable pub sha256_update : Sha256Ctx → Bytes → Sha256Ctx
unfolding update_byte
sha256_update ctx [] = ctx
sha256_update ctx (byte ∷ bytes) = sha256_update (update_byte ctx byte) bytes

abbrev pub be_bytes : ℕ → ℕ → Bytes
be_bytes zero v = []
be_bytes (suc n) v = be_bytes n (v / 256) ++ v % 256 ∷ []

-- The padding: 0x80 and zeros up to the length, over an extra block where there is no room.
unfoldable pub padded : Sha256Ctx → Words × Bytes
padded ctx =
    if ltb ctx.datalen 56
    then (ctx.state, write_at ctx.block ctx.datalen (128 ∷ replicate (55 - ctx.datalen) 0))
    else let filled = write_at ctx.block ctx.datalen (128 ∷ replicate (63 - ctx.datalen) 0) in
      (sha256_transform ctx.state filled, write_at filled 0 (replicate 56 0))

unfoldable pub sha256_final : Sha256Ctx → Bytes
unfolding padded
sha256_final ctx =
    let bits = (ctx.bitlen + ctx.datalen * 8) % 2 ^ 64 in
    let (state, block) = padded ctx in
    let w = sha256_transform state (write_at block 56 (be_bytes 8 bits)) in
    be_bytes 4 w.a
    ++ (be_bytes 4 w.b
        ++ (be_bytes 4 w.c
            ++ (be_bytes 4 w.d
                ++ (be_bytes 4 w.e ++ (be_bytes 4 w.f ++ (be_bytes 4 w.g ++ be_bytes 4 w.h))))))
