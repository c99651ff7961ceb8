-- ===== src/Tests/Hashing.antt =====
-- SHA-256 at concrete inputs.
use blyt_planning.Prelude.{ℕ, ◌+◌, [], ◌≡◌, refl, arith, codes, length, replicate, Bytes}
use blyt_planning.Sha256.{Sha256Ctx, sha256_init, sha256_update, sha256_final, be_bytes}
use blyt_planning.Sha256.Stream.{Streamed, Streamed-sha256_update}

abbrev started : Sha256Ctx
started = sha256_init (replicate 64 0)

started-Streamed : Streamed [] started
started-Streamed = record {
  blocks = [];
  rest = [];
  parts = refl;
  sizes = tt;
  few = omega arith;
  room = refl;
  waiting = refl;
  kept = refl;
  counted = refl;
  state = refl;
}

-- A block and six bytes.
abbrev seventy : Bytes
seventy = replicate 70 97

Streamed-sha256_update_example : Streamed seventy (sha256_update started seventy)
Streamed-sha256_update_example = Streamed-sha256_update [] started seventy started-Streamed

-- The published digest of "abc".
digest_abc :
    sha256_final (sha256_update started (codes "abc"))
    ≡ be_bytes 32 0xba7816bf8f01cfea414140de5dae2223b00361a396177a9cb410ff61f20015ad
unfolding blyt_planning.Sha256.sha256_final blyt_planning.Sha256.padded
    blyt_planning.Sha256.sha256_update blyt_planning.Sha256.update_byte
    blyt_planning.Sha256.sha256_transform blyt_planning.Sha256.rounds blyt_planning.Sha256.extended
    blyt_planning.Sha256.sig0 blyt_planning.Sha256.sig1 blyt_planning.Sha256.ep0
    blyt_planning.Sha256.ep1 blyt_planning.Sha256.ch blyt_planning.Sha256.maj
    blyt_planning.Sha256.rotr32 blyt_planning.Prelude.write_at
digest_abc = refl
