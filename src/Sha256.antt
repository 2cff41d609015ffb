-- ===== src/Sha256.antt =====
-- SHA-256 as hbf/db/overlay_fs.c and hbf/shell/hash.c both implement it, word for word alike:
-- the macros, the context and the four functions. A `uint32_t` is a number below 2 ^ 32.
pub mod Padding
pub mod Feed
pub mod Finish
pub mod Digest
use hbf.Base.{
  ℕ, zero, suc, ◌+◌, ◌-◌, ◌*◌, ◌/◌, ◌%◌, ◌^◌, List, [], ◌∷◌, ◌++◌, Bytes, bit_and, bit_or, bit_xor,
  get_or, set, take, drop, length, ltb, ◌==◌, if◌then◌else◌,
}

abbrev pub u8 : ℕ → ℕ
u8 n = n % 2 ^ 8

abbrev pub u32 : ℕ → ℕ
u32 n = n % 2 ^ 32

abbrev pub u64 : ℕ → ℕ
u64 n = n % 2 ^ 64

-- ROTRIGHT(a, b)
rot_right : ℕ → ℕ → ℕ
rot_right a b = bit_or (a / 2 ^ b) (u32 (a * 2 ^ (32 - b)))

-- `~x` of a `uint32_t`
complement : ℕ → ℕ
complement x = 2 ^ 32 - 1 - x

-- CH, MAJ, EP0, EP1, SIG0, SIG1
ch : ℕ → ℕ → ℕ → ℕ
ch x y z = bit_xor (bit_and x y) (bit_and (complement x) z)

maj : ℕ → ℕ → ℕ → ℕ
maj x y z = bit_xor (bit_xor (bit_and x y) (bit_and x z)) (bit_and y z)

ep0 : ℕ → ℕ
ep0 x = bit_xor (bit_xor (rot_right x 2) (rot_right x 13)) (rot_right x 22)

ep1 : ℕ → ℕ
ep1 x = bit_xor (bit_xor (rot_right x 6) (rot_right x 11)) (rot_right x 25)

sig0 : ℕ → ℕ
sig0 x = bit_xor (bit_xor (rot_right x 7) (rot_right x 18)) (x / 2 ^ 3)

sig1 : ℕ → ℕ
sig1 x = bit_xor (bit_xor (rot_right x 17) (rot_right x 19)) (x / 2 ^ 10)

-- sha256_k
abbrev sha256_k : List ℕ
sha256_k =
    0x428a2f98 ∷ 0x71374491 ∷ 0xb5c0fbcf ∷ 0xe9b5dba5 ∷ 0x3956c25b ∷ 0x59f111f1 ∷ 0x923f82a4
    ∷ 0xab1c5ed5 ∷ 0xd807aa98 ∷ 0x12835b01 ∷ 0x243185be ∷ 0x550c7dc3 ∷ 0x72be5d74 ∷ 0x80deb1fe
    ∷ 0x9bdc06a7 ∷ 0xc19bf174 ∷ 0xe49b69c1 ∷ 0xefbe4786 ∷ 0x0fc19dc6 ∷ 0x240ca1cc ∷ 0x2de92c6f
    ∷ 0x4a7484aa ∷ 0x5cb0a9dc ∷ 0x76f988da ∷ 0x983e5152 ∷ 0xa831c66d ∷ 0xb00327c8 ∷ 0xbf597fc7
    ∷ 0xc6e00bf3 ∷ 0xd5a79147 ∷ 0x06ca6351 ∷ 0x14292967 ∷ 0x27b70a85 ∷ 0x2e1b2138 ∷ 0x4d2c6dfc
    ∷ 0x53380d13 ∷ 0x650a7354 ∷ 0x766a0abb ∷ 0x81c2c92e ∷ 0x92722c85 ∷ 0xa2bfe8a1 ∷ 0xa81a664b
    ∷ 0xc24b8b70 ∷ 0xc76c51a3 ∷ 0xd192e819 ∷ 0xd6990624 ∷ 0xf40e3585 ∷ 0x106aa070 ∷ 0x19a4c116
    ∷ 0x1e376c08 ∷ 0x2748774c ∷ 0x34b0bcb5 ∷ 0x391c0cb3 ∷ 0x4ed8aa4a ∷ 0x5b9cca4f ∷ 0x682e6ff3
    ∷ 0x748f82ee ∷ 0x78a5636f ∷ 0x84c87814 ∷ 0x8cc70208 ∷ 0x90befffa ∷ 0xa4506ceb ∷ 0xbef9a3f7
    ∷ 0xc67178f2 ∷ []

-- The eight words of a chaining state, and the variables a to h of a round.
pub record Words : Type 0 where
  pub a : ℕ
  pub b : ℕ
  pub c : ℕ
  pub d : ℕ
  pub e : ℕ
  pub f : ℕ
  pub g : ℕ
  pub h : ℕ

-- sha256_ctx_t
pub record Context : Type 0 where
  pub buffer : Bytes
  pub datalen : ℕ
  pub bitlen : ℕ
  pub state : Words

-- The big-endian word at `j`. The four shifted bytes are disjoint.
word_at : Bytes → ℕ → ℕ
word_at block j =
    bit_or
      (bit_or (bit_or (u32 (get_or block j 0 * 2 ^ 24)) (u32 (get_or block (j + 1) 0 * 2 ^ 16)))
        (u32 (get_or block (j + 2) 0 * 2 ^ 8)))
      (get_or block (j + 3) 0)

-- for (i = 0, j = 0; i < 16; ++i, j += 4), with `n` rounds left; `m` has the words so far.
load_words : ℕ → ℕ → Bytes → List ℕ → List ℕ
unfolding word_at
load_words zero j block m = m
load_words (suc n) j block m = load_words n (j + 4) block (m ++ word_at block j ∷ [])

-- for (; i < 64; ++i), with `n` rounds left.
extend_words : ℕ → ℕ → List ℕ → List ℕ
unfolding sig0 sig1 rot_right
extend_words zero i m = m
extend_words (suc n) i m = extend_words n (i + 1) (
    m
    ++ u32 (
        sig1 (get_or m (i - 2) 0)
        + get_or m (i - 7) 0
        + sig0 (get_or m (i - 15) 0)
        + get_or m (i - 16) 0)
      ∷ [])

-- The body of the third loop.
round : List ℕ → ℕ → Words → Words
unfolding ep0 ep1 ch maj rot_right complement
round m i w =
    let t1 = u32 (w.h + ep1 w.e + ch w.e w.f w.g + get_or sha256_k i 0 + get_or m i 0) in
    let t2 = u32 (ep0 w.a + maj w.a w.b w.c) in
    record {
      a = u32 (t1 + t2);
      b = w.a;
      c = w.b;
      d = w.c;
      e = u32 (w.d + t1);
      f = w.e;
      g = w.f;
      h = w.g;
    }

rounds : ℕ → ℕ → List ℕ → Words → Words
unfolding round
rounds zero i m w = w
rounds (suc n) i m w = rounds n (i + 1) m (round m i w)

-- `sha256_transform`, as a function of the state and the block.
unfoldable pub sha256_transform : Words → Bytes → Words
unfolding load_words extend_words rounds
sha256_transform s block =
    let m = extend_words 48 16 (load_words 16 0 block []) in
    let w = rounds 64 0 m s in
    record {
      a = u32 (s.a + w.a);
      b = u32 (s.b + w.b);
      c = u32 (s.c + w.c);
      d = u32 (s.d + w.d);
      e = u32 (s.e + w.e);
      f = u32 (s.f + w.f);
      g = u32 (s.g + w.g);
      h = u32 (s.h + w.h);
    }

abbrev pub initial_state : Words
initial_state = record {
  a = 0x6a09e667;
  b = 0xbb67ae85;
  c = 0x3c6ef372;
  d = 0xa54ff53a;
  e = 0x510e527f;
  f = 0x9b05688c;
  g = 0x1f83d9ab;
  h = 0x5be0cd19;
}

-- `sha256_init` of a context that holds whatever was on the stack.
unfoldable pub sha256_init : Context → Context
sha256_init ctx = record ctx { datalen = 0; bitlen = 0; state = initial_state }

-- The body of the loop of `sha256_update`.
unfoldable pub update_byte : Context → ℕ → Context
update_byte ctx byte =
    let buffer = set ctx.buffer ctx.datalen byte in
    if ctx.datalen + 1 == 64
    then (record {
      buffer = buffer;
      datalen = 0;
      bitlen = u64 (ctx.bitlen + 512);
      state = sha256_transform ctx.state buffer;
    })
    else (record ctx { buffer = buffer; datalen = ctx.datalen + 1 })

unfoldable pub sha256_update : Context → Bytes → Context
unfolding update_byte
sha256_update ctx [] = ctx
sha256_update ctx (byte ∷ rest) = sha256_update (update_byte ctx byte) rest

-- while (i < end) ctx->data[i++] = 0x00, with `n` rounds left.
unfoldable pub zero_fill : ℕ → ℕ → Bytes → Bytes
zero_fill zero i buffer = buffer
zero_fill (suc n) i buffer = zero_fill n (i + 1) (set buffer i 0)

-- memset(ctx->data, 0, 56)
unfoldable pub clear_front : Bytes → Bytes
unfolding zero_fill
clear_front buffer = zero_fill 56 0 buffer

-- ctx->data[63] = bitlen; … ctx->data[56] = bitlen >> 56
unfoldable pub store_bitlen : ℕ → Bytes → Bytes
store_bitlen n buffer =
    let b63 = set buffer 63 (u8 n) in
    let b62 = set b63 62 (u8 (n / 2 ^ 8)) in
    let b61 = set b62 61 (u8 (n / 2 ^ 16)) in
    let b60 = set b61 60 (u8 (n / 2 ^ 24)) in
    let b59 = set b60 59 (u8 (n / 2 ^ 32)) in
    let b58 = set b59 58 (u8 (n / 2 ^ 40)) in
    let b57 = set b58 57 (u8 (n / 2 ^ 48)) in set b57 56 (u8 (n / 2 ^ 56))

-- The padding of `sha256_final`: a second block where the first has no room for the length.
unfoldable pub pad_buffer : Context → Context
unfolding zero_fill clear_front
pad_buffer ctx =
    let marked = set ctx.buffer ctx.datalen 0x80 in
    let i = ctx.datalen + 1 in
    if ltb ctx.datalen 56
    then (record ctx { buffer = zero_fill (56 - i) i marked })
    else (let filled = zero_fill (64 - i) i marked in
        record ctx { buffer = clear_front filled; state = sha256_transform ctx.state filled })

-- (state >> (24 - i * 8)) & 0xff, for i from 0 to 3
unfoldable pub word_bytes : ℕ → Bytes
word_bytes n =
    bit_and (n / 2 ^ 24) 0xff
    ∷ bit_and (n / 2 ^ 16) 0xff
    ∷ bit_and (n / 2 ^ 8) 0xff
    ∷ bit_and n 0xff
    ∷ []

unfoldable pub digest : Words → Bytes
unfolding word_bytes
digest w =
    word_bytes w.a
    ++ (word_bytes w.b
        ++ (word_bytes w.c
            ++ (word_bytes w.d
                ++ (word_bytes w.e ++ (word_bytes w.f ++ (word_bytes w.g ++ word_bytes w.h))))))

-- `sha256_final`
unfoldable pub sha256_final : Context → Bytes
unfolding pad_buffer store_bitlen digest
sha256_final ctx =
    let padded = pad_buffer ctx in
    let bitlen = u64 (ctx.bitlen + u64 (ctx.datalen * 8)) in
    digest (sha256_transform padded.state (store_bitlen bitlen padded.buffer))

-- The three calls that every user of the code makes, on a context with arbitrary contents.
unfoldable pub sha256 : Context → Bytes → Bytes
unfolding sha256_init sha256_update sha256_final
sha256 ctx message = sha256_final (sha256_update (sha256_init ctx) message)
