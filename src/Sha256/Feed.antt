-- ===== src/Sha256/Feed.antt =====
-- What `sha256_init` and `sha256_update` keep: the whole blocks have been compressed, and the
-- buffer starts with the bytes that are left over.
use native.Mathlib.Decide.{dec_lt}
use hbf.Base.{
  ℕ, suc, ◌+◌, ◌*◌, ◌<◌, ◌≡◌, refl, sym, ◌∙◌, ap, [], ◌∷◌, ◌++◌, Bytes, take, length, set, arith,
  length-append, length-set, take-set, take_all, append-nil, append_assoc, ◌==◌, true, false,
}
use hbf.Sha256.{Context, u64, initial_state, sha256_init, sha256_update, update_byte}
use hbf.Sha256.Padding.{compress, compress_snoc}

-- The context has taken in `message`.
pub record HasFed (message : Bytes) (ctx : Context) : Type 0 where
  pub blocks : ℕ
  pub front : Bytes
  pub pending : Bytes
  pub split : message ≡ front ++ pending
  pub front_blocks : length front ≡ blocks * 64
  pub pending_short : length pending < 64
  pub datalen : ctx.datalen ≡ length pending
  pub room : length ctx.buffer ≡ 64
  pub kept : take (length pending) ctx.buffer ≡ pending
  pub bits : ctx.bitlen ≡ u64 (blocks * 512)
  pub state : ctx.state ≡ compress blocks front initial_state

pub sha256_init-HasFed : (ctx : Context) → length ctx.buffer ≡ 64 → HasFed [] (sha256_init ctx)
unfolding sha256_init compress
sha256_init-HasFed ctx room = record {
  blocks = 0;
  front = [];
  pending = [];
  split = refl;
  front_blocks = refl;
  pending_short = omega arith;
  datalen = refl;
  room = room;
  kept = refl;
  bits = refl;
  state = refl;
}

module _ (message : Bytes) (ctx : Context) (byte : ℕ) (h : HasFed message ctx) where
  stored : take (suc (length h.pending)) (set ctx.buffer ctx.datalen byte) ≡ h.pending ++ byte ∷ []
  stored =
      rw h.datalen
        (take-set ctx.buffer h.pending byte h.kept (omega (arith, h.room, h.pending_short)))

  length-pending_byte : length (h.pending ++ byte ∷ []) ≡ suc (length h.pending)
  length-pending_byte = rw length-append (omega arith)

  stored_room : length (set ctx.buffer ctx.datalen byte) ≡ 64
  stored_room = length-set ctx.buffer ctx.datalen byte ∙ h.room

  split_byte : message ++ byte ∷ [] ≡ h.front ++ (h.pending ++ byte ∷ [])
  split_byte = ap (λ m. m ++ byte ∷ []) h.split ∙ append_assoc h.front h.pending (byte ∷ [])

  full_buffer :
      suc (length h.pending) ≡ 64 → set ctx.buffer ctx.datalen byte ≡ h.pending ++ byte ∷ []
  full_buffer e =
      sym (
        take_all (suc (length h.pending)) (set ctx.buffer ctx.datalen byte)
          (omega (arith, stored_room)))
      ∙ stored

  -- The buffer is full: it is the block.
  full : suc (length h.pending) ≡ 64 → HasFed (message ++ byte ∷ []) (update_byte ctx byte)
  unfolding update_byte
  full e =
      let test : (ctx.datalen + 1 == 64) ≡ true = ground (arith, h.datalen) in
      let block_length : length (h.pending ++ byte ∷ []) ≡ 64 = length-pending_byte ∙ e in
      rw (test, update_byte)
        (record {
          blocks = suc h.blocks;
          front = h.front ++ (h.pending ++ byte ∷ []);
          pending = [];
          split = split_byte ∙ sym (append-nil _);
          front_blocks = rw (length-append, block_length) (omega (arith, h.front_blocks));
          pending_short = omega arith;
          datalen = refl;
          room = stored_room;
          kept = refl;
          bits = omega (arith, h.bits);
          state =
              rw (full_buffer e, h.state)
                (sym (
                  compress_snoc h.blocks h.front (h.pending ++ byte ∷ []) initial_state
                    h.front_blocks block_length));
        })

  partial : suc (length h.pending) < 64 → HasFed (message ++ byte ∷ []) (update_byte ctx byte)
  unfolding update_byte
  partial e =
      let test : (ctx.datalen + 1 == 64) ≡ false = ground (arith, h.datalen) in
      rw (test, update_byte)
        (record {
          blocks = h.blocks;
          front = h.front;
          pending = h.pending ++ byte ∷ [];
          split = split_byte;
          front_blocks = h.front_blocks;
          pending_short = rw length-pending_byte e;
          datalen = rw length-pending_byte (omega (arith, h.datalen));
          room = stored_room;
          kept = rw length-pending_byte stored;
          bits = h.bits;
          state = h.state;
        })

  update_byte-HasFed : HasFed (message ++ byte ∷ []) (update_byte ctx byte)
  update_byte-HasFed = elim (dec_lt (suc (length h.pending)) 64) [
    | yes below ↦ partial below
    | no above ↦ full (omega (arith, h.pending_short))
  ]

pub sha256_update-HasFed :
    (message more : Bytes) (ctx : Context)
    → HasFed message ctx
    → HasFed (message ++ more) (sha256_update ctx more)
unfolding sha256_update
sha256_update-HasFed message [] ctx h = rw append-nil h
sha256_update-HasFed message (byte ∷ more) ctx h =
    let rest =
      sha256_update-HasFed (message ++ byte ∷ []) more (update_byte ctx byte)
        (update_byte-HasFed message ctx byte h) in
    rw (append_assoc message (byte ∷ []) more) at rest
