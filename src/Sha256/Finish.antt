-- ===== src/Sha256/Finish.antt =====
-- `sha256_final` pads as the standard does, so the code computes SHA-256.
use native.Mathlib.Decide.{dec_lt}
use native.Mathlib.Nat.{add-zero, le_refl}
use hbf.Base.{
  ℕ, zero, suc, ◌+◌, ◌-◌, ◌*◌, ◌≤◌, ◌<◌, ◌≡◌, refl, sym, ◌∙◌, ap, ap₂, [], ◌∷◌, ◌++◌, Bytes, take,
  drop, length, set, arith, length-append, length-set, take-set, take_all, append-nil, append_assoc,
  replicate, set-append, length-replicate, take-append-drop, lt→ltb, ge→ltb, length-drop,
  replicate-add,
}
use hbf.Sha256.{
  sha256_init, sha256_update, sha256, initial_state, clear_front, sha256_transform, digest,
  sha256_final, u64, Context, zero_fill, store_bitlen,
}
use hbf.Sha256.Feed.{HasFed, sha256_init-HasFed, sha256_update-HasFed}
use hbf.Sha256.Padding.{compress_snoc, block_count, padding, pad, sha256_standard, big_endian64}

length-zero_fill : (n i : ℕ) (buffer : Bytes) → length (zero_fill n i buffer) ≡ length buffer
unfolding zero_fill
length-zero_fill zero i buffer = refl
length-zero_fill (suc n) i buffer =
    length-zero_fill n (i + 1) (set buffer i 0) ∙ length-set buffer i 0

-- Filling goes on from a prefix `p`.
take-zero_fill :
    (n i : ℕ) (p buffer : Bytes)
    → length p ≡ i
    → take i buffer ≡ p
    → i + n ≤ length buffer
    → take (i + n) (zero_fill n i buffer) ≡ p ++ replicate n 0
unfolding zero_fill
take-zero_fill zero i p buffer hp e h = rw (add-zero, append-nil) e
take-zero_fill (suc n) i p buffer hp e h =
    let next : i + 1 ≡ suc i = omega arith in
    let here : take i buffer ≡ p → take (i + 1) (set buffer i 0) ≡ p ++ 0 ∷ [] =
      λ same. rw (next, ← hp) (take-set buffer p 0 (rw (← hp) at same) (omega arith)) in
    let rest =
      take-zero_fill n (i + 1) (p ++ 0 ∷ []) (set buffer i 0) (rw length-append (omega arith))
        (here e) (rw length-set (omega arith)) in
    let index : i + 1 + n ≡ i + suc n = omega arith in rw (index, append_assoc) at rest

set_tail :
    (p : Bytes) (j k : ℕ)
    → length p + j ≡ k
    → (q : Bytes) (v : ℕ) → set (p ++ q) k v ≡ p ++ set q j v
set_tail p j k e q v = rw (← e) (set-append p q j v)

-- The length goes into the last eight bytes, whatever stood there.
store_tail :
    (n : ℕ) (p q : Bytes)
    → length p ≡ 56
    → length q ≡ 8
    → store_bitlen n (p ++ q) ≡ p ++ big_endian64 n
unfolding store_bitlen big_endian64
store_tail n p (a ∷ b ∷ c ∷ d ∷ e ∷ f ∷ g ∷ h ∷ []) hp hq = simp (
  set_tail p 7 63 (omega arith),
  set_tail p 6 62 (omega arith),
  set_tail p 5 61 (omega arith),
  set_tail p 4 60 (omega arith),
  set_tail p 3 59 (omega arith),
  set_tail p 2 58 (omega arith),
  set_tail p 1 57 (omega arith),
  set_tail p 0 56 (omega arith),
)
store_tail n p q hp hq = absurd (omega arith)

-- A buffer whose first 56 bytes are known becomes the block with the length.
store_bitlen_lem :
    (n : ℕ) (p buffer : Bytes)
    → length p ≡ 56
    → length buffer ≡ 64
    → take 56 buffer ≡ p
    → store_bitlen n buffer ≡ p ++ big_endian64 n
store_bitlen_lem n p buffer hp hb e =
    ap (store_bitlen n) (sym (take-append-drop 56 buffer) ∙ ap (λ t. t ++ drop 56 buffer) e)
    ∙ store_tail n p (drop 56 buffer) hp (rw length-drop (omega arith))

module _ (message : Bytes) (ctx : Context) (h : HasFed message ctx) where
  -- The mark stands behind the pending bytes.
  marked : take (ctx.datalen + 1) (set ctx.buffer ctx.datalen 0x80) ≡ h.pending ++ 0x80 ∷ []
  marked =
      let next : ctx.datalen + 1 ≡ suc (length h.pending) = omega (arith, h.datalen) in
      rw (next, h.datalen)
        (take-set ctx.buffer h.pending 0x80 h.kept (omega (arith, h.room, h.pending_short)))

  length-message : length message ≡ h.blocks * 64 + length h.pending
  length-message = rw (h.split, length-append) (omega (arith, h.front_blocks))

  length-marked : length (h.pending ++ 0x80 ∷ []) ≡ ctx.datalen + 1
  length-marked = rw length-append (omega (arith, h.datalen))

  bits_lem : u64 (ctx.bitlen + u64 (ctx.datalen * 8)) ≡ u64 (length message * 8)
  bits_lem = rw length-message (omega (arith, h.bits, h.datalen))

  fill_to :
      (end : ℕ)
      → ctx.datalen + 1 ≤ end
      → end ≤ 64
      → take end
          (zero_fill (end - (ctx.datalen + 1)) (ctx.datalen + 1) (set ctx.buffer ctx.datalen 0x80))
        ≡ (h.pending ++ 0x80 ∷ []) ++ replicate (end - (ctx.datalen + 1)) 0
  fill_to end lo hi =
      let filled =
        take-zero_fill (end - (ctx.datalen + 1)) (ctx.datalen + 1) (h.pending ++ 0x80 ∷ [])
          (set ctx.buffer ctx.datalen 0x80) length-marked marked
          (rw length-set (omega (arith, h.room))) in
      let index : ctx.datalen + 1 + (end - (ctx.datalen + 1)) ≡ end = omega arith in
      rw index at filled

  abbrev marked_bytes : ℕ → Bytes
  marked_bytes end = (h.pending ++ 0x80 ∷ []) ++ replicate (end - (ctx.datalen + 1)) 0

  length-marked_bytes : (end : ℕ) → ctx.datalen + 1 ≤ end → length (marked_bytes end) ≡ end
  length-marked_bytes end lo = rw (length-append, length-replicate, length-marked) (omega arith)

  -- The padded message, cut where the code cuts it.
  pad_split :
      (end extra : ℕ)
      → 64 * block_count (length message) - length message - 9 ≡ end - (ctx.datalen + 1) + extra
      → pad message
        ≡ h.front
          ++ (marked_bytes end ++ (replicate extra 0 ++ big_endian64 (u64 (length message * 8))))
  unfolding pad padding
  pad_split end extra e =
      ap (λ m. m ++ padding (length message)) h.split
      ∙ append_assoc h.front h.pending (padding (length message))
      ∙ simp (e, replicate-add, append_assoc)

  -- The block that the code compresses last.
  stored_bytes :
      (p buffer : Bytes)
      → length p ≡ 56
      → length buffer ≡ 64
      → take 56 buffer ≡ p
      → store_bitlen (u64 (ctx.bitlen + u64 (ctx.datalen * 8))) buffer
        ≡ p ++ big_endian64 (u64 (length message * 8))
  stored_bytes p buffer hp hb e = rw bits_lem (store_bitlen_lem _ p buffer hp hb e)

  final_one :
      ctx.datalen < 56
      → sha256_final ctx
        ≡ digest (
            sha256_transform ctx.state (
              store_bitlen (u64 (ctx.bitlen + u64 (ctx.datalen * 8))) (
                zero_fill
                  (56 - (ctx.datalen + 1))
                  (ctx.datalen + 1)
                  (set ctx.buffer ctx.datalen 0x80))))
  unfolding sha256_final
  final_one below = rw (lt→ltb _ _ below)

  one_block : ctx.datalen < 56 → sha256_final ctx ≡ sha256_standard message
  unfolding sha256_standard
  one_block below =
      let count : block_count (length message) ≡ suc h.blocks =
        unfold block_count in omega (arith, length-message, h.datalen) in
      let block = marked_bytes 56 ++ big_endian64 (u64 (length message * 8)) in
      let block_length : length block ≡ 64 =
        unfold big_endian64 in
        rw (length-append, length-marked_bytes 56 (omega arith)) (omega arith) in
      let stores =
        stored_bytes (marked_bytes 56) _ (length-marked_bytes 56 (omega arith))
          (length-zero_fill _ _ _ ∙ length-set _ _ _ ∙ h.room)
          (fill_to 56 (omega arith) (omega arith)) in
      final_one below
      ∙ ap digest (
          ap (sha256_transform ctx.state) stores
          ∙ ap (λ s. sha256_transform s block) h.state
          ∙ sym (compress_snoc h.blocks h.front block initial_state h.front_blocks block_length)
          ∙ rw (count, pad_split 56 0 (omega (arith, count, length-message, h.datalen))))

  final_two :
      56 ≤ ctx.datalen
      → sha256_final ctx ≡ (
          let filled =
            zero_fill
              (64 - (ctx.datalen + 1))
              (ctx.datalen + 1)
              (set ctx.buffer ctx.datalen 0x80) in
          digest (
            sha256_transform
              (sha256_transform ctx.state filled)
              (store_bitlen (u64 (ctx.bitlen + u64 (ctx.datalen * 8))) (clear_front filled))))
  unfolding sha256_final
  final_two above = rw (ge→ltb _ _ above)

  two_blocks : 56 ≤ ctx.datalen → sha256_final ctx ≡ sha256_standard message
  unfolding sha256_standard big_endian64
  two_blocks above =
      let bits = u64 (length message * 8) in
      let buffer = set ctx.buffer ctx.datalen 0x80 in
      let n = 64 - (ctx.datalen + 1) in
      let filled = zero_fill n (ctx.datalen + 1) buffer in
      let room : ctx.datalen + 1 ≤ 64 = omega (arith, h.datalen, h.pending_short) in
      let count : block_count (length message) ≡ suc (suc h.blocks) =
        unfold block_count in omega (arith, length-message, h.datalen, h.pending_short) in
      let filled_length : length filled ≡ 64 =
        length-zero_fill n (ctx.datalen + 1) buffer
        ∙ length-set ctx.buffer ctx.datalen 0x80
        ∙ h.room in
      let filled_bytes : filled ≡ marked_bytes 64 =
        sym (take_all 64 filled (omega (arith, filled_length))) ∙ fill_to 64 room (le_refl 64) in
      let last : Bytes = replicate 56 0 ++ big_endian64 bits in
      let stores =
        stored_bytes (replicate 56 0) (clear_front filled) refl
          (unfold clear_front in length-zero_fill 56 0 filled ∙ filled_length)
          (unfold clear_front in
            take-zero_fill 56 0 [] filled refl refl (omega (arith, filled_length))) in
      final_two above
      ∙ ap digest (
          ap₂ sha256_transform
            (ap₂ sha256_transform h.state filled_bytes
              ∙ sym (
                  compress_snoc h.blocks h.front (marked_bytes 64) initial_state h.front_blocks
                    (length-marked_bytes 64 room)))
            stores
          ∙ sym (
              compress_snoc (suc h.blocks) (h.front ++ marked_bytes 64) last initial_state
                (rw (length-append, length-marked_bytes 64 room) (omega (arith, h.front_blocks)))
                refl)
          ∙ rw (
            count,
            pad_split 64 56 (omega (arith, count, length-message, h.datalen)),
            append_assoc,
          ))

  sha256_final_lem : sha256_final ctx ≡ sha256_standard message
  sha256_final_lem = elim (dec_lt ctx.datalen 56) [
    | yes below ↦ one_block below
    | no above ↦ two_blocks (omega arith)
  ]

pub sha256-eq-sha256_standard :
    (ctx : Context) (message : Bytes)
    → length ctx.buffer ≡ 64
    → sha256 ctx message ≡ sha256_standard message
unfolding sha256
sha256-eq-sha256_standard ctx message room =
    sha256_final_lem message (sha256_update (sha256_init ctx) message)
      (sha256_update-HasFed [] message (sha256_init ctx) (sha256_init-HasFed ctx room))
