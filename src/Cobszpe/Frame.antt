-- ===== src/Cobszpe/Frame.antt =====
-- What am_cobszpe_encode writes: a frame without zeros, or one that is cut, and how long it is.
use amast.Common.{
  ℕ, suc, ◌+◌, ◌-◌, ◌/◌, ◌%◌, ◌≤◌, ◌<◌, ◌≡◌, ◌≢◌, ◌⊎◌, inl, inr, refl, sym, arith, true, false, ltb,
  leb, ◌==◌, if◌then◌else◌, Bool-cases, List, [], ◌∷◌, ◌++◌, length, length-append, update, Returns,
  update-cases,
}
use amast.Cobszpe.{
  Encoder, encode_nonzero, encode_zero, encode_loop, encode_start, encode_end, encode,
  encoded_size_for,
}
use amast.Cobszpe.Loop.{
  IsEncoding, encode_zero-IsEncoding, encode_nonzero-IsEncoding, encode_loop-IsEncoding,
  encode_start-IsEncoding,
}

-- A loop that the end turns into a frame: its last block is finished and empty, or holds something.
pub record IsClosed (e : Encoder) : Type 0 where
  pub slot_last : e.block_finished ≡ true → e.code_ptr + 1 ≡ e.dst
  pub holds : e.block_finished ≡ false → 1 < e.code + e.zero_cnt

-- `n` bytes for a message of `m`: a zero at the end and nowhere before.
pub record IsFrame (m : ℕ) (written : ℕ × (ℕ → ℕ)) : Type 0 where
  pub some : 0 < written.0
  pub few : written.0 ≤ m + (m + 222) / 223 + 1
  pub ends : written.1 (written.0 - 1) ≡ 0
  pub zero_free : (k : ℕ) → k < written.0 - 1 → written.1 k ≢ 0

-- The same with the end cut off: the code of the last block is 0, and the message's last byte,
-- which is the block's only one, ends it.
pub record IsCut (m last : ℕ) (written : ℕ × (ℕ → ℕ)) : Type 0 where
  pub some : 1 < written.0
  pub few : written.0 ≤ m + (m + 222) / 223 + 1
  pub ends : written.1 (written.0 - 1) ≡ last
  pub cut : written.1 (written.0 - 2) ≡ 0
  pub zero_free : (k : ℕ) → k < written.0 - 2 → written.1 k ≢ 0

finished-IsFrame :
    (m : ℕ) (e : Encoder)
    → IsEncoding m e
    → e.code_ptr + 1 ≡ e.dst
    → IsFrame m (e.dst, update e.to e.code_ptr 0)
finished-IsFrame m e v last = record {
  some = omega (arith, v.slot);
  few = omega (arith, v.written);
  ends =
      update-cases (λ y. y ≡ 0) e.to e.code_ptr 0 (e.dst - 1) (λ same. refl)
        λ differ. absurd (differ (omega arith));
  zero_free = λ k lt.
      update-cases (λ y. y ≢ 0) e.to e.code_ptr 0 k (λ same. absurd (omega arith))
        λ differ. v.nonzero k (omega arith) λ same. differ (sym same);
}

unfinished-IsFrame :
    (m : ℕ) (e : Encoder)
    → IsEncoding m e
    → 1 < e.code + e.zero_cnt
    → IsFrame m (e.dst + 1, update (update e.to e.code_ptr e.code) e.dst 0)
unfinished-IsFrame m e v holds =
    let before : ℕ → ℕ = update e.to e.code_ptr e.code in
    record {
      some = omega arith;
      few = omega (arith, v.written, v.code_in);
      ends =
          update-cases (λ y. y ≡ 0) before e.dst 0 (e.dst + 1 - 1) (λ same. refl)
            λ differ. absurd (differ (omega arith));
      zero_free = λ k lt.
          update-cases (λ y. y ≢ 0) before e.dst 0 k (λ same. absurd (omega arith))
            λ differ.
              update-cases (λ y. y ≢ 0) e.to e.code_ptr e.code k (λ same. omega (arith, v.code_in))
                λ differ'. v.nonzero k (omega arith) λ same. differ' (sym same);
    }

encode_end-IsFrame : (m : ℕ) (e : Encoder) → IsEncoding m e → IsClosed e → IsFrame m (encode_end e)
encode_end-IsFrame m e v c = elim (Bool-cases e.block_finished) [
  | inl finished ↦ rw finished (finished-IsFrame m e v (c.slot_last finished))
  | inr unfinished ↦ rw unfinished (unfinished-IsFrame m e v (c.holds unfinished))
]

-- A loop whose last byte found a pending zero.
record IsBroken (byte : ℕ) (e : Encoder) : Type 0 where
  finished : e.block_finished ≡ true
  slot_before : e.code_ptr + 2 ≡ e.dst
  last : e.to (e.code_ptr + 1) ≡ byte

encode_end-IsCut :
    (m byte : ℕ) (e : Encoder) → IsEncoding m e → IsBroken byte e → IsCut m byte (encode_end e)
encode_end-IsCut m byte e v b =
    let at_last : e.dst - 1 ≡ e.code_ptr + 1 = omega (arith, b.slot_before) in
    let at_code : e.dst - 2 ≡ e.code_ptr = omega (arith, b.slot_before) in
    rw b.finished (record {
      some = omega (arith, b.slot_before);
      few = omega (arith, v.written);
      ends =
          update-cases (λ y. y ≡ byte) e.to e.code_ptr 0 (e.dst - 1) (λ same. absurd (omega arith))
            λ differ. rw at_last b.last;
      cut =
          update-cases (λ y. y ≡ 0) e.to e.code_ptr 0 (e.dst - 2) (λ same. refl)
            λ differ. absurd (differ (sym at_code));
      zero_free = λ k lt.
          update-cases (λ y. y ≢ 0) e.to e.code_ptr 0 k (λ same. absurd (omega arith))
            λ differ. v.nonzero k (omega arith) λ same. differ (sym same);
    })

encode_zero-IsClosed : (m : ℕ) (e : Encoder) → IsEncoding m e → IsClosed (encode_zero e)
unfolding encode_zero
encode_zero-IsClosed m e v = elim (Bool-cases (leb 32 e.code)) [
  | inl many ↦ rw many (record { slot_last = λ h. refl; holds = λ h. absurd (ground arith) })
  | inr few ↦ elim (Bool-cases (ltb (e.zero_cnt + 1) 2)) [
    | inl one ↦
        rw (few, one)
          (record { slot_last = λ h. absurd (ground arith); holds = λ h. omega (arith, v.code_in) })
    | inr pair ↦
        rw (few, pair) (record { slot_last = λ h. refl; holds = λ h. absurd (ground arith) })
  ]
]

encode_nonzero-IsClosed :
    (m byte : ℕ) (e : Encoder) → IsEncoding m e → e.zero_cnt ≡ 0 → IsClosed (encode_nonzero byte e)
unfolding encode_nonzero
encode_nonzero-IsClosed m byte e v none =
    let open_block : ltb 0 e.zero_cnt ≡ false = ground arith in
    elim (Bool-cases (224 == (e.code + 1) % 256)) [
      | inl full ↦
          rw (open_block, full)
            (record { slot_last = λ h. refl; holds = λ h. absurd (ground arith) })
      | inr more ↦
          rw (open_block, more)
            (record {
              slot_last = λ h. absurd (ground arith);
              holds = λ h. omega (arith, v.code_in);
            })
    ]

encode_nonzero-IsBroken :
    (byte : ℕ) (e : Encoder) → 0 < e.zero_cnt → IsBroken byte (encode_nonzero byte e)
unfolding encode_nonzero
encode_nonzero-IsBroken byte e some =
    let pending : ltb 0 e.zero_cnt ≡ true = ground arith in
    let here : (e.dst + 1 == e.dst + 1) ≡ true = ground arith in
    rw pending (record { finished = refl; slot_before = omega arith; last = rw here refl })

-- The loop over a message that ends in `last`.
encode_loop-append :
    (front : List ℕ) (last : ℕ) (e : Encoder)
    → encode_loop (front ++ last ∷ []) e ≡ (
        if last == 0
        then encode_zero (encode_loop front e)
        else encode_nonzero last (encode_loop front e))
unfolding encode_loop
encode_loop-append [] last e = refl
encode_loop-append (byte ∷ front) last e =
    encode_loop-append front last (if byte == 0 then encode_zero e else encode_nonzero byte e)

-- The end of an encoding, by the last byte and the zeros that the loop has counted before it, and
-- not yet written.
abbrev pub Ending : (m last zero_cnt : ℕ) → ℕ × (ℕ → ℕ) → Type 0
Ending m last zero_cnt written =
    (((last ≡ 0) ⊎ (zero_cnt ≡ 0)) × IsFrame m written)
    ⊎ ((last ≢ 0) × (0 < zero_cnt) × IsCut m last written)

encode_end-Ending :
    (m last : ℕ) (e : Encoder)
    → IsEncoding m e
    → Ending
        (suc m)
        last
        e.zero_cnt
        (encode_end (if last == 0 then encode_zero e else encode_nonzero last e))
encode_end-Ending m last e v = elim (Bool-cases (last == 0)) [
  | inl zero_byte ↦ rw zero_byte (
      inl (
        inl (ground arith),
        encode_end-IsFrame (suc m) (encode_zero e) (encode_zero-IsEncoding m e v)
            (encode_zero-IsClosed m e v),
      ))
  | inr nonzero ↦
      let ne : last ≢ 0 = ground arith in
      let v' = encode_nonzero-IsEncoding m last e ne v in
      elim (Bool-cases (ltb 0 e.zero_cnt)) [
        | inl pending ↦
            let some : 0 < e.zero_cnt = ground arith in
            rw nonzero (
              inr (
                ne,
                some,
                encode_end-IsCut (suc m) last (encode_nonzero last e) v'
                    (encode_nonzero-IsBroken last e some),
              ))
        | inr open_block ↦
            let none : e.zero_cnt ≡ 0 = ground arith in
            rw nonzero (
              inl (
                inr none,
                encode_end-IsFrame (suc m) (encode_nonzero last e) v'
                    (encode_nonzero-IsClosed m last e v none),
              ))
      ]
]

-- If the destination is as long as AM_COBSZPE_ENCODED_SIZE_FOR asks for, the encoder passes its
-- asserts on a message of `m` bytes, at least one, and writes no more than `m + (m + 222) / 223 +
-- 1` bytes. If the last byte of the message is 0, or no zero is pending before it (counted in
-- zero_cnt, and not yet written), they are a frame: the last of them is 0, and no other. If the
-- last byte is not 0 and a zero is pending, the frame is cut: the message's last byte ends it, the
-- byte before is 0, and no other is.
pub encode-Ending :
    (to : ℕ → ℕ) (to_size : ℕ) (front : List ℕ) (last : ℕ)
    → encoded_size_for (length front + 1) ≤ to_size
    → Returns
        (Ending (length front + 1) last (encode_loop front (encode_start to)).zero_cnt)
        (encode to to_size (front ++ last ∷ []))
unfolding encode
encode-Ending to to_size front last fits =
    let total : length (front ++ last ∷ []) ≡ length front + 1 = length-append front (last ∷ []) in
    let size : ltb 0 to_size ≡ true = ground arith in
    let source : ltb 0 (length front + 1) ≡ true = ground arith in
    let room : ltb (encoded_size_for (length front + 1) - 1) to_size ≡ true = ground arith in
    let all : length front + 0 ≡ length front = omega arith in
    let next : length front + 1 ≡ suc (length front) = omega arith in
    let e : Encoder = encode_loop front (encode_start to) in
    let v : IsEncoding (length front) e =
      rw all at (encode_loop-IsEncoding 0 front (encode_start to) (encode_start-IsEncoding to)) in
    rw (size, total, source, room, next, encode_loop-append front last (encode_start to))
      (encode_end-Ending (length front) last e v)
