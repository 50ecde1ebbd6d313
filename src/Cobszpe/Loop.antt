-- ===== src/Cobszpe/Loop.antt =====
-- The invariant of the loop of am_cobszpe_encode: what is written so far has no zeros.
use amast.Common.{
  ℕ, suc, ◌+◌, ◌-◌, ◌*◌, ◌%◌, ◌≤◌, ◌<◌, ◌≡◌, ◌≢◌, inl, inr, refl, sym, arith, false, ltb, leb, ◌==◌,
  if◌then◌else◌, Bool-cases, List, [], ◌∷◌, length, update, update-cases,
}
use amast.Cobszpe.{Encoder, finish_block, encode_nonzero, encode_zero, encode_loop, encode_start}

-- The loop after `m` bytes. `written` bounds the bytes written: a byte more for each 223.
pub record IsEncoding (m : ℕ) (e : Encoder) : Type 0 where
  pub code_in : (1 ≤ e.code) × (e.code ≤ 223)
  pub zeros_in : e.zero_cnt ≤ 1
  pub few_before_zero : 0 < e.zero_cnt → e.code < 32
  pub slot : e.code_ptr < e.dst
  pub written : 223 * e.dst + 224 * e.zero_cnt + (e.code - 1) ≤ 224 * m + 223
  pub nonzero : (k : ℕ) → k < e.dst → k ≢ e.code_ptr → e.to k ≢ 0

-- A finished block, if the bytes written stay within the bound.
finish_block-IsEncoding :
    (m : ℕ) (e : Encoder) (x : ℕ)
    → e.code_ptr < e.dst
    → ((k : ℕ) → k < e.dst → k ≢ e.code_ptr → e.to k ≢ 0)
    → x % 256 ≢ 0
    → 223 * (e.dst + 1) ≤ 224 * m + 223
    → IsEncoding m (finish_block e x)
finish_block-IsEncoding m e x slot nonzero ne few = record {
  code_in = omega arith;
  zeros_in = omega arith;
  few_before_zero = λ h. absurd (omega arith);
  slot = omega arith;
  written = omega arith;
  nonzero = λ k lt other.
      update-cases (λ y. y ≢ 0) e.to e.code_ptr (x % 256) k (λ same. ne)
        λ differ. nonzero k (omega arith) λ same. differ (sym same);
}

pub encode_zero-IsEncoding :
    (m : ℕ) (e : Encoder) → IsEncoding m e → IsEncoding (suc m) (encode_zero e)
unfolding encode_zero
encode_zero-IsEncoding m e v =
    let counted : Encoder = record e { zero_cnt = e.zero_cnt + 1; block_finished = false } in
    elim (Bool-cases (leb 32 e.code)) [
      | inl many ↦ rw many (
          finish_block-IsEncoding (suc m) counted e.code v.slot v.nonzero (omega (arith, v.code_in))
            (omega (arith, v.written)))
      | inr few ↦ elim (Bool-cases (ltb (e.zero_cnt + 1) 2)) [
        | inl one ↦
            rw (few, one)
              (record {
                code_in = v.code_in;
                zeros_in = ground arith;
                few_before_zero = λ h. ground arith;
                slot = v.slot;
                written = omega (arith, v.written);
                nonzero = v.nonzero;
              })
        | inr pair ↦
            let low : e.code < 32 = ground arith in
            let two : e.zero_cnt ≡ 1 = ground (arith, v.zeros_in) in
            rw (few, pair)
              (finish_block-IsEncoding (suc m) counted (e.code + 223 + 1) v.slot v.nonzero
                (omega (arith, v.code_in)) (omega (arith, v.written)))
      ]
    ]

-- A byte that is not zero, copied into an open block.
copy-IsEncoding :
    (m byte : ℕ) (e : Encoder)
    → byte ≢ 0
    → IsEncoding m e
    → e.zero_cnt ≡ 0
    → let copied : Encoder = record e {
      to = update e.to e.dst byte;
      dst = e.dst + 1;
      code = (e.code + 1) % 256;
    } in
      IsEncoding (suc m) (if 224 == copied.code then finish_block copied copied.code else copied)
copy-IsEncoding m byte e ne v none =
    let copied : Encoder = record e {
      to = update e.to e.dst byte;
      dst = e.dst + 1;
      code = (e.code + 1) % 256;
    } in
    let code : (e.code + 1) % 256 ≡ e.code + 1 = omega (arith, v.code_in) in
    let nonzero : (k : ℕ) → k < e.dst + 1 → k ≢ e.code_ptr → copied.to k ≢ 0 = λ k lt other.
      update-cases (λ y. y ≢ 0) e.to e.dst byte k (λ same. ne)
        λ differ. v.nonzero k (ground arith) other in
    elim (Bool-cases (224 == (e.code + 1) % 256)) [
      | inl full ↦
          let last : e.code ≡ 223 = ground arith in
          rw full (
            finish_block-IsEncoding (suc m) copied ((e.code + 1) % 256) (omega (arith, v.slot))
              nonzero (omega arith) (omega (arith, v.written)))
      | inr more ↦
          let below : e.code < 223 = ground (arith, v.code_in) in
          rw more (record {
            code_in = omega arith;
            zeros_in = v.zeros_in;
            few_before_zero = λ h. absurd (omega arith);
            slot = omega (arith, v.slot);
            written = omega (arith, v.written, v.code_in);
            nonzero = nonzero;
          })
    ]

-- The invariant does not depend on block_finished.
start-IsEncoding :
    (m : ℕ) (e : Encoder) → IsEncoding m e → IsEncoding m (record e { block_finished = false })
start-IsEncoding m e v = record {
  code_in = v.code_in;
  zeros_in = v.zeros_in;
  few_before_zero = v.few_before_zero;
  slot = v.slot;
  written = v.written;
  nonzero = v.nonzero;
}

pub encode_nonzero-IsEncoding :
    (m byte : ℕ) (e : Encoder)
    → byte ≢ 0
    → IsEncoding m e
    → IsEncoding (suc m) (encode_nonzero byte e)
unfolding encode_nonzero
encode_nonzero-IsEncoding m byte e ne v =
    let started : Encoder = record e { block_finished = false } in
    elim (Bool-cases (ltb 0 e.zero_cnt)) [
      | inl pending ↦
          let one : 0 < e.zero_cnt = ground arith in
          let v' : IsEncoding m (finish_block started e.code) =
            finish_block-IsEncoding m started e.code v.slot v.nonzero (omega (arith, v.code_in))
              (omega (arith, v.written, one)) in
          rw pending (copy-IsEncoding m byte (finish_block started e.code) ne v' refl)
      | inr open_block ↦
          let none : e.zero_cnt ≡ 0 = ground arith in
          rw open_block (copy-IsEncoding m byte started ne (start-IsEncoding m e v) none)
    ]

pub encode_loop-IsEncoding :
    (m : ℕ) (src : List ℕ) (e : Encoder)
    → IsEncoding m e
    → IsEncoding (length src + m) (encode_loop src e)
unfolding encode_loop
encode_loop-IsEncoding m [] e v = let sum : 0 + m ≡ m = omega arith in rw sum v
encode_loop-IsEncoding m (byte ∷ src) e v =
    let sum : length src + suc m ≡ suc (length src) + m = omega arith in
    elim (Bool-cases (byte == 0)) [
      | inl zero_byte ↦
          rw (zero_byte, sym sum)
            (encode_loop-IsEncoding (suc m) src (encode_zero e) (encode_zero-IsEncoding m e v))
      | inr nonzero ↦
          rw (nonzero, sym sum)
            (encode_loop-IsEncoding (suc m) src (encode_nonzero byte e)
              (encode_nonzero-IsEncoding m byte e (ground arith) v))
    ]

pub encode_start-IsEncoding : (to : ℕ → ℕ) → IsEncoding 0 (encode_start to)
encode_start-IsEncoding to = record {
  code_in = omega arith;
  zeros_in = omega arith;
  few_before_zero = λ h. absurd (omega arith);
  slot = omega arith;
  written = omega arith;
  nonzero = λ k lt other. absurd (other (omega arith));
}
