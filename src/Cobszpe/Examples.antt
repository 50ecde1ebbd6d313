-- ===== src/Cobszpe/Examples.antt =====
-- Short encodings, and one that overflows a buffer of the size AM_COBSZPE_ENCODED_SIZE_FOR gives.
use amast.Common.{ℕ, zero, suc, ◌+◌, ◌≡◌, refl, arith, List, [], ◌∷◌, update, ok, Returns}
use amast.Cobszpe.{
  encoded_size_for, encode_nonzero, encode_zero, encode_loop, encode_start, encode_end, encode,
  decode,
}
use amast.Cobszpe.Frame.{Ending, encode-Ending}

abbrev written : (ℕ → ℕ) → (n : ℕ) → List ℕ
written bytes n = go n 0
  where
    go : ℕ → ℕ → List ℕ
    go zero k = []
    go (suc n) k = bytes k ∷ go n (k + 1)

abbrev encoded : List ℕ → List ℕ
encoded from =
    let end = encode_end (encode_loop from (encode_start (λ k. 9))) in written (end.1) (end.0)

abbrev ones : ℕ → List ℕ
ones zero = []
ones (suc n) = 1 ∷ ones n

one_run : encoded (1 ∷ []) ≡ 2 ∷ 1 ∷ 0 ∷ []
unfolding encode_loop encode_nonzero encode_zero
one_run = refl

-- The encoding of {1, 0} is that of {1}.
one_zero_run : encoded (1 ∷ 0 ∷ []) ≡ encoded (1 ∷ [])
unfolding encode_loop encode_nonzero encode_zero
one_zero_run = refl

-- A pair of zeros takes one byte.
pair_run : encoded (5 ∷ 0 ∷ 0 ∷ 6 ∷ []) ≡ 226 ∷ 5 ∷ 2 ∷ 6 ∷ 0 ∷ []
unfolding encode_loop encode_nonzero encode_zero
pair_run = refl

-- For 224 bytes the destination may be 226 bytes long, and 227 are written.
ones_run :
    (encoded_size_for 224 ≡ 226)
    × ((encode_end (encode_loop (ones 224) (encode_start (λ k. 9)))).0 ≡ 227)
unfolding encode_loop encode_nonzero encode_zero
ones_run = (refl, refl)

decode_run : decode (λ k. 9) 8 3 ≡ ok (0, update (λ k. 9) 0 0)
unfolding decode
decode_run = refl

-- A zero is pending when the last byte comes: the frame has a zero inside, and none at the end.
cut_run : encoded (1 ∷ 0 ∷ 2 ∷ []) ≡ 2 ∷ 1 ∷ 0 ∷ 2 ∷ []
unfolding encode_loop encode_nonzero encode_zero
cut_run = refl

encode-Ending_example :
    Returns
      (Ending 3 2 (encode_loop (1 ∷ 0 ∷ []) (encode_start (λ k. 9))).zero_cnt)
      (encode (λ k. 9) 5 (1 ∷ 0 ∷ 2 ∷ []))
encode-Ending_example = encode-Ending (λ k. 9) 5 (1 ∷ 0 ∷ []) 2 (omega arith)
