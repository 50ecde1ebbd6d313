-- ===== src/Cobszpe.antt =====
-- libs/cobszpe/cobszpe.c: consistent overhead byte stuffing with zero pair elimination. The source
-- is a list of bytes; the destination is memory from offset 0 on, and the two pointers into it are
-- offsets.
pub mod Loop
pub mod Frame
mod Examples
use amast.Common.{
  ℕ, ◌+◌, ◌-◌, ◌/◌, ◌%◌, Bool, true, false, not, ltb, leb, ◌==◌, if◌then◌else◌, List, [], ◌∷◌,
  length, update, Checked, ok, check, ◌>>=◌, ◌>>◌,
}

-- AM_COBSZPE_ZEROLESS_MAX, AM_COBSZPE_ENCODED_SIZE_FOR and AM_COBSZPE_DECODED_SIZE_FOR
abbrev pub zeroless_max : ℕ
zeroless_max = 223

abbrev pub encoded_size_for : ℕ → ℕ
encoded_size_for n = n + (n + zeroless_max) / (zeroless_max + 1) + 1

abbrev pub decoded_size_for : ℕ → ℕ
decoded_size_for n = n - 1

-- the variables of the loop in am_cobszpe_encode, and the bytes written
pub record Encoder : Type 0 where
  pub to : ℕ → ℕ
  pub dst : ℕ
  pub code_ptr : ℕ
  pub code : ℕ
  pub zero_cnt : ℕ
  pub block_finished : Bool

-- AM_FINISH_BLOCK
abbrev pub finish_block : Encoder → ℕ → Encoder
finish_block e x = record {
  to = update e.to e.code_ptr (x % 256);
  dst = e.dst + 1;
  code_ptr = e.dst;
  code = 1;
  zero_cnt = 0;
  block_finished = true;
}

-- The round of the loop for a byte that is not zero. The block that a pending zero finishes leaves
-- block_finished set, also when the byte is then copied into the next block.
unfoldable pub encode_nonzero : ℕ → Encoder → Encoder
encode_nonzero byte e =
    let started : Encoder = record e { block_finished = false } in
    let open_block =
      if ltb 0 started.zero_cnt then finish_block started started.code else started in
    let copied : Encoder = record open_block {
      to = update open_block.to open_block.dst byte;
      dst = open_block.dst + 1;
      code = (open_block.code + 1) % 256;
    } in
    if zeroless_max + 1 == copied.code then finish_block copied copied.code else copied

-- and for a zero
unfoldable pub encode_zero : Encoder → Encoder
encode_zero e =
    let counted : Encoder = record e { zero_cnt = e.zero_cnt + 1; block_finished = false } in
    if leb (255 - zeroless_max) e.code
    then finish_block counted e.code
    else if ltb counted.zero_cnt 2
    then counted
    else finish_block counted (e.code + zeroless_max + 1)

pub encode_loop : List ℕ → Encoder → Encoder
unfolding encode_nonzero encode_zero
encode_loop [] e = e
encode_loop (byte ∷ src) e =
    encode_loop src (if byte == 0 then encode_zero e else encode_nonzero byte e)

abbrev pub encode_start : (ℕ → ℕ) → Encoder
encode_start to = record {
  to = to;
  dst = 1;
  code_ptr = 0;
  code = 1;
  zero_cnt = 0;
  block_finished = false;
}

-- the end of am_cobszpe_encode: the number of bytes written, and the bytes
abbrev pub encode_end : Encoder → ℕ × (ℕ → ℕ)
encode_end e =
    if e.block_finished
    then (e.dst, update e.to e.code_ptr 0)
    else (e.dst + 1, update (update e.to e.code_ptr e.code) e.dst 0)

unfoldable pub encode : (to : ℕ → ℕ) → (to_size : ℕ) → (from : List ℕ) → Checked (ℕ × (ℕ → ℕ))
unfolding encode_loop
encode to to_size from = do
  check (ltb 0 to_size)
  check (ltb 0 (length from))
  check (ltb (encoded_size_for (length from) - 1) to_size)
  ok (encode_end (encode_loop from (encode_start to)))

-- am_cobszpe_decode, which decodes nothing: it clears the first byte and returns 0.
pub decode : (dst : ℕ → ℕ) → (dst_size src_size : ℕ) → Checked (ℕ × (ℕ → ℕ))
decode dst dst_size src_size = do
  check (ltb 0 dst_size)
  check (ltb 0 src_size)
  check (leb (decoded_size_for src_size) dst_size)
  ok (0, update dst 0 0)
