-- ===== src/Padding.antt =====
-- pkcs.go: the padding of a plaintext to whole blocks, and its removal.
pub mod RoundTrip
use go_cache.Prelude.{
  ℕ, zero, suc, ◌-◌, ◌%◌, ◌||◌, ◌++◌, length, take, replicate, Bytes, leb, if◌then◌else◌,
}
use go_cache.Prelude.Int.{ℤ, pos, negsuc, ltb_ℤ}
use go_cache.Outcome.{Outcome, returns, panics, Result, ok, err, ◌>>=◌, index}

-- `ErrPaddingSize`, the one error of the file.
pub data PaddingError : Type 0 where
  err_padding_size : PaddingError

-- `src` cut at its last byte. With no byte at all the index `srcLen - 1` is out of range.
unfoldable pub unpadding : Bytes → ℤ → Outcome (Result PaddingError Bytes)
unpadding src block_size = do
  let src_len = length src
  padding_len ← index src (src_len - 1)
  returns (
      if leb src_len padding_len || ltb_ℤ block_size (pos padding_len)
      then err err_padding_size
      else ok (take (src_len - padding_len) src))

unfoldable pub pad_len : ℕ → ℕ → ℕ
pad_len src_len block_size = block_size - src_len % block_size

-- `%` panics on 0, and `bytes.Repeat` on the negative count that a negative size gives.
-- `byte(padLen)` keeps the low eight bits.
unfoldable pub padding : Bytes → ℤ → Outcome Bytes
unfolding pad_len
padding src (pos zero) = panics
padding src (negsuc n) = panics
padding src (pos (suc n)) =
    let len = pad_len (length src) (suc n) in returns (src ++ replicate len (len % 256))
