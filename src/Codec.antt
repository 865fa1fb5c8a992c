-- ===== src/Codec.antt =====
-- crates/scrollz/src/core/codec.rs: one block compressed or stored as it is. The zstd crate is a
-- parameter.
pub mod RoundTrip
pub mod Window
use fuse_scrollfs.Bytes.{Bytes}
use fuse_scrollfs.Prelude.{
  Bool, Option, [], false, if◌then◌else◌, leb, length, ltb, min, none, some, suc, take, true, zero,
  ℕ, ◌&&◌, ◌*◌, ◌+◌, ◌-◌, ◌/◌, ◌==◌, ◌∷◌, ◌≡◌, ◌≤◌,
}
use fuse_scrollfs.Prelude.Result.{
  ErrorKind, Result, err, invalid_data, invalid_input, ok, other_error, refuse_if, unsupported,
  ◌>>=◌, ◌>>◌,
}
use mathlib.Core.Int.{ℤ}

abbrev pub max_decompressed_block : ℕ
max_decompressed_block = 256 * 1024 * 1024

abbrev pub decompress_window_log_max : ℕ
decompress_window_log_max = 27

pub record CompressParams : Type 0 where
  pub level : ℤ
  pub enable_ldm : Bool
  pub window_log : ℕ

unfoldable pub plain : ℤ → CompressParams
plain level = record { level = level; enable_ldm = false; window_log = 0 }

-- `32 - n.leading_zeros()`: the number of binary digits, with fuel for its rounds.
abbrev pub bit_length : ℕ → ℕ → ℕ
bit_length zero n = 0
bit_length (suc fuel) n = let rest = bit_length fuel (n / 2) in if n == 0 then 0 else 1 + rest

unfoldable pub window_log_for : ℕ → ℕ
window_log_for chunk_size = min (bit_length 32 (chunk_size - 1)) decompress_window_log_max

abbrev pub ldm_threshold : ℕ
ldm_threshold = 8 * 1024 * 1024

unfoldable pub sealed : ℤ → ℕ → CompressParams
sealed level chunk_size =
    if leb chunk_size ldm_threshold
    then plain level
    else record { level = level; enable_ldm = true; window_log = window_log_for chunk_size }

unfoldable pub sized : ℤ → ℕ → Bool → CompressParams
sized level chunk_size enable_ldm = record {
  level = level;
  enable_ldm = enable_ldm;
  window_log = if enable_ldm then window_log_for chunk_size else 0;
}

pub data Algo : Type 0 where
  algo_none : Algo
  algo_zstd : Algo
  algo_lz4 : Algo

-- The digested dictionaries of the zstd crate are functions of these.
pub record SharedDict : Type 0 where
  pub raw : Bytes
  pub level : ℤ

unfoldable pub new_dict : Bytes → ℤ → Option SharedDict
new_dict [] level = none
new_dict (b ∷ bs) level = some (record { raw = b ∷ bs; level = level })

-- What the code calls of the zstd crate. A decoder is given its limit of the window.
pub record Zstd : Type 0 where
  pub compress_with_dict : SharedDict → Bytes → Result Bytes
  pub compress_ldm : ℤ → ℕ → Bytes → Result Bytes
  pub encode_all : Bytes → ℤ → Result Bytes
  pub decode_with_dict : SharedDict → ℕ → Bytes → Result Bytes
  pub decode : ℕ → Bytes → Result Bytes

-- What the code relies on: a frame that was written is decoded to what it was written from, by a
-- decoder whose limit its window does not pass.
pub record IsZstd (z : Zstd) : Type 0 where
  pub dict_lossless :
      (d : SharedDict) (raw c : Bytes)
      → z.compress_with_dict d raw ≡ ok c
      → z.decode_with_dict d decompress_window_log_max c ≡ ok raw
  pub ldm_lossless :
      (level : ℤ) (window_log limit : ℕ) (raw c : Bytes)
      → z.compress_ldm level window_log raw ≡ ok c
      → window_log ≤ limit
      → z.decode limit c ≡ ok raw
  pub lossless :
      (level : ℤ) (raw c : Bytes)
      → z.encode_all raw level ≡ ok c
      → z.decode decompress_window_log_max c ≡ ok raw

unfoldable pub is_incompressible : ℕ → ℕ → Bool
is_incompressible raw_len clen = leb (raw_len * 95) (clen * 100)

-- `.map_err(...)`.
abbrev pub map_err : {A : Type 0} → ErrorKind → Result A → Result A
map_err kind (ok a) = ok a
map_err kind (err e) = err kind

abbrev pub is_some : {A : Type 0} → Option A → Bool
is_some none = false
is_some (some a) = true

-- A block that does not shrink enough is stored as it is.
abbrev pub choose_stored : Bytes → Bytes → Result (Bytes × Bool)
choose_stored raw compressed = ok (
    if is_incompressible (length raw) (length compressed) then (raw, true) else (compressed, false))

module _ (z : Zstd) where
  -- The three ways to a compressed block.
  unfoldable pub compress_zstd : Bytes → CompressParams → Option SharedDict → Result Bytes
  compress_zstd raw params (some d) = map_err other_error (z.compress_with_dict d raw)
  compress_zstd raw params none =
      if params.enable_ldm
      then map_err other_error (z.compress_ldm params.level params.window_log raw)
      else map_err other_error (z.encode_all raw params.level)

  unfoldable pub compress_algo :
      Bytes → Algo → CompressParams → Option SharedDict → Result (Bytes × Bool)
  compress_algo raw algo_none params dict = ok (raw, true)
  compress_algo raw algo_lz4 params dict = err unsupported
  compress_algo raw algo_zstd params dict = compress_zstd raw params dict >>= choose_stored raw

  -- An empty block is stored as it is; a dictionary and long-distance matching exclude each other.
  unfoldable pub compress_block_full :
      Bytes → Algo → CompressParams → Option SharedDict → Result (Bytes × Bool)
  compress_block_full [] algo params dict = ok ([], true)
  compress_block_full (b ∷ bs) algo params dict =
      refuse_if (params.enable_ldm && is_some dict) invalid_input
      >> compress_algo (b ∷ bs) algo params dict

  unfoldable pub compress_block : Bytes → Algo → ℤ → Option SharedDict → Result (Bytes × Bool)
  compress_block raw algo level dict = compress_block_full raw algo (plain level) dict

  unfoldable pub decode_capped : Result Bytes → Result Bytes
  decode_capped decoded = map_err invalid_data decoded >>= λ out.
      let out = take (max_decompressed_block + 1) out in
      refuse_if (ltb max_decompressed_block (length out)) invalid_data >> ok out

  unfoldable pub decompress_block : Bytes → Algo → Bool → Option SharedDict → Result Bytes
  decompress_block stored algo true dict = ok stored
  decompress_block stored algo_none false dict = ok stored
  decompress_block stored algo_lz4 false dict = err unsupported
  decompress_block stored algo_zstd false (some d) =
      decode_capped (z.decode_with_dict d decompress_window_log_max stored)
  decompress_block stored algo_zstd false none =
      decode_capped (z.decode decompress_window_log_max stored)
