-- ===== src/Codec/RoundTrip.antt =====
-- crates/scrollz/src/core/codec.rs: compression and decompression against each other.
use fuse_scrollfs.Bytes.{Bytes}
use fuse_scrollfs.Codec.{
  Algo, CompressParams, IsZstd, SharedDict, Zstd, algo_lz4, algo_none, algo_zstd, choose_stored,
  compress_algo, compress_block_full, compress_zstd, decode_capped, decompress_block,
  decompress_window_log_max, is_incompressible, is_some, map_err, max_decompressed_block, plain,
}
use fuse_scrollfs.Prelude.{
  Bool, Bool-cases, Option, [], arith, false, inl, inr, length, ltb-false, none, refl, some, take,
  take_all, true, ◌&&◌, ◌+◌, ◌∷◌, ◌≡◌, ◌≤◌,
}
use fuse_scrollfs.Prelude.Result.{ErrorKind, Result, err, ok, other_error, ◌>>=◌}
use fuse_scrollfs.Reconcile.Merge.{kind}
use mathlib.Core.Int.{ℤ}
use mathlib.Core.Path.{subst}

module _ (z : Zstd) (lawful : IsZstd z) where
  decode_capped-ok :
      (raw : Bytes) → length raw ≤ max_decompressed_block → decode_capped z (ok raw) ≡ ok raw
  unfolding decode_capped
  decode_capped-ok raw h =
      let e : take (max_decompressed_block + 1) raw ≡ raw =
        take_all (max_decompressed_block + 1) raw (omega (arith, h)) in
      rw (e, ltb-false max_decompressed_block (length raw) h) refl

  map_err-ok :
      {A : Type 0} (kind : ErrorKind) (r : Result A) (a : A) → map_err kind r ≡ ok a → r ≡ ok a
  map_err-ok kind (ok x) a h = h
  map_err-ok kind (err e) a h = absurd cc

  -- What was stored as it is reads as it is.
  decompress_verbatim :
      (raw stored : Bytes) (algo : Algo) (dict : Option SharedDict) (verbatim : Bool)
      → ◌≡◌ {A = Result (Bytes × Bool)} (ok (raw, true)) (ok (stored, verbatim))
      → decompress_block z stored algo verbatim dict ≡ ok raw
  unfolding decompress_block
  decompress_verbatim raw stored algo dict verbatim h =
      let p : (raw, true) ≡ (stored, verbatim) = cc in
      subst (λ (q : Bytes × Bool). decompress_block z (q.0) algo (q.1) dict ≡ ok raw) p refl

  decompress-compress_zstd :
      (raw : Bytes) (params : CompressParams) (dict : Option SharedDict) (c : Bytes)
      → params.window_log ≤ decompress_window_log_max
      → length raw ≤ max_decompressed_block
      → compress_zstd z raw params dict ≡ ok c
      → decompress_block z c algo_zstd false dict ≡ ok raw
  unfolding compress_zstd decompress_block
  decompress-compress_zstd raw params (some d) c w l h =
      rw (lawful.dict_lossless d raw c (map_err-ok other_error _ c h)) (decode_capped-ok raw l)
  decompress-compress_zstd raw params none c w l h = elim (Bool-cases params.enable_ldm) [
    | inl ldm ↦
        let h' = rw ldm at h in
        rw
          (lawful.ldm_lossless params.level params.window_log decompress_window_log_max raw c
            (map_err-ok other_error _ c h') w)
          (decode_capped-ok raw l)
    | inr no_ldm ↦
        let h' = rw no_ldm at h in
        rw (lawful.lossless params.level raw c (map_err-ok other_error _ c h'))
          (decode_capped-ok raw l)
  ]

  -- The choice between the compressed bytes and the raw ones.
  decompress_chosen :
      (raw : Bytes) (dict : Option SharedDict) (r : Result Bytes) (stored : Bytes) (verbatim : Bool)
      → ((c : Bytes) → r ≡ ok c → decompress_block z c algo_zstd false dict ≡ ok raw)
      → (r >>= choose_stored raw) ≡ ok (stored, verbatim)
      → decompress_block z stored algo_zstd verbatim dict ≡ ok raw
  decompress_chosen raw dict (err e) stored verbatim k h = absurd cc
  decompress_chosen raw dict (ok c) stored verbatim k h =
      elim (Bool-cases (is_incompressible (length raw) (length c))) [
        | inl large ↦ decompress_verbatim raw stored algo_zstd dict verbatim (rw large at h)
        | inr small ↦
            let h' : ◌≡◌ {A = Result (Bytes × Bool)} (ok (c, false)) (ok (stored, verbatim)) =
              rw small at h in
            let p : (c, false) ≡ (stored, verbatim) = cc in
            subst (λ (q : Bytes × Bool). decompress_block z (q.0) algo_zstd (q.1) dict ≡ ok raw) p
              (k c refl)
      ]

  decompress-compress_algo :
      (raw : Bytes) (algo : Algo) (params : CompressParams) (dict : Option SharedDict)
      (stored : Bytes) (verbatim : Bool)
      → params.window_log ≤ decompress_window_log_max
      → length raw ≤ max_decompressed_block
      → compress_algo z raw algo params dict ≡ ok (stored, verbatim)
      → decompress_block z stored algo verbatim dict ≡ ok raw
  unfolding compress_algo
  decompress-compress_algo raw algo_none params dict stored verbatim w l h =
      decompress_verbatim raw stored algo_none dict verbatim h
  decompress-compress_algo raw algo_lz4 params dict stored verbatim w l h = absurd cc
  decompress-compress_algo raw algo_zstd params dict stored verbatim w l h =
      decompress_chosen raw dict (compress_zstd z raw params dict) stored verbatim
        (λ c e. decompress-compress_zstd raw params dict c w l e) h

  -- For a codec that decodes what it encoded, a block of at most 256 MiB that compress_block_full
  -- accepts, with a window that the decoder takes, decompresses to its bytes, with the flag that
  -- compress_block_full gave and the same algorithm and dictionary.
  pub decompress-compress_block :
      (raw : Bytes) (algo : Algo) (params : CompressParams) (dict : Option SharedDict)
      (stored : Bytes) (verbatim : Bool)
      → params.window_log ≤ decompress_window_log_max
      → length raw ≤ max_decompressed_block
      → compress_block_full z raw algo params dict ≡ ok (stored, verbatim)
      → decompress_block z stored algo verbatim dict ≡ ok raw
  unfolding compress_block_full
  decompress-compress_block [] algo params dict stored verbatim w l h =
      decompress_verbatim [] stored algo dict verbatim h
  decompress-compress_block (b ∷ bs) algo params dict stored verbatim w l h =
      elim (Bool-cases (params.enable_ldm && is_some dict)) [
        | inl both ↦ let h' = rw both at h in absurd cc
        | inr fine ↦
            decompress-compress_algo (b ∷ bs) algo params dict stored verbatim w l (rw fine at h)
      ]

pub plain-window_log : (level : ℤ) → (plain level).window_log ≤ decompress_window_log_max
unfolding plain
plain-window_log level = omega arith
