-- ===== src/Session/Tests.antt =====
-- One file of five bytes in blocks of four, on the backend in memory, with a codec that does nothing.
mod Journals
use fuse_scrollfs.BlockCache.{keyed_nat}
use fuse_scrollfs.Bytes.{Bytes}
use fuse_scrollfs.Bytes.Nth.{nth, nth_beyond}
use fuse_scrollfs.Chunk.{block_range}
use fuse_scrollfs.Codec.{
  IsZstd, Zstd, algo_zstd, compress_algo, compress_block, compress_block_full, compress_zstd,
  decompress_block, is_incompressible, plain, sealed,
}
use fuse_scrollfs.Codec.RoundTrip.{decompress-compress_block}
use fuse_scrollfs.Codec.Window.{IsWindow, sealed-IsWindow}
use fuse_scrollfs.Prelude.{
  [], ap, arith, false, inr, none, refl, some, suc, sym, true, zero, ℕ, ◌*◌, ◌+◌, ◌<◌, ◌==◌, ◌∷◌,
  ◌≡◌, ◌≢◌,
}
use fuse_scrollfs.Prelude.Exec.{Ensures}
use fuse_scrollfs.Prelude.Result.{ErrorKind, err, invalid_input, ok}
use fuse_scrollfs.Rmw.Block.{maybe_build_head_cache, store_plain_block}
use fuse_scrollfs.Rmw.Cut.{cut}
use fuse_scrollfs.Rmw.Load.{CodecParams, compress_plain, load_plain_block}
use fuse_scrollfs.Rmw.Patch.{overwrite}
use fuse_scrollfs.Rmw.Truncate.{truncate}
use fuse_scrollfs.Rmw.TruncateAt.{truncate-cut}
use fuse_scrollfs.Rmw.View.{IsFile, IsSound, LoadsBlock}
use fuse_scrollfs.Rmw.Write.{
  old_plain, patch, span, write_at, write_block, write_blocks, write_checked, write_found,
}
use fuse_scrollfs.Rmw.WriteAt.{write_at-invalid_input, write_at-overwrite}
use fuse_scrollfs.Session.Keep.{seal_locked-IsFile, truncate_locked-cut}
use fuse_scrollfs.Session.Ops.{seal_locked, truncate_locked, write_at_locked}
use fuse_scrollfs.Session.Tail.{Open, Tail}
use fuse_scrollfs.Session.View.{Holds}
use fuse_scrollfs.Session.WriteAt.{write_at_locked-overwrite}
use fuse_scrollfs.Store.{IsLawful, StoredBlock}
use fuse_scrollfs.Store.Mem.{MemStore, mem_put_block, mem_store}
use fuse_scrollfs.Store.MemLaws.{mem_store-IsLawful}
use mathlib.Core.Int.{pos}

abbrev pub copying : Zstd
copying = record {
  compress_with_dict = λ d raw. ok raw;
  compress_ldm = λ level window_log raw. ok raw;
  encode_all = λ raw level. ok raw;
  decode_with_dict = λ d limit c. ok c;
  decode = λ limit c. ok c;
}

copying-IsZstd : IsZstd copying
copying-IsZstd = record {
  dict_lossless = λ d raw c h. sym h;
  ldm_lossless = λ level window_log limit raw c h l. sym h;
  lossless = λ level raw c h. sym h;
}

abbrev pub zstd_params : CodecParams
zstd_params = record { algo = algo_zstd; level = pos 3; dict = none }

compress_plain-ok : (raw : Bytes) (e : ErrorKind) → compress_plain copying zstd_params raw ≢ err e
unfolding compress_plain compress_block compress_block_full compress_algo compress_zstd plain
compress_plain-ok [] e h = cc
compress_plain-ok (b ∷ bs) e h = cc

pub memory-IsSound : (ino : ℕ) → IsSound copying mem_store ino zstd_params (λ _. ⊥)
memory-IsSound ino = record {
  codec = copying-IsZstd;
  backend = mem_store-IsLawful ino;
  codec_fails = λ raw e w h. absurd (compress_plain-ok raw e h);
}

abbrev pub stored_raw : Bytes → StoredBlock
stored_raw bytes = record { bytes = bytes; stored_verbatim = true }

abbrev pub five_bytes : MemStore
five_bytes =
    (
      2,
      record {
        blocks = (0, stored_raw (10 ∷ 11 ∷ 12 ∷ 13 ∷ [])) ∷ (1, stored_raw (14 ∷ [])) ∷ [];
        size = 5;
        chunk_size = 4;
        regular = true;
      },
    )
    ∷ []

abbrev pub five : ℕ → ℕ
five p = nth (10 ∷ 11 ∷ 12 ∷ 13 ∷ 14 ∷ []) p

first_four : (i : ℕ) → i < 4 → nth (10 ∷ 11 ∷ 12 ∷ 13 ∷ []) i ≡ five (0 * 4 + i)
first_four zero l = refl
first_four (suc zero) l = refl
first_four (suc (suc zero)) l = refl
first_four (suc (suc (suc zero))) l = refl
first_four (suc (suc (suc (suc i)))) l = absurd (omega (arith, l))

last_one : (i : ℕ) → nth (14 ∷ []) i ≡ five (1 * 4 + i)
last_one i = let e : 1 * 4 + i ≡ suc (suc (suc (suc i))) = omega arith in ap five (sym e)

no_zero : (idx : ℕ) → (suc (suc idx) == 0) ≡ false
no_zero idx = ground arith

no_one : (idx : ℕ) → (suc (suc idx) == 1) ≡ false
no_one idx = ground arith

pub five_bytes-IsFile : IsFile copying mem_store 2 zstd_params five 5 4 five_bytes
unfolding mem_store load_plain_block decompress_block keyed_nat
five_bytes-IsFile = record { geometry = refl; block = λ idx. go idx }
  where
    go : (idx : ℕ) → LoadsBlock copying mem_store 2 zstd_params five 5 4 idx five_bytes
    go zero = record {
      plain = 10 ∷ 11 ∷ 12 ∷ 13 ∷ [];
      loaded = refl;
      is_plain = record {
        short = omega arith;
        within = omega arith;
        content = λ i l. first_four i l;
      };
    }
    go (suc zero) = record {
      plain = 14 ∷ [];
      loaded = refl;
      is_plain = record { short = omega arith; within = omega arith; content = λ i l. last_one i };
    }
    go (suc (suc idx)) = record {
      plain = [];
      loaded = rw (no_zero idx, no_one idx) refl;
      is_plain = record {
        short = omega arith;
        within = omega arith;
        content = λ i l.
            sym (nth_beyond (10 ∷ 11 ∷ 12 ∷ 13 ∷ 14 ∷ []) (suc (suc idx) * 4 + i) (omega arith));
      };
    }

write_at-overwrite_example :
    Ensures
      (λ n w'.
        (n ≡ 2) × IsFile copying mem_store 2 zstd_params (overwrite five 7 (20 ∷ 21 ∷ [])) 9 4 w')
      (λ _. ⊥)
      (write_at copying mem_store 2 zstd_params 7 (20 ∷ 21 ∷ []) five_bytes)
write_at-overwrite_example =
    write_at-overwrite copying mem_store 2 zstd_params (λ _. ⊥) (memory-IsSound 2) five 7 5 4 20
      (21 ∷ []) five_bytes (omega arith) (omega arith) (omega arith) (omega arith) five_bytes-IsFile

write_at-invalid_input_example :
    write_at copying mem_store 2 zstd_params 2000000000 (20 ∷ []) five_bytes
    ≡ (err invalid_input, five_bytes)
write_at-invalid_input_example =
    write_at-invalid_input copying mem_store 2 zstd_params (λ _. ⊥) (memory-IsSound 2) 2000000000 5
      4 20 [] five_bytes five_bytes-IsFile.geometry (inr (omega arith))

truncate-cut_example :
    Ensures
      (λ _ w'. IsFile copying mem_store 2 zstd_params (cut five 3) 3 4 w')
      (λ _. ⊥)
      (truncate copying mem_store 2 zstd_params 3 five_bytes)
truncate-cut_example =
    truncate-cut copying mem_store 2 zstd_params (λ _. ⊥) (memory-IsSound 2) 4 (omega arith)
      (omega arith) five 5 3 five_bytes (omega arith) five_bytes-IsFile

abbrev pub just_opened : Open MemStore
just_opened = record { disk = five_bytes; tail = none; seals = 0 }

-- Eight bytes: the open block is sealed, one more is sealed and one is left open.
write_at_locked-overwrite_example :
    Ensures
      (λ n s'.
        (n ≡ 8)
        × Holds copying mem_store 2 zstd_params
            (overwrite five 5 (1 ∷ 2 ∷ 3 ∷ 4 ∷ 5 ∷ 6 ∷ 7 ∷ 8 ∷ []))
            13
            4
            s'.disk
            s'.tail)
      (λ _. ⊥)
      (write_at_locked copying mem_store 2 zstd_params true 5
        (1 ∷ 2 ∷ 3 ∷ 4 ∷ 5 ∷ 6 ∷ 7 ∷ 8 ∷ [])
        just_opened)
write_at_locked-overwrite_example =
    write_at_locked-overwrite copying mem_store 2 zstd_params (λ _. ⊥) (memory-IsSound 2) 4
      (omega arith) (omega arith) five 5 5 1 (2 ∷ 3 ∷ 4 ∷ 5 ∷ 6 ∷ 7 ∷ 8 ∷ []) just_opened
      (omega arith) (omega arith) five_bytes-IsFile

-- A sixth byte is in the open tail alone.
abbrev six : ℕ → ℕ
six = nth (10 ∷ 11 ∷ 12 ∷ 13 ∷ 14 ∷ 15 ∷ [])

abbrev six_tail : Tail
six_tail = record {
  idx = 1;
  plain = 14 ∷ 15 ∷ [];
  file_size = 6;
  chunk_size = 4;
  journaled_len = 0;
}

abbrev six_open : Open MemStore
six_open = record { disk = five_bytes; tail = some six_tail; seals = 0 }

last_two : (i : ℕ) → nth (14 ∷ 15 ∷ []) i ≡ six (1 * 4 + i)
last_two i = let e : 1 * 4 + i ≡ suc (suc (suc (suc i))) = omega arith in ap six (sym e)

six_first : (i : ℕ) → i < 4 → nth (10 ∷ 11 ∷ 12 ∷ 13 ∷ []) i ≡ six (0 * 4 + i)
six_first zero l = refl
six_first (suc zero) l = refl
six_first (suc (suc zero)) l = refl
six_first (suc (suc (suc zero))) l = refl
six_first (suc (suc (suc (suc i)))) l = absurd (omega (arith, l))

six_open-Holds : Holds copying mem_store 2 zstd_params six 6 4 six_open.disk six_open.tail
unfolding mem_store load_plain_block decompress_block keyed_nat
six_open-Holds = (
  record {
    chunk = refl;
    whole_size = refl;
    at_end = refl;
    is_plain = record { short = omega arith; within = omega arith; content = λ i l. last_two i };
    stored_size = 5;
    geometry = refl;
    others = λ j n. go j n;
    fresh = λ e. absurd (omega (arith, e));
  },
  omega arith,
)
  where
    go : (j : ℕ) → j ≢ 1 → LoadsBlock copying mem_store 2 zstd_params six 6 4 j five_bytes
    go zero n = record {
      plain = 10 ∷ 11 ∷ 12 ∷ 13 ∷ [];
      loaded = refl;
      is_plain = record {
        short = omega arith;
        within = omega arith;
        content = λ i l. six_first i l;
      };
    }
    go (suc zero) n = absurd (n refl)
    go (suc (suc j)) n = record {
      plain = [];
      loaded = rw (no_zero j, no_one j) refl;
      is_plain = record {
        short = omega arith;
        within = omega arith;
        content = λ i l.
            sym (nth_beyond (10 ∷ 11 ∷ 12 ∷ 13 ∷ 14 ∷ 15 ∷ []) (suc (suc j) * 4 + i) (omega arith));
      };
    }

seal_locked-IsFile_example :
    Ensures
      (λ _ s'. (s'.tail ≡ none) × IsFile copying mem_store 2 zstd_params six 6 4 s'.disk)
      (λ _. ⊥)
      (seal_locked copying mem_store 2 zstd_params true six_open)
unfolding mem_store
seal_locked-IsFile_example =
    seal_locked-IsFile copying mem_store 2 zstd_params (λ _. ⊥) (memory-IsSound 2) 4 (omega arith)
      (omega arith) six 6 six_open refl six_open-Holds

truncate_locked-cut_example :
    Ensures
      (λ _ s'. Holds copying mem_store 2 zstd_params (cut five 3) 3 4 s'.disk s'.tail)
      (λ _. ⊥)
      (truncate_locked copying mem_store 2 zstd_params true 3 just_opened)
truncate_locked-cut_example =
    truncate_locked-cut copying mem_store 2 zstd_params (λ _. ⊥) (memory-IsSound 2) 4 (omega arith)
      (omega arith) five 5 3 just_opened (omega arith) five_bytes-IsFile

decompress-compress_block_example :
    decompress_block copying (1 ∷ 2 ∷ 3 ∷ []) algo_zstd true none ≡ ok (1 ∷ 2 ∷ 3 ∷ [])
unfolding compress_block_full compress_algo compress_zstd is_incompressible sealed plain
decompress-compress_block_example =
    decompress-compress_block copying copying-IsZstd (1 ∷ 2 ∷ 3 ∷ []) algo_zstd
      (sealed (pos 3) 65536) none (1 ∷ 2 ∷ 3 ∷ []) true (omega arith) (omega arith) refl

sealed-IsWindow_example :
    ((sealed (pos 19) 16777216).enable_ldm ≡ true)
    × IsWindow 16777216 (sealed (pos 19) 16777216).window_log
sealed-IsWindow_example = sealed-IsWindow (pos 19) 16777216 (omega arith) (omega arith)

mem_store-IsLawful_example : IsLawful mem_store 2 (λ _. ⊥)
mem_store-IsLawful_example = mem_store-IsLawful 2

-- A write into the fourth block leaves the second one as short as it was.
abbrev pub sparse_write : MemStore
sparse_write = (write_at copying mem_store 2 zstd_params 12 (20 ∷ []) five_bytes).1

short_block :
    (load_plain_block copying zstd_params mem_store sparse_write 2 1 ≡ ok (14 ∷ []))
    × (mem_store.block_geometry sparse_write 2 ≡ some (13, 4))
unfolding mem_store mem_put_block load_plain_block decompress_block keyed_nat write_at write_found
    write_checked write_blocks write_block old_plain span patch block_range store_plain_block
    maybe_build_head_cache compress_plain compress_block compress_block_full compress_algo
    compress_zstd plain is_incompressible
short_block = (refl, refl)
