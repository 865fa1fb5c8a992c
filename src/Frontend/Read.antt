-- ===== src/Frontend/Read.antt =====
-- crates/scrollz/src/rwfs.rs: `read_range`. A read holds the inode's lock in shared mode: the open
-- file does not change, the block cache does. The counters of hits and misses are left out.
use fuse_scrollfs.BlockCache.{Inner, get, insert}
use fuse_scrollfs.Bytes.{Bytes, fit, slice}
use fuse_scrollfs.Chunk.{add64, block_range, mul64}
use fuse_scrollfs.Codec.{Zstd, decompress_block, plain}
use fuse_scrollfs.Prelude.{
  Bool, Option, [], if◌then◌else◌, leb, length, ltb, max, min, none, replicate, some, suc, zero, ℕ,
  ◌++◌, ◌+◌, ◌-◌, ◌/◌, ◌==◌, ◌||◌,
}
use fuse_scrollfs.Prelude.Exec.{Exec, lift, modify, pure, ◌>>=◌}
use fuse_scrollfs.Prelude.Result.{ErrorKind, Result, err, io_failure, ok}
use fuse_scrollfs.Rmw.Load.{CodecParams}
use fuse_scrollfs.Session.Tail.{Open, geometry_locked, read_tail_block}
use fuse_scrollfs.Store.{Store, StoredBlock}

-- The numbers of the system that an answer to the kernel carries.
abbrev pub Errno : Type 0
Errno = ℕ

abbrev pub enoent : Errno
enoent = 2

abbrev pub eio : Errno
eio = 5

-- `io_to_errno`: the error's own number, or EIO. Which number an error carries, if any, is the
-- system's choice for each read, the parameter `raw_os_error`; `io_failure` is the EIO that the
-- code makes itself.
unfoldable pub io_to_errno : (ErrorKind → Option ℕ) → ErrorKind → Errno
io_to_errno raw_os_error io_failure = eio
io_to_errno raw_os_error reason = elim (raw_os_error reason) [ some number ↦ number | none ↦ eio ]

-- `Result<Vec<u8>, Errno>`.
pub data Reply : Type 0 where
  failed : Errno → Reply
  answer : Bytes → Reply

abbrev pub reply : (ErrorKind → Option ℕ) → Result Bytes → Reply
reply raw_os_error (ok bytes) = answer bytes
reply raw_os_error (err reason) = failed (io_to_errno raw_os_error reason)

-- `plain[from .. min(to, plain.len())]`, nothing where that range is empty.
unfoldable pub copied : ℕ → ℕ → Bytes → Bytes
copied from to plain =
    let stop = min to (length plain) in if ltb from stop then slice from (stop - from) plain else []

-- What one block gives to the reader: zeros fill a block that ends the file, and any other block
-- must hold all that is asked of it.
unfoldable pub from_tail : ℕ → ℕ → Bytes → Bytes
from_tail from to plain =
    let out = copied from to plain in
    if ltb (length out) (to - from) then fit (to - from) out else out

unfoldable pub from_block : Bool → ℕ → ℕ → Bytes → Result Bytes
from_block is_last_logical_block from to plain =
    let out = copied from to plain in
    if ltb (length out) (to - from)
    then (if is_last_logical_block then ok (fit (to - from) out) else err io_failure)
    else ok out

module _ {W : Type 0} (z : Zstd) (store : Store W) (ino : ℕ) (params : CodecParams) (enabled : Bool)
    (configured_cap probe_interval : ℕ) (now : ℕ → ℕ) (available : ℕ → Option ℕ) where
  -- `block_cache.insert`, with the clock and the probe at the time of this block.
  abbrev pub cache_block : ℕ → ℕ → Bytes → Inner → Inner
  cache_block tail_idx idx plain g =
      if ltb idx tail_idx
      then insert configured_cap probe_interval (now idx) (available idx) ino idx plain g
      else g

  -- A block that is not there is a hole, which is not cached.
  abbrev pub decode_found : ℕ → ℕ → Option StoredBlock → Exec Inner (Option Bytes)
  decode_found tail_idx idx none = pure none
  decode_found tail_idx idx (some b) =
      lift (decompress_block z b.bytes params.algo b.stored_verbatim params.dict) >>= λ decoded.
      modify (cache_block tail_idx idx decoded) >>= λ _. pure (some decoded)

  -- A miss of the cache.
  unfoldable pub fetch : ℕ → ℕ → W → Exec Inner (Option Bytes)
  fetch tail_idx idx w = lift (store.get_block w ino idx) >>= decode_found tail_idx idx

  unfoldable pub plain_block : ℕ → ℕ → W → Exec Inner (Option Bytes)
  plain_block tail_idx idx w g =
      let (hit, g') = get configured_cap ino idx g in
      elim hit [ some cached ↦ (ok (some cached), g') | none ↦ fetch tail_idx idx w g' ]

  abbrev pub from_found : Bool → ℕ → ℕ → Option Bytes → Exec Inner Bytes
  from_found is_last_logical_block from to none = pure (replicate (to - from) 0)
  from_found is_last_logical_block from to (some plain) =
      lift (from_block is_last_logical_block from to plain)

  abbrev pub read_between : Open W → ℕ → ℕ → ℕ → ℕ → ℕ → ℕ → ℕ → Exec Inner Bytes
  read_between s size cs offset end idx block_start block_end =
      let from = max offset block_start - block_start in
      let to = min end block_end - block_start in
      if leb (min end block_end) (max offset block_start)
      then pure []
      else elim (read_tail_block enabled idx s) [
        | some plain ↦ pure (from_tail from to plain)
        | none ↦
            plain_block ((size - 1) / cs) idx s.disk >>= from_found (leb size block_end) from to
      ]

  -- One round of the loop.
  unfoldable pub read_round : Open W → ℕ → ℕ → ℕ → ℕ → ℕ → Exec Inner Bytes
  read_round s size cs offset end idx =
      let block_start = mul64 idx cs in
      read_between s size cs offset end idx block_start (add64 block_start cs)

  -- `for idx in first..=last`, with the number of rounds.
  unfoldable pub read_blocks : Open W → ℕ → ℕ → ℕ → ℕ → ℕ → ℕ → Exec Inner Bytes
  read_blocks s size cs offset end zero idx = pure []
  read_blocks s size cs offset end (suc rounds) idx =
      read_round s size cs offset end idx >>= λ part.
      read_blocks s size cs offset end rounds (suc idx) >>= λ rest. pure (part ++ rest)

  unfoldable pub by_blocks : Open W → ℕ → ℕ → ℕ → ℕ → Exec Inner Bytes
  by_blocks s size cs offset end =
      let (first, last) = block_range offset (max (end - offset) 1) cs in
      read_blocks s size cs offset end (last + 1 - first) first

  -- The head cache, decompressed, where it covers what is asked for.
  abbrev pub head_covers : ℕ → ℕ → Bytes → Exec Inner Bytes → Exec Inner Bytes
  head_covers offset want plain otherwise =
      if leb (offset + want) (length plain) then pure (slice offset want plain) else otherwise

  abbrev pub from_head : Open W → ℕ → ℕ → ℕ → ℕ → Option (Bytes × Bool) → Exec Inner Bytes
  from_head s size cs offset end none = by_blocks s size cs offset end
  from_head s size cs offset end (some (bytes, verbatim)) =
      lift (decompress_block z bytes params.algo verbatim params.dict) >>= λ plain.
      head_covers offset (end - offset) plain (by_blocks s size cs offset end)

  unfoldable pub read_found : Open W → ℕ → ℕ → ℕ → ℕ → Exec Inner Bytes
  read_found s size cs offset end =
      lift (store.read_head_cache s.disk ino offset (end - offset))
      >>= from_head s size cs offset end

  -- The answer, and the cache after it.
  unfoldable pub read_range : (ErrorKind → Option ℕ) → Open W → ℕ → ℕ → Inner → Reply × Inner
  read_range raw_os_error s offset size g = elim (geometry_locked store enabled ino s) [
    | none ↦ (failed enoent, g)
    | some (file_size, cs) ↦
        if leb file_size offset || size == 0
        then (answer [], g)
        else (let (r, g') =
              read_found s file_size cs offset (min (add64 offset size) file_size) g in
            (reply raw_os_error r, g'))
  ]
