-- ===== src/BlockIo/FaultIo.antt =====
-- `FaultIo` of crates/scrollz/src/blockio.rs, the simulator of crashes and injected errors: bytes
-- that a barrier has made durable, and the writes since then, any part of which a crash may keep.
pub mod Apply
pub mod Crash
use fuse_scrollfs.BlockIo.{BlockIo}
use fuse_scrollfs.Bytes.{Bytes, slice, splice}
use fuse_scrollfs.Prelude.{
  Bool, List, Option, [], false, if◌then◌else◌, length, ltb, max, min, none, replicate, some, take,
  ℕ, ◌%◌, ◌&&◌, ◌++◌, ◌+◌, ◌-◌, ◌/◌, ◌==◌, ◌^◌, ◌∷◌,
}
use fuse_scrollfs.Prelude.Result.{Result, err, io_failure, ok, unexpected_eof}

pub record PendingWrite : Type 0 where
  pub off : ℕ
  pub bytes : Bytes

pub record FaultIo : Type 0 where
  pub durable : Bytes
  pub dirty : List PendingWrite
  pub fail_write : Option (ℕ × ℕ)
  pub fail_sync_at : Option ℕ
  pub tear_write : Option (ℕ × ℕ × ℕ)
  pub sync_calls : ℕ
  pub soft_syncs : ℕ
  pub history : List Bytes

-- `buf.resize(n, 0)` where it grows.
abbrev pub pad_to : Bytes → ℕ → Bytes
pad_to buf n = buf ++ replicate (n - length buf) 0

-- A write past the end fills the gap with zeros.
unfoldable pub apply : Bytes → ℕ → Bytes → Bytes
apply buf off bytes = splice (pad_to buf (off + length bytes)) off bytes

unfoldable pub apply_all : Bytes → List PendingWrite → Bytes
apply_all buf [] = buf
apply_all buf (w ∷ ws) = apply_all (apply buf w.off w.bytes) ws

unfoldable pub from_bytes : Bytes → FaultIo
from_bytes initial = record {
  durable = initial;
  dirty = [];
  fail_write = none;
  fail_sync_at = none;
  tear_write = none;
  sync_calls = 0;
  soft_syncs = 0;
  history = initial ∷ [];
}

unfoldable pub fail_write_in : FaultIo → ℕ → ℕ → FaultIo
fail_write_in st lo hi = record st { fail_write = some (lo, hi) }

unfoldable pub fail_sync_in : FaultIo → ℕ → FaultIo
fail_sync_in st nth_from_now = record st { fail_sync_at = some (st.sync_calls + nth_from_now) }

unfoldable pub tear_write_in : FaultIo → ℕ → ℕ → ℕ → FaultIo
tear_write_in st lo hi prefix = record st { tear_write = some (lo, hi, prefix) }

unfoldable pub soften_syncs : FaultIo → ℕ → FaultIo
soften_syncs st count = record st { soft_syncs = count }

-- `mask & (1u64 << i) != 0`.
abbrev pub bit_set : ℕ → ℕ → Bool
bit_set mask i = (mask / 2 ^ (i % 64)) % 2 == 1

-- The writes from number `i` on that the mask keeps, applied in the order of writing.
unfoldable pub apply_masked : ℕ → ℕ → Bytes → List PendingWrite → Bytes
apply_masked mask i img [] = img
apply_masked mask i img (w ∷ ws) =
    apply_masked mask (i + 1) (if bit_set mask i then apply img w.off w.bytes else img) ws

unfoldable pub crash_with_mask : FaultIo → ℕ → Bytes
unfolding apply_masked
crash_with_mask st mask = apply_masked mask 0 st.durable st.dirty

-- `off < hi && lo < end`, for an armed interval.
abbrev pub hits : Option (ℕ × ℕ) → ℕ → ℕ → Bool
hits none off end = false
hits (some (lo, hi)) off end = ltb off hi && ltb lo end

abbrev pub push : FaultIo → ℕ → Bytes → FaultIo
push st off bytes = record st { dirty = st.dirty ++ record { off = off; bytes = bytes } ∷ [] }

-- The second half of `write_at`: the injected EIO, or the write to the dirty layer.
unfoldable pub write_or_fail : FaultIo → ℕ → Bytes → Result (Unit {0}) × FaultIo
write_or_fail st off buf =
    if hits st.fail_write off (off + length buf)
    then (err io_failure, record st { fail_write = none })
    else (ok tt, push st off buf)

-- The first half: a torn write keeps `prefix` bytes and reports success.
unfoldable pub write_torn : Option (ℕ × ℕ × ℕ) → FaultIo → ℕ → Bytes → Result (Unit {0}) × FaultIo
unfolding write_or_fail
write_torn none st off buf = write_or_fail st off buf
write_torn (some (lo, hi, prefix)) st off buf =
    if ltb off hi && ltb lo (off + length buf)
    then (let st' = record st { tear_write = none } in
        let k = min prefix (length buf) in
        (ok tt, if ltb 0 k then push st' off (take k buf) else st'))
    else write_or_fail st off buf

unfoldable pub write_at : FaultIo → ℕ → Bytes → Result (Unit {0}) × FaultIo
unfolding write_torn
write_at st off buf = write_torn st.tear_write st off buf

-- What the process sees: the durable bytes under all its writes.
unfoldable pub view : FaultIo → Bytes
unfolding apply_all
view st = apply_all st.durable st.dirty

unfoldable pub read_at : FaultIo → ℕ → ℕ → Result Bytes
unfolding view
read_at st off n =
    if ltb (length (view st)) (off + n) then err unexpected_eof else ok (slice off n (view st))

abbrev pub sync_fails : Option ℕ → ℕ → Bool
sync_fails none calls = false
sync_fails (some at) calls = at == calls

unfoldable pub sync : FaultIo → Result (Unit {0}) × FaultIo
unfolding apply_all
sync st =
    let st' = record st { sync_calls = st.sync_calls + 1 } in
    if ltb 0 st.soft_syncs
    then (ok tt, record st' { soft_syncs = st.soft_syncs - 1 })
    else if sync_fails st.fail_sync_at (st.sync_calls + 1)
    then (err io_failure, record st' { fail_sync_at = none })
    else (let durable = apply_all st.durable st.dirty in
        (ok tt, record st' { durable = durable; dirty = []; history = st.history ++ durable ∷ [] }))

unfoldable pub dirty_end : ℕ → List PendingWrite → ℕ
dirty_end n [] = n
dirty_end n (w ∷ ws) = dirty_end (max n (w.off + length w.bytes)) ws

unfoldable pub len : FaultIo → Result ℕ
unfolding dirty_end
len st = ok (dirty_end (length st.durable) st.dirty)

-- `Vec::resize`.
abbrev pub resize : Bytes → ℕ → Bytes
resize bs n = take n (pad_to bs n)

unfoldable pub set_len : FaultIo → ℕ → Result (Unit {0}) × FaultIo
set_len st n = (ok tt, record st { durable = resize st.durable n })

instance unfoldable pub fault_block_io : BlockIo FaultIo
unfolding write_at read_at sync len set_len
fault_block_io = record {
  write_at = write_at;
  read_at = read_at;
  sync = sync;
  len = len;
  set_len = set_len;
}
