-- ===== src/Archive/Validate.antt =====
-- `validate_and_load_index` of crates/scrollz/src/archive/reader.rs: the checks that make a
-- superblock usable. `Ok(None)` rejects it, an error of the device is an `Err`.
-- `io::Result<Option<A>>` with its early `return Ok(None)`.
use fuse_scrollfs.Archive.{ChunkEntry, data_start, index_entry_len}
use fuse_scrollfs.Archive.Index.{parse_index}
use fuse_scrollfs.Archive.Journal.{replay_journal}
use fuse_scrollfs.Archive.Superblock.{SuperBlock}
use fuse_scrollfs.BlockIo.{BlockIo}
use fuse_scrollfs.Bytes.{Bytes, checked_add, checked_mul}
use fuse_scrollfs.Prelude.{
  Bool, List, Option, [], false, if◌then◌else◌, length, ltb, none, not, some, true, ℕ, ◌==◌, ◌||◌,
  ◌∷◌,
}
use fuse_scrollfs.Prelude.Result.{Result, err, ok}

abbrev pub Attempt {ℓ} : Type ℓ → Type ℓ
Attempt A = Result (Option A)

infixl 5 ◌>>=◌
abbrev pub ◌>>=◌ {ℓ κ} : {A : Type ℓ} {B : Type κ} → Attempt A → (A → Attempt B) → Attempt B
ok (some a) >>= f = f a
ok none >>= f = ok none
err e >>= f = err e

infixl 5 ◌>>◌
abbrev pub ◌>>◌ {ℓ} : {B : Type ℓ} → Attempt (Unit {0}) → Attempt B → Attempt B
m >> k = m >>= λ _. k

abbrev pub accept {ℓ} : {A : Type ℓ} → A → Attempt A
accept a = ok (some a)

abbrev pub reject_if : Bool → Attempt (Unit {0})
reject_if true = ok none
reject_if false = accept tt

-- `match e { Some(v) => v, None => return Ok(None) }`.
abbrev pub or_reject {ℓ} : {A : Type ℓ} → Option A → Attempt A
or_reject o = ok o

-- `e?`.
abbrev pub reading {ℓ} : {A : Type ℓ} → Result A → Attempt A
reading (ok a) = accept a
reading (err e) = err e

abbrev pub LoadedIndex : Type 0
LoadedIndex = List ChunkEntry × Option Bytes

-- The loop over the entries: each lies between `DATA_START` and the index.
unfoldable pub check_entries : ℕ → List ChunkEntry → Attempt (Unit {0})
check_entries data_end [] = accept tt
check_entries data_end (e ∷ index) =
    let rest = check_entries data_end index in
    or_reject (checked_add e.offset e.clen) >>= λ end.
    reject_if (ltb e.offset data_start || ltb data_end end) >> rest

module _ (crc32 : Bytes → ℕ) {W : Type 0} ⦃b : BlockIo W⦄ where
  -- The committed tail journal lies in the file and replays to its last byte.
  unfoldable pub load_tail_journal : W → SuperBlock → ℕ → Attempt (Option Bytes)
  load_tail_journal io sb total_len =
      if ltb 0 sb.tail_journal_len
      then (do
        jend ← or_reject (checked_add sb.tail_journal_offset sb.tail_journal_len)
        reject_if (ltb sb.tail_journal_offset data_start || ltb total_len jend)
        journal ← reading (b.read_at io sb.tail_journal_offset sb.tail_journal_len)
        let replay = replay_journal crc32 journal
        reject_if (not (replay.consumed == length journal))
        accept (some replay.plain))
      else accept none

  unfoldable pub validate_and_load_index : W → SuperBlock → ℕ → Attempt LoadedIndex
  validate_and_load_index io sb total_len = do
    reject_if (sb.chunk_size == 0)
    expect_len ← or_reject (checked_mul sb.chunk_count index_entry_len)
    reject_if (not (sb.index_len == expect_len) || ltb sb.index_offset data_start)
    index_end ← or_reject (checked_add sb.index_offset sb.index_len)
    reject_if (ltb total_len index_end)
    index_bytes ← reading (b.read_at io sb.index_offset sb.index_len)
    reject_if (not (crc32 index_bytes == sb.index_crc))
    let index = parse_index index_bytes sb.chunk_count
    check_entries sb.index_offset index
    tail_journal ← load_tail_journal io sb total_len
    accept (index, tail_journal)
