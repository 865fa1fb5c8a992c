-- ===== src/Archive/Updater.antt =====
-- crates/scrollz/src/archive/updater.rs: append-only updates of an archive, and the commit that
-- makes them visible by writing one of the two superblock slots. The debug assertions of `commit`
-- and `commit_journal` are hypotheses of the theorems that need them.
pub mod Commit
pub mod Open
pub mod Steps
use fuse_scrollfs.Archive.{ChunkEntry, HeadCache, flag_verbatim, sb_a_offset, sb_b_offset}
use fuse_scrollfs.Archive.Journal.{serialize_journal_record}
use fuse_scrollfs.BlockIo.{BlockIo}
use fuse_scrollfs.Bytes.{Bytes}
use fuse_scrollfs.Prelude.{
  Bool, List, Option, [], false, if◌then◌else◌, length, ltb, none, replicate, set, some, suc, take,
  true, zero, ℕ, ◌&&◌, ◌++◌, ◌+◌, ◌-◌, ◌==◌, ◌∷◌,
}
use fuse_scrollfs.Prelude.Exec.{Exec, gets, lift, modify, pure, ◌>>=◌, ◌>>◌}

pub record Updater (W : Type 0) : Type 0 where
  pub io : W
  pub chunk_size : ℕ
  pub index : List ChunkEntry
  pub uncompressed_size : ℕ
  pub write_cursor : ℕ
  pub head_cache : Option (Bytes × Bool × ℕ)
  pub active_seq : ℕ
  pub inactive_off : ℕ
  pub committed_index : ℕ × ℕ × ℕ
  pub committed_head_cache : Option HeadCache
  pub journal_offset : Option ℕ
  pub journal_len : ℕ
  pub index_dirty : Bool

-- `if off == SB_A_OFFSET { SB_B_OFFSET } else { SB_A_OFFSET }`.
abbrev pub other_slot : ℕ → ℕ
other_slot off = if off == sb_a_offset then sb_b_offset else sb_a_offset

abbrev pub unwrap_or {ℓ} : {A : Type ℓ} → Option A → A → A
unwrap_or none d = d
unwrap_or (some a) d = a

abbrev pub verbatim_flags : Bool → ℕ
verbatim_flags true = flag_verbatim
verbatim_flags false = 0

abbrev pub rawlen_of : Option (Bytes × Bool × ℕ) → Option HeadCache → ℕ
rawlen_of (some (bytes, verbatim, rawlen)) committed = rawlen
rawlen_of none (some hc) = hc.rawlen
rawlen_of none none = 0

-- `if idx == count { push } else { index[idx] = entry }`.
abbrev pub put_entry : List ChunkEntry → ℕ → ChunkEntry → List ChunkEntry
put_entry index idx e = if idx == length index then index ++ e ∷ [] else set index idx e

module _ {W : Type 0} where
  unfoldable pub flip_active : ℕ → Updater W → Updater W
  flip_active new_seq u = record u {
    active_seq = new_seq;
    inactive_off = other_slot u.inactive_off;
  }

  unfoldable pub reset_journal : Updater W → Updater W
  reset_journal u = record u { journal_offset = none; journal_len = 0 }

  unfoldable pub set_size : ℕ → Updater W → Updater W
  set_size new_size u = record u { uncompressed_size = new_size }

  unfoldable pub set_head_cache : Bytes → Bool → ℕ → Updater W → Updater W
  set_head_cache bytes verbatim raw_len u = record u {
    head_cache = some (bytes, verbatim, raw_len);
  }

  unfoldable pub clear_head_cache : Updater W → Updater W
  clear_head_cache u = record u { head_cache = none; committed_head_cache = none }

  unfoldable pub truncate : ℕ → ℕ → Updater W → Updater W
  truncate keep_from new_size u =
      let u' = record u {
        index = if ltb keep_from (length u.index) then take keep_from u.index else u.index;
        uncompressed_size = new_size;
        index_dirty = true;
      } in
      let rawlen = rawlen_of u.head_cache u.committed_head_cache in
      if ltb 0 rawlen && ltb new_size rawlen
      then record u' { head_cache = none; committed_head_cache = none }
      else u'

  -- The first record's place is where the journal begins.
  unfoldable pub start_journal : Updater W → Updater W
  start_journal u = elim u.journal_offset [
    | none ↦ record u { journal_offset = some u.write_cursor }
    | some off ↦ u
  ]

module _ {W : Type 0} ⦃b : BlockIo W⦄ where
  unfoldable pub io_write : ℕ → Bytes → Exec (Updater W) (Unit {0})
  io_write off bytes u = let (r, io) = b.write_at u.io off bytes in (r, record u { io = io })

  unfoldable pub io_sync : Exec (Updater W) (Unit {0})
  io_sync u = let (r, io) = b.sync u.io in (r, record u { io = io })

  -- `self.io.write_at(self.write_cursor, bytes)?; self.write_cursor += bytes.len()`.
  unfoldable pub append_bytes : Bytes → Exec (Updater W) (Unit {0})
  append_bytes bytes = do
    cursor ← gets (λ u. u.write_cursor)
    io_write cursor bytes
    modify (λ u. record u { write_cursor = cursor + length bytes })

  -- Before a record is added after a recovery: if bytes lie between the committed journal and the
  -- end of the file, the journal is first copied to the end.
  unfoldable pub relocate_journal : Option ℕ → Exec (Updater W) (Unit {0})
  relocate_journal none = pure tt
  relocate_journal (some joff) = do
    u ← gets (λ u. u)
    if u.write_cursor == joff + u.journal_len then pure tt else do
      committed ← lift (b.read_at u.io joff u.journal_len)
      append_bytes committed
      modify (λ v. record v { journal_offset = some u.write_cursor })

module _ (crc32 : Bytes → ℕ) {W : Type 0} ⦃b : BlockIo W⦄ where
  -- Zero blocks that fill the index up to the block to be set, one a round.
  unfoldable pub fill_gap : ℕ → Exec (Updater W) (Unit {0})
  fill_gap zero = pure tt
  fill_gap (suc n) = do
    offset ← gets (λ u. u.write_cursor)
    zeros ← gets (λ u. replicate u.chunk_size 0)
    append_bytes zeros
    modify (λ u. record u {
      index =
          u.index
          ++ record {
            offset = offset;
            clen = length zeros;
            flags = flag_verbatim;
            block_crc = crc32 zeros;
          }
            ∷ [];
    })
    fill_gap n

  unfoldable pub set_block : ℕ → Bytes → Bool → ℕ → Exec (Updater W) (Unit {0})
  set_block idx stored_bytes verbatim new_size = do
    missing ← gets (λ u. idx - length u.index)
    fill_gap missing
    offset ← gets (λ u. u.write_cursor)
    append_bytes stored_bytes
    modify (λ u. record u {
      index = put_entry u.index idx (record {
        offset = offset;
        clen = length stored_bytes;
        flags = verbatim_flags verbatim;
        block_crc = crc32 stored_bytes;
      });
      uncompressed_size = new_size;
      index_dirty = true;
    })

  unfoldable pub append_journal : Bytes → Exec (Updater W) (Unit {0})
  append_journal raw_delta = do
    joff ← gets (λ u. u.journal_offset)
    relocate_journal joff
    let rec = serialize_journal_record crc32 raw_delta
    modify start_journal
    append_bytes rec
    modify (λ u. record u { journal_len = u.journal_len + length rec })
