-- ===== src/Archive/Crash/Commit.antt =====
-- `commit` of crates/scrollz/src/archive/updater.rs against a crash at any of its steps.
use fuse_scrollfs.Archive.{IsCrc32, data_start}
use fuse_scrollfs.Archive.Crash.{OldOrNew, Opens, Opens-Tracks, Tracks}
use fuse_scrollfs.Archive.Crash.Blocks.{EntriesIn-mono}
use fuse_scrollfs.Archive.Crash.Slot.{Ready, archive_at, write_superblock-bind}
use fuse_scrollfs.Archive.Crash.Staging.{
  Committed-Tracks, Ready-sync, Tracks-Unchanged, Tracks-Wrote, append_head_cache-bind, cached_at,
  cached_len,
}
use fuse_scrollfs.Archive.Index.{
  EntriesFit, length-serialize_index, parse-serialize_index, parse_index, serialize_index,
}
use fuse_scrollfs.Archive.Reader.{ActiveArchive}
use fuse_scrollfs.Archive.Recovery.{EntriesIn, Usable}
use fuse_scrollfs.Archive.Superblock.{SuperBlock}
use fuse_scrollfs.Archive.Superblock.RoundTrip.{FitsWidths, HeadFits}
use fuse_scrollfs.Archive.Updater.{Updater, flip_active}
use fuse_scrollfs.Archive.Updater.Commit.{commit, commit_from, superblock_of, write_superblock}
use fuse_scrollfs.Archive.Updater.Steps.{append_bytes-bind, io_sync-bind}
use fuse_scrollfs.BlockIo.FaultIo.{FaultIo, apply, apply_all, fault_block_io}
use fuse_scrollfs.BlockIo.FaultIo.Apply.{length-apply, slice-apply_self}
use fuse_scrollfs.BlockIo.FaultIo.Crash.{Synced, Wrote, apply_all-append}
use fuse_scrollfs.Bytes.{Bytes, u32_mod, u64_mod}
use fuse_scrollfs.Prelude.{
  ap, arith, false, inl, length, none, refl, sym, ℕ, ◌+◌, ◌<◌, ◌∙◌, ◌≡◌, ◌≤◌,
}
use fuse_scrollfs.Prelude.Exec.{Ensures, modify, ◌>>=◌}
use mathlib.Core.Path.{subst}
use native.Mathlib.Nat.{le_trans}

abbrev pub next_reach : Updater FaultIo → ℕ
next_reach u = u.write_cursor + cached_len u.head_cache + length (serialize_index u.index)

module _ (crc32 : Bytes → ℕ) where
  -- The superblock that a commit writes: the head cache lies at the end of what was written before,
  -- the index behind it.
  abbrev pub next_superblock : Updater FaultIo → SuperBlock
  next_superblock u =
      superblock_of u
        (
          u.write_cursor + cached_len u.head_cache,
          length (serialize_index u.index),
          crc32 (serialize_index u.index),
        )
        (cached_at u.write_cursor u.head_cache)

  abbrev pub next_archive : Updater FaultIo → ActiveArchive
  next_archive u = archive_at u.inactive_off (next_superblock u) u.index none

-- What the fields of the updater are to a commit: they fit their widths, the blocks lie behind the
-- header, and there is no journal.
pub record Committable (u : Updater FaultIo) : Type 0 where
  pub no_journal : u.journal_offset ≡ none
  pub no_journal_len : u.journal_len ≡ 0
  pub seq : u.active_seq + 1 < u64_mod
  pub chunk_size : 0 < u.chunk_size
  pub chunk_size-lt : u.chunk_size < u32_mod
  pub size : u.uncompressed_size < u64_mod
  pub entries_fit : EntriesFit u.index
  pub entries_in : EntriesIn u.write_cursor u.index
  pub room : next_reach u < u64_mod
  pub cached : HeadFits (cached_at u.write_cursor u.head_cache)

module _ (crc32 : Bytes → ℕ) (u32 : IsCrc32 crc32) where
  next_superblock-FitsWidths :
      (u : Updater FaultIo) → Committable u → FitsWidths (next_superblock crc32 u)
  next_superblock-FitsWidths u c = record {
    seq = c.seq;
    chunk_size = c.chunk_size-lt;
    uncompressed_size = c.size;
    chunk_count = omega (arith, c.room, length-serialize_index u.index);
    index_offset = omega (arith, c.room);
    index_len = omega (arith, c.room);
    index_crc = u32.is_u32 (serialize_index u.index);
    tail_journal_offset = rw c.no_journal (omega arith);
    tail_journal_len = omega (arith, c.no_journal_len);
    head_cache = c.cached;
  }

  -- With the index written behind the head cache, the new superblock is usable.
  next_superblock-Usable :
      (u : Updater FaultIo) (img : Bytes)
      → Committable u
      → data_start ≤ u.write_cursor
      → Usable crc32
          (apply img (u.write_cursor + cached_len u.head_cache) (serialize_index u.index))
          (next_reach u)
          (next_superblock crc32 u)
          u.index
          none
  next_superblock-Usable u img c s =
      let off = u.write_cursor + cached_len u.head_cache in
      let e = slice-apply_self img off (serialize_index u.index) in
      record {
        chunk_size = c.chunk_size;
        count = omega (arith, c.room, length-serialize_index u.index);
        index_len = omega (arith, length-serialize_index u.index);
        index_start = omega (arith, s);
        index_end = omega arith;
        reach-lt = c.room;
        index_crc = ap crc32 e;
        parsed =
            ap (λ b. parse_index b (length u.index)) e
            ∙ parse-serialize_index u.index c.entries_fit;
        entries = EntriesIn-mono u.write_cursor off u.index (omega arith) c.entries_in;
        journal = c.no_journal_len;
      }

  -- The state after the head cache was written.
  abbrev cached_state : Updater FaultIo → FaultIo → Updater FaultIo
  cached_state u io = record u { io = io; write_cursor = u.write_cursor + cached_len u.head_cache }

  abbrev indexed_state : Updater FaultIo → FaultIo → Updater FaultIo
  indexed_state u io = record u { io = io; write_cursor = next_reach u }

  -- What a commit ends with.
  abbrev pub CommitDone : Updater FaultIo → Updater FaultIo → Type 0
  CommitDone u v =
      Tracks crc32 v (next_reach u) (next_archive crc32 u)
      × ((mask : ℕ) → Opens crc32 v.io mask (next_archive crc32 u))

  -- The updater's fields after a commit.
  abbrev commit_fields : Updater FaultIo → Updater FaultIo → Updater FaultIo
  commit_fields u v = flip_active (u.active_seq + 1) (record v {
    committed_index = (
      u.write_cursor + cached_len u.head_cache,
      length (serialize_index u.index),
      crc32 (serialize_index u.index),
    );
    committed_head_cache = cached_at u.write_cursor u.head_cache;
    index_dirty = false;
  })

  -- The slot and the barrier that makes it durable, and the updater's own record of it.
  commit_slot :
      (u : Updater FaultIo) (reach : ℕ) (a : ActiveArchive) (io : FaultIo)
      → Ready crc32 io u.inactive_off reach (next_reach u) a (next_superblock crc32 u) u.index none
      → Ensures
          (λ _ v. CommitDone u v)
          (OldOrNew crc32 a (next_archive crc32 u))
          ((write_superblock crc32 (next_superblock crc32 u) >>= λ _. modify (commit_fields u))
            (indexed_state u io))
  unfolding flip_active
  commit_slot u reach a io r =
      write_superblock-bind crc32 u32 (λ _ v. CommitDone u v) (indexed_state u io) reach
        (next_reach u) a (next_superblock crc32 u) u.index none (λ _. modify (commit_fields u)) r
        (λ io' d.
          let v = commit_fields u (indexed_state u io') in
          let t =
            Committed-Tracks crc32 v (next_reach u) (next_archive crc32 u) d (omega arith) refl
              refl in
          (t, Opens-Tracks crc32 v (next_reach u) (next_archive crc32 u) t))

  -- The barrier before the slot.
  commit-Synced :
      (u : Updater FaultIo) (reach : ℕ) (a : ActiveArchive) (io io' : FaultIo)
      → Committable u
      → Tracks crc32 (cached_state u io) reach a
      → Wrote io (u.write_cursor + cached_len u.head_cache) (serialize_index u.index) io'
      → data_start ≤ reach
      → reach ≤ u.write_cursor
      → (io'' : FaultIo) → Synced io' io''
      → Ready crc32 io'' u.inactive_off reach
          (next_reach u)
          a
          (next_superblock crc32 u)
          u.index
          none
  commit-Synced u reach a io io' c t w start before io'' s =
      let off = u.write_cursor + cached_len u.head_cache in
      let t' = Tracks-Wrote crc32 (cached_state u io) reach a (serialize_index u.index) io' t w in
      let e : apply_all io'.durable io'.dirty
          ≡ apply (apply_all io.durable io.dirty) off (serialize_index u.index) =
        ap (λ d. apply_all d io'.dirty) w.durable
        ∙ ap (apply_all io.durable) w.dirty
        ∙ apply_all-append io.durable io.dirty
            (record { off = off; bytes = serialize_index u.index }) in
      Ready-sync crc32 (indexed_state u io') reach (next_reach u) a (next_superblock crc32 u)
        u.index none io'' t' s (next_superblock-FitsWidths u c) refl (omega (arith, start, before))
        (subst (λ d. next_reach u ≤ length d) (sym e)
          (omega
            (arith, length-apply (apply_all io.durable io.dirty) off (serialize_index u.index))))
        (subst (λ d. Usable crc32 d (next_reach u) (next_superblock crc32 u) u.index none) (sym e)
          (next_superblock-Usable u (apply_all io.durable io.dirty) c (le_trans start before)))

  -- From the index on.
  commit_index :
      (u : Updater FaultIo) (reach : ℕ) (a : ActiveArchive) (io : FaultIo)
      → Committable u
      → data_start ≤ reach
      → reach ≤ u.write_cursor
      → Tracks crc32 (cached_state u io) reach a
      → Ensures
          (λ _ v. CommitDone u v)
          (OldOrNew crc32 a (next_archive crc32 u))
          (commit_from crc32 (cached_at u.write_cursor u.head_cache) (cached_state u io))
  unfolding commit_from
  commit_index u reach a io c start before t =
      let R : Unit {0} → Updater FaultIo → Type 0 = λ _ v. CommitDone u v in
      let E = OldOrNew crc32 a (next_archive crc32 u) in
      append_bytes-bind R E (cached_state u io) (serialize_index u.index) _ t.honest
        (λ io' w.
          io_sync-bind R E (indexed_state u io') _ w.honest
            (λ io'' s.
              commit_slot u reach a io'' (commit-Synced u reach a io io' c t w start before io'' s))
            (λ io'' n mask. inl (
              Opens-Tracks crc32 (indexed_state u io'') reach a
                (Tracks-Unchanged crc32 (indexed_state u io') reach a io''
                  (Tracks-Wrote crc32 (cached_state u io) reach a (serialize_index u.index) io' t w)
                  n)
                mask)))
        (λ io' n mask. inl (
          Opens-Tracks crc32 (cached_state u io') reach a
            (Tracks-Unchanged crc32 (cached_state u io) reach a io' t n) mask))

  -- From an updater that tracks a committed archive, with no journal, with fields that fit their
  -- widths and blocks that lie between the header and the cursor, on a device whose writes and
  -- barriers may fail but are not torn or softened, commit either succeeds and then every crash
  -- leaves the new archive, or fails and then every crash leaves the old archive or the new one.
  pub commit-atomic :
      (u : Updater FaultIo) (reach : ℕ) (a : ActiveArchive)
      → Tracks crc32 u reach a
      → Committable u
      → Ensures (λ _ v. CommitDone u v) (OldOrNew crc32 a (next_archive crc32 u)) (commit crc32 u)
  unfolding commit
  commit-atomic u reach a t c =
      append_head_cache-bind crc32 (λ _ v. CommitDone u v) (OldOrNew crc32 a (next_archive crc32 u))
        u reach a u.head_cache (commit_from crc32) t
        (λ io t'. commit_index u reach a io c t.holds.start t.cursor t')
        (λ io t' mask. inl (Opens-Tracks crc32 (record u { io = io }) reach a t' mask))
