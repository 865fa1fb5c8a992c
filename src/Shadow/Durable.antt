-- ===== src/Shadow/Durable.antt =====
-- What fsync of crates/scrollz/src/store/shadow.rs promises: the blocks that a commit writes are what
-- readers saw of the session over the archive.
use Prim.Native.Nat.{bit_and}
use fuse_scrollfs.Archive.{ChunkEntry, IsCrc32, flag_verbatim, is_verbatim}
use fuse_scrollfs.Archive.Crash.{OldOrNew, Opens, Opens-Tracks, Tracks}
use fuse_scrollfs.Archive.Crash.Commit.{Committable, next_archive}
use fuse_scrollfs.Archive.Crash.ReadBack.{
  ReadsBack, checked, commit-ReadsBack, read_block-checked, reader_on,
}
use fuse_scrollfs.Archive.Crash.Seen.{Becomes, IsBlock, seen, seen_in, zero_block}
use fuse_scrollfs.Archive.Crash.SetBlock.{Placed}
use fuse_scrollfs.Archive.Crash.Staging.{staged}
use fuse_scrollfs.Archive.Reader.{ActiveArchive, ArchiveReader, read_block}
use fuse_scrollfs.Archive.Recovery.{EntriesIn}
use fuse_scrollfs.Archive.Updater.{Updater, verbatim_flags}
use fuse_scrollfs.Archive.Updater.Commit.{commit}
use fuse_scrollfs.BlockCache.{keyed_nat, keyed_pair}
use fuse_scrollfs.BlockIo.FaultIo.{FaultIo, crash_with_mask, fault_block_io}
use fuse_scrollfs.Bytes.{Bytes}
use fuse_scrollfs.Dict.{Distinct, find}
use fuse_scrollfs.Prelude.{
  ==_refl, Bool, Bool-cases, Option, Option-cases, ap, false, inl, inr, none, not, refl, some, sym,
  true, ℕ, ◌==◌, ◌∙◌, ◌≡◌, ◌⊎◌,
}
use fuse_scrollfs.Prelude.Exec.{Ensures, Ensures-mono, continue_with}
use fuse_scrollfs.Prelude.Result.{Result, err, invalid_data, ok, refuse_if, ◌>>=◌, ◌>>◌}
use fuse_scrollfs.Rmw.Cut.{cut}
use fuse_scrollfs.Shadow.Buffer.{WriteSession, is_cut, session_layer}
use fuse_scrollfs.Shadow.Commit.{commit_blocks, stage_blocks}
use fuse_scrollfs.Shadow.Merge.{layer-none, layer-some}
use fuse_scrollfs.Shadow.Read.{archived, block_or_tail, tail_of, through_layer}
use fuse_scrollfs.Shadow.Staged.{StagedBy, stage_blocks-StagedBy, uncut}
use fuse_scrollfs.Store.{StoredBlock}
use mathlib.Core.Path.{subst}

-- The block under a session, as `get_block` finds it.
abbrev pub under : WriteSession → ℕ → Result (Option StoredBlock) → Result (Option StoredBlock)
under s idx below = through_layer (session_layer idx (some s)) below

-- The same, or zeros where there was no block.
abbrev pub ReadsAs : ℕ → Result (Option StoredBlock) → Result (Option StoredBlock) → Type 0
ReadsAs chunk_size before after =
    (after ≡ before) ⊎ ((before ≡ ok none) × (after ≡ ok (some (zero_block chunk_size))))

is_verbatim-flags : (e : ChunkEntry) (v : Bool) → e.flags ≡ verbatim_flags v → is_verbatim e ≡ v
unfolding is_verbatim
is_verbatim-flags e v q =
    ap (λ f. not (bit_and f flag_verbatim == 0)) q
    ∙ (elim v as (λ b. not (bit_and (verbatim_flags b) flag_verbatim == 0) ≡ b) [
      | true ↦ refl
      | false ↦ refl
    ])

module _ (crc32 : Bytes → ℕ) where
  -- What `get_block` makes of an entry and its bytes.
  abbrev shown : Option (Bytes × ChunkEntry) → Result (Option StoredBlock)
  shown none = ok none
  shown (some (buf, e)) =
      refuse_if (not (crc32 buf == e.block_crc)) invalid_data
      >> ok (some (record { bytes = buf; stored_verbatim = is_verbatim e }))

  found_of :
      (r : ArchiveReader FaultIo) (idx : ℕ) (refused : Bool) (buf : Bytes) (e : ChunkEntry)
      → ((refuse_if refused invalid_data >> ok (some (buf, e))) >>= block_or_tail crc32 r idx) ≡ (
          refuse_if refused invalid_data
          >> ok (some (record { bytes = buf; stored_verbatim = is_verbatim e })))
  found_of r idx true buf e = refl
  found_of r idx false buf e = refl

  archived-shown :
      (r : ArchiveReader FaultIo) (idx : ℕ) (o : Option (Bytes × ChunkEntry))
      → r.tail_journal ≡ none
      → read_block crc32 r idx ≡ checked crc32 o
      → archived crc32 idx (some r) ≡ shown o
  archived-shown r idx none t h =
      ap (λ x. x >>= block_or_tail crc32 r idx) h ∙ ap (λ j. ok (tail_of crc32 r idx j)) t
  archived-shown r idx (some (buf, e)) t h =
      ap (λ x. x >>= block_or_tail crc32 r idx) h
      ∙ found_of r idx (not (crc32 buf == e.block_crc)) buf e

  shown-IsBlock :
      (blk : StoredBlock) (o : Option (Bytes × ChunkEntry))
      → IsBlock crc32 blk o
      → shown o ≡ ok (some blk)
  shown-IsBlock blk o (e, f, g, h) =
      let accepted : not (crc32 blk.bytes == e.block_crc) ≡ false =
        ap (λ c. not (crc32 blk.bytes == c)) g ∙ rw (==_refl (crc32 blk.bytes)) refl in
      ap shown f
      ∙ ap
          (λ t.
            refuse_if t invalid_data
            >> ok (some (record { bytes = blk.bytes; stored_verbatim = is_verbatim e })))
          accepted
      ∙ ap (λ v. ok (some (record { bytes = blk.bytes; stored_verbatim = v })))
          (is_verbatim-flags e blk.stored_verbatim h)

  shown-Becomes :
      (chunk_size : ℕ) (x y : Option (Bytes × ChunkEntry))
      → Becomes crc32 chunk_size none x y
      → ReadsAs chunk_size (shown x) (shown y)
  shown-Becomes chunk_size x y (inl e) = inl (ap shown e)
  shown-Becomes chunk_size x y (inr (n, b)) =
      inr (ap shown n, shown-IsBlock (zero_block chunk_size) y b)

  under-Becomes :
      (chunk_size : ℕ) (s : WriteSession) (idx : ℕ) (x y : Option (Bytes × ChunkEntry))
      → Becomes crc32 chunk_size (find idx s.dirty) (uncut s.truncate_to idx x) y
      → ReadsAs chunk_size (under s idx (shown x)) (shown y)
  under-Becomes chunk_size s idx x y h = elim (Option-cases (find idx s.dirty)) [
    | inr (blk, q) ↦
        let b = subst (λ o. Becomes crc32 chunk_size o (uncut s.truncate_to idx x) y) q h in
        inl (
          shown-IsBlock blk y b
          ∙ sym (ap (λ l. through_layer l (shown x)) (layer-some idx s blk q)))
    | inl q ↦
        let b = subst (λ o. Becomes crc32 chunk_size o (uncut s.truncate_to idx x) y) q h in
        let l = ap (λ l. through_layer l (shown x)) (layer-none idx s q) in
        elim (Bool-cases (is_cut s.truncate_to idx)) [
          | inl cut ↦
              subst (λ r. ReadsAs chunk_size r (shown y)) (sym (l ∙ rw cut refl))
                (shown-Becomes chunk_size none y (rw cut at b))
          | inr kept ↦
              subst (λ r. ReadsAs chunk_size r (shown y)) (sym (l ∙ rw kept refl))
                (shown-Becomes chunk_size x y (rw kept at b))
        ]
  ]

-- The updater is open on the archive, which has no journal, and every byte before the cursor is
-- written.
pub record IsOpen (crc32 : Bytes → ℕ) (u : Updater FaultIo) (reach : ℕ) (a : ActiveArchive)
    : Type 0 where
  pub placed : Placed crc32 reach a u.chunk_size u
  pub index : u.index ≡ a.index
  pub no_journal : a.tail_journal ≡ none

module _ (crc32 : Bytes → ℕ) (u32 : IsCrc32 crc32) (s : WriteSession) (u : Updater FaultIo)
    (a : ActiveArchive) where
  -- Whatever a crash keeps, the archive of `w` opens, and a block reads as the session's over the
  -- archive before.
  pub record Durable (w v : Updater FaultIo) : Type 0 where
    pub opens : (mask : ℕ) → Opens crc32 v.io mask (next_archive crc32 w)
    pub reads :
        (mask idx : ℕ)
        → ReadsAs u.chunk_size (under s idx (archived crc32 idx (some (reader_on (staged u) a)))) (
            archived crc32 idx
              (some (reader_on (crash_with_mask v.io mask) (next_archive crc32 w))))

  archived_before :
      (reach idx : ℕ)
      → IsOpen crc32 u reach a
      → archived crc32 idx (some (reader_on (staged u) a)) ≡ shown crc32 (seen u idx)
  archived_before reach idx o =
      archived-shown crc32 (reader_on (staged u) a) idx (seen u idx) o.no_journal (
        read_block-checked crc32 (staged u) u.write_cursor a idx
          (subst (EntriesIn u.write_cursor) o.index o.placed.blocks.entries) o.placed.long
        ∙ ap (λ index. checked crc32 (seen_in (staged u) index idx)) (sym o.index))

  committed-Durable :
      (reach : ℕ) (w v : Updater FaultIo)
      → IsOpen crc32 u reach a
      → StagedBy crc32 reach a u.chunk_size s u w
      → ReadsBack crc32 u32 w v
      → Durable w v
  committed-Durable reach w v o g k = record {
    opens = k.opens;
    reads = λ mask idx.
        let img = crash_with_mask v.io mask in
        let r = reader_on img (next_archive crc32 w) in
        let after = archived-shown crc32 r idx (seen w idx) refl (k.read mask idx) in
        subst (λ x. ReadsAs u.chunk_size (under s idx x) (archived crc32 idx (some r)))
          (sym (archived_before reach idx o))
          (subst (ReadsAs u.chunk_size (under s idx (shown crc32 (seen u idx)))) (sym after)
            (under-Becomes crc32 u.chunk_size s idx (seen u idx) (seen w idx) (g.becomes idx)));
  }

  after_stage :
      (reach : ℕ) (r : Result (Unit {0}) × Updater FaultIo)
      → IsOpen crc32 u reach a
      → Ensures (λ _ w. StagedBy crc32 reach a u.chunk_size s u w) (λ w. Tracks crc32 w reach a) r
      → Committable r.1
      → Ensures
          (λ _ v. Durable r.1 v)
          (OldOrNew crc32 a (next_archive crc32 r.1))
          (continue_with (λ _. commit crc32) r)
  after_stage reach (ok x, w) o g c =
      Ensures-mono (λ _ v. ReadsBack crc32 u32 w v) (λ _ v. Durable w v)
        (OldOrNew crc32 a (next_archive crc32 w)) (commit crc32 w)
        (λ _ v k. committed-Durable reach w v o g k)
        (commit-ReadsBack crc32 u32 w reach a g.placed.blocks.tracks g.placed.long c)
  after_stage reach (err e, w) o t c = λ mask. inl (Opens-Tracks crc32 w reach a t mask)

  -- On a device whose writes and barriers may fail but are not torn or softened, from an updater
  -- that is open on an archive without a journal, whose blocks lie between the header and the
  -- cursor with all bytes before the cursor written, for a session in which no block stands
  -- twice, if the fields of what it stages fit their widths: commit_blocks either succeeds, and
  -- then every crash leaves an archive that opens and in which every block reads as through the
  -- session over the old archive, or as zeros where there it was not found; or it fails, and then
  -- every crash leaves the old archive or the new one.
  pub commit_blocks-Durable :
      (reach : ℕ)
      → IsOpen crc32 u reach a
      → Distinct s.dirty
      → Committable (stage_blocks crc32 s u).1
      → Ensures
          (λ _ v. Durable (stage_blocks crc32 s u).1 v)
          (OldOrNew crc32 a (next_archive crc32 (stage_blocks crc32 s u).1))
          (commit_blocks crc32 s u)
  unfolding commit_blocks
  commit_blocks-Durable reach o d c =
      after_stage reach (stage_blocks crc32 s u) o
        (stage_blocks-StagedBy crc32 reach a u.chunk_size s u d o.placed) c
