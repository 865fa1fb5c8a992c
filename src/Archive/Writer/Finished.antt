-- ===== src/Archive/Writer/Finished.antt =====
-- What crates/scrollz/src/archive/writer.rs finishes is an archive that opens with its blocks.
use fuse_scrollfs.Archive.{
  ChunkEntry, HeadCache, IsCrc32, data_start, magic, sb_a_offset, sb_b_offset, sb_len, version,
}
use fuse_scrollfs.Archive.Crash.Blocks.{EntriesIn-mono}
use fuse_scrollfs.Archive.Crash.Slot.{archive_at}
use fuse_scrollfs.Archive.Index.{
  length-serialize_index, parse-serialize_index, parse_index, serialize_index,
}
use fuse_scrollfs.Archive.Reader.{ActiveArchive, load_active}
use fuse_scrollfs.Archive.Recovery.{EntriesIn, Holds, Loses}
use fuse_scrollfs.Archive.Recovery.Opens.{load_active-Holds}
use fuse_scrollfs.Archive.Superblock.{SuperBlock, parse_superblock, serialize_superblock}
use fuse_scrollfs.Archive.Superblock.RoundTrip.{
  FitsWidths, HeadFits, length-serialize_superblock, parse-serialize_superblock,
}
use fuse_scrollfs.Archive.Writer.{
  ArchiveWriter, finish_index, first_superblock, write_head, write_superblock_slot,
}
use fuse_scrollfs.Archive.Writer.Appends.{Stored-more}
use fuse_scrollfs.Archive.Writer.Layout.{Block, Stored, Wrote, slice_part, splice_end, splice_part}
use fuse_scrollfs.BlockIo.FaultIo.{fault_block_io, from_bytes}
use fuse_scrollfs.Bytes.{Bytes, slice, splice, to_le, u32_mod, u64_mod}
use fuse_scrollfs.Prelude.{
  Bool, List, Option, [], ap, append-nil, append_assoc, arith, drop-append_right, inl, inr, length,
  length-append, none, refl, replicate, some, sym, take, ℕ, ◌++◌, ◌+◌, ◌-◌, ◌<◌, ◌∙◌, ◌∷◌, ◌≡◌,
}
use fuse_scrollfs.Prelude.Result.{ok}
use mathlib.Core.Path.{subst}

abbrev pub header : Bytes
header = magic ++ to_le 4 version

abbrev pub blank_slot : Bytes
blank_slot = replicate sb_len 0

abbrev pub start_bytes : Bytes
start_bytes = header ++ blank_slot ++ blank_slot

module _ (crc32 : Bytes → ℕ) where
  -- Two prefixes of one length, behind which the blocks stand.
  Stored-prefix :
      (p q body : Bytes) (index : List ChunkEntry) (blocks : List Block) (end : ℕ)
      → length p ≡ data_start
      → length q ≡ data_start
      → EntriesIn end index
      → Stored crc32 (p ++ body) index blocks
      → Stored crc32 (q ++ body) index blocks
  Stored-prefix p q body [] [] end e f i h = tt
  Stored-prefix p q body (x ∷ index) ((bytes, verbatim, raw_len) ∷ blocks) end e f i h =
      let m = x.offset - data_start in
      let left = drop-append_right x.offset m p body (omega (arith, e, i.0)) in
      let right = drop-append_right x.offset m q body (omega (arith, f, i.0)) in
      (
        ap (take x.clen) (right ∙ sym left) ∙ h.0,
        h.1,
        h.2,
        Stored-prefix p q body index blocks end e f i.2 h.3,
      )
  Stored-prefix p q body [] (b ∷ blocks) end e f i h = absurd h
  Stored-prefix p q body (x ∷ index) [] end e f i h = absurd h

  pub write_head-Wrote :
      (o : Option (Bytes × Bool × ℕ)) (w : ArchiveWriter) (blocks : List Block)
      → Wrote crc32 start_bytes w blocks
      → Wrote crc32 start_bytes (write_head o w).0 blocks
  write_head-Wrote none w blocks h = h
  write_head-Wrote (some (bytes, verbatim, raw_len)) w blocks h =
      let end = splice_end w.inner.out bytes w.inner.pos h.at_end in
      let n : length (splice w.inner.out w.inner.pos bytes) ≡ length w.inner.out + length bytes =
        ap length end ∙ length-append w.inner.out bytes in
      record {
        body = h.body ++ bytes;
        out = end ∙ ap (λ x. x ++ bytes) h.out ∙ append_assoc start_bytes h.body bytes;
        at_end = omega (arith, n, h.at_end);
        cursor = omega (arith, n, h.cursor);
        entries = EntriesIn-mono w.cursor (w.cursor + length bytes) w.index (omega arith) h.entries;
        fit = λ b. h.fit (omega (arith, b));
        stored =
            subst (λ x. Stored crc32 x w.index blocks) (sym end)
              (Stored-more crc32 w.inner.out bytes w.index blocks
                (subst (λ m. EntriesIn m w.index) h.cursor h.entries) h.stored);
      }

  module _ (u32 : IsCrc32 crc32) (w : ArchiveWriter) (blocks : List Block) (head : Option HeadCache)
      (h : Wrote crc32 start_bytes w blocks) where
    sb : SuperBlock
    sb = first_superblock crc32 w head

    slot : Bytes
    slot = serialize_superblock crc32 sb

    index_bytes : Bytes
    index_bytes = serialize_index w.index

    image : Bytes
    image = header ++ slot ++ slot ++ (h.body ++ index_bytes)

    -- The slots are written over the zeros.
    finish_index-image : finish_index crc32 w head ≡ image
    unfolding image slot sb index_bytes write_superblock_slot
    finish_index-image =
        let n = length-serialize_superblock crc32 sb in
        let all = ap (λ x. splice x w.inner.pos index_bytes) h.out in
        let out : splice w.inner.out w.inner.pos index_bytes
            ≡ header ++ blank_slot ++ (blank_slot ++ (h.body ++ index_bytes)) =
          splice_end w.inner.out index_bytes w.inner.pos h.at_end
          ∙ ap (λ x. x ++ index_bytes) h.out
          ∙ append_assoc start_bytes h.body index_bytes
          ∙ append_assoc (header ++ blank_slot) blank_slot (h.body ++ index_bytes) in
        ap (λ x. splice (splice x sb_a_offset slot) sb_b_offset slot) out
        ∙ ap (λ x. splice x sb_b_offset slot)
            (splice_part header blank_slot slot (blank_slot ++ (h.body ++ index_bytes)) sb_a_offset
                refl n
              ∙ sym (append_assoc (header ++ slot) blank_slot (h.body ++ index_bytes)))
        ∙ splice_part (header ++ slot) blank_slot slot (h.body ++ index_bytes) sb_b_offset
            (omega (arith, n, length-append header slot)) n

    module _ (c : 0 < w.chunk_size) (d : w.chunk_size < u32_mod)
        (size : w.uncompressed_size < u64_mod)
        (room : w.cursor + length (serialize_index w.index) < u64_mod)
        (cached : HeadFits head) where
      cursor_eq : w.cursor ≡ data_start + length h.body
      cursor_eq = h.cursor ∙ ap length h.out ∙ length-append start_bytes h.body

      length-image : length image ≡ w.cursor + length index_bytes
      unfolding image slot
      length-image = omega (
        arith,
        cursor_eq,
        length-serialize_superblock crc32 sb,
        length-append (header ++ slot ++ slot) (h.body ++ index_bytes),
        length-append (header ++ slot) slot,
        length-append header slot,
        length-append h.body index_bytes,
      )

      sb-FitsWidths : FitsWidths sb
      unfolding sb
      sb-FitsWidths = record {
        seq = omega arith;
        chunk_size = d;
        uncompressed_size = size;
        chunk_count = omega (arith, room, length-serialize_index w.index);
        index_offset = omega (arith, room);
        index_len = omega (arith, room);
        index_crc = u32.is_u32 (serialize_index w.index);
        tail_journal_offset = omega arith;
        tail_journal_len = omega arith;
        head_cache = cached;
      }

      parsed_slot : parse_superblock crc32 slot ≡ some sb
      unfolding slot
      parsed_slot =
          ap (parse_superblock crc32) (sym (append-nil slot))
          ∙ parse-serialize_superblock crc32 sb [] u32 sb-FitsWidths

      slot_a : slice sb_a_offset sb_len image ≡ slot
      unfolding image slot
      slot_a =
          let n = length-serialize_superblock crc32 sb in
          ap (slice sb_a_offset sb_len) (append_assoc (header ++ slot) slot (h.body ++ index_bytes))
          ∙ slice_part header slot (slot ++ (h.body ++ index_bytes)) sb_a_offset sb_len refl (sym n)

      slot_b : slice sb_b_offset sb_len image ≡ slot
      unfolding image slot
      slot_b =
          let n = length-serialize_superblock crc32 sb in
          slice_part (header ++ slot) slot (h.body ++ index_bytes) sb_b_offset sb_len
            (omega (arith, n, length-append header slot)) (sym n)

      index_there : slice w.cursor (length index_bytes) image ≡ index_bytes
      unfolding image slot
      index_there =
          let front = header ++ slot ++ slot in
          let n = length-serialize_superblock crc32 sb in
          ap (slice w.cursor (length index_bytes)) (
            sym (append_assoc front h.body index_bytes)
            ∙ sym (append-nil (front ++ h.body ++ index_bytes)))
          ∙ slice_part (front ++ h.body) index_bytes [] w.cursor (length index_bytes)
              (omega (
                arith,
                cursor_eq,
                n,
                length-append front h.body,
                length-append (header ++ slot) slot,
                length-append header slot,
              ))
              refl

      pub finished_archive : ActiveArchive
      finished_archive = archive_at sb_a_offset sb w.index none

      image-Holds : Holds crc32 image (length image) finished_archive
      unfolding finished_archive sb index_bytes
      image-Holds =
          let n = length-image in
          let e = index_there in
          record {
            start = omega (arith, n, cursor_eq);
            reach-le = omega arith;
            is_slot = inl refl;
            slot = ap (parse_superblock crc32) slot_a ∙ parsed_slot;
            loser =
                subst (Loses sb_a_offset 0) (sym (ap (parse_superblock crc32) slot_b ∙ parsed_slot))
                  (inr (refl, refl));
            usable = record {
              chunk_size = c;
              count = omega (arith, room, length-serialize_index w.index);
              index_len = omega (arith, length-serialize_index w.index);
              index_start = omega (arith, cursor_eq);
              index_end = omega (arith, n);
              reach-lt = omega (arith, n, room);
              index_crc = ap crc32 e;
              parsed =
                  ap (λ b. parse_index b (length w.index)) e
                  ∙ parse-serialize_index w.index (h.fit (omega (arith, room)));
              entries = h.entries;
              journal = refl;
            };
          }

      image-Stored : Stored crc32 image w.index blocks
      unfolding image slot
      image-Stored =
          let front = header ++ slot ++ slot in
          let n = length-serialize_superblock crc32 sb in
          let m : length front ≡ data_start =
            omega (arith, n, length-append (header ++ slot) slot, length-append header slot) in
          let here : Stored crc32 (start_bytes ++ h.body) w.index blocks =
            subst (λ x. Stored crc32 x w.index blocks) h.out h.stored in
          let moved =
            Stored-prefix start_bytes front h.body w.index blocks w.cursor refl m h.entries here in
          subst (λ x. Stored crc32 x w.index blocks) (append_assoc front h.body index_bytes)
            (Stored-more crc32 (front ++ h.body) index_bytes w.index blocks
              (subst (λ k. EntriesIn k w.index)
                (omega (arith, m, cursor_eq, length-append front h.body)) h.entries)
              moved)

      -- The bytes open as the archive of the superblock and the index, which has the blocks.
      pub finish_index-opens :
          (load_active crc32
              (from_bytes (finish_index crc32 w head))
              (length (finish_index crc32 w head))
            ≡ ok (archive_at sb_a_offset (first_superblock crc32 w head) w.index none))
          × Stored crc32 (finish_index crc32 w head) w.index blocks
      unfolding finished_archive sb
      finish_index-opens =
          let a = archive_at sb_a_offset (first_superblock crc32 w head) w.index none in
          subst
            (λ x.
              (load_active crc32 (from_bytes x) (length x) ≡ ok a) × Stored crc32 x w.index blocks)
            (sym finish_index-image)
            (
              load_active-Holds crc32 image (length image) finished_archive image-Holds,
              image-Stored,
            )
