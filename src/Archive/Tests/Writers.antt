-- ===== src/Archive/Tests/Writers.antt =====
-- A new archive of two blocks with a head cache.
use fuse_scrollfs.Archive.{data_start}
use fuse_scrollfs.Archive.Tests.{sum32, sum32-IsCrc32}
use fuse_scrollfs.Archive.Writer.{ArchiveWriter, finish, new_writer}
use fuse_scrollfs.Archive.Writer.Finished.{start_bytes}
use fuse_scrollfs.Archive.Writer.Layout.{Block}
use fuse_scrollfs.Archive.Writer.RoundTrip.{OpensWith, archive_of, finish-OpensWith, written}
use fuse_scrollfs.Bytes.{Bytes}
use fuse_scrollfs.Prelude.{Bool, List, Option, [], arith, none, refl, some, true, ℕ, ◌∷◌}

abbrev started : ArchiveWriter
started = record {
  inner = record { out = start_bytes; pos = data_start };
  chunk_size = 4;
  uncompressed_size = 0;
  cursor = data_start;
  index = [];
  head_cache = none;
}

abbrev two_written : List Block
two_written = (1 ∷ 2 ∷ 3 ∷ 4 ∷ [], true, 4) ∷ (5 ∷ [], true, 1) ∷ []

abbrev head_of_two : Option (Bytes × Bool × ℕ)
head_of_two = some (1 ∷ 2 ∷ [], true, 2)

finish-OpensWith_example :
    OpensWith sum32
      (finish sum32 (written sum32 two_written head_of_two started))
      (archive_of sum32 (written sum32 two_written head_of_two started))
      two_written
unfolding new_writer
finish-OpensWith_example =
    finish-OpensWith sum32 sum32-IsCrc32 4 two_written head_of_two started refl (omega arith)
      (omega arith) (omega arith) (omega arith, omega arith, omega arith, omega arith)
