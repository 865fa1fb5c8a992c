-- ===== src/Archive/Crash/Seen.antt =====
-- The blocks of an updater of crates/scrollz/src/archive/updater.rs as a reader would find them,
-- and what `set_block` makes of each.
use fuse_scrollfs.Archive.{ChunkEntry, data_start}
use fuse_scrollfs.Archive.Crash.Staging.{staged}
use fuse_scrollfs.Archive.Recovery.{EntriesIn}
use fuse_scrollfs.Archive.Updater.{Updater, verbatim_flags}
use fuse_scrollfs.BlockIo.FaultIo.{FaultIo, fault_block_io}
use fuse_scrollfs.Bytes.{Bytes, slice}
use fuse_scrollfs.Prelude.{
  List, Option, [], ap, get_elem?, inl, inr, none, refl, replicate, some, suc, sym, true, zero, ℕ,
  ◌+◌, ◌∙◌, ◌∷◌, ◌≡◌, ◌≤◌, ◌⊎◌,
}
use fuse_scrollfs.Store.{StoredBlock}

-- An entry and the bytes that it names.
abbrev pub with_region : Bytes → Option ChunkEntry → Option (Bytes × ChunkEntry)
with_region img none = none
with_region img (some e) = some (slice e.offset e.clen img, e)

abbrev pub seen_in : Bytes → List ChunkEntry → ℕ → Option (Bytes × ChunkEntry)
seen_in img index i = with_region img (get_elem? index i)

abbrev pub seen : Updater FaultIo → ℕ → Option (Bytes × ChunkEntry)
seen u = seen_in (staged u) u.index

-- What is found is the block, under its checksum and flag.
abbrev pub IsBlock : (Bytes → ℕ) → StoredBlock → Option (Bytes × ChunkEntry) → Type 0
IsBlock crc32 blk o =
    (e : ChunkEntry) × (o ≡ some (blk.bytes, e))
    × (e.block_crc ≡ crc32 blk.bytes)
    × (e.flags ≡ verbatim_flags blk.stored_verbatim)

abbrev pub zero_block : ℕ → StoredBlock
zero_block chunk_size = record { bytes = replicate chunk_size 0; stored_verbatim = true }

-- Regions between the header and `n` read alike.
abbrev pub SameRegions : ℕ → Bytes → Bytes → Type 0
SameRegions n img img' =
    (off k : ℕ) → data_start ≤ off → off + k ≤ n → slice off k img' ≡ slice off k img

pub seen_in-same :
    (n : ℕ) (img img' : Bytes) (index : List ChunkEntry) (i : ℕ)
    → SameRegions n img img'
    → EntriesIn n index
    → seen_in img' index i ≡ seen_in img index i
seen_in-same n img img' [] i s h = refl
seen_in-same n img img' (e ∷ index) zero s h = ap (λ b. some (b, e)) (s e.offset e.clen h.0 h.1)
seen_in-same n img img' (e ∷ index) (suc i) s h = seen_in-same n img img' index i s h.2

module _ (crc32 : Bytes → ℕ) (chunk_size : ℕ) where
  -- From `x` to `y`: to the block that was put, or not at all, or from nothing to a block of zeros.
  abbrev pub Becomes :
      Option StoredBlock → Option (Bytes × ChunkEntry) → Option (Bytes × ChunkEntry) → Type 0
  Becomes (some blk) x y = IsBlock crc32 blk y
  Becomes none x y = (y ≡ x) ⊎ ((x ≡ none) × IsBlock crc32 (zero_block chunk_size) y)

  Becomes-kept : (x y z : Option (Bytes × ChunkEntry)) → Becomes none x y → z ≡ y → Becomes none x z
  Becomes-kept x y z (inl e) q = inl (q ∙ e)
  Becomes-kept x y z (inr (n, (e, f, g, h))) q = inr (n, (e, q ∙ f, g, h))

  IsBlock-kept :
      (blk : StoredBlock) (y z : Option (Bytes × ChunkEntry))
      → IsBlock crc32 blk y
      → Becomes none y z
      → IsBlock crc32 blk z
  IsBlock-kept blk y z (e, f, g, h) (inl q) = (e, q ∙ f, g, h)
  IsBlock-kept blk y z (e, f, g, h) (inr (n, b)) = absurd cc

  pub Becomes-trans :
      (o : Option StoredBlock) (x y z : Option (Bytes × ChunkEntry))
      → Becomes o x y
      → Becomes none y z
      → Becomes o x z
  Becomes-trans (some blk) x y z h k = IsBlock-kept blk y z h k
  Becomes-trans none x y z h (inl e) = Becomes-kept x y z h e
  Becomes-trans none x y z (inl e) (inr (n, b)) = inr (sym e ∙ n, b)
  Becomes-trans none x y z (inr (m, (e, f, g, h))) (inr (n, b)) = absurd cc
