-- ===== src/Archive/Index.antt =====
-- The index region of crates/scrollz/src/archive/reader.rs: 24 bytes for each sealed block.
-- `parse_index` reads the entry at `i * INDEX_ENTRY_LEN` for each `i` below `count`.
use fuse_scrollfs.Archive.{ChunkEntry, index_entry_len}
use fuse_scrollfs.Bytes.{
  Bytes, from_le, from_le-to_le_4, from_le-to_le_8, slice, to_le, u32_mod, u64_mod,
}
use fuse_scrollfs.Prelude.{
  List, [], ap, ap₂, arith, drop, drop-drop, length, refl, suc, sym, take, zero, ℕ, ◌*◌, ◌++◌, ◌+◌,
  ◌<◌, ◌∙◌, ◌∷◌, ◌≡◌,
}

abbrev pub parse_entry : Bytes → ℕ → ChunkEntry
parse_entry bytes base = record {
  offset = from_le (slice base 8 bytes);
  clen = from_le (slice (base + 8) 8 bytes);
  flags = from_le (slice (base + 16) 4 bytes);
  block_crc = from_le (slice (base + 20) 4 bytes);
}

-- `(i..i + n).map(...)`.
unfoldable pub parse_entries : Bytes → ℕ → ℕ → List ChunkEntry
parse_entries bytes i zero = []
parse_entries bytes i (suc n) =
    parse_entry bytes (i * index_entry_len) ∷ parse_entries bytes (i + 1) n

unfoldable pub parse_index : Bytes → ℕ → List ChunkEntry
unfolding parse_entries
parse_index bytes count = parse_entries bytes 0 count

-- The body of the loop of `serialize_index`.
abbrev pub serialize_entry : ChunkEntry → Bytes
serialize_entry e = to_le 8 e.offset ++ to_le 8 e.clen ++ to_le 4 e.flags ++ to_le 4 e.block_crc

unfoldable pub serialize_index : List ChunkEntry → Bytes
serialize_index [] = []
serialize_index (e ∷ index) = serialize_entry e ++ serialize_index index

-- Every field of every entry fits its width.
abbrev pub EntryFits : ChunkEntry → Type 0
EntryFits e =
    (e.offset < u64_mod) × (e.clen < u64_mod) × (e.flags < u32_mod) × (e.block_crc < u32_mod)

abbrev pub EntriesFit : List ChunkEntry → Type 0
EntriesFit [] = Unit
EntriesFit (e ∷ index) = EntryFits e × EntriesFit index

pub length-serialize_index :
    (index : List ChunkEntry) → length (serialize_index index) ≡ index_entry_len * length index
unfolding serialize_index
length-serialize_index [] = refl
length-serialize_index (e ∷ index) = omega (arith, length-serialize_index index)

-- The entry at the head of what is left of the region.
parse_entry-serialize :
    (bytes rest : Bytes) (base : ℕ) (e : ChunkEntry)
    → EntryFits e
    → drop base bytes ≡ serialize_entry e ++ rest
    → parse_entry bytes base ≡ e
parse_entry-serialize bytes rest base e h d =
    let at = λ (k : ℕ). sym (drop-drop k base bytes) ∙ ap (drop k) d in
    λ i. record {
      offset = (ap (λ b. from_le (take 8 b)) d ∙ from_le-to_le_8 e.offset h.0) i;
      clen = (ap (λ b. from_le (take 8 b)) (at 8) ∙ from_le-to_le_8 e.clen h.1) i;
      flags = (ap (λ b. from_le (take 4 b)) (at 16) ∙ from_le-to_le_4 e.flags h.2) i;
      block_crc = (ap (λ b. from_le (take 4 b)) (at 20) ∙ from_le-to_le_4 e.block_crc h.3) i;
    }

parse_entries-serialize :
    (bytes : Bytes) (i : ℕ) (index : List ChunkEntry)
    → EntriesFit index
    → drop (i * index_entry_len) bytes ≡ serialize_index index
    → parse_entries bytes i (length index) ≡ index
unfolding parse_entries serialize_index
parse_entries-serialize bytes i [] h d = refl
parse_entries-serialize bytes i (e ∷ index) h d =
    ap₂ ◌∷◌ (parse_entry-serialize bytes (serialize_index index) (i * index_entry_len) e h.0 d) (
      parse_entries-serialize bytes (i + 1) index h.1 (
        ap (λ k. drop k bytes) (omega arith)
        ∙ sym (drop-drop index_entry_len (i * index_entry_len) bytes)
        ∙ ap (drop index_entry_len) d))

-- An index whose fields fit their widths parses back to itself after it is serialized.
pub parse-serialize_index :
    (index : List ChunkEntry)
    → EntriesFit index
    → parse_index (serialize_index index) (length index) ≡ index
unfolding parse_index
parse-serialize_index index h = parse_entries-serialize (serialize_index index) 0 index h refl
