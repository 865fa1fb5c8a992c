-- ===== src/Archive/Writer/Layout.antt =====
-- Where crates/scrollz/src/archive/writer.rs puts things.
use fuse_scrollfs.Archive.{ChunkEntry}
use fuse_scrollfs.Archive.Index.{EntriesFit}
use fuse_scrollfs.Archive.Recovery.{EntriesIn}
use fuse_scrollfs.Archive.Updater.{verbatim_flags}
use fuse_scrollfs.Archive.Writer.{ArchiveWriter, append_block}
use fuse_scrollfs.Bytes.{Bytes, slice, splice, u64_mod}
use fuse_scrollfs.Prelude.{
  Bool, List, [], ap, append-nil, append_assoc, ap₂, arith, drop, drop-append_at, drop-append_left,
  drop_all, length, length-append, length-drop, take, take-append_at, take-append_left, take_all, ℕ,
  ◌++◌, ◌+◌, ◌<◌, ◌∙◌, ◌∷◌, ◌≡◌, ◌≤◌,
}

pub splice_end : (xs ys : Bytes) (p : ℕ) → p ≡ length xs → splice xs p ys ≡ xs ++ ys
splice_end xs ys p e =
    ap₂ (λ a b. a ++ ys ++ b) (take_all p xs (omega (arith, e)))
      (drop_all (p + length ys) xs (omega (arith, e)))
    ∙ append-nil (xs ++ ys)

-- A part replaced by one of its length.
pub splice_part :
    (a b b' c : Bytes) (p : ℕ)
    → p ≡ length a
    → length b' ≡ length b
    → splice (a ++ b ++ c) p b' ≡ a ++ b' ++ c
splice_part a b b' c p e n =
    ap₂ (λ x y. x ++ b' ++ y) (ap (take p) (append_assoc a b c) ∙ take-append_at p a (b ++ c) e)
      (drop-append_at (p + length b') (a ++ b) c (omega (arith, e, n, length-append a b)))

pub slice_part :
    (a b c : Bytes) (off n : ℕ) → off ≡ length a → n ≡ length b → slice off n (a ++ b ++ c) ≡ b
slice_part a b c off n e l =
    ap (λ x. take n (drop off x)) (append_assoc a b c)
    ∙ ap (take n) (drop-append_at off a (b ++ c) e)
    ∙ take-append_at n b c l

pub slice-append_left :
    (off n : ℕ) (xs ys : Bytes) → off + n ≤ length xs → slice off n (xs ++ ys) ≡ slice off n xs
slice-append_left off n xs ys h =
    ap (take n) (drop-append_left off xs ys (omega (arith, h)))
    ∙ take-append_left n (drop off xs) ys (omega (arith, length-drop off xs, h))

abbrev pub Block : Type 0
Block = Bytes × Bool × ℕ

module _ (crc32 : Bytes → ℕ) where
  -- The entries describe the blocks, which stand in `img` where they say.
  abbrev pub Stored : Bytes → List ChunkEntry → List Block → Type 0
  Stored img [] [] = Unit
  Stored img (e ∷ index) ((bytes, verbatim, raw_len) ∷ blocks) =
      (slice e.offset e.clen img ≡ bytes)
      × (e.flags ≡ verbatim_flags verbatim)
      × (e.block_crc ≡ crc32 bytes)
      × Stored img index blocks
  Stored img _ _ = ⊥

  -- The blocks, and all that is behind the two slots.
  unfoldable pub append_blocks : List Block → ArchiveWriter → ArchiveWriter
  append_blocks [] w = w
  append_blocks ((bytes, verbatim, raw_len) ∷ blocks) w =
      append_blocks blocks (append_block crc32 bytes verbatim raw_len w)

  abbrev pub block_lens : List Block → ℕ
  block_lens [] = 0
  block_lens ((bytes, verbatim, raw_len) ∷ blocks) = length bytes + block_lens blocks

  abbrev pub raw_lens : List Block → ℕ
  raw_lens [] = 0
  raw_lens ((bytes, verbatim, raw_len) ∷ blocks) = raw_len + raw_lens blocks

  -- What the writer has put out so far.
  pub record Wrote (start : Bytes) (w : ArchiveWriter) (blocks : List Block) : Type 0 where
    pub body : Bytes
    pub out : w.inner.out ≡ start ++ body
    pub at_end : w.inner.pos ≡ length w.inner.out
    pub cursor : w.cursor ≡ length w.inner.out
    pub entries : EntriesIn w.cursor w.index
    pub fit : w.cursor < u64_mod → EntriesFit w.index
    pub stored : Stored w.inner.out w.index blocks
