-- ===== src/Rmw/Cut.antt =====
-- Of crates/scrollz/src/core/rmw.rs.
-- The blocks of a file that was cut off or extended.
-- The file after a truncation.
use fuse_scrollfs.Bytes.{Bytes, fit}
use fuse_scrollfs.Bytes.Nth.{length-fit, nth-fit, nth_beyond}
use fuse_scrollfs.Chunk.Range.{le_last}
use fuse_scrollfs.Codec.{Zstd, plain}
use fuse_scrollfs.Prelude.{
  arith, if◌then◌else◌, ltb, ℕ, ◌%◌, ◌*◌, ◌+◌, ◌-◌, ◌/◌, ◌<◌, ◌∙◌, ◌≡◌, ◌≤◌,
}
use fuse_scrollfs.Rmw.Load.{CodecParams}
use fuse_scrollfs.Rmw.Truncate.{grow, last_block}
use fuse_scrollfs.Rmw.View.{LoadsBlock, PlainBlock}
use fuse_scrollfs.Rmw.Write.{div_ceil}
use fuse_scrollfs.Store.{Store}
use native.Mathlib.Nat.{div-add-mod, div-lt_iff_lt-mul, le-div_iff_mul-le, mod-lt}

unfoldable pub cut : (ℕ → ℕ) → ℕ → ℕ → ℕ
cut f size p = if ltb p size then f p else 0

-- A longer size cuts nothing.
pub PlainBlock-grow :
    (f : ℕ → ℕ) (size new_size cs idx want : ℕ) (plain : Bytes)
    → size ≤ new_size
    → want ≤ cs
    → want ≤ new_size - idx * cs
    → PlainBlock f size cs idx plain
    → PlainBlock (cut f new_size) new_size cs idx (grow want plain)
unfolding cut
PlainBlock-grow f size new_size cs idx want plain l h1 h2 p = record {
  short = ground (arith, length-fit want plain, h1, p.short);
  within = ground (arith, length-fit want plain, h2, l, p.within);
  content = λ i k. ground (
    arith,
    l,
    k,
    p.within,
    p.short,
    p.content i k,
    nth_beyond plain i,
    nth_beyond (fit want plain) i,
    nth-fit want plain i,
  );
}

-- The block that the new end cuts.
pub PlainBlock-cut :
    (f : ℕ → ℕ) (size new_size cs idx r : ℕ) (plain : Bytes)
    → idx * cs + r ≡ new_size
    → r < cs
    → PlainBlock f size cs idx plain
    → PlainBlock (cut f new_size) new_size cs idx (fit r plain)
unfolding cut
PlainBlock-cut f size new_size cs idx r plain e h p = record {
  short = omega (arith, length-fit r plain, h);
  within = omega (arith, length-fit r plain, e);
  content = λ i k. nth-fit r plain i ∙ ground (arith, e, p.content i k);
}

module _ {W : Type 0} (z : Zstd) (store : Store W) (ino : ℕ) (params : CodecParams) where
  pub LoadsBlock-whole :
      (f : ℕ → ℕ) (size new_size cs idx : ℕ) (w : W)
      → idx * cs + cs ≤ new_size
      → LoadsBlock z store ino params f size cs idx w
      → LoadsBlock z store ino params (cut f new_size) new_size cs idx w
  unfolding cut
  LoadsBlock-whole f size new_size cs idx w h b = record {
    plain = b.plain;
    loaded = b.loaded;
    is_plain = record {
      short = b.is_plain.short;
      within = omega (arith, h, b.is_plain.short);
      content = λ i k. ground (arith, h, k, b.is_plain.content i k);
    };
  }

-- Where the last byte stands in a file that does not end with its block.
pub last_block-mod :
    (size cs : ℕ)
    → 0 < cs
    → 0 < size % cs
    → (last_block size cs * cs + size % cs ≡ size) × (size % cs < cs)
last_block-mod size cs c r =
    let q = size / cs in
    let m : size % cs < cs = mod-lt size c in
    let d : q * cs + size % cs ≡ size = omega (arith, div-add-mod size cs) in
    let low : q ≤ (size - 1) / cs =
      (le_last size q cs c (omega (arith, d, r))).1 (omega (arith, d, r)) in
    let high : (size - 1) / cs < q + 1 = (div-lt_iff_lt-mul c).1 (omega (arith, d, m, r)) in
    let e : last_block size cs ≡ q = ground (arith, low, high, d, r) in (rw e d, m)

-- An aligned end falls between two blocks.
pub div_ceil-aligned : (size cs : ℕ) → 0 < cs → size % cs ≡ 0 → div_ceil size cs * cs ≡ size
div_ceil-aligned size cs c e =
    let d : size / cs * cs ≡ size = omega (arith, div-add-mod size cs, e) in ground (arith, d, e)

pub last_block-le : (size cs : ℕ) → 0 < cs → last_block size cs * cs ≤ size - 1
last_block-le size cs c =
    let h : (size - 1) / cs * cs ≤ size - 1 =
      (le-div_iff_mul-le {x = (size - 1) / cs} {y = size - 1} c).0 (omega arith) in
    ground (arith, h)

pub grow-zero : (plain : Bytes) → grow 0 plain ≡ plain
grow-zero plain = ground arith
