-- ===== src/Session/View.antt =====
-- Of crates/scrollz/src/core/wsession.rs.
-- What an open file holds: the backend's blocks, and the open tail instead of its block.
use fuse_scrollfs.Bytes.Nth.{length-fit, nth-fit, nth_beyond}
use fuse_scrollfs.Codec.{Zstd}
use fuse_scrollfs.Prelude.{
  Option, arith, length, none, refl, some, sym, true, ℕ, ◌%◌, ◌*◌, ◌+◌, ◌/◌, ◌<◌, ◌≡◌, ◌≢◌, ◌≤◌,
}
use fuse_scrollfs.Rmw.Load.{CodecParams}
use fuse_scrollfs.Rmw.View.{IsFile, LoadsBlock, PlainBlock}
use fuse_scrollfs.Session.Tail.{Open, Tail, empty_tail, geometry_locked, loaded_tail, resized}
use fuse_scrollfs.Store.{Store}
use native.Mathlib.Nat.{div-add-mod, mod-lt}

module _ {W : Type 0} (z : Zstd) (store : Store W) (ino : ℕ) (params : CodecParams) where
  pub record TailIs (f : ℕ → ℕ) (size cs : ℕ) (w : W) (t : Tail) : Type 0 where
    pub chunk : t.chunk_size ≡ cs
    pub whole_size : t.file_size ≡ size
    pub at_end : t.idx * cs + length t.plain ≡ size
    pub is_plain : PlainBlock f size cs t.idx t.plain
    pub stored_size : ℕ
    pub geometry : store.block_geometry w ino ≡ some (stored_size, cs)
    pub others : (j : ℕ) → j ≢ t.idx → LoadsBlock z store ino params f size cs j w
    pub fresh : length t.plain ≡ 0 → IsFile z store ino params f size cs w

  abbrev pub FileIs : (ℕ → ℕ) → ℕ → ℕ → W → Option Tail → Type 0
  FileIs f size cs w none = IsFile z store ino params f size cs w
  FileIs f size cs w (some t) = TailIs f size cs w t

  -- Between two operations an open tail has room.
  abbrev pub Holds : (ℕ → ℕ) → ℕ → ℕ → W → Option Tail → Type 0
  Holds f size cs w none = IsFile z store ino params f size cs w
  Holds f size cs w (some t) = TailIs f size cs w t × (length t.plain < cs)

  pub Holds-FileIs :
      (f : ℕ → ℕ) (size cs : ℕ) (w : W) (o : Option Tail)
      → Holds f size cs w o
      → FileIs f size cs w o
  Holds-FileIs f size cs w none h = h
  Holds-FileIs f size cs w (some t) h = h.0

  -- What the backend knows of a file whose last block is open.
  pub Holds-geometry :
      (f : ℕ → ℕ) (size cs : ℕ) (s : Open W)
      → Holds f size cs s.disk s.tail
      → geometry_locked store true ino s ≡ some (size, cs)
  unfolding geometry_locked
  Holds-geometry f size cs s h = go s.tail refl h
    where
      go :
          (o : Option Tail)
          → s.tail ≡ o
          → Holds f size cs s.disk o
          → geometry_locked store true ino s ≡ some (size, cs)
      go none e h = rw (geometry_locked, e) h.geometry
      go (some t) e h = rw (geometry_locked, e, h.0.whole_size, h.0.chunk) refl

  -- A new tail behind a file that ends with a block.
  pub empty_tail-TailIs :
      (f : ℕ → ℕ) (size cs : ℕ) (w : W)
      → size / cs * cs ≡ size
      → ((p : ℕ) → size ≤ p → f p ≡ 0)
      → IsFile z store ino params f size cs w
      → TailIs f size cs w (empty_tail size cs)
  unfolding empty_tail
  empty_tail-TailIs f size cs w e zeros file = record {
    chunk = refl;
    whole_size = refl;
    at_end = omega (arith, e);
    is_plain = record {
      short = omega arith;
      within = omega arith;
      content = λ i k. sym (zeros (size / cs * cs + i) (omega (arith, e)));
    };
    stored_size = size;
    geometry = file.geometry;
    others = λ j _. file.block j;
    fresh = λ _. file;
  }

  -- The tail made of the block that an unaligned end falls in.
  pub loaded_tail-TailIs :
      (f : ℕ → ℕ) (size cs : ℕ) (w : W)
      → 0 < cs
      → 0 < size % cs
      → (b : LoadsBlock z store ino params f size cs (size / cs) w)
      → IsFile z store ino params f size cs w
      → TailIs f size cs w (loaded_tail size cs b.plain)
  unfolding loaded_tail
  loaded_tail-TailIs f size cs w c r b file =
      let e : size / cs * cs + size % cs ≡ size = omega (arith, div-add-mod size cs) in
      let m : size % cs < cs = mod-lt size c in
      let n : length (resized (size % cs) b.plain) ≡ size % cs =
        ground (arith, length-fit (size % cs) b.plain) in
      record {
        chunk = refl;
        whole_size = refl;
        at_end = omega (arith, e, n);
        is_plain = record {
          short = omega (arith, n, m);
          within = omega (arith, n, e);
          content = λ i k. ground (
            arith,
            e,
            nth-fit (size % cs) b.plain i,
            nth_beyond b.plain i,
            b.is_plain.within,
            b.is_plain.content i k,
          );
        };
        stored_size = size;
        geometry = file.geometry;
        others = λ j _. file.block j;
        fresh = λ h. absurd (omega (arith, h, n, r));
      }
