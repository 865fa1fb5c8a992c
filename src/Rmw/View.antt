-- ===== src/Rmw/View.antt =====
-- Of crates/scrollz/src/core/rmw.rs.
-- What a file holds, as a function from positions to bytes that is zero past the end, and the rules
-- for the store's calls on it.
-- The plain bytes of a block: a block may be shorter than its place, and zeros follow.
use fuse_scrollfs.Bytes.{Bytes}
use fuse_scrollfs.Bytes.Nth.{nth}
use fuse_scrollfs.Codec.{IsZstd, Zstd}
use fuse_scrollfs.Prelude.{
  Option, [], ap, arith, length, none, refl, some, sym, ℕ, ◌*◌, ◌+◌, ◌-◌, ◌<◌, ◌∙◌, ◌≡◌, ◌≤◌,
}
use fuse_scrollfs.Prelude.Result.{ErrorKind, Result, err, ok, ◌>>=◌}
use fuse_scrollfs.Rmw.Load.{CodecParams, compress_plain, load_plain_block, plain_of}
use fuse_scrollfs.Store.{IsLawful, Store, StoredBlock}

pub record PlainBlock (f : ℕ → ℕ) (size cs idx : ℕ) (plain : Bytes) : Type 0 where
  pub short : length plain ≤ cs
  pub within : length plain ≤ size - idx * cs
  pub content : (i : ℕ) → i < cs → nth plain i ≡ f (idx * cs + i)

pub PlainBlock-cong :
    (f g : ℕ → ℕ) (size size' cs idx : ℕ) (plain : Bytes)
    → size ≤ size'
    → ((i : ℕ) → i < cs → f (idx * cs + i) ≡ g (idx * cs + i))
    → PlainBlock f size cs idx plain
    → PlainBlock g size' cs idx plain
PlainBlock-cong f g size size' cs idx plain l e p = record {
  short = p.short;
  within = omega (arith, l, p.within);
  content = λ i h. p.content i h ∙ e i h;
}

module _ {W : Type 0} (z : Zstd) (store : Store W) (ino : ℕ) (params : CodecParams) where
  pub record LoadsBlock (f : ℕ → ℕ) (size cs idx : ℕ) (w : W) : Type 0 where
    pub plain : Bytes
    pub loaded : load_plain_block z params store w ino idx ≡ ok plain
    pub is_plain : PlainBlock f size cs idx plain

  pub record IsFile (f : ℕ → ℕ) (size cs : ℕ) (w : W) : Type 0 where
    pub geometry : store.block_geometry w ino ≡ some (size, cs)
    pub block : (idx : ℕ) → LoadsBlock f size cs idx w

  -- A state in which the block reads the same.
  pub LoadsBlock-same :
      (f : ℕ → ℕ) (size cs idx : ℕ) (w w' : W)
      → store.get_block w' ino idx ≡ store.get_block w ino idx
      → LoadsBlock f size cs idx w
      → LoadsBlock f size cs idx w'
  unfolding load_plain_block
  LoadsBlock-same f size cs idx w w' e b = record {
    plain = b.plain;
    loaded = ap (λ r. r >>= plain_of z params) e ∙ b.loaded;
    is_plain = b.is_plain;
  }

  pub LoadsBlock-cong :
      (f g : ℕ → ℕ) (size size' cs idx : ℕ) (w : W)
      → size ≤ size'
      → ((i : ℕ) → i < cs → f (idx * cs + i) ≡ g (idx * cs + i))
      → LoadsBlock f size cs idx w
      → LoadsBlock g size' cs idx w
  LoadsBlock-cong f g size size' cs idx w l e b = record {
    plain = b.plain;
    loaded = b.loaded;
    is_plain = PlainBlock-cong f g size size' cs idx b.plain l e b.is_plain;
  }

  -- A state in which the block is gone.
  pub LoadsBlock-none :
      (f : ℕ → ℕ) (size cs idx : ℕ) (w : W)
      → store.get_block w ino idx ≡ ok none
      → ((i : ℕ) → i < cs → f (idx * cs + i) ≡ 0)
      → LoadsBlock f size cs idx w
  unfolding load_plain_block
  LoadsBlock-none f size cs idx w e h = record {
    plain = [];
    loaded = rw e refl;
    is_plain = record { short = omega arith; within = omega arith; content = λ i l. sym (h i l) };
  }

  -- The bytes that a block was loaded with come from what the backend answered.
  abbrev pub LoadedFrom : Bytes → Result (Option StoredBlock) → Type 0
  LoadedFrom plain (err reason) = ⊥
  LoadedFrom plain (ok o) = plain_of z params o ≡ ok plain

  pub load_plain_block-LoadedFrom :
      (w : W) (idx : ℕ) (plain : Bytes)
      → load_plain_block z params store w ino idx ≡ ok plain
      → LoadedFrom plain (store.get_block w ino idx)
  unfolding load_plain_block
  load_plain_block-LoadedFrom w idx plain h = go (store.get_block w ino idx) h
    where
      go :
          (r : Result (Option StoredBlock))
          → r >>= plain_of z params ≡ ok plain
          → LoadedFrom plain r
      go (ok o) e = e
      go (err reason) e = absurd cc

  -- What the caller of the block operations relies on: the zstd crate, the backend, and `fails` for
  -- the states that an error of either may leave.
  pub record IsSound (fails : W → Type 0) : Type 0 where
    pub codec : IsZstd z
    pub backend : IsLawful store ino fails
    pub codec_fails :
        (raw : Bytes) (e : ErrorKind) (w : W) → compress_plain z params raw ≡ err e → fails w
