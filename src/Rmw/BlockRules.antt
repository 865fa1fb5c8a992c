-- ===== src/Rmw/BlockRules.antt =====
-- Of crates/scrollz/src/core/rmw.rs.
-- What storing one block does to the blocks of the file.
use fuse_scrollfs.Codec.{plain as Codec_plain}
use fuse_scrollfs.Archive.{head_cache_bytes}
use fuse_scrollfs.Bytes.{Bytes}
use fuse_scrollfs.Codec.{Zstd, compress_block, max_decompressed_block, plain}
use fuse_scrollfs.Codec.RoundTrip.{decompress-compress_block, plain-window_log}
use fuse_scrollfs.Prelude.{
  Bool, Bool-cases, inl, inr, leb, length, ltb, not, refl, some, sym, take, ℕ, ◌==◌, ◌||◌, ◌∙◌, ◌≡◌,
  ◌≢◌, ◌≤◌,
}
use fuse_scrollfs.Prelude.Exec.{
  Ensures, Ensures-bind, Ensures-lift, Ensures-mono, Exec, continue_with,
}
use fuse_scrollfs.Prelude.Result.{ok}
use fuse_scrollfs.Rmw.Block.{
  maybe_build_head_cache, seal_plain_block, store_plain_block, stored_block,
}
use fuse_scrollfs.Rmw.Load.{CodecParams, compress_plain, load_plain_block}
use fuse_scrollfs.Rmw.View.{IsSound, LoadsBlock, LoadsBlock-same, PlainBlock}
use fuse_scrollfs.Store.{PutBlock, SetHeadCache, Store}
use mathlib.Core.Path.{subst}
use native.Mathlib.Decide.{ℕ_discrete}

module _ {W : Type 0} (z : Zstd) (store : Store W) (ino : ℕ) (params : CodecParams) where
  pub record WroteBlock (idx : ℕ) (plain : Bytes) (new_size cs : ℕ) (w w' : W) : Type 0 where
    pub here : load_plain_block z params store w' ino idx ≡ ok plain
    pub others : (j : ℕ) → j ≢ idx → store.get_block w' ino j ≡ store.get_block w ino j
    pub geometry : store.block_geometry w' ino ≡ some (new_size, cs)

module _ {W : Type 0} (z : Zstd) (store : Store W) (ino : ℕ) (params : CodecParams)
    (fails : W → Type 0) (sound : IsSound z store ino params fails) where
  maybe_build_head_cache_lem :
      (idx : ℕ) (plain : Bytes) (new_size : ℕ) (w : W)
      → Ensures
          (λ _ w'. SetHeadCache store ino w w')
          fails
          (maybe_build_head_cache z store ino params idx plain new_size w)
  unfolding maybe_build_head_cache
  maybe_build_head_cache_lem idx plain new_size w =
      elim (Bool-cases
        (not (idx == 0) || ltb (length plain) head_cache_bytes || leb new_size (length plain))) [
          | inl skip ↦ rw skip (record { blocks = λ j. refl; geometry = refl })
          | inr b ↦ rw b (
              Ensures-lift _ fails (compress_plain z params (take head_cache_bytes plain)) w _
                (λ packed _.
                  sound.backend.set_head_cache_lem (packed.0) (packed.1) head_cache_bytes w)
                (λ e q. sound.codec_fails (take head_cache_bytes plain) e w q))
        ]

  -- The block that is put is the one that is read.
  load-packed :
      (idx : ℕ) (plain : Bytes) (packed : Bytes × Bool) (w : W)
      → length plain ≤ max_decompressed_block
      → compress_plain z params plain ≡ ok packed
      → store.get_block w ino idx ≡ ok (some (stored_block packed))
      → load_plain_block z params store w ino idx ≡ ok plain
  unfolding load_plain_block compress_plain compress_block
  load-packed idx plain packed w l c g = rw g (
      decompress-compress_block z sound.codec plain params.algo (Codec_plain params.level)
        params.dict (packed.0) (packed.1) (plain-window_log params.level) l c)

  call_lem :
      (call : Exec W (Unit {0})) (idx : ℕ) (plain : Bytes) (packed : Bytes × Bool) (new_size cs : ℕ)
      (w : W)
      → length plain ≤ max_decompressed_block
      → compress_plain z params plain ≡ ok packed
      → Ensures
          (λ _ w'. PutBlock store ino idx (stored_block packed) new_size cs w w')
          fails
          (call w)
      → Ensures
          (λ _ w'. WroteBlock z store ino params idx plain new_size cs w w')
          fails
          (continue_with
            (λ _. maybe_build_head_cache z store ino params idx plain new_size)
            (call w))
  call_lem call idx plain packed new_size cs w l c h =
      Ensures-bind _ _ fails (call w) _ h (λ _ w1 p.
        Ensures-mono _ _ fails (maybe_build_head_cache z store ino params idx plain new_size w1)
          (λ _ w2 q. record {
            here = load-packed idx plain packed w2 l c (q.blocks idx ∙ p.here);
            others = λ j n. q.blocks j ∙ p.others j n;
            geometry = q.geometry ∙ p.geometry;
          })
          (maybe_build_head_cache_lem idx plain new_size w1))

  pub store_plain_block_lem :
      (idx : ℕ) (plain : Bytes) (new_size s cs : ℕ) (w : W)
      → length plain ≤ max_decompressed_block
      → store.block_geometry w ino ≡ some (s, cs)
      → Ensures
          (λ _ w'. WroteBlock z store ino params idx plain new_size cs w w')
          fails
          (store_plain_block z store ino params idx plain new_size w)
  unfolding store_plain_block
  store_plain_block_lem idx plain new_size s cs w l g =
      Ensures-lift _ fails (compress_plain z params plain) w _
        (λ packed c.
          call_lem (store.put_block ino idx (stored_block packed) new_size) idx plain packed
            new_size cs w l c
            (sound.backend.put_block_lem idx (stored_block packed) new_size s cs w g))
        (λ e q. sound.codec_fails plain e w q)

  pub seal_plain_block_lem :
      (idx : ℕ) (plain : Bytes) (new_size s cs : ℕ) (w : W)
      → length plain ≤ max_decompressed_block
      → store.block_geometry w ino ≡ some (s, cs)
      → Ensures
          (λ _ w'. WroteBlock z store ino params idx plain new_size cs w w')
          fails
          (seal_plain_block z store ino params idx plain new_size w)
  unfolding seal_plain_block
  seal_plain_block_lem idx plain new_size s cs w l g =
      Ensures-lift _ fails (compress_plain z params plain) w _
        (λ packed c.
          call_lem (store.seal_tail_block ino idx (stored_block packed) new_size) idx plain packed
            new_size cs w l c
            (sound.backend.seal_tail_block_lem idx (stored_block packed) new_size s cs w g))
        (λ e q. sound.codec_fails plain e w q)

  -- A file with one block written.
  pub LoadsBlock-WroteBlock :
      (f : ℕ → ℕ) (size cs idx j : ℕ) (plain : Bytes) (new_size : ℕ) (w w' : W)
      → WroteBlock z store ino params idx plain new_size cs w w'
      → (j ≡ idx → PlainBlock f size cs idx plain)
      → (j ≢ idx → LoadsBlock z store ino params f size cs j w)
      → LoadsBlock z store ino params f size cs j w'
  LoadsBlock-WroteBlock f size cs idx j plain new_size w w' p h k = elim (ℕ_discrete j idx) [
    | yes e ↦
        subst (λ i. LoadsBlock z store ino params f size cs i w') (sym e)
          (record { plain = plain; loaded = p.here; is_plain = h e })
    | no n ↦ LoadsBlock-same z store ino params f size cs j w w' (p.others j n) (k n)
  ]
