-- ===== src/Rmw/WriteBlocks.antt =====
-- Of crates/scrollz/src/core/rmw.rs.
-- The blocks that a write goes through, one after the other.
use fuse_scrollfs.Bytes.{Bytes, u64_mod}
use fuse_scrollfs.Bytes.Nth.{nth}
use fuse_scrollfs.Codec.{Zstd, max_decompressed_block}
use fuse_scrollfs.Prelude.{
  Bool-cases, ap, arith, inl, inr, length, refl, some, suc, sym, zero, ℕ, ◌*◌, ◌+◌, ◌<◌, ◌≡◌, ◌≢◌,
  ◌≤◌,
}
use fuse_scrollfs.Prelude.Exec.{Ensures, Ensures-bind, Ensures-lift, Ensures-mono}
use fuse_scrollfs.Prelude.Result.{ErrorKind, err, ok}
use fuse_scrollfs.Rmw.Block.{store_plain_block}
use fuse_scrollfs.Rmw.BlockRules.{LoadsBlock-WroteBlock, WroteBlock, store_plain_block_lem}
use fuse_scrollfs.Rmw.Load.{CodecParams, load_plain_block}
use fuse_scrollfs.Rmw.Patch.{PlainBlock-patched, overwrite, plain_span, span_eq}
use fuse_scrollfs.Rmw.View.{IsSound, LoadsBlock, LoadsBlock-same, PlainBlock}
use fuse_scrollfs.Rmw.Write.{full_overwrite, old_plain, patch, write_block, write_blocks}
use fuse_scrollfs.Store.{Store}
use mathlib.Core.Path.{subst}
use native.Mathlib.Nat.{add-zero}

module _ {W : Type 0} (z : Zstd) (store : Store W) (ino : ℕ) (params : CodecParams) where
  pub record WroteFile (f : ℕ → ℕ) (idx new_size cs : ℕ) (w w' : W) : Type 0 where
    pub plain : Bytes
    pub wrote : WroteBlock z store ino params idx plain new_size cs w w'
    pub is_plain : PlainBlock f new_size cs idx plain

module _ {W : Type 0} (z : Zstd) (store : Store W) (ino : ℕ) (params : CodecParams)
    (fails : W → Type 0) (sound : IsSound z store ino params fails) (offset new_size cs : ℕ)
    (input : Bytes) (chunk_fits : cs ≤ max_decompressed_block)
    (in_file : offset + length input ≤ new_size) where
  -- What a block starts from: its old bytes, or none where the write covers it.
  write_start :
      (f : ℕ → ℕ) (size idx : ℕ) (old start : Bytes) (w : W)
      → idx * cs + cs < u64_mod
      → idx * cs ≤ new_size
      → size ≤ new_size
      → PlainBlock f size cs idx old
      → load_plain_block z params store w ino idx ≡ ok old
      → old_plain z store ino params (plain_span offset new_size cs idx input) idx w ≡ ok start
      → PlainBlock
          (overwrite f offset input)
          new_size
          cs
          idx
          (patch offset input (plain_span offset new_size cs idx input) start)
  unfolding old_plain plain_span
  write_start f size idx old start w h l n p loaded e =
      PlainBlock-patched offset new_size cs idx input f size old start h l in_file n p
        (elim (Bool-cases (full_overwrite (plain_span offset new_size cs idx input))) [
          | inl full ↦ λ i k outside below. absurd (ground (arith, full, k, outside, below))
          | inr partial ↦ λ i k outside below.
              let e' = rw partial at e in let q : start ≡ old = cc in ap (λ bs. nth bs i) q
        ])

  -- The old bytes are there to be read.
  old_plain-ok :
      (idx : ℕ) (old : Bytes) (e : ErrorKind) (w : W)
      → load_plain_block z params store w ino idx ≡ ok old
      → old_plain z store ino params (plain_span offset new_size cs idx input) idx w ≢ err e
  unfolding old_plain
  old_plain-ok idx old e w loaded q =
      elim (Bool-cases (full_overwrite (plain_span offset new_size cs idx input))) [
        | inl full ↦ let q' = rw full at q in cc
        | inr partial ↦ let q' = rw partial at q in cc
      ]

  pub write_block_lem :
      (f : ℕ → ℕ) (size s idx : ℕ) (w : W)
      → idx * cs + cs < u64_mod
      → idx * cs ≤ new_size
      → size ≤ new_size
      → store.block_geometry w ino ≡ some (s, cs)
      → LoadsBlock z store ino params f size cs idx w
      → Ensures
          (λ _ w'. WroteFile z store ino params (overwrite f offset input) idx new_size cs w w')
          fails
          (write_block z store ino params offset (offset + length input) new_size cs input idx w)
  unfolding write_block
  write_block_lem f size s idx w h l n g b = rw (span_eq offset new_size cs idx input h) (
      Ensures-lift _ fails
        (old_plain z store ino params (plain_span offset new_size cs idx input) idx w) w _
        (λ start e.
          let plain = patch offset input (plain_span offset new_size cs idx input) start in
          let p = write_start f size idx b.plain start w h l n b.is_plain b.loaded e in
          Ensures-mono _ _ fails (store_plain_block z store ino params idx plain new_size w)
            (λ _ w' q. record { plain = plain; wrote = q; is_plain = p })
            (store_plain_block_lem z store ino params fails sound idx plain new_size s cs w
              (omega (arith, p.short, chunk_fits)) g))
        (λ e q. absurd (old_plain-ok idx b.plain e w b.loaded q)))

  -- Half way: the blocks below `next` are the written file's, the others still the old one's.
  pub record IsHalfWritten (f : ℕ → ℕ) (size s next : ℕ) (w : W) : Type 0 where
    pub geometry : store.block_geometry w ino ≡ some (s, cs)
    pub done_part :
        (j : ℕ)
        → j < next
        → LoadsBlock z store ino params (overwrite f offset input) new_size cs j w
    pub todo_part : (j : ℕ) → next ≤ j → LoadsBlock z store ino params f size cs j w

  write_block-IsHalfWritten :
      (f : ℕ → ℕ) (size s idx : ℕ) (w w' : W)
      → WroteFile z store ino params (overwrite f offset input) idx new_size cs w w'
      → IsHalfWritten f size s idx w
      → IsHalfWritten f size new_size (suc idx) w'
  write_block-IsHalfWritten f size s idx w w' p h = record {
    geometry = p.wrote.geometry;
    done_part = λ j l.
        LoadsBlock-WroteBlock z store ino params fails sound (overwrite f offset input) new_size cs
          idx j p.plain new_size w w' p.wrote (λ e. p.is_plain)
          (λ n. h.done_part j (omega (arith, l, n)));
    todo_part = λ j l.
        LoadsBlock-same z store ino params f size cs j w w'
          (p.wrote.others j (λ e. absurd (omega (arith, e, l)))) (h.todo_part j (omega (arith, l)));
  }

  pub write_blocks_lem :
      (f : ℕ → ℕ) (size s rounds first : ℕ) (w : W)
      → ((j : ℕ) → j < first + rounds → (j * cs + cs < u64_mod) × (j * cs ≤ new_size))
      → size ≤ new_size
      → (rounds ≡ 0 → s ≡ new_size)
      → IsHalfWritten f size s first w
      → Ensures
          (λ _ w'. IsHalfWritten f size new_size (first + rounds) w')
          fails
          (write_blocks z store ino params offset
            (offset + length input)
            new_size
            cs
            input
            rounds
            first
            w)
  unfolding write_blocks
  write_blocks_lem f size s zero first w b n e h =
      let q : IsHalfWritten f size new_size first w =
        subst (λ s. IsHalfWritten f size s first w) (e refl) h in
      subst (λ k. IsHalfWritten f size new_size k w) (sym (add-zero first)) q
  write_blocks_lem f size s (suc rounds) first w b n e h =
      let (b1, b2) = b first (omega arith) in
      Ensures-bind _ _ fails
        (write_block z store ino params offset (offset + length input) new_size cs input first w) _
        (write_block_lem f size s first w b1 b2 n h.geometry (h.todo_part first (omega arith)))
        (λ _ w1 p.
          subst
            (λ k.
              Ensures (λ _ w'. IsHalfWritten f size new_size k w') fails
                (write_blocks z store ino params offset (offset + length input) new_size cs input
                  rounds (suc first) w1))
            (omega arith)
            (write_blocks_lem f size new_size rounds (suc first) w1 (λ j l. b j (omega (arith, l)))
              n (λ _. refl) (write_block-IsHalfWritten f size s first w w1 p h)))
