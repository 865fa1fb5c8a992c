-- ===== src/Rmw/TruncateAt.antt =====
-- A truncation of crates/scrollz/src/core/rmw.rs against the file it leaves.
use fuse_scrollfs.Bytes.{Bytes, fit, u64_mod}
use fuse_scrollfs.Bytes.Nth.{length-fit, nth_beyond}
use fuse_scrollfs.Codec.{Zstd, max_decompressed_block}
use fuse_scrollfs.Prelude.{
  Bool-cases, ap, arith, inl, inr, length, ltb, min, not, some, sym, ℕ, ◌%◌, ◌&&◌, ◌*◌, ◌+◌, ◌-◌,
  ◌/◌, ◌<◌, ◌==◌, ◌∙◌, ◌≡◌, ◌≤◌,
}
use fuse_scrollfs.Prelude.Exec.{Ensures, Ensures-bind, Ensures-mono}
use fuse_scrollfs.Rmw.BlockRules.{LoadsBlock-WroteBlock, WroteBlock, store_plain_block_lem}
use fuse_scrollfs.Rmw.Cut.{
  LoadsBlock-whole, PlainBlock-cut, PlainBlock-grow, cut, div_ceil-aligned, grow-zero,
  last_block-le, last_block-mod,
}
use fuse_scrollfs.Rmw.Load.{CodecParams}
use fuse_scrollfs.Rmw.Truncate.{
  extend, grow, last_block, rewrite_block, shrink, truncate, truncate_found,
}
use fuse_scrollfs.Rmw.View.{IsFile, IsSound, LoadsBlock, LoadsBlock-none, LoadsBlock-same}
use fuse_scrollfs.Rmw.Write.{div_ceil}
use fuse_scrollfs.Store.{Store}
use native.Mathlib.Nat.{div-add-mod, mod-lt, mul-le-mul_right}

module _ {W : Type 0} (z : Zstd) (store : Store W) (ino : ℕ) (params : CodecParams)
    (fails : W → Type 0) (sound : IsSound z store ino params fails) (cs : ℕ) (positive : 0 < cs)
    (chunk_fits : cs ≤ max_decompressed_block) where
  -- The blocks from `keep` on go, where the file has nothing but zeros.
  truncate_blocks-IsFile :
      (g : ℕ → ℕ) (keep s size : ℕ) (w : W)
      → store.block_geometry w ino ≡ some (s, cs)
      → ((p : ℕ) → keep * cs ≤ p → g p ≡ 0)
      → ((j : ℕ) → j < keep → LoadsBlock z store ino params g size cs j w)
      → Ensures
          (λ _ w'. IsFile z store ino params g size cs w')
          fails
          (store.truncate_blocks ino keep size w)
  truncate_blocks-IsFile g keep s size w e zeros kept =
      Ensures-mono _ _ fails (store.truncate_blocks ino keep size w)
        (λ _ w' q. record {
          geometry = q.geometry;
          block = λ j. elim (Bool-cases (ltb j keep)) [
            | inl below ↦
                let l : j < keep = ground (arith, below) in
                LoadsBlock-same z store ino params g size cs j w w' (q.kept j l) (kept j l)
            | inr above ↦
                let l : keep ≤ j = ground (arith, above) in
                let m = mul-le-mul_right cs l in
                LoadsBlock-none z store ino params g size cs j w' (q.dropped j l)
                  (λ i k. zeros (j * cs + i) (omega (arith, m)))
          ];
        })
        (sound.backend.truncate_blocks_lem keep size s cs w e)

  rewrite_block_lem :
      (change : Bytes → Bytes) (f : ℕ → ℕ) (size s idx new_size : ℕ) (w : W)
      → store.block_geometry w ino ≡ some (s, cs)
      → (b : LoadsBlock z store ino params f size cs idx w) → length (change b.plain) ≤ cs
      → Ensures
          (λ _ w'. WroteBlock z store ino params idx (change b.plain) new_size cs w w')
          fails
          (rewrite_block z store ino params change idx new_size w)
  unfolding rewrite_block
  rewrite_block_lem change f size s idx new_size w g b l = rw b.loaded (
      store_plain_block_lem z store ino params fails sound idx (change b.plain) new_size s cs w
        (omega (arith, l, chunk_fits)) g)

  -- Whole blocks below the new end.
  whole :
      (f : ℕ → ℕ) (size new_size keep j : ℕ) (w : W)
      → keep * cs ≤ new_size
      → j < keep
      → LoadsBlock z store ino params f size cs j w
      → LoadsBlock z store ino params (cut f new_size) new_size cs j w
  whole f size new_size keep j w h l =
      LoadsBlock-whole z store ino params f size new_size cs j w
        (omega (arith, mul-le-mul_right cs l, h))

  shrink_lem :
      (f : ℕ → ℕ) (size new_size : ℕ) (w : W)
      → IsFile z store ino params f size cs w
      → Ensures
          (λ _ w'. IsFile z store ino params (cut f new_size) new_size cs w')
          fails
          (shrink z store ino params new_size cs w)
  unfolding shrink cut
  shrink_lem f size new_size w file =
      elim (Bool-cases (not (new_size == 0) && not (new_size % cs == 0))) [
        | inl inside ↦
            let k = last_block new_size cs in
            let r = new_size % cs in
            let (e, m) = last_block-mod new_size cs positive (ground (arith, inside)) in
            let b = file.block k in
            rw inside (
              Ensures-bind _ _ fails (rewrite_block z store ino params (fit r) k new_size w) _
                (rewrite_block_lem (fit r) f size size k new_size w file.geometry b
                  (omega (arith, length-fit r b.plain, m)))
                (λ _ w1 p.
                  truncate_blocks-IsFile (cut f new_size) (k + 1) new_size new_size w1 p.geometry
                    (λ q l. ground (arith, l, e, m))
                    (λ j l.
                      LoadsBlock-WroteBlock z store ino params fails sound (cut f new_size) new_size
                        cs k j (fit r b.plain) new_size w w1 p
                        (λ _. PlainBlock-cut f size new_size cs k r b.plain e m b.is_plain)
                        (λ n.
                          whole f size new_size k j w (omega (arith, e)) (omega (arith, l, n))
                            (file.block j)))))
        | inr aligned ↦
            let keep = div_ceil new_size cs in
            let e : keep * cs ≡ new_size =
              div_ceil-aligned new_size cs positive
                (ground (arith, aligned, div-add-mod new_size cs)) in
            rw aligned (
              truncate_blocks-IsFile (cut f new_size) keep size new_size w file.geometry
                (λ q l. ground (arith, l, e))
                (λ j l. whole f size new_size keep j w (omega (arith, e)) l (file.block j)))
      ]

  -- Nothing stands past the end.
  pub IsFile-beyond :
      (f : ℕ → ℕ) (size p : ℕ) (w : W) → size ≤ p → IsFile z store ino params f size cs w → f p ≡ 0
  IsFile-beyond f size p w l file =
      let b = file.block (p / cs) in
      let e : p / cs * cs + p % cs ≡ p = omega (arith, div-add-mod p cs) in
      ap f (sym e)
      ∙ sym (b.is_plain.content (p % cs) (mod-lt p positive))
      ∙ nth_beyond b.plain (p % cs) (omega (arith, e, l, b.is_plain.within))

  longer :
      (f : ℕ → ℕ) (size new_size j : ℕ) (w : W)
      → size ≤ new_size
      → LoadsBlock z store ino params f size cs j w
      → LoadsBlock z store ino params (cut f new_size) new_size cs j w
  longer f size new_size j w l b = record {
    plain = b.plain;
    loaded = b.loaded;
    is_plain =
        rw (sym (grow-zero b.plain))
          (PlainBlock-grow f size new_size cs j 0 b.plain l (omega arith) (omega arith) b.is_plain);
  }

  extend_lem :
      (f : ℕ → ℕ) (size new_size : ℕ) (w : W)
      → size ≤ new_size
      → size + cs ≤ u64_mod
      → IsFile z store ino params f size cs w
      → Ensures
          (λ _ w'. IsFile z store ino params (cut f new_size) new_size cs w')
          fails
          (extend z store ino params size new_size cs w)
  unfolding extend cut
  extend_lem f size new_size w l o file =
      let k = last_block size cs in
      let low : k * cs ≤ size - 1 = last_block-le size cs positive in
      let e : ((k + 1) * cs) % u64_mod ≡ k * cs + cs = omega (arith, low, o, chunk_fits) in
      rw e (elim (Bool-cases (ltb 0 size && ltb size (k * cs + cs))) [
        | inl partial ↦
            let want = min (k * cs + cs) new_size - k * cs in
            let b = file.block k in
            let p =
              PlainBlock-grow f size new_size cs k want b.plain l (omega arith) (omega arith)
                b.is_plain in
            rw partial (
              Ensures-mono _ _ fails (rewrite_block z store ino params (grow want) k new_size w)
                (λ _ w1 q. record {
                  geometry = q.geometry;
                  block = λ j.
                      LoadsBlock-WroteBlock z store ino params fails sound (cut f new_size) new_size
                        cs k j (grow want b.plain) new_size w w1 q (λ _. p)
                        (λ n. longer f size new_size j w l (file.block j));
                })
                (rewrite_block_lem (grow want) f size size k new_size w file.geometry b p.short))
        | inr full ↦
            let keep = div_ceil size cs in
            let e : keep * cs ≡ size =
              div_ceil-aligned size cs positive (elim (Bool-cases (ltb 0 (size % cs))) [
                | inl r ↦
                    let (d, m) = last_block-mod size cs positive (ground (arith, r)) in
                    absurd (ground (arith, d, m, r, full))
                | inr r ↦ ground (arith, r)
              ]) in
            rw full (
              truncate_blocks-IsFile (cut f new_size) keep size new_size w file.geometry
                (λ q h. ground (arith, IsFile-beyond f size q w (omega (arith, h, e)) file))
                (λ j h. longer f size new_size j w l (file.block j)))
      ])

  -- On a file with chunks of 1 byte to 256 MiB whose size plus one chunk does not pass 2^64, over
  -- a lawful store and codec: truncate leaves the file cut off at the new size or extended to it
  -- with zeros; every error leaves a state that an error of the store or of the codec may leave.
  pub truncate-cut :
      (f : ℕ → ℕ) (size new_size : ℕ) (w : W)
      → size + cs ≤ u64_mod
      → IsFile z store ino params f size cs w
      → Ensures
          (λ _ w'. IsFile z store ino params (cut f new_size) new_size cs w')
          fails
          (truncate z store ino params new_size w)
  unfolding truncate truncate_found
  truncate-cut f size new_size w o file =
      rw (truncate, file.geometry)
        (elim (Bool-cases (new_size == size)) [
          | inl same ↦
              let e : new_size ≡ size = ground (arith, same) in
              rw (truncate_found, same)
                (record {
                  geometry = file.geometry ∙ ap (λ n. some (n, cs)) (sym e);
                  block = λ j. longer f size new_size j w (omega (arith, e)) (file.block j);
                })
          | inr other ↦ elim (Bool-cases (ltb new_size size)) [
            | inl less ↦ rw (truncate_found, other, less) (shrink_lem f size new_size w file)
            | inr longer_size ↦
                rw (truncate_found, other, longer_size)
                  (extend_lem f size new_size w (ground (arith, longer_size)) o file)
          ]
        ])
