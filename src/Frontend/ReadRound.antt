-- ===== src/Frontend/ReadRound.antt =====
-- The loop of `read_range` of crates/scrollz/src/rwfs.rs on an open file whose blocks are whole.
use fuse_scrollfs.BlockCache.{Inner}
use fuse_scrollfs.Bytes.{Bytes, u64_mod}
use fuse_scrollfs.Bytes.Nth.{nth-replicate}
use fuse_scrollfs.Chunk.{add64, mul64}
use fuse_scrollfs.Codec.{Zstd, plain}
use fuse_scrollfs.Frontend.Cached.{AllCached}
use fuse_scrollfs.Frontend.FileBytes.{file_bytes, file_bytes_ext, span_bytes, span_bytes-split}
use fuse_scrollfs.Frontend.Piece.{from_block_lem, from_tail_lem}
use fuse_scrollfs.Frontend.Read.{from_found, plain_block, read_between, read_round, read_blocks}
use fuse_scrollfs.Frontend.ReadBlock.{BlockIs, IsReadable, WholeBlock, plain_block_lem, tail_block}
use fuse_scrollfs.Prelude.{
  Bool-cases, Option, ap, ap₂, arith, inl, inr, leb, length, length-replicate, max, min, none, refl,
  replicate, some, suc, sym, true, zero, ℕ, ◌*◌, ◌++◌, ◌+◌, ◌-◌, ◌/◌, ◌<◌, ◌∙◌, ◌≡◌, ◌≤◌, ◌⊎◌,
}
use fuse_scrollfs.Prelude.Exec.{Ensures, Ensures-bind, pure, ◌>>=◌}
use fuse_scrollfs.Rmw.Load.{CodecParams}
use fuse_scrollfs.Session.Tail.{Open}
use fuse_scrollfs.Store.{Store}
use mathlib.Core.Path.{subst}
use native.Mathlib.Nat.{mod-eq_of_lt, mul-le-mul_right}

module _ {W : Type 0} (z : Zstd) (store : Store W) (ino : ℕ) (params : CodecParams) (f : ℕ → ℕ)
    (size cs : ℕ) (configured_cap probe_interval : ℕ) (now : ℕ → ℕ) (available : ℕ → Option ℕ)
    (s : Open W) (r : IsReadable z store ino params f size cs s) where
  -- What the reader has collected, and what it may find in the cache.
  abbrev pub Collected : Bytes → Bytes → Inner → Type 0
  Collected want out g = (out ≡ want) × AllCached ino (WholeBlock f size cs) g

  from_found_lem :
      (idx from to : ℕ) (o : Option Bytes) (g : Inner)
      → to ≤ cs
      → from ≤ to
      → idx * cs + to ≤ size
      → BlockIs z store ino params f size cs configured_cap probe_interval now available s r idx o g
      → Ensures
          (Collected (file_bytes f (idx * cs + from) (to - from)))
          (λ _. ⊥)
          (from_found z store ino params true configured_cap probe_interval now available
            (leb size (idx * cs + cs))
            from
            to
            o
            g)
  from_found_lem idx from to none g l h e (zeros, c) = (
    file_bytes_ext f (to - from) (idx * cs + from) (replicate (to - from) 0)
        (length-replicate {A = ℕ} (to - from) 0)
        (λ i b.
          let at : idx * cs + (from + i) ≡ idx * cs + from + i = omega arith in
          nth-replicate (to - from) i ∙ sym (zeros (from + i) (omega (arith, b, l))) ∙ ap f at),
    c,
  )
  from_found_lem idx from to (some plain) g l h e ((p, w), c) =
      let is_last = leb size (idx * cs + cs) in
      let enough : (is_last ≡ true) ⊎ (to ≤ length plain) = elim (Bool-cases is_last) [
        | inl q ↦ inl q
        | inr q ↦ let n : length plain ≡ cs = w (ground (arith, q)) in inr (omega (arith, n, l))
      ] in
      let got = from_block_lem f size cs idx from to plain p l is_last enough in rw got (refl, c)

  read_between_lem :
      (offset end idx : ℕ) (g : Inner)
      → end ≤ size
      → AllCached ino (WholeBlock f size cs) g
      → Ensures
          (Collected (span_bytes f (max offset (idx * cs)) (min end (idx * cs + cs))))
          (λ _. ⊥)
          (read_between z store ino params true configured_cap probe_interval now available s size
            cs offset end idx
            (idx * cs)
            (idx * cs + cs)
            g)
  unfolding file_bytes
  read_between_lem offset end idx g l c =
      let block_start = idx * cs in
      let block_end = block_start + cs in
      elim (Bool-cases (leb (min end block_end) (max offset block_start))) [
        | inl h ↦
            let n : min end block_end - max offset block_start ≡ 0 = ground (arith, h) in
            rw (h, n) (refl, c)
        | inr h ↦
            let from = max offset block_start - block_start in
            let to = min end block_end - block_start in
            let at : block_start + from ≡ max offset block_start = omega arith in
            let n : to - from ≡ min end block_end - max offset block_start = omega arith in
            let same : file_bytes f (block_start + from) (to - from)
                ≡ span_bytes f (max offset block_start) (min end block_end) =
              ap₂ (file_bytes f) at n in
            let short : to ≤ cs = omega arith in
            let forward : from ≤ to = ground (arith, h) in
            let inside : block_start + to ≤ size = ground (arith, h, l) in
            elim (tail_block z store ino params f size cs configured_cap probe_interval now
              available s r idx) [
                | inl (plain, e, p) ↦
                    rw (h, e) (from_tail_lem f size cs idx from to plain p short ∙ same, c)
                | inr (e, b) ↦
                    rw (h, e)
                      (Ensures-bind
                        (BlockIs z store ino params f size cs configured_cap probe_interval now
                          available s r idx)
                        (Collected (span_bytes f (max offset block_start) (min end block_end)))
                        (λ _. ⊥)
                        (plain_block z store ino params true configured_cap probe_interval now
                          available ((size - 1) / cs) idx s.disk g)
                        (from_found z store ino params true configured_cap probe_interval now
                          available (leb size block_end) from to)
                        (plain_block_lem z store ino params f size cs configured_cap probe_interval
                          now available s r ((size - 1) / cs) idx g b c)
                        (λ o g' known.
                          subst
                            (λ want.
                              Ensures (Collected want) (λ _. ⊥)
                                (from_found z store ino params true configured_cap probe_interval
                                  now available (leb size block_end) from to o g'))
                            same (from_found_lem idx from to o g' short forward inside known)))
              ]
      ]

  pub read_round_lem :
      (offset end idx : ℕ) (g : Inner)
      → end ≤ size
      → idx * cs + cs < u64_mod
      → AllCached ino (WholeBlock f size cs) g
      → Ensures
          (Collected (span_bytes f (max offset (idx * cs)) (min end (idx * cs + cs))))
          (λ _. ⊥)
          (read_round z store ino params true configured_cap probe_interval now available s size cs
            offset end idx g)
  unfolding read_round
  read_round_lem offset end idx g l o c =
      let e0 : idx * cs ≡ mul64 idx cs = sym (mod-eq_of_lt (omega (arith, o))) in
      let e1 : idx * cs + cs ≡ add64 (mul64 idx cs) cs =
        sym (mod-eq_of_lt o) ∙ ap (λ x. add64 x cs) e0 in
      subst {A = ℕ × ℕ}
        (λ x.
          Ensures (Collected (span_bytes f (max offset (idx * cs)) (min end (idx * cs + cs))))
            (λ _. ⊥)
            (read_between z store ino params true configured_cap probe_interval now available s size
              cs offset end idx x.0 x.1 g))
        (λ i. (e0 i, e1 i)) (read_between_lem offset end idx g l c)

  pub read_blocks_lem :
      (offset end rounds idx : ℕ) (g : Inner)
      → end ≤ size
      → offset < (idx + 1) * cs
      → (idx + rounds) * cs < u64_mod
      → AllCached ino (WholeBlock f size cs) g
      → Ensures
          (Collected (span_bytes f (max offset (idx * cs)) (min end ((idx + rounds) * cs))))
          (λ _. ⊥)
          (read_blocks z store ino params true configured_cap probe_interval now available s size cs
            offset end rounds idx g)
  unfolding read_blocks file_bytes
  read_blocks_lem offset end zero idx g l b o c =
      let n : min end ((idx + 0) * cs) - max offset (idx * cs) ≡ 0 = omega arith in rw n (refl, c)
  read_blocks_lem offset end (suc rounds) idx g l b o c =
      let stop = min end ((idx + suc rounds) * cs) in
      let start = max offset (idx * cs) in
      let here = idx * cs + cs in
      let within : here ≤ (idx + suc rounds) * cs =
        omega (arith, mul-le-mul_right {m = idx + 1} {n = idx + suc rounds} cs (omega arith)) in
      let e1 : min stop here ≡ min end here = omega (arith, within) in
      let e2 : max offset (suc idx * cs) ≡ here = omega (arith, b) in
      let e3 : (suc idx + rounds) * cs ≡ (idx + suc rounds) * cs = ap (λ n. n * cs) (omega arith) in
      let join : span_bytes f start (min end here)
            ++ span_bytes f (max offset (suc idx * cs)) (min end ((suc idx + rounds) * cs))
          ≡ span_bytes f start stop =
        ap₂ (λ m n. span_bytes f start m ++ n) (sym e1) (ap₂ (span_bytes f) e2 (ap (min end) e3))
        ∙ span_bytes-split f start here stop (omega (arith, b)) in
      Ensures-bind (Collected (span_bytes f start (min end here)))
        (Collected (span_bytes f start stop)) (λ _. ⊥)
        (read_round z store ino params true configured_cap probe_interval now available s size cs
          offset end idx g)
        (λ part.
          read_blocks z store ino params true configured_cap probe_interval now available s size cs
            offset end rounds (suc idx)
          >>= λ rest. pure (part ++ rest))
        (read_round_lem offset end idx g l (omega (arith, o, within)) c)
        (λ part g1 h.
          Ensures-bind
            (Collected
              (span_bytes f (max offset (suc idx * cs)) (min end ((suc idx + rounds) * cs))))
            (Collected (span_bytes f start stop)) (λ _. ⊥)
            (read_blocks z store ino params true configured_cap probe_interval now available s size
              cs offset end rounds (suc idx) g1)
            (λ rest. pure (part ++ rest))
            (read_blocks_lem offset end rounds (suc idx) g1 l (omega (arith, b))
              (omega (arith, o, e3)) h.1)
            (λ rest g2 k. (ap₂ (λ xs ys. xs ++ ys) h.0 k.0 ∙ join, k.1)))
