-- ===== src/Session/Extend.antt =====
-- Of crates/scrollz/src/core/wsession.rs.
-- Bytes that the open tail takes.
use fuse_scrollfs.Bytes.{Bytes, u64_mod}
use fuse_scrollfs.Bytes.Nth.{nth, nth-append, nth_beyond}
use fuse_scrollfs.Codec.{Zstd, plain}
use fuse_scrollfs.Prelude.{
  Bool-cases, ap, arith, inl, inr, length, length-append, length-take, ltb, min, suc, take, ℕ, ◌*◌,
  ◌++◌, ◌+◌, ◌-◌, ◌<◌, ◌≡◌, ◌≢◌, ◌≤◌,
}
use fuse_scrollfs.Rmw.Load.{CodecParams}
use fuse_scrollfs.Rmw.Patch.{overwrite}
use fuse_scrollfs.Rmw.View.{LoadsBlock-cong, PlainBlock}
use fuse_scrollfs.Session.Ops.{extend_tail}
use fuse_scrollfs.Session.Tail.{Tail}
use fuse_scrollfs.Session.View.{TailIs}
use fuse_scrollfs.Store.{Store}
use mathlib.Core.Path.{subst}
use native.Mathlib.Nat.{mul-le-mul_right}

module _ {W : Type 0} (z : Zstd) (store : Store W) (ino : ℕ) (params : CodecParams) (cs : ℕ) where
  -- Another block has none of the bytes.
  elsewhere :
      (f : ℕ → ℕ) (size idx j i : ℕ) (piece : Bytes)
      → j ≢ idx
      → idx * cs ≤ size
      → size + length piece ≤ idx * cs + cs
      → i < cs
      → f (j * cs + i) ≡ overwrite f size piece (j * cs + i)
  unfolding overwrite
  elsewhere f size idx j i piece n l u k = elim (Bool-cases (ltb j idx)) [
    | inl below ↦
        let h : suc j ≤ idx = ground (arith, below) in
        let m = mul-le-mul_right cs h in
        let m' : j * cs + cs ≤ idx * cs = omega (arith, m) in ground (arith, m', k, l)
    | inr above ↦
        let h : suc idx ≤ j = ground (arith, above, n) in
        let m = mul-le-mul_right cs h in
        let m' : idx * cs + cs ≤ j * cs = omega (arith, m) in ground (arith, m', u)
  ]

  extended_plain :
      (f : ℕ → ℕ) (size idx : ℕ) (plain piece : Bytes)
      → PlainBlock f size cs idx plain
      → idx * cs + length plain ≡ size
      → length plain + length piece ≤ cs
      → PlainBlock (overwrite f size piece) (size + length piece) cs idx (plain ++ piece)
  unfolding overwrite
  extended_plain f size idx plain piece p e l = record {
    short = omega (arith, length-append plain piece, l);
    within = omega (arith, length-append plain piece, e);
    content = λ i k. ground (
      arith,
      e,
      nth-append plain piece i,
      nth_beyond plain i,
      nth_beyond piece (i - length plain),
      p.content i k,
      ap (nth piece) (extended_at (idx * cs) (length plain) size i e),
    );
  }
    where
      extended_at : (b n size i : ℕ) → b + n ≡ size → i - n ≡ b + i - size
      extended_at b n size i e = omega (arith, e)

  pub extend_tail-TailIs :
      (f : ℕ → ℕ) (size : ℕ) (w : W) (t : Tail) (rest : Bytes)
      → TailIs z store ino params f size cs w t
      → length t.plain < cs
      → 0 < length rest
      → size + length rest < u64_mod
      → TailIs z store ino params
          (overwrite f size (take (min (cs - length t.plain) (length rest)) rest))
          (size + min (cs - length t.plain) (length rest))
          cs
          w
          (extend_tail cs rest t)
  unfolding extend_tail
  extend_tail-TailIs f size w t rest i room p o =
      let took = min (cs - length t.plain) (length rest) in
      let piece = take took rest in
      let n : length piece ≡ took = omega (arith, length-take took rest) in
      record {
        chunk = i.chunk;
        whole_size = omega (arith, i.whole_size, o);
        at_end = omega (arith, length-append t.plain piece, n, i.at_end);
        is_plain =
            subst (λ k. PlainBlock (overwrite f size piece) (size + k) cs t.idx (t.plain ++ piece))
              n
              (extended_plain f size t.idx t.plain piece i.is_plain i.at_end
                (omega (arith, n, room)));
        stored_size = i.stored_size;
        geometry = i.geometry;
        others = λ j d.
            LoadsBlock-cong z store ino params f (overwrite f size piece) size (size + took) cs j w
              (omega arith)
              (λ k l.
                elsewhere f size t.idx j k piece d (omega (arith, i.at_end))
                  (omega (arith, i.at_end, n, room)) l)
              (i.others j d);
        fresh = λ h. absurd (omega (arith, h, length-append t.plain piece, n, p, room));
      }
