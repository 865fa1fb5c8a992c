-- ===== src/Session/Keep.antt =====
-- Of crates/scrollz/src/core/wsession.rs.
-- fsync and truncation of an open file.
use fuse_scrollfs.Bytes.{u64_mod}
use fuse_scrollfs.Codec.{Zstd, max_decompressed_block}
use fuse_scrollfs.Prelude.{
  Bool, Bool-cases, Option, ap, arith, false, if◌then◌else◌, inl, inr, none, refl, some, sym, true,
  ℕ, ◌+◌, ◌<◌, ◌≡◌, ◌≤◌,
}
use fuse_scrollfs.Prelude.Exec.{Ensures, Ensures-bind, Ensures-mono}
use fuse_scrollfs.Prelude.Result.{Result, ok}
use fuse_scrollfs.Rmw.Block.{store_plain_block}
use fuse_scrollfs.Rmw.BlockRules.{store_plain_block_lem}
use fuse_scrollfs.Rmw.Cut.{cut}
use fuse_scrollfs.Rmw.Load.{CodecParams}
use fuse_scrollfs.Rmw.Truncate.{truncate}
use fuse_scrollfs.Rmw.TruncateAt.{truncate-cut}
use fuse_scrollfs.Rmw.View.{IsFile, IsSound}
use fuse_scrollfs.Session.Materialize.{
  Bool-and_left, is_empty-length, materialize_lem, on_disk_lem, seal_into_lem,
}
use fuse_scrollfs.Session.Ops.{
  journal_tail, materialize, seal_into, seal_locked, seal_tail, truncate_locked,
}
use fuse_scrollfs.Session.Tail.{Open, Tail, is_empty, nothing_to_seal}
use fuse_scrollfs.Session.View.{Holds, Holds-FileIs, TailIs}
use fuse_scrollfs.Store.{Store}
use mathlib.Core.Path.{subst}

module _ {W : Type 0} (z : Zstd) (store : Store W) (ino : ℕ) (params : CodecParams) where
  pub seal_locked_eq :
      (s : Open W) (o : Option Tail)
      → s.tail ≡ o
      → seal_locked z store ino params true s ≡ (elim o as (λ _. Result (Unit {0}) × Open W) [
        | none ↦ (ok tt, s)
        | some t ↦ seal_tail z store ino params true t s
      ])
  unfolding seal_locked
  seal_locked_eq s o e =
      ap
        (λ o. elim o as (λ _. Result (Unit {0}) × Open W) [
          | none ↦ (ok tt, s)
          | some t ↦ seal_tail z store ino params true t s
        ])
        e

module _ {W : Type 0} (z : Zstd) (store : Store W) (ino : ℕ) (params : CodecParams)
    (fails : W → Type 0) (sound : IsSound z store ino params fails) (cs : ℕ) (positive : 0 < cs)
    (chunk_fits : cs ≤ max_decompressed_block) where
  -- Without a journal.
  seal_bytes_lem :
      (f : ℕ → ℕ) (size : ℕ) (s : Open W) (t : Tail) (journal : Bool)
      → journal ≡ false
      → TailIs z store ino params f size cs s.disk t
      → Ensures
          (λ _ s'. (s'.tail ≡ none) × IsFile z store ino params f size cs s'.disk)
          (λ s'. fails s'.disk)
          ((if journal
              then journal_tail z store ino params true t
              else seal_into z store ino params true (store_plain_block z store ino params) t)
            s)
  seal_bytes_lem f size s t true j i = absurd cc
  seal_bytes_lem f size s t false j i =
      seal_into_lem z store ino params fails sound cs chunk_fits
        (store_plain_block z store ino params) f size s t i
        (store_plain_block_lem z store ino params fails sound t.idx t.plain size i.stored_size cs
          s.disk (omega (arith, i.is_plain.short, chunk_fits)) i.geometry)

  seal_tail_lem :
      (f : ℕ → ℕ) (size : ℕ) (s : Open W) (t : Tail)
      → store.supports_tail_journal ≡ false
      → TailIs z store ino params f size cs s.disk t
      → Ensures
          (λ _ s'. (s'.tail ≡ none) × IsFile z store ino params f size cs s'.disk)
          (λ s'. fails s'.disk)
          (seal_tail z store ino params true t s)
  unfolding seal_tail
  seal_tail_lem f size s t j i = elim (Bool-cases (nothing_to_seal t)) [
    | inl nothing ↦
        rw nothing
          (refl, i.fresh (is_empty-length t.plain (Bool-and_left (is_empty t.plain) _ nothing)))
    | inr some_bytes ↦ rw some_bytes (seal_bytes_lem f size s t store.supports_tail_journal j i)
  ]

  -- With the tail buffer enabled, on an open file with chunks of 1 byte to 256 MiB, over a lawful
  -- store that keeps no journal of the tail and a lawful codec: seal_locked leaves no tail, and
  -- the store alone then has all bytes and the size of the open file, those of the tail included;
  -- every error leaves a state of the store that an error of the store or of the codec may leave.
  pub seal_locked-IsFile :
      (f : ℕ → ℕ) (size : ℕ) (s : Open W)
      → store.supports_tail_journal ≡ false
      → Holds z store ino params f size cs s.disk s.tail
      → Ensures
          (λ _ s'. (s'.tail ≡ none) × IsFile z store ino params f size cs s'.disk)
          (λ s'. fails s'.disk)
          (seal_locked z store ino params true s)
  seal_locked-IsFile f size s j h = go s.tail refl h
    where
      go :
          (o : Option Tail)
          → s.tail ≡ o
          → Holds z store ino params f size cs s.disk o
          → Ensures
              (λ _ s'. (s'.tail ≡ none) × IsFile z store ino params f size cs s'.disk)
              (λ s'. fails s'.disk)
              (seal_locked z store ino params true s)
      go none e h = rw (seal_locked_eq z store ino params s none e) (e, h)
      go (some t) e h =
          rw (seal_locked_eq z store ino params s (some t) e) (seal_tail_lem f size s t j (h.0))

  -- With the tail buffer enabled, on an open file with chunks of 1 byte to 256 MiB whose size
  -- plus one chunk does not pass 2^64, over a lawful store and codec: truncate_locked leaves the
  -- open file cut off at the new size or extended to it with zeros.
  pub truncate_locked-cut :
      (f : ℕ → ℕ) (size new_size : ℕ) (s : Open W)
      → size + cs ≤ u64_mod
      → Holds z store ino params f size cs s.disk s.tail
      → Ensures
          (λ _ s'. Holds z store ino params (cut f new_size) new_size cs s'.disk s'.tail)
          (λ s'. fails s'.disk)
          (truncate_locked z store ino params true new_size s)
  unfolding truncate_locked
  truncate_locked-cut f size new_size s o h =
      Ensures-bind _ (λ _ s'. Holds z store ino params (cut f new_size) new_size cs s'.disk s'.tail)
        (λ s'. fails s'.disk) (materialize z store ino params true s) _
        (materialize_lem z store ino params fails sound cs chunk_fits f size s s.tail refl
          (Holds-FileIs z store ino params f size cs s.disk s.tail h))
        (λ _ s1 q.
          on_disk_lem
            (λ _ s'. Holds z store ino params (cut f new_size) new_size cs s'.disk s'.tail)
            (λ s'. fails s'.disk) (truncate z store ino params new_size) s1
            (Ensures-mono _ _ fails (truncate z store ino params new_size s1.disk)
              (λ _ w' r.
                subst (λ o. Holds z store ino params (cut f new_size) new_size cs w' o) (sym (q.0))
                  r)
              (truncate-cut z store ino params fails sound cs positive chunk_fits f size new_size
                s1.disk o (q.1))))
