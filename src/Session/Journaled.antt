-- ===== src/Session/Journaled.antt =====
-- Of crates/scrollz/src/core/wsession.rs.
-- fsync of an open file whose backend keeps the tail's bytes in a journal.
use fuse_scrollfs.Bytes.{Bytes}
use fuse_scrollfs.Codec.{Zstd}
use fuse_scrollfs.Prelude.{[], length, none, some, take, ℕ, ◌++◌, ◌≡◌, ◌≤◌, ◌⊎◌}
use fuse_scrollfs.Prelude.Exec.{Ensures}
use fuse_scrollfs.Prelude.Result.{Result}
use fuse_scrollfs.Rmw.Load.{CodecParams}
use fuse_scrollfs.Session.Tail.{Open, Tail}
use fuse_scrollfs.Store.{Store}

module _ {W : Type 0} (z : Zstd) (store : Store W) (ino : ℕ) (params : CodecParams)
    (journal : W → Bytes)
    (appends : (delta : Bytes) (new_size : ℕ) (w : W)
      → Ensures
          (λ _ w'. journal w' ≡ journal w ++ delta)
          (λ _. Unit {0})
          (store.append_tail ino delta new_size w)) where
  -- The journal has the first bytes of the tail, as many as the tail has counted.
  abbrev pub IsJournaled : W → Tail → Type 0
  IsJournaled w t = (t.journaled_len ≤ length t.plain) × (journal w ≡ take t.journaled_len t.plain)

  -- The journal has all bytes of the tail, which is gone where it is empty.
  abbrev pub IsFlushed : Tail → Open W → Type 0
  IsFlushed t s =
      (journal s.disk ≡ t.plain)
      × (((s.tail ≡ none) × (t.plain ≡ []))
          ⊎ (s.tail ≡ some (record t { journaled_len = length t.plain })))
