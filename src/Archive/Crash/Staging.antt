-- ===== src/Archive/Crash/Staging.antt =====
-- Appending behind the committed archive: what every operation between two commits does.
use fuse_scrollfs.Archive.{ChunkEntry, HeadCache, data_start}
use fuse_scrollfs.Archive.Crash.{Tracks}
use fuse_scrollfs.Archive.Crash.Slot.{Committed, Ready}
use fuse_scrollfs.Archive.Reader.{ActiveArchive}
use fuse_scrollfs.Archive.Recovery.{Holds, Usable}
use fuse_scrollfs.Archive.Recovery.Agree.{Holds-agree}
use fuse_scrollfs.Archive.Superblock.{SuperBlock}
use fuse_scrollfs.Archive.Superblock.RoundTrip.{FitsWidths}
use fuse_scrollfs.Archive.Updater.{Updater, append_bytes, other_slot}
use fuse_scrollfs.Archive.Updater.Commit.{append_head_cache}
use fuse_scrollfs.Archive.Updater.Steps.{append_bytes-bind}
use fuse_scrollfs.BlockIo.FaultIo.{FaultIo, apply, apply_all, fault_block_io}
use fuse_scrollfs.BlockIo.FaultIo.Crash.{
  Extends-apply_all, IsHonest, Pending, Pending-append, Synced, Unchanged, Wrote, apply_all-append,
}
use fuse_scrollfs.Bytes.{Bytes}
use fuse_scrollfs.Prelude.{
  Bool, List, Option, ap, arith, length, none, some, sym, ℕ, ◌+◌, ◌∙◌, ◌≡◌, ◌≤◌,
}
use fuse_scrollfs.Prelude.Exec.{Ensures, Exec, continue_with_assoc, ◌>>=◌}
use mathlib.Core.Path.{subst}
use native.Mathlib.Nat.{add-zero}

-- What the device holds once its pending writes are durable.
abbrev pub staged : Updater FaultIo → Bytes
staged u = apply_all u.io.durable u.io.dirty

pub staged-Wrote :
    (u : Updater FaultIo) (off : ℕ) (bytes : Bytes) (io : FaultIo)
    → Wrote u.io off bytes io
    → staged (record u { io = io }) ≡ apply (staged u) off bytes
staged-Wrote u off bytes io w =
    ap (λ d. apply_all d io.dirty) w.durable
    ∙ ap (apply_all u.io.durable) w.dirty
    ∙ apply_all-append u.io.durable u.io.dirty (record { off = off; bytes = bytes })

module _ (crc32 : Bytes → ℕ) where
  pub Tracks-Wrote :
      (u : Updater FaultIo) (reach : ℕ) (a : ActiveArchive) (bytes : Bytes) (io : FaultIo)
      → Tracks crc32 u reach a
      → Wrote u.io u.write_cursor bytes io
      → Tracks crc32 (record u { io = io; write_cursor = u.write_cursor + length bytes }) reach a
  Tracks-Wrote u reach a bytes io t w = record {
    honest = w.honest;
    holds = subst (λ d. Holds crc32 d reach a) (sym w.durable) t.holds;
    pending = subst (Pending reach) (sym w.dirty) (
        Pending-append reach u.io.dirty (record { off = u.write_cursor; bytes = bytes }) t.pending
          t.cursor);
    cursor = omega (arith, t.cursor);
    active_seq = t.active_seq;
    inactive_off = t.inactive_off;
  }

  pub Tracks-Unchanged :
      (u : Updater FaultIo) (reach : ℕ) (a : ActiveArchive) (io : FaultIo)
      → Tracks crc32 u reach a
      → Unchanged u.io io
      → Tracks crc32 (record u { io = io }) reach a
  Tracks-Unchanged u reach a io t c = record {
    honest = c.honest;
    holds = subst (λ d. Holds crc32 d reach a) (sym c.durable) t.holds;
    pending = subst (Pending reach) (sym c.dirty) t.pending;
    cursor = t.cursor;
    active_seq = t.active_seq;
    inactive_off = t.inactive_off;
  }

  -- The fields that do not place the archive are free.
  pub Tracks-fields :
      (u v : Updater FaultIo) (reach : ℕ) (a : ActiveArchive)
      → v.io ≡ u.io
      → u.write_cursor ≤ v.write_cursor
      → v.active_seq ≡ u.active_seq
      → v.inactive_off ≡ u.inactive_off
      → Tracks crc32 u reach a
      → Tracks crc32 v reach a
  Tracks-fields u v reach a io cursor seq off t = record {
    honest = subst IsHonest (sym io) t.honest;
    holds = subst (λ d. Holds crc32 d.durable reach a) (sym io) t.holds;
    pending = subst (λ d. Pending reach d.dirty) (sym io) t.pending;
    cursor = omega (arith, t.cursor, cursor);
    active_seq = seq ∙ t.active_seq;
    inactive_off = off ∙ t.inactive_off;
  }

  -- Once the pending writes are durable the superblock that refers to them may be written.
  pub Ready-sync :
      (u : Updater FaultIo) (reach reach' : ℕ) (a : ActiveArchive) (sb : SuperBlock)
      (index : List ChunkEntry) (tail : Option Bytes) (io : FaultIo)
      → Tracks crc32 u reach a
      → Synced u.io io
      → FitsWidths sb
      → sb.seq ≡ u.active_seq + 1
      → data_start ≤ reach'
      → reach' ≤ length (apply_all u.io.durable u.io.dirty)
      → Usable crc32 (apply_all u.io.durable u.io.dirty) reach' sb index tail
      → Ready crc32 io u.inactive_off reach reach' a sb index tail
  Ready-sync u reach reach' a sb index tail io t s fit next start long usable =
      let e = Extends-apply_all reach u.io.durable u.io.dirty t.holds.reach-le t.pending in
      record {
        honest = s.honest;
        dirty = s.dirty;
        holds =
            subst (λ d. Holds crc32 d reach a) (sym s.durable)
              (Holds-agree crc32 u.io.durable (apply_all u.io.durable u.io.dirty) reach e.same a
                e.long t.holds);
        off_eq = t.inactive_off;
        fits = fit;
        newer = omega (arith, next, t.active_seq);
        start = start;
        long = subst (λ d. reach' ≤ length d) (sym s.durable) long;
        usable = subst (λ d. Usable crc32 d reach' sb index tail) (sym s.durable) usable;
      }

  pub Committed-Tracks :
      (v : Updater FaultIo) (reach : ℕ) (a : ActiveArchive)
      → Committed crc32 v.io reach a
      → reach ≤ v.write_cursor
      → v.active_seq ≡ a.sb.seq
      → v.inactive_off ≡ other_slot a.off
      → Tracks crc32 v reach a
  Committed-Tracks v reach a d cursor seq off = record {
    honest = d.honest;
    holds = d.holds;
    pending = subst (Pending reach) (sym d.dirty) tt;
    cursor = cursor;
    active_seq = seq;
    inactive_off = off;
  }

abbrev pub cached_len : Option (Bytes × Bool × ℕ) → ℕ
cached_len none = 0
cached_len (some (bytes, verbatim, rawlen)) = length bytes

abbrev pub cached_at : ℕ → Option (Bytes × Bool × ℕ) → Option HeadCache
cached_at cursor none = none
cached_at cursor (some (bytes, verbatim, rawlen)) =
    some (record { offset = cursor; clen = length bytes; rawlen = rawlen; verbatim = verbatim })

module _ (crc32 : Bytes → ℕ) {A : Type 0} (R : A → Updater FaultIo → Type 0)
    (E : Updater FaultIo → Type 0) where
  pub append_head_cache-bind :
      (u : Updater FaultIo) (reach : ℕ) (a : ActiveArchive) (h : Option (Bytes × Bool × ℕ))
      (f : Option HeadCache → Exec (Updater FaultIo) A)
      → Tracks crc32 u reach a
      → ((io : FaultIo)
          → Tracks crc32
              (record u { io = io; write_cursor = u.write_cursor + cached_len h })
              reach
              a
          → Ensures R E (
              f
                (cached_at u.write_cursor h)
                (record u { io = io; write_cursor = u.write_cursor + cached_len h })))
      → ((io : FaultIo) → Tracks crc32 (record u { io = io }) reach a → E (record u { io = io }))
      → Ensures R E ((append_head_cache h >>= f) u)
  unfolding append_head_cache
  append_head_cache-bind u reach a none f t k e =
      let at : ℕ → Updater FaultIo = λ n. record u { write_cursor = n } in
      let e = sym (add-zero u.write_cursor) in
      subst (λ n. Ensures R E (f none (at n))) (sym e)
        (k u.io (subst (λ n. Tracks crc32 (at n) reach a) e t))
  append_head_cache-bind u reach a (some (bytes, verbatim, rawlen)) f t k e =
      rw (continue_with_assoc f _ (append_bytes bytes u)) (
        append_bytes-bind R E u bytes _ t.honest
          (λ io w. k io (Tracks-Wrote crc32 u reach a bytes io t w))
          (λ io c. e io (Tracks-Unchanged crc32 u reach a io t c)))
