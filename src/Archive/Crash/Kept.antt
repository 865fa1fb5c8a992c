-- ===== src/Archive/Crash/Kept.antt =====
-- A commit of crates/scrollz/src/archive/updater.rs writes behind the blocks and into the slots: the
-- blocks stay as they are on the device, and a reader finds them.
use fuse_scrollfs.Archive.{HeadCache, data_start, sb_len}
use fuse_scrollfs.Archive.Crash.Seen.{SameRegions}
use fuse_scrollfs.Archive.Index.{serialize_index}
use fuse_scrollfs.Archive.Superblock.{SuperBlock, serialize_superblock}
use fuse_scrollfs.Archive.Superblock.RoundTrip.{length-serialize_superblock}
use fuse_scrollfs.Archive.Updater.{Updater, append_bytes, flip_active, io_sync, io_write}
use fuse_scrollfs.Archive.Updater.Commit.{
  append_head_cache, commit, commit_from, superblock_of, write_superblock,
}
use fuse_scrollfs.Archive.Updater.Steps.{append_bytes-bind, io_sync-bind, io_write-bind}
use fuse_scrollfs.BlockIo.FaultIo.{FaultIo, apply, apply_all, fault_block_io}
use fuse_scrollfs.BlockIo.FaultIo.Apply.{length-apply, slice-apply_after, slice-apply_before}
use fuse_scrollfs.BlockIo.FaultIo.Crash.{IsHonest, Synced, Wrote, apply_all-append}
use fuse_scrollfs.Bytes.{Bytes, slice}
use fuse_scrollfs.Prelude.{
  Bool, Option, ap, arith, inl, inr, length, none, refl, some, sym, ℕ, ◌+◌, ◌∙◌, ◌≡◌, ◌≤◌, ◌⊎◌,
}
use fuse_scrollfs.Prelude.Exec.{Ensures, Exec, continue_with_assoc, modify, ◌>>=◌}
use mathlib.Core.Path.{subst}

-- What the process sees of the device.
abbrev pub written_bytes : FaultIo → Bytes
written_bytes io = apply_all io.durable io.dirty

-- The regions between the header and `n` are as in `img`, and no write is torn.
pub record KeepsRegions (n : ℕ) (img : Bytes) (io : FaultIo) : Type 0 where
  pub honest : IsHonest io
  pub same : SameRegions n img (written_bytes io)
  pub long : n ≤ length (written_bytes io)

KeepsRegions-Wrote :
    (n : ℕ) (img : Bytes) (io io' : FaultIo) (off : ℕ) (bytes : Bytes)
    → KeepsRegions n img io
    → Wrote io off bytes io'
    → (n ≤ off) ⊎ (off + length bytes ≤ data_start)
    → KeepsRegions n img io'
KeepsRegions-Wrote n img io io' off bytes k w apart =
    let old = written_bytes io in
    let e : written_bytes io' ≡ apply old off bytes =
      ap (λ d. apply_all d io'.dirty) w.durable
      ∙ ap (apply_all io.durable) w.dirty
      ∙ apply_all-append io.durable io.dirty (record { off = off; bytes = bytes }) in
    record {
      honest = w.honest;
      same = λ at m s h.
          ap (slice at m) e
          ∙ elim apart [
            | inl behind ↦
                slice-apply_before old off bytes at m (omega (arith, h, behind))
                  (omega (arith, h, k.long))
            | inr slot ↦
                slice-apply_after old off bytes at m (omega (arith, s, slot))
                  (omega (arith, h, k.long))
          ]
          ∙ k.same at m s h;
      long = omega (arith, ap (λ b. length b) e, length-apply old off bytes, k.long);
    }

KeepsRegions-Synced :
    (n : ℕ) (img : Bytes) (io io' : FaultIo)
    → KeepsRegions n img io
    → Synced io io'
    → KeepsRegions n img io'
unfolding apply_all
KeepsRegions-Synced n img io io' k s =
    let e : written_bytes io' ≡ written_bytes io = ap (apply_all io'.durable) s.dirty ∙ s.durable in
    record {
      honest = s.honest;
      same = λ at m l h. ap (slice at m) e ∙ k.same at m l h;
      long = subst (λ b. n ≤ length b) (sym e) k.long;
    }

module _ (crc32 : Bytes → ℕ) (n : ℕ) (img : Bytes) where
  abbrev Kept : Unit {0} → Updater FaultIo → Type 0
  Kept _ v = KeepsRegions n img v.io

  abbrev Failed : Updater FaultIo → Type 0
  Failed v = Unit

  write_superblock-KeepsRegions :
      (u : Updater FaultIo) (sb : SuperBlock) (g : Updater FaultIo → Updater FaultIo)
      → ((io : FaultIo) → (g (record u { io = io })).io ≡ io)
      → KeepsRegions n img u.io
      → u.inactive_off + sb_len ≤ data_start
      → Ensures Kept Failed ((write_superblock crc32 sb >>= λ _. modify g) u)
  unfolding write_superblock
  write_superblock-KeepsRegions u sb g keeps k fits =
      let bytes = serialize_superblock crc32 sb in
      rw (continue_with_assoc (λ _. modify g) (λ _. io_sync) (io_write u.inactive_off bytes u)) (
        io_write-bind Kept Failed u u.inactive_off bytes (λ _. io_sync >>= λ _. modify g) k.honest
          (λ io w.
            let k1 =
              KeepsRegions-Wrote n img u.io io u.inactive_off bytes k w
                (inr (omega (arith, fits, length-serialize_superblock crc32 sb))) in
            io_sync-bind Kept Failed (record u { io = io }) (λ _. modify g) k1.honest
              (λ io2 s.
                subst (KeepsRegions n img) (sym (keeps io2))
                  (KeepsRegions-Synced n img io io2 k1 s))
              (λ io2 c. tt))
          (λ io c. tt))

  commit_from-KeepsRegions :
      (u : Updater FaultIo) (h : Option HeadCache)
      → KeepsRegions n img u.io
      → n ≤ u.write_cursor
      → u.inactive_off + sb_len ≤ data_start
      → Ensures Kept Failed (commit_from crc32 h u)
  unfolding commit_from flip_active
  commit_from-KeepsRegions u h k l fits =
      let bytes = serialize_index u.index in
      append_bytes-bind Kept Failed u bytes _ k.honest
        (λ io w.
          let k1 = KeepsRegions-Wrote n img u.io io u.write_cursor bytes k w (inl l) in
          let u1 : Updater FaultIo = record u {
            io = io;
            write_cursor = u.write_cursor + length bytes;
          } in
          io_sync-bind Kept Failed u1 _ k1.honest
            (λ io2 s.
              write_superblock-KeepsRegions (record u1 { io = io2 })
                (superblock_of u1 (u.write_cursor, length bytes, crc32 bytes) h) _ (λ io3. refl)
                (KeepsRegions-Synced n img io io2 k1 s) fits)
            (λ io2 c. tt))
        (λ io c. tt)

  append_head_cache-KeepsRegions :
      (u : Updater FaultIo) (h : Option (Bytes × Bool × ℕ))
      (f : Option HeadCache → Exec (Updater FaultIo) (Unit {0}))
      → KeepsRegions n img u.io
      → n ≤ u.write_cursor
      → ((o : Option HeadCache) (v : Updater FaultIo)
          → KeepsRegions n img v.io
          → n ≤ v.write_cursor
          → v.inactive_off ≡ u.inactive_off
          → Ensures Kept Failed (f o v))
      → Ensures Kept Failed ((append_head_cache h >>= f) u)
  unfolding append_head_cache
  append_head_cache-KeepsRegions u none f k l go = go none u k l refl
  append_head_cache-KeepsRegions u (some (bytes, verbatim, rawlen)) f k l go =
      rw (continue_with_assoc f _ (append_bytes bytes u)) (
        append_bytes-bind Kept Failed u bytes _ k.honest
          (λ io w.
            go _ (record u { io = io; write_cursor = u.write_cursor + length bytes })
              (KeepsRegions-Wrote n img u.io io u.write_cursor bytes k w (inl l)) (omega (arith, l))
              refl)
          (λ io c. tt))

  pub commit-KeepsRegions :
      (u : Updater FaultIo)
      → KeepsRegions n img u.io
      → n ≤ u.write_cursor
      → u.inactive_off + sb_len ≤ data_start
      → Ensures Kept Failed (commit crc32 u)
  unfolding commit
  commit-KeepsRegions u k l fits =
      append_head_cache-KeepsRegions u u.head_cache (commit_from crc32) k l
        (λ o v kv lv e. commit_from-KeepsRegions v o kv lv (omega (arith, fits, e)))
