-- ===== src/BlockIo/FaultIo/Crash.antt =====
-- What a crash can leave of a device whose pending writes all lie behind a given place.
-- Every pending write begins at `reach` or later.
use fuse_scrollfs.BlockIo.FaultIo.{
  FaultIo, PendingWrite, apply, apply_all, apply_masked, bit_set, crash_with_mask, hits, sync,
  sync_fails, write_at, write_or_fail, write_torn,
}
use fuse_scrollfs.BlockIo.FaultIo.Apply.{length-apply, take-apply}
use fuse_scrollfs.Bytes.{Bytes}
use fuse_scrollfs.Prelude.{
  Bool-cases, List, [], ap, arith, false, inl, inr, length, ltb, none, refl, take, ℕ, ◌++◌, ◌+◌,
  ◌∙◌, ◌∷◌, ◌≡◌, ◌≤◌, ◌⊎◌,
}
use fuse_scrollfs.Prelude.Exec.{Ensures}

abbrev pub Pending : ℕ → List PendingWrite → Type 0
Pending reach [] = Unit
Pending reach (w ∷ ws) = (reach ≤ w.off) × Pending reach ws

pub Pending-append :
    (reach : ℕ) (ws : List PendingWrite) (w : PendingWrite)
    → Pending reach ws
    → reach ≤ w.off
    → Pending reach (ws ++ w ∷ [])
Pending-append reach [] w h l = (l, tt)
Pending-append reach (v ∷ ws) w h l = (h.0, Pending-append reach ws w h.1 l)

-- `img'` has all of `img` up to `reach`.
pub record Extends (reach : ℕ) (img img' : Bytes) : Type 0 where
  pub same : take reach img' ≡ take reach img
  pub long : reach ≤ length img'

pub Extends-apply :
    (reach : ℕ) (img : Bytes) (off : ℕ) (bytes : Bytes)
    → reach ≤ off
    → reach ≤ length img
    → Extends reach img (apply img off bytes)
Extends-apply reach img off bytes h l = record {
  same = take-apply img off bytes reach h l;
  long = omega (arith, length-apply img off bytes);
}

Extends-trans :
    {reach : ℕ} {a b c : Bytes} → Extends reach a b → Extends reach b c → Extends reach a c
Extends-trans x y = record { same = y.same ∙ x.same; long = y.long }

pub Extends-apply_all :
    (reach : ℕ) (img : Bytes) (ws : List PendingWrite)
    → reach ≤ length img
    → Pending reach ws
    → Extends reach img (apply_all img ws)
unfolding apply_all
Extends-apply_all reach img [] l h = record { same = refl; long = l }
Extends-apply_all reach img (w ∷ ws) l h =
    let e = Extends-apply reach img w.off w.bytes h.0 l in
    Extends-trans e (Extends-apply_all reach (apply img w.off w.bytes) ws e.long h.1)

pub Extends-apply_masked :
    (mask i reach : ℕ) (img : Bytes) (ws : List PendingWrite)
    → reach ≤ length img
    → Pending reach ws
    → Extends reach img (apply_masked mask i img ws)
unfolding apply_masked
Extends-apply_masked mask i reach img [] l h = record { same = refl; long = l }
Extends-apply_masked mask i reach img (w ∷ ws) l h = elim (Bool-cases (bit_set mask i)) [
  | inl kept ↦
      let e = Extends-apply reach img w.off w.bytes h.0 l in
      rw kept (
        Extends-trans e
          (Extends-apply_masked mask (i + 1) reach (apply img w.off w.bytes) ws e.long h.1))
  | inr lost ↦ rw lost (Extends-apply_masked mask (i + 1) reach img ws l h.1)
]

-- A crash keeps what lies before the pending writes, whichever of them it keeps.
pub Extends-crash_with_mask :
    (st : FaultIo) (reach mask : ℕ)
    → reach ≤ length st.durable
    → Pending reach st.dirty
    → Extends reach st.durable (crash_with_mask st mask)
unfolding crash_with_mask
Extends-crash_with_mask st reach mask l h =
    Extends-apply_masked mask 0 reach st.durable st.dirty l h

pub apply_all-append :
    (buf : Bytes) (ws : List PendingWrite) (w : PendingWrite)
    → apply_all buf (ws ++ w ∷ []) ≡ apply (apply_all buf ws) w.off w.bytes
unfolding apply_all
apply_all-append buf [] w = refl
apply_all-append buf (v ∷ ws) w = apply_all-append (apply buf v.off v.bytes) ws w

-- With one write pending a crash leaves the bytes without it, or with it.
pub crash_with_mask_one :
    (st : FaultIo) (mask : ℕ) (w : PendingWrite)
    → st.dirty ≡ w ∷ []
    → (crash_with_mask st mask ≡ st.durable)
      ⊎ (crash_with_mask st mask ≡ apply st.durable w.off w.bytes)
unfolding crash_with_mask
crash_with_mask_one st mask w e = elim (Bool-cases (bit_set mask 0)) [
  | inl kept ↦ inr (rw (e, kept))
  | inr lost ↦ inl (rw (e, lost))
]

pub crash_with_mask_none :
    (st : FaultIo) (mask : ℕ) → st.dirty ≡ [] → crash_with_mask st mask ≡ st.durable
unfolding crash_with_mask
crash_with_mask_none st mask e = rw e

-- A device that tears no write and whose barriers do what they report; writes and barriers may
-- still fail.
pub record IsHonest (st : FaultIo) : Type 0 where
  pub tear_write : st.tear_write ≡ none
  pub soft_syncs : st.soft_syncs ≡ 0

pub record Wrote (st : FaultIo) (off : ℕ) (bytes : Bytes) (io : FaultIo) : Type 0 where
  pub honest : IsHonest io
  pub durable : io.durable ≡ st.durable
  pub dirty : io.dirty ≡ st.dirty ++ record { off = off; bytes = bytes } ∷ []

pub record Unchanged (st io : FaultIo) : Type 0 where
  pub honest : IsHonest io
  pub durable : io.durable ≡ st.durable
  pub dirty : io.dirty ≡ st.dirty

pub record Synced (st io : FaultIo) : Type 0 where
  pub honest : IsHonest io
  pub durable : io.durable ≡ apply_all st.durable st.dirty
  pub dirty : io.dirty ≡ []

write_or_fail_outcome :
    (st : FaultIo) (off : ℕ) (bytes : Bytes)
    → IsHonest st
    → Ensures (λ _ io. Wrote st off bytes io) (λ io. Unchanged st io) (write_or_fail st off bytes)
unfolding write_or_fail
write_or_fail_outcome st off bytes h =
    elim (Bool-cases (hits st.fail_write off (off + length bytes))) [
      | inl hit ↦ rw hit (record {
        honest = record { tear_write = h.tear_write; soft_syncs = h.soft_syncs };
        durable = refl;
        dirty = refl;
      })
      | inr miss ↦ rw miss (record {
        honest = record { tear_write = h.tear_write; soft_syncs = h.soft_syncs };
        durable = refl;
        dirty = refl;
      })
    ]

-- A write is pending, or it failed and nothing changed.
pub write_at_outcome :
    (st : FaultIo) (off : ℕ) (bytes : Bytes)
    → IsHonest st
    → Ensures (λ _ io. Wrote st off bytes io) (λ io. Unchanged st io) (write_at st off bytes)
write_at_outcome st off bytes h =
    let e : write_at st off bytes ≡ write_or_fail st off bytes =
      unfold write_at in ap (λ t. write_torn t st off bytes) h.tear_write in
    rw e (write_or_fail_outcome st off bytes h)

-- A barrier makes all pending writes durable, or it failed and nothing changed.
pub sync_outcome :
    (st : FaultIo) → IsHonest st → Ensures (λ _ io. Synced st io) (λ io. Unchanged st io) (sync st)
unfolding sync
sync_outcome st h =
    let hard : ltb 0 st.soft_syncs ≡ false = ap (ltb 0) h.soft_syncs in
    elim (Bool-cases (sync_fails st.fail_sync_at (st.sync_calls + 1))) [
      | inl fails ↦
          rw (hard, fails)
            (record {
              honest = record { tear_write = h.tear_write; soft_syncs = h.soft_syncs };
              durable = refl;
              dirty = refl;
            })
      | inr works ↦
          rw (hard, works)
            (record {
              honest = record { tear_write = h.tear_write; soft_syncs = h.soft_syncs };
              durable = refl;
              dirty = refl;
            })
    ]
