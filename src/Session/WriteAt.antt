-- ===== src/Session/WriteAt.antt =====
-- Of crates/scrollz/src/core/wsession.rs.
-- A write to an open file against the file it leaves.
use fuse_scrollfs.Bytes.{Bytes, u64_mod}
use fuse_scrollfs.Bytes.Nth.{length-fit}
use fuse_scrollfs.Codec.{Zstd, max_decompressed_block}
use fuse_scrollfs.Prelude.{
  Bool-cases, Option, [], ap, arith, if◌then◌else◌, inl, inr, length, max, none, refl, some, sym,
  true, ℕ, ◌%◌, ◌*◌, ◌+◌, ◌/◌, ◌<◌, ◌==◌, ◌||◌, ◌∷◌, ◌≡◌, ◌≤◌,
}
use fuse_scrollfs.Prelude.Exec.{
  Ensures, Ensures-bind, Ensures-mono, Exec, continue_with, pure, ◌>>◌,
}
use fuse_scrollfs.Prelude.Result.{Result, ok}
use fuse_scrollfs.Rmw.Load.{CodecParams}
use fuse_scrollfs.Rmw.Patch.{overwrite}
use fuse_scrollfs.Rmw.TruncateAt.{IsFile-beyond}
use fuse_scrollfs.Rmw.View.{IsFile, IsSound}
use fuse_scrollfs.Rmw.Write.{max_sparse_extension, write_at}
use fuse_scrollfs.Rmw.WriteAt.{write_at-overwrite}
use fuse_scrollfs.Session.Append.{LoopIs, LoopIs-Holds, append_loop_lem}
use fuse_scrollfs.Session.Materialize.{materialize_lem, on_disk_lem}
use fuse_scrollfs.Session.Ops.{
  append_into_tail, append_loop, ensure_tail_loaded, load_tail, materialize, refill_tail_from_store,
  write_at_locked, write_elsewhere, write_open,
}
use fuse_scrollfs.Session.Tail.{Open, Tail, empty_tail, loaded_tail, on_disk, start_empty_tail}
use fuse_scrollfs.Session.View.{
  Holds, Holds-FileIs, Holds-geometry, empty_tail-TailIs, loaded_tail-TailIs,
}
use fuse_scrollfs.Store.{Store}
use mathlib.Core.Path.{subst}
use native.Mathlib.Nat.{div-add-mod, mod-lt}

module _ {W : Type 0} (z : Zstd) (store : Store W) (ino : ℕ) (params : CodecParams)
    (fails : W → Type 0) (sound : IsSound z store ino params fails) (cs : ℕ) (positive : 0 < cs)
    (chunk_fits : cs ≤ max_decompressed_block) where
  load_tail_lem :
      (f : ℕ → ℕ) (size : ℕ) (rest : Bytes) (s : Open W)
      → 0 < size % cs
      → IsFile z store ino params f size cs s.disk
      → Ensures
          (λ _ s'.
            LoopIs z store ino params fails sound cs positive chunk_fits f size s'.disk rest
              s'.tail)
          (λ s'. fails s'.disk)
          (load_tail z store ino params true size cs s)
  unfolding load_tail loaded_tail
  load_tail_lem f size rest s r file =
      let b = file.block (size / cs) in
      let i = loaded_tail-TailIs z store ino params f size cs s.disk positive r b file in
      rw b.loaded (i, ground (arith, length-fit (size % cs) b.plain, mod-lt size positive))

  ensure_tail_loaded-none :
      (size : ℕ) (s : Open W)
      → s.tail ≡ none
      → ensure_tail_loaded z store ino params true cs size s ≡ (
          if size == 0 || (size % cs) == 0
          then start_empty_tail size cs s
          else load_tail z store ino params true size cs s)
  unfolding ensure_tail_loaded
  ensure_tail_loaded-none size s e =
      ap
        (λ o. elim o as (λ _. Result (Unit {0}) × Open W) [
          | none ↦
              if size == 0 || (size % cs) == 0
              then start_empty_tail size cs s
              else load_tail z store ino params true size cs s
          | some t ↦ (ok tt, s)
        ])
        e

  ensure_tail_loaded_lem :
      (f : ℕ → ℕ) (size : ℕ) (rest : Bytes) (s : Open W) (o : Option Tail)
      → s.tail ≡ o
      → Holds z store ino params f size cs s.disk o
      → Ensures
          (λ _ s'.
            LoopIs z store ino params fails sound cs positive chunk_fits f size s'.disk rest
              s'.tail)
          (λ s'. fails s'.disk)
          (ensure_tail_loaded z store ino params true cs size s)
  unfolding ensure_tail_loaded start_empty_tail empty_tail
  ensure_tail_loaded_lem f size rest s (some t) e h = rw (ensure_tail_loaded, e, e) h
  ensure_tail_loaded_lem f size rest s none e file =
      rw (ensure_tail_loaded-none size s e) (elim (Bool-cases (size == 0 || (size % cs) == 0)) [
        | inl aligned ↦
            let m : size % cs ≡ 0 = ground (arith, aligned, div-add-mod size cs) in
            let n : size / cs * cs ≡ size = omega (arith, m, div-add-mod size cs) in
            rw aligned (
              empty_tail-TailIs z store ino params f size cs s.disk n
                  (λ q l.
                    IsFile-beyond z store ino params fails sound cs positive chunk_fits f size q
                      s.disk l file)
                  file,
              positive,
            )
        | inr partial ↦ rw partial (load_tail_lem f size rest s (ground (arith, partial)) file)
      ])

  append_into_tail_lem :
      (f : ℕ → ℕ) (size : ℕ) (input : Bytes) (s : Open W)
      → Holds z store ino params f size cs s.disk s.tail
      → size + length input < u64_mod
      → Ensures
          (λ n s'.
            (n ≡ length input)
            × Holds z store ino params
                (overwrite f size input)
                (size + length input)
                cs
                s'.disk
                s'.tail)
          (λ s'. fails s'.disk)
          (append_into_tail z store ino params true input cs size s)
  unfolding append_into_tail
  append_into_tail_lem f size input s h o =
      let holds : Unit {0} → Open W → Type 0 = λ _ s'.
        Holds z store ino params (overwrite f size input) (size + length input) cs s'.disk
          s'.tail in
      let total : ℕ → Open W → Type 0 = λ n s'. (n ≡ length input) × holds tt s' in
      let loop : Unit {0} → Exec (Open W) (Unit {0}) =
        λ _. append_loop z store ino params true (length input) cs size input in
      Ensures-bind holds total (λ s'. fails s'.disk)
        (continue_with loop (ensure_tail_loaded z store ino params true cs size s))
        (λ _. pure (length input))
        (Ensures-bind
          (λ _ s'.
            LoopIs z store ino params fails sound cs positive chunk_fits f size s'.disk input
              s'.tail)
          holds (λ s'. fails s'.disk) (ensure_tail_loaded z store ino params true cs size s) loop
          (ensure_tail_loaded_lem f size input s s.tail refl h)
          (λ _ s1 q.
            append_loop_lem z store ino params fails sound cs positive chunk_fits (length input) f
              size input s1 s1.tail refl (omega arith) q o))
        (λ _ s2 q. (refl, q))

  refill_lem :
      (f : ℕ → ℕ) (size : ℕ) (s : Open W)
      → s.tail ≡ none
      → IsFile z store ino params f size cs s.disk
      → Ensures
          (λ _ s'. Holds z store ino params f size cs s'.disk s'.tail)
          (λ s'. fails s'.disk)
          (refill_tail_from_store z store ino params true s)
  unfolding refill_tail_from_store
  refill_lem f size s e file =
      rw (refill_tail_from_store, file.geometry)
        (elim (Bool-cases (size == 0 || (size % cs) == 0)) [
          | inl aligned ↦
              rw aligned (subst (λ o. Holds z store ino params f size cs s.disk o) (sym e) file)
          | inr partial ↦ rw partial (
              Ensures-mono _ _ (λ s'. fails s'.disk) (load_tail z store ino params true size cs s)
                (λ _ s' q.
                  LoopIs-Holds z store ino params fails sound cs positive chunk_fits f size s'.disk
                    s'.tail q)
                (load_tail_lem f size [] s (ground (arith, partial)) file))
        ])

  write_elsewhere_lem :
      (f : ℕ → ℕ) (offset size : ℕ) (b : ℕ) (bs : Bytes) (s : Open W)
      → offset + length (b ∷ bs) + cs ≤ u64_mod
      → offset ≤ size + max_sparse_extension
      → Holds z store ino params f size cs s.disk s.tail
      → Ensures
          (λ n s'.
            (n ≡ length (b ∷ bs))
            × Holds z store ino params
                (overwrite f offset (b ∷ bs))
                (max size (offset + length (b ∷ bs)))
                cs
                s'.disk
                s'.tail)
          (λ s'. fails s'.disk)
          (write_elsewhere z store ino params true offset (b ∷ bs) s)
  unfolding write_elsewhere
  write_elsewhere_lem f offset size b bs s o near h =
      let f' = overwrite f offset (b ∷ bs) in
      let size' = max size (offset + length (b ∷ bs)) in
      let holds : ℕ → Open W → Type 0 =
        λ n s'. (n ≡ length (b ∷ bs)) × Holds z store ino params f' size' cs s'.disk s'.tail in
      let written : ℕ → Open W → Type 0 = λ n s'.
        (n ≡ length (b ∷ bs)) × (s'.tail ≡ none) × IsFile z store ino params f' size' cs s'.disk in
      let on_backend : Unit {0} → Exec (Open W) ℕ =
        λ _. on_disk (write_at z store ino params offset (b ∷ bs)) in
      Ensures-bind written holds (λ s'. fails s'.disk)
        (continue_with on_backend (materialize z store ino params true s))
        (λ n. refill_tail_from_store z store ino params true >> pure n)
        (Ensures-bind _ written (λ s'. fails s'.disk) (materialize z store ino params true s)
          on_backend
          (materialize_lem z store ino params fails sound cs chunk_fits f size s s.tail refl
            (Holds-FileIs z store ino params f size cs s.disk s.tail h))
          (λ _ s1 q.
            on_disk_lem written (λ s'. fails s'.disk) (write_at z store ino params offset (b ∷ bs))
              s1
              (Ensures-mono _ _ fails (write_at z store ino params offset (b ∷ bs) s1.disk)
                (λ n w' r. (r.0, q.0, r.1))
                (write_at-overwrite z store ino params fails sound f offset size cs b bs s1.disk
                  positive chunk_fits o near (q.1)))))
        (λ n s2 q.
          Ensures-bind _ holds (λ s'. fails s'.disk)
            (refill_tail_from_store z store ino params true s2) (λ _. pure n)
            (refill_lem f' size' s2 (q.1) (q.2)) (λ _ s3 r. (q.0, r)))

  -- With the tail buffer enabled, on an open file with chunks of 1 byte to 256 MiB, for a write
  -- of at least one byte whose end plus one chunk does not pass 2^64 and that starts at most 1
  -- GiB past the end, over a lawful store and codec: write_at_locked, on the append path and on
  -- the other, returns the number of bytes and leaves the open file, its tail included,
  -- overwritten by them; every error leaves a state of the store that an error of the store or of
  -- the codec may leave, and the append loop never runs out of the fuel of one round for each
  -- byte where these do not fail.
  pub write_at_locked-overwrite :
      (f : ℕ → ℕ) (offset size : ℕ) (b : ℕ) (bs : Bytes) (s : Open W)
      → offset + length (b ∷ bs) + cs ≤ u64_mod
      → offset ≤ size + max_sparse_extension
      → Holds z store ino params f size cs s.disk s.tail
      → Ensures
          (λ n s'.
            (n ≡ length (b ∷ bs))
            × Holds z store ino params
                (overwrite f offset (b ∷ bs))
                (max size (offset + length (b ∷ bs)))
                cs
                s'.disk
                s'.tail)
          (λ s'. fails s'.disk)
          (write_at_locked z store ino params true offset (b ∷ bs) s)
  unfolding write_at_locked write_open
  write_at_locked-overwrite f offset size b bs s o near h =
      rw (write_open, Holds-geometry z store ino params f size cs s h)
        (elim (Bool-cases (offset == size)) [
          | inl at_end ↦
              let e : offset ≡ size = ground (arith, at_end) in
              let m : size + length (b ∷ bs) ≡ max size (offset + length (b ∷ bs)) =
                omega (arith, e) in
              rw (at_end, sym m, e)
                (append_into_tail_lem f size (b ∷ bs) s h (omega (arith, e, o, positive)))
          | inr other ↦ rw other (write_elsewhere_lem f offset size b bs s o near h)
        ])
