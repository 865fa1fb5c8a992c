-- ===== src/Session/Materialize.antt =====
-- Of crates/scrollz/src/core/wsession.rs.
-- The tail is written back.
use fuse_scrollfs.Bytes.{Bytes}
use fuse_scrollfs.Codec.{Zstd, max_decompressed_block}
use fuse_scrollfs.Prelude.{
  Bool, Bool-cases, Option, [], arith, false, inl, inr, length, none, refl, some, true, ℕ, ◌&&◌,
  ◌∷◌, ◌≡◌, ◌≤◌,
}
use fuse_scrollfs.Prelude.Exec.{Ensures, Ensures-bind, Ensures-mono, Exec}
use fuse_scrollfs.Prelude.Result.{Result, err, ok}
use fuse_scrollfs.Rmw.Block.{seal_plain_block}
use fuse_scrollfs.Rmw.BlockRules.{LoadsBlock-WroteBlock, WroteBlock, seal_plain_block_lem}
use fuse_scrollfs.Rmw.Load.{CodecParams}
use fuse_scrollfs.Rmw.View.{IsFile, IsSound}
use fuse_scrollfs.Session.Ops.{materialize, materialize_tail, seal_into}
use fuse_scrollfs.Session.Tail.{Open, Tail, is_empty, nothing_to_seal, on_disk}
use fuse_scrollfs.Session.View.{FileIs, TailIs}
use fuse_scrollfs.Store.{Store}

pub Bool-and_left : (a b : Bool) → a && b ≡ true → a ≡ true
Bool-and_left true b h = refl
Bool-and_left false b h = h

pub is_empty-length : (bs : Bytes) → is_empty bs ≡ true → length bs ≡ 0
is_empty-length [] h = refl
is_empty-length (b ∷ bs) h = absurd cc

module _ {W A : Type 0} where
  -- The rule for a call on the backend.
  pub on_disk_lem :
      (Q : A → Open W → Type 0) (E : Open W → Type 0) (m : Exec W A) (s : Open W)
      → Ensures (λ a w. Q a (record s { disk = w })) (λ w. E (record s { disk = w })) (m s.disk)
      → Ensures Q E (on_disk m s)
  on_disk_lem Q E m s h = go (m s.disk) h
    where
      go :
          (r : Result A × W)
          → Ensures (λ a w. Q a (record s { disk = w })) (λ w. E (record s { disk = w })) r
          → Ensures Q E (r.0, record s { disk = r.1 })
      go (ok a, w) h = h
      go (err e, w) h = h

module _ {W : Type 0} (z : Zstd) (store : Store W) (ino : ℕ) (params : CodecParams)
    (fails : W → Type 0) (sound : IsSound z store ino params fails) (cs : ℕ)
    (chunk_fits : cs ≤ max_decompressed_block) where
  -- The tail's block written over the backend's.
  WroteBlock-IsFile :
      (f : ℕ → ℕ) (size : ℕ) (w w' : W) (t : Tail)
      → TailIs z store ino params f size cs w t
      → WroteBlock z store ino params t.idx t.plain size cs w w'
      → IsFile z store ino params f size cs w'
  WroteBlock-IsFile f size w w' t i q = record {
    geometry = q.geometry;
    block = λ j.
        LoadsBlock-WroteBlock z store ino params fails sound f size cs t.idx j t.plain size w w' q
          (λ _. i.is_plain) (λ n. i.others j n);
  }

  pub seal_into_lem :
      (write : ℕ → Bytes → ℕ → Exec W (Unit {0})) (f : ℕ → ℕ) (size : ℕ) (s : Open W) (t : Tail)
      → TailIs z store ino params f size cs s.disk t
      → Ensures
          (λ _ w'. WroteBlock z store ino params t.idx t.plain size cs s.disk w')
          fails
          (write t.idx t.plain size s.disk)
      → Ensures
          (λ _ s'. (s'.tail ≡ none) × IsFile z store ino params f size cs s'.disk)
          (λ s'. fails s'.disk)
          (seal_into z store ino params true write t s)
  unfolding seal_into
  seal_into_lem write f size s t i h =
      let on_file : Unit {0} → Open W → Type 0 =
        λ _ s'. IsFile z store ino params f size cs s'.disk in
      rw i.whole_size (
        Ensures-bind on_file _ (λ s'. fails s'.disk) _ _
          (Ensures-bind on_file on_file (λ s'. fails s'.disk) (on_disk (write t.idx t.plain size) s)
            _
            (on_disk_lem on_file (λ s'. fails s'.disk) (write t.idx t.plain size) s
              (Ensures-mono _ _ fails (write t.idx t.plain size s.disk)
                (λ _ w' q. WroteBlock-IsFile f size s.disk w' t i q) h))
            (λ _ s1 q. q))
          (λ _ s2 q. (refl, q)))

  pub materialize_tail_lem :
      (f : ℕ → ℕ) (size : ℕ) (s : Open W) (t : Tail)
      → TailIs z store ino params f size cs s.disk t
      → Ensures
          (λ _ s'. (s'.tail ≡ none) × IsFile z store ino params f size cs s'.disk)
          (λ s'. fails s'.disk)
          (materialize_tail z store ino params true t s)
  unfolding materialize_tail
  materialize_tail_lem f size s t i = elim (Bool-cases (nothing_to_seal t)) [
    | inl nothing ↦
        rw nothing
          (refl, i.fresh (is_empty-length t.plain (Bool-and_left (is_empty t.plain) _ nothing)))
    | inr some_bytes ↦ rw some_bytes (
        seal_into_lem (seal_plain_block z store ino params) f size s t i (
          seal_plain_block_lem z store ino params fails sound t.idx t.plain size i.stored_size cs
            s.disk (omega (arith, i.is_plain.short, chunk_fits)) i.geometry))
  ]

  -- Afterwards the backend has the whole file.
  pub materialize_lem :
      (f : ℕ → ℕ) (size : ℕ) (s : Open W) (o : Option Tail)
      → s.tail ≡ o
      → FileIs z store ino params f size cs s.disk o
      → Ensures
          (λ _ s'. (s'.tail ≡ none) × IsFile z store ino params f size cs s'.disk)
          (λ s'. fails s'.disk)
          (materialize z store ino params true s)
  unfolding materialize
  materialize_lem f size s none e h = rw (materialize, e) (e, h)
  materialize_lem f size s (some t) e h = rw (materialize, e) (materialize_tail_lem f size s t h)
