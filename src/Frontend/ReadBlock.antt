-- ===== src/Frontend/ReadBlock.antt =====
-- One round of `read_range` of crates/scrollz/src/rwfs.rs on an open file whose blocks are whole.
use fuse_scrollfs.BlockCache.{Inner, get}
use fuse_scrollfs.Bytes.{Bytes}
use fuse_scrollfs.Bytes.Nth.{nth}
use fuse_scrollfs.Codec.{Zstd, decompress_block, plain}
use fuse_scrollfs.Frontend.Cached.{AllCached, Got, get-Got, insert-AllCached}
use fuse_scrollfs.Frontend.Read.{cache_block, decode_found, fetch, plain_block}
use fuse_scrollfs.Prelude.{
  ==_iff, Bool, Bool-cases, Option, [], ap, inl, inr, length, ltb, none, refl, some, sym, true, ℕ,
  ◌*◌, ◌+◌, ◌<◌, ◌==◌, ◌∙◌, ◌≡◌, ◌⊎◌,
}
use fuse_scrollfs.Prelude.Exec.{Ensures, Ensures-lift, continue_with, modify, pure, ◌>>=◌}
use fuse_scrollfs.Prelude.Result.{Result, err, ok}
use fuse_scrollfs.Rmw.Load.{CodecParams, plain_of}
use fuse_scrollfs.Rmw.View.{LoadedFrom, LoadsBlock, PlainBlock, load_plain_block-LoadedFrom}
use fuse_scrollfs.Session.Tail.{Open, Tail, read_tail_block}
use fuse_scrollfs.Session.View.{Holds}
use fuse_scrollfs.Store.{Store, StoredBlock}
use mathlib.Core.Path.{subst}

-- A plain block that holds all its bytes, unless the file ends in it.
abbrev pub WholeBlock : (ℕ → ℕ) → ℕ → ℕ → ℕ → Bytes → Type 0
WholeBlock f size cs idx plain =
    PlainBlock f size cs idx plain × (idx * cs + cs < size → length plain ≡ cs)

module _ {W : Type 0} (z : Zstd) (store : Store W) (ino : ℕ) (params : CodecParams) (f : ℕ → ℕ)
    (size cs : ℕ) where
  -- The head cache, where there is one, is the beginning of the file.
  abbrev pub HeadIs : Result (Option (Bytes × Bool)) → Type 0
  HeadIs (err reason) = ⊥
  HeadIs (ok none) = Unit
  HeadIs (ok (some (bytes, verbatim))) =
      (plain : Bytes) × (decompress_block z bytes params.algo verbatim params.dict ≡ ok plain)
      × ((i : ℕ) → i < length plain → nth plain i ≡ f i)

  -- An open file that holds `f`, with no block inside the file that is stored short.
  pub record IsReadable (s : Open W) : Type 0 where
    pub holds : Holds z store ino params f size cs s.disk s.tail
    pub whole :
        (idx : ℕ) (b : StoredBlock) (plain : Bytes)
        → idx * cs + cs < size
        → store.get_block s.disk ino idx ≡ ok (some b)
        → decompress_block z b.bytes params.algo b.stored_verbatim params.dict ≡ ok plain
        → length plain ≡ cs
    pub head : (off len : ℕ) → HeadIs (store.read_head_cache s.disk ino off len)

  -- A block that is not there is all zeros.
  abbrev pub FoundIs : ℕ → Option Bytes → Type 0
  FoundIs idx none = (i : ℕ) → i < cs → f (idx * cs + i) ≡ 0
  FoundIs idx (some plain) = WholeBlock f size cs idx plain

  module _ (configured_cap probe_interval : ℕ) (now : ℕ → ℕ) (available : ℕ → Option ℕ) where
    cache_block_lem :
        (tail_idx idx : ℕ) (plain : Bytes) (g : Inner)
        → WholeBlock f size cs idx plain
        → AllCached ino (WholeBlock f size cs) g
        → AllCached ino (WholeBlock f size cs) (
            cache_block z store ino params true configured_cap probe_interval now available tail_idx
              idx plain g)
    cache_block_lem tail_idx idx plain g k c = elim (Bool-cases (ltb idx tail_idx)) [
      | inl e ↦ rw e (
          insert-AllCached ino (WholeBlock f size cs) configured_cap probe_interval (now idx)
            (available idx) idx plain g k c)
      | inr e ↦ rw e c
    ]

    decode_found_lem :
        (tail_idx idx : ℕ) (o : Option StoredBlock) (g : Inner) (plain : Bytes)
        → plain_of z params o ≡ ok plain
        → PlainBlock f size cs idx plain
        → ((b : StoredBlock) → o ≡ some b → idx * cs + cs < size → length plain ≡ cs)
        → AllCached ino (WholeBlock f size cs) g
        → Ensures
            (λ got g'. FoundIs idx got × AllCached ino (WholeBlock f size cs) g')
            (λ _. ⊥)
            (decode_found z store ino params true configured_cap probe_interval now available
              tail_idx idx o g)
    decode_found_lem tail_idx idx none g plain e p wh c =
        let q : ok [] ≡ ok plain = e in
        let r : plain ≡ [] = cc in (λ i l. sym (p.content i l) ∙ ap (λ xs. nth xs i) r, c)
    decode_found_lem tail_idx idx (some b) g plain e p wh c =
        Ensures-lift (λ got g'. FoundIs idx got × AllCached ino (WholeBlock f size cs) g') (λ _. ⊥)
          (decompress_block z b.bytes params.algo b.stored_verbatim params.dict) g
          (λ decoded.
            modify (
              cache_block z store ino params true configured_cap probe_interval now available
                tail_idx idx decoded)
            >>= λ _. pure (some decoded))
          (λ decoded q.
            let r : ok decoded ≡ ok plain = sym q ∙ e in
            let same : plain ≡ decoded = cc in
            let known : WholeBlock f size cs idx decoded =
              subst (WholeBlock f size cs idx) same (p, wh b refl) in
            (known, cache_block_lem tail_idx idx decoded g known c))
          (λ reason q. let r : err reason ≡ ok plain = sym q ∙ e in absurd cc)

    module _ (s : Open W) (r : IsReadable s) where
      abbrev pub BlockIs : ℕ → Option Bytes → Inner → Type 0
      BlockIs idx got g = FoundIs idx got × AllCached ino (WholeBlock f size cs) g

      fetched :
          (tail_idx idx : ℕ) (g : Inner) (b : LoadsBlock z store ino params f size cs idx s.disk)
          → (q : Result (Option StoredBlock)) → store.get_block s.disk ino idx ≡ q
          → LoadedFrom z store ino params b.plain q
          → AllCached ino (WholeBlock f size cs) g
          → Ensures
              (BlockIs idx)
              (λ _. ⊥)
              (continue_with
                (decode_found z store ino params true configured_cap probe_interval now available
                  tail_idx idx)
                (q, g))
      fetched tail_idx idx g b (ok got) e l c =
          decode_found_lem tail_idx idx got g b.plain l b.is_plain
            (λ blk h m.
              let here : store.get_block s.disk ino idx ≡ ok (some blk) = e ∙ ap (λ o. ok o) h in
              r.whole idx blk b.plain m here (subst (λ o. plain_of z params o ≡ ok b.plain) h l))
            c
      fetched tail_idx idx g b (err _) e l c = absurd l

      fetch_lem :
          (tail_idx idx : ℕ) (g : Inner)
          → LoadsBlock z store ino params f size cs idx s.disk
          → AllCached ino (WholeBlock f size cs) g
          → Ensures
              (BlockIs idx)
              (λ _. ⊥)
              (fetch z store ino params true configured_cap probe_interval now available tail_idx
                idx s.disk g)
      unfolding fetch
      fetch_lem tail_idx idx g b c =
          fetched tail_idx idx g b (store.get_block s.disk ino idx) refl
            (load_plain_block-LoadedFrom z store ino params s.disk idx b.plain b.loaded) c

      plain_from :
          (tail_idx idx : ℕ) (q : Option Bytes × Inner)
          → LoadsBlock z store ino params f size cs idx s.disk
          → Got ino (WholeBlock f size cs) idx q
          → Ensures
              (BlockIs idx)
              (λ _. ⊥)
              (elim q.0 [
                | some cached ↦ (ok (some cached), q.1)
                | none ↦
                    fetch z store ino params true configured_cap probe_interval now available
                      tail_idx idx s.disk q.1
              ])
      plain_from tail_idx idx (some cached, g') b (k, c) = (k, c)
      plain_from tail_idx idx (none, g') b c = fetch_lem tail_idx idx g' b c

      pub plain_block_lem :
          (tail_idx idx : ℕ) (g : Inner)
          → LoadsBlock z store ino params f size cs idx s.disk
          → AllCached ino (WholeBlock f size cs) g
          → Ensures
              (BlockIs idx)
              (λ _. ⊥)
              (plain_block z store ino params true configured_cap probe_interval now available
                tail_idx idx s.disk g)
      unfolding plain_block
      plain_block_lem tail_idx idx g b c =
          plain_from tail_idx idx (get configured_cap ino idx g) b
            (get-Got ino (WholeBlock f size cs) configured_cap idx g c)

      -- What the open tail has of a block, or else the backend.
      pub tail_block :
          (idx : ℕ)
          → ((plain : Bytes) × (read_tail_block true idx s ≡ some plain)
              × PlainBlock f size cs idx plain)
            ⊎ ((read_tail_block true idx s ≡ none)
                × LoadsBlock z store ino params f size cs idx s.disk)
      unfolding read_tail_block
      tail_block idx = go s.tail refl r.holds
        where
          go :
              (o : Option Tail)
              → s.tail ≡ o
              → Holds z store ino params f size cs s.disk o
              → ((plain : Bytes) × (read_tail_block true idx s ≡ some plain)
                  × PlainBlock f size cs idx plain)
                ⊎ ((read_tail_block true idx s ≡ none)
                    × LoadsBlock z store ino params f size cs idx s.disk)
          go none e h = inr (rw (read_tail_block, e) refl, h.block idx)
          go (some t) e h = elim (Bool-cases (t.idx == idx)) [
            | inl same ↦ inl (
              t.plain,
              rw (read_tail_block, e, same) refl,
              subst (λ j. PlainBlock f size cs j t.plain) ((==_iff t.idx idx).0 same) h.0.is_plain,
            )
            | inr other ↦ inr (
              rw (read_tail_block, e, other) refl,
              h.0.others idx (λ q. let u = (==_iff t.idx idx).1 (sym q) in cc),
            )
          ]
