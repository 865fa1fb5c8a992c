-- ===== src/Frontend/Cached.antt =====
-- The blocks in the cache of crates/scrollz/src/core/blockcache.rs, as a reader sees them: no
-- method of the cache changes the bytes of a block that another caller put there.
use fuse_scrollfs.BlockCache.{
  Inner, Key, Node, evict, evict_entry, first_entry, get, insert, insert_node, keyed_nat,
  keyed_pair, refresh_effective_cap, remove_key,
}
use fuse_scrollfs.BlockCache.Evict.{evict_entry-none, evict_entry-some, evict_step, evict_stop}
use fuse_scrollfs.BlockCache.Methods.{remove_key-none, remove_key-some}
use fuse_scrollfs.Bytes.{Bytes}
use fuse_scrollfs.Dict.{erase, find, find-erase-some, find-put-some, put}
use fuse_scrollfs.Prelude.{
  Bool, Bool-cases, Option, Option-cases, ap, if◌then◌else◌, inl, inr, leb, length, ltb, none, refl,
  some, suc, sym, true, zero, ℕ, ◌+◌, ◌-◌, ◌==◌, ◌||◌, ◌≡◌,
}
use mathlib.Core.Path.{subst}

-- Every block that `g` has of the inode satisfies `P`.
abbrev pub AllCached : ℕ → (ℕ → Bytes → Type 0) → Inner → Type 0
AllCached ino P g = (idx : ℕ) (n : Node) → find (ino, idx) g.map ≡ some n → P idx n.bytes

module _ (ino : ℕ) (P : ℕ → Bytes → Type 0) where
  remove_key-AllCached :
      (g : Inner) (k : Key) → AllCached ino P g → AllCached ino P (remove_key g k)
  remove_key-AllCached g k h = elim (Option-cases (find k g.map)) [
    | inl e ↦ subst (AllCached ino P) (sym (remove_key-none g k e)) h
    | inr (n, e) ↦
        subst (AllCached ino P) (sym (remove_key-some g k n e))
          λ idx m f. h idx m (find-erase-some k (ino, idx) g.map f).1
  ]

  evict_entry-AllCached :
      (g : Inner) (s : ℕ) (k : Key) → AllCached ino P g → AllCached ino P (evict_entry g s k)
  evict_entry-AllCached g s k h = elim (Option-cases (find k g.map)) [
    | inl e ↦ subst (AllCached ino P) (sym (evict_entry-none g s k e)) h
    | inr (n, e) ↦
        subst (AllCached ino P) (sym (evict_entry-some g s k n e)) (elim (Bool-cases (n.seq == s)) [
          | inl at ↦ rw at (remove_key-AllCached g k h)
          | inr off ↦ rw off h
        ])
  ]

  evict-AllCached :
      (fuel blen : ℕ) (g : Inner) → AllCached ino P g → AllCached ino P (evict fuel blen g)
  unfolding evict
  evict-AllCached zero blen g h = h
  evict-AllCached (suc fuel) blen g h =
      elim (Option-cases
        (if ltb g.eff_cap (g.cur_bytes + blen) then first_entry g.order else none)) [
          | inl e ↦ subst (AllCached ino P) (sym (evict_stop fuel blen g e)) h
          | inr (x, e) ↦ subst (AllCached ino P) (sym (evict_step fuel blen g x e)) (
              evict-AllCached fuel blen (evict_entry g x.0 x.1) (evict_entry-AllCached g x.0 x.1 h))
        ]

  put-AllCached :
      (g g' : Inner) (idx : ℕ) (n : Node)
      → g'.map ≡ put (ino, idx) n g.map
      → P idx n.bytes
      → AllCached ino P g
      → AllCached ino P g'
  put-AllCached g g' idx n e p h j m f =
      let f' : find (ino, j) (put (ino, idx) n g.map) ≡ some m =
        subst (λ x. find (ino, j) x ≡ some m) e f in
      elim (find-put-some (ino, idx) (ino, j) n g.map f') [
        | inl (q, r) ↦
            let i : j ≡ idx = ap (λ k. k.1) q in
            let same : n ≡ m = cc in
            subst (λ x. P j x.bytes) same (subst (λ x. P x n.bytes) (sym i) p)
        | inr (ne, f'') ↦ h j m f''
      ]

  pub insert_node-AllCached :
      (idx : ℕ) (bytes : Bytes) (g : Inner)
      → P idx bytes
      → AllCached ino P g
      → AllCached ino P (insert_node ino idx bytes g)
  unfolding insert_node
  insert_node-AllCached idx bytes g p h =
      let g1 = remove_key g (ino, idx) in
      let g2 = evict (length g1.order) (length bytes) g1 in
      put-AllCached g2 (insert_node ino idx bytes g) idx
        (record { bytes = bytes; seq = g2.seq + 1 }) refl p
        (evict-AllCached (length g1.order) (length bytes) g1 (remove_key-AllCached g (ino, idx) h))

  refresh-map :
      (cap probe_interval now : ℕ) (available : Option ℕ) (g : Inner)
      → (refresh_effective_cap cap probe_interval now available g).map ≡ g.map
  unfolding refresh_effective_cap
  refresh-map cap probe_interval now available g =
      let due : Bool = elim g.last_probe [ none ↦ true | some t ↦ leb probe_interval (now - t) ] in
      elim (Bool-cases due) [ inl e ↦ rw e refl | inr e ↦ rw e refl ]

  -- An insertion keeps what is known of the cached blocks, if it is known of the new one.
  pub insert-AllCached :
      (cap probe_interval now : ℕ) (available : Option ℕ) (idx : ℕ) (bytes : Bytes) (g : Inner)
      → P idx bytes
      → AllCached ino P g
      → AllCached ino P (insert cap probe_interval now available ino idx bytes g)
  unfolding insert
  insert-AllCached cap probe_interval now available idx bytes g p h =
      let g' = refresh_effective_cap cap probe_interval now available g in
      let h' : AllCached ino P g' = λ j m f. h j m (
        subst (λ x. find (ino, j) x ≡ some m) (refresh-map cap probe_interval now available g) f) in
      elim (Bool-cases (cap == 0)) [
        | inl off ↦ rw off h
        | inr on ↦ rw on (elim (Bool-cases (g'.eff_cap == 0 || ltb g'.eff_cap (length bytes))) [
          | inl over ↦ rw over (remove_key-AllCached g' (ino, idx) h')
          | inr fits ↦ rw fits (insert_node-AllCached idx bytes g' p h')
        ])
      ]

  -- What a read of the cache gives, and what it leaves.
  abbrev pub Got : ℕ → Option Bytes × Inner → Type 0
  Got idx (none, g) = AllCached ino P g
  Got idx (some bytes, g) = P idx bytes × AllCached ino P g

  pub get-Got : (cap idx : ℕ) (g : Inner) → AllCached ino P g → Got idx (get cap ino idx g)
  unfolding get
  get-Got cap idx g h = elim (Bool-cases (cap == 0)) [
    | inl off ↦ rw (get, off) h
    | inr on ↦ elim (Option-cases (find (ino, idx) g.map)) [
      | inl e ↦ rw (get, on, e) h
      | inr (n, e) ↦
          rw (get, on, e)
            (
              h idx n e,
              put-AllCached g
                  (record g {
                    seq = g.seq + 1;
                    map = put (ino, idx) (record n { seq = g.seq + 1 }) g.map;
                    order = put (g.seq + 1) (ino, idx) (erase n.seq g.order);
                  })
                  idx (record n { seq = g.seq + 1 }) refl (h idx n e) h,
            )
    ]
  ]
