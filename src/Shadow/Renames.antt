-- ===== src/Shadow/Renames.antt =====
-- What the callers of the map of inodes of crates/scrollz/src/store/shadow.rs can rely on.
-- The changes that the store makes to the map.
use fuse_scrollfs.BlockCache.{keyed_nat, keyed_pair}
use fuse_scrollfs.Dict.{
  Keyed, find, find-erase_other, find-erase_same, find-put_other, find-put_same,
}
use fuse_scrollfs.Prelude.{List, Option-cases, [], inl, inr, none, some, sym, ℕ, ◌∙◌, ◌∷◌, ◌≡◌, ◌≢◌}
use fuse_scrollfs.Shadow.InodeLaws.{
  intern-IsPaired, new_inode_map-IsPaired, remove_path-IsPaired, remove_path-none, remove_path-some,
  rename_path-IsPaired, rename_path-some,
}
use fuse_scrollfs.Shadow.Inodes.{
  InodeMap, IsPaired, intern, new_inode_map, path_of, remove_path, rename_entry,
}
use mathlib.Core.Path.{subst}

pub data Change (P : Type 0) : Type 0 where
  interned : P → Change P
  removed : P → Change P
  renamed : P → P → Change P

module _ {P : Type 0} ⦃path : Keyed P⦄ where
  unfoldable pub apply_change : Change P → InodeMap P → InodeMap P
  apply_change (interned p) im = (intern p im).1
  apply_change (removed p) im = remove_path p im
  apply_change (renamed old new) im = rename_entry old new im

  unfoldable pub apply_changes : List (Change P) → InodeMap P → InodeMap P
  apply_changes [] im = im
  apply_changes (c ∷ cs) im = apply_changes cs (apply_change c im)

  remove_path_absent : (p : P) (im : InodeMap P) → find p (remove_path p im).by_path ≡ none
  remove_path_absent p im = elim (Option-cases (find p im.by_path)) [
    | inl e ↦ subst (λ x. find p x.by_path ≡ none) (sym (remove_path-none p im e)) e
    | inr (ino, e) ↦
        subst (λ x. find p x.by_path ≡ none) (sym (remove_path-some p ino im e))
          (find-erase_same p im.by_path)
  ]

  pub rename_entry-IsPaired :
      (old new : P) (im : InodeMap P) → IsPaired im → IsPaired (rename_entry old new im)
  unfolding rename_entry
  rename_entry-IsPaired old new im c =
      rename_path-IsPaired old new (remove_path new im) (remove_path-IsPaired new im c)
        (remove_path_absent new im)

  apply_change-IsPaired :
      (c : Change P) (im : InodeMap P) → IsPaired im → IsPaired (apply_change c im)
  unfolding apply_change
  apply_change-IsPaired (interned p) im h = intern-IsPaired p im h
  apply_change-IsPaired (removed p) im h = remove_path-IsPaired p im h
  apply_change-IsPaired (renamed old new) im h = rename_entry-IsPaired old new im h

  apply_changes-keeps :
      (cs : List (Change P)) (im : InodeMap P) → IsPaired im → IsPaired (apply_changes cs im)
  unfolding apply_changes
  apply_changes-keeps [] im h = h
  apply_changes-keeps (c ∷ cs) im h =
      apply_changes-keeps cs (apply_change c im) (apply_change-IsPaired c im h)

  -- After any sequence of the changes that the shadow store makes to its map of inodes, from the
  -- map of the root alone, a path has a number just if the number has the path, and every number
  -- that was handed out is below the next one.
  pub apply_changes-IsPaired :
      (root : P) (cs : List (Change P)) → IsPaired (apply_changes cs (new_inode_map root))
  apply_changes-IsPaired root cs =
      apply_changes-keeps cs (new_inode_map root) (new_inode_map-IsPaired root)

  remove_path_other :
      (p q : P) (n : ℕ) (im : InodeMap P)
      → IsPaired im
      → q ≢ p
      → find n im.by_ino ≡ some q
      → (find n (remove_path p im).by_ino ≡ some q) × (find q (remove_path p im).by_path ≡ some n)
  remove_path_other p q n im c ne e =
      let f = (remove_path-IsPaired p im c).back q n in
      elim (Option-cases (find p im.by_path)) [
        | inl h ↦
            subst (λ x. (find n x.by_ino ≡ some q) × (find q x.by_path ≡ some n))
              (sym (remove_path-none p im h)) (e, c.back q n e)
        | inr (ino, h) ↦
            let apart : n ≢ ino = λ t.
              let r : find ino im.by_ino ≡ some q = subst (λ x. find x im.by_ino ≡ some q) t e in
              let u : some p ≡ some q = sym (c.there p ino h) ∙ r in ne cc in
            subst (λ x. (find n x.by_ino ≡ some q) × (find q x.by_path ≡ some n))
              (sym (remove_path-some p ino im h))
              (
                find-erase_other ino n im.by_ino apart ∙ e,
                find-erase_other p q im.by_path ne ∙ c.back q n e,
              )
      ]

  -- In a map whose paths and numbers are paired, renaming the path of an inode to another path
  -- moves this inode to it, and every inode whose path is neither of the two keeps its path.
  pub rename_entry-path_of :
      (old new : P) (ino : ℕ) (im : InodeMap P)
      → IsPaired im
      → old ≢ new
      → path_of ino im ≡ some old
      → (path_of ino (rename_entry old new im) ≡ some new)
        × ((q : P) (n : ℕ)
            → q ≢ old
            → q ≢ new
            → path_of n im ≡ some q
            → path_of n (rename_entry old new im) ≡ some q)
  unfolding path_of rename_entry
  rename_entry-path_of old new ino im c ne e =
      let im' = remove_path new im in
      let (_, f) = remove_path_other new old ino im c ne e in
      let same = rename_path-some old new ino im' f in
      (
        subst (λ x. find ino x.by_ino ≡ some new) (sym same) (find-put_same ino new im'.by_ino),
        λ q n a b h.
            let (g, _) = remove_path_other new q n im c b h in
            let apart : n ≢ ino = λ t.
              let r : find ino im.by_ino ≡ some q = subst (λ x. find x im.by_ino ≡ some q) t h in
              let u : some q ≡ some old = sym r ∙ e in a cc in
            subst (λ x. find n x.by_ino ≡ some q) (sym same)
              (find-put_other ino n new im'.by_ino apart ∙ g),
      )
