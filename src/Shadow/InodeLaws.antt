-- ===== src/Shadow/InodeLaws.antt =====
-- The map of inodes of crates/scrollz/src/store/shadow.rs keeps paths and numbers paired.
use fuse_scrollfs.BlockCache.{keyed_nat, keyed_pair}
use fuse_scrollfs.Dict.{
  Keyed, erase, find, find-erase-some, find-erase_other, find-put-some, find-put_other,
  find-put_same, put,
}
use fuse_scrollfs.Prelude.{
  Option-cases, [], ap, arith, inl, inr, none, refl, some, sym, ℕ, ◌∙◌, ◌≡◌, ◌≢◌,
}
use fuse_scrollfs.Shadow.Inodes.{
  InodeMap, IsPaired, add_path, intern, new_inode_map, remove_path, rename_path, root_ino,
}
use mathlib.Core.Path.{subst}

module _ {P : Type 0} ⦃path : Keyed P⦄ where
  pub remove_path-none :
      (p : P) (im : InodeMap P) → find p im.by_path ≡ none → remove_path p im ≡ im
  unfolding remove_path
  remove_path-none p im e = rw (remove_path, e) refl

  pub remove_path-some :
      (p : P) (ino : ℕ) (im : InodeMap P)
      → find p im.by_path ≡ some ino
      → remove_path p im ≡ record im { by_path = erase p im.by_path; by_ino = erase ino im.by_ino }
  unfolding remove_path
  remove_path-some p ino im e = rw (remove_path, e) refl

  rename_path-none :
      (old new : P) (im : InodeMap P) → find old im.by_path ≡ none → rename_path old new im ≡ im
  unfolding rename_path
  rename_path-none old new im e = rw (rename_path, e) refl

  pub rename_path-some :
      (old new : P) (ino : ℕ) (im : InodeMap P)
      → find old im.by_path ≡ some ino
      → rename_path old new im
        ≡ record im { by_path = put new ino (erase old im.by_path); by_ino = put ino new im.by_ino }
  unfolding rename_path
  rename_path-some old new ino im e = rw (rename_path, e) refl

  intern-some :
      (p : P) (ino : ℕ) (im : InodeMap P) → find p im.by_path ≡ some ino → intern p im ≡ (ino, im)
  unfolding intern
  intern-some p ino im e = rw (intern, e) refl

  intern-none :
      (p : P) (im : InodeMap P)
      → find p im.by_path ≡ none
      → intern p im ≡ (im.next_ino, add_path p im)
  unfolding intern
  intern-none p im e = rw (intern, e) refl

  -- Two paths with one number are one path.
  same_path :
      (im : InodeMap P) (p q : P) (ino : ℕ)
      → IsPaired im
      → find p im.by_path ≡ some ino
      → find q im.by_path ≡ some ino
      → p ≡ q
  same_path im p q ino c e h =
      let r : some p ≡ some q = sym (c.there p ino e) ∙ c.there q ino h in cc

  same_ino :
      (im : InodeMap P) (p : P) (m n : ℕ)
      → find p im.by_path ≡ some m
      → find p im.by_path ≡ some n
      → m ≡ n
  same_ino im p m n e h = let r : some m ≡ some n = sym e ∙ h in cc

  pub new_inode_map-IsPaired : (root : P) → IsPaired (new_inode_map root)
  unfolding new_inode_map
  new_inode_map-IsPaired root = record {
    there = λ p ino e. elim (find-put-some root p root_ino [] e) [
      | inl (q, r) ↦
          let t : root_ino ≡ ino = cc in
          subst (λ n. find n (put root_ino root []) ≡ some p) t
            (find-put_same root_ino root [] ∙ ap (λ x. some x) (sym q))
      | inr (n, f) ↦ absurd cc
    ];
    back = λ p ino e. elim (find-put-some root_ino ino root [] e) [
      | inl (q, r) ↦
          let t : root ≡ p = cc in
          subst (λ x. find x (put root root_ino []) ≡ some ino) t
            (find-put_same root root_ino [] ∙ ap (λ x. some x) (sym q))
      | inr (n, f) ↦ absurd cc
    ];
    below = λ p ino e. elim (find-put-some root p root_ino [] e) [
      | inl (q, r) ↦ let t : root_ino ≡ ino = cc in omega (arith, t)
      | inr (n, f) ↦ absurd cc
    ];
  }

  add_path-IsPaired :
      (p : P) (im : InodeMap P) → IsPaired im → find p im.by_path ≡ none → IsPaired (add_path p im)
  add_path-IsPaired p im c absent = record {
    there = λ q ino e. elim (find-put-some p q im.next_ino im.by_path e) [
      | inl (same, r) ↦
          let t : im.next_ino ≡ ino = cc in
          subst (λ n. find n (put im.next_ino p im.by_ino) ≡ some q) t
            (find-put_same im.next_ino p im.by_ino ∙ ap (λ x. some x) (sym same))
      | inr (n, f) ↦
          find-put_other im.next_ino ino p im.by_ino (λ t. omega (arith, t, c.below q ino f))
          ∙ c.there q ino f
    ];
    back = λ q ino e. elim (find-put-some im.next_ino ino p im.by_ino e) [
      | inl (same, r) ↦
          let t : p ≡ q = cc in
          subst (λ x. find x (put p im.next_ino im.by_path) ≡ some ino) t
            (find-put_same p im.next_ino im.by_path ∙ ap (λ x. some x) (sym same))
      | inr (n, f) ↦
          let h = c.back q ino f in
          let apart : q ≢ p = λ t.
            let r : find p im.by_path ≡ some ino = subst (λ x. find x im.by_path ≡ some ino) t h in
            cc in
          find-put_other p q im.next_ino im.by_path apart ∙ h
    ];
    below = λ q ino e. elim (find-put-some p q im.next_ino im.by_path e) [
      | inl (same, r) ↦ let t : im.next_ino ≡ ino = cc in omega (arith, t)
      | inr (n, f) ↦ omega (arith, c.below q ino f)
    ];
  }

  pub intern-IsPaired : (p : P) (im : InodeMap P) → IsPaired im → IsPaired (intern p im).1
  intern-IsPaired p im c = elim (Option-cases (find p im.by_path)) [
    | inl e ↦ subst (λ r. IsPaired r.1) (sym (intern-none p im e)) (add_path-IsPaired p im c e)
    | inr (ino, e) ↦ subst (λ r. IsPaired r.1) (sym (intern-some p ino im e)) c
  ]

  pub remove_path-IsPaired : (p : P) (im : InodeMap P) → IsPaired im → IsPaired (remove_path p im)
  remove_path-IsPaired p im c = elim (Option-cases (find p im.by_path)) [
    | inl e ↦ subst IsPaired (sym (remove_path-none p im e)) c
    | inr (ino, e) ↦ subst IsPaired (sym (remove_path-some p ino im e)) (record {
      there = λ q n h.
          let (ne, f) = find-erase-some p q im.by_path h in
          find-erase_other ino n im.by_ino
            (λ t. ne (same_path im q p ino c (subst (λ x. find q im.by_path ≡ some x) t f) e))
          ∙ c.there q n f;
      back = λ q n h.
          let (ne, f) = find-erase-some ino n im.by_ino h in
          let g = c.back q n f in
          find-erase_other p q im.by_path
            (λ t. ne (same_ino im p n ino (subst (λ x. find x im.by_path ≡ some n) t g) e))
          ∙ g;
      below = λ q n h. c.below q n (find-erase-some p q im.by_path h).1;
    })
  ]

  pub rename_path-IsPaired :
      (old new : P) (im : InodeMap P)
      → IsPaired im
      → find new im.by_path ≡ none
      → IsPaired (rename_path old new im)
  rename_path-IsPaired old new im c absent = elim (Option-cases (find old im.by_path)) [
    | inl e ↦ subst IsPaired (sym (rename_path-none old new im e)) c
    | inr (ino, e) ↦ subst IsPaired (sym (rename_path-some old new ino im e)) (record {
      there = λ q n h. elim (find-put-some new q ino (erase old im.by_path) h) [
        | inl (same, r) ↦
            let t : ino ≡ n = cc in
            subst (λ x. find x (put ino new im.by_ino) ≡ some q) t
              (find-put_same ino new im.by_ino ∙ ap (λ x. some x) (sym same))
        | inr (ne, h') ↦
            let (apart, f) = find-erase-some old q im.by_path h' in
            find-put_other ino n new im.by_ino (λ t.
              apart (same_path im q old ino c (subst (λ x. find q im.by_path ≡ some x) t f) e))
            ∙ c.there q n f
      ];
      back = λ q n h. elim (find-put-some ino n new im.by_ino h) [
        | inl (same, r) ↦
            let t : new ≡ q = cc in
            subst (λ x. find x (put new ino (erase old im.by_path)) ≡ some n) t
              (find-put_same new ino (erase old im.by_path) ∙ ap (λ x. some x) (sym same))
        | inr (ne, f) ↦
            let g = c.back q n f in
            let apart : q ≢ new = λ t.
              let r : find new im.by_path ≡ some n = subst (λ x. find x im.by_path ≡ some n) t g in
              cc in
            find-put_other new q ino (erase old im.by_path) apart
            ∙ find-erase_other old q im.by_path
                (λ t. ne (same_ino im old n ino (subst (λ x. find x im.by_path ≡ some n) t g) e))
            ∙ g
      ];
      below = λ q n h. elim (find-put-some new q ino (erase old im.by_path) h) [
        | inl (same, r) ↦ let t : ino ≡ n = cc in omega (arith, t, c.below old ino e)
        | inr (ne, h') ↦ c.below q n (find-erase-some old q im.by_path h').1
      ];
    })
  ]
