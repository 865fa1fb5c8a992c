-- ===== src/Shadow/Sorted.antt =====
-- The order in which crates/scrollz/src/store/shadow.rs writes the blocks of a session loses none.
use fuse_scrollfs.BlockCache.{keyed_nat, keyed_pair}
use fuse_scrollfs.Dict.{Dict, Distinct, eq_other, find}
use fuse_scrollfs.Prelude.{
  Bool-cases, [], ap, arith, if◌then◌else◌, inl, inr, ltb, none, refl, some, ℕ, ◌∙◌, ◌∷◌, ◌≡◌, ◌≢◌,
}
use fuse_scrollfs.Shadow.Commit.{insert_block, sorted_blocks}
use fuse_scrollfs.Store.{StoredBlock}

find-insert_block :
    (i : ℕ) (e : ℕ × StoredBlock) (d : Dict ℕ StoredBlock)
    → find i (insert_block e d) ≡ find i (e ∷ d)
find-insert_block i e [] = refl
find-insert_block i e (f ∷ rest) = elim (Bool-cases (ltb f.0 e.0)) [
  | inr here ↦ rw here refl
  | inl later ↦ rw later (elim (Bool-cases (keyed_nat.eq i f.0)) [
    | inl same ↦
        let q = keyed_nat.eq_sound i f.0 same in
        let apart : i ≢ e.0 = λ r. absurd (ground (arith, later, q, r)) in
        rw (same, eq_other i e.0 apart) refl
    | inr other ↦ rw other (find-insert_block i e rest)
  ])
]

pub find-sorted_blocks : (i : ℕ) (d : Dict ℕ StoredBlock) → find i (sorted_blocks d) ≡ find i d
find-sorted_blocks i [] = refl
find-sorted_blocks i ((idx, blk) ∷ d) =
    find-insert_block i (idx, blk) (sorted_blocks d)
    ∙ ap (λ o. if keyed_nat.eq i idx then some blk else o) (find-sorted_blocks i d)

insert_block-Distinct :
    (e : ℕ × StoredBlock) (d : Dict ℕ StoredBlock)
    → find e.0 d ≡ none
    → Distinct d
    → Distinct (insert_block e d)
insert_block-Distinct e [] n h = (refl, tt)
insert_block-Distinct e (f ∷ rest) n h = elim (Bool-cases (ltb f.0 e.0)) [
  | inr here ↦ rw here (n, h)
  | inl later ↦ rw later (elim (Bool-cases (keyed_nat.eq e.0 f.0)) [
    | inl same ↦ let q : some f.1 ≡ none = rw same at n in absurd cc
    | inr other ↦ (
      find-insert_block f.0 e rest
          ∙ rw (eq_other f.0 e.0 (λ r. absurd (ground (arith, later, r)))) h.0,
      insert_block-Distinct e rest (rw other at n) h.1,
    )
  ])
]

pub sorted_blocks-Distinct : (d : Dict ℕ StoredBlock) → Distinct d → Distinct (sorted_blocks d)
sorted_blocks-Distinct [] h = tt
sorted_blocks-Distinct ((idx, blk) ∷ d) h =
    insert_block-Distinct (idx, blk) (sorted_blocks d) (find-sorted_blocks idx d ∙ h.0)
      (sorted_blocks-Distinct d h.1)
