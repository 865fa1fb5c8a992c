-- ===== src/Shadow/Merge.antt =====
-- The write sessions of crates/scrollz/src/store/shadow.rs as layers over the archive.
use fuse_scrollfs.BlockCache.{keyed_nat, keyed_pair}
use fuse_scrollfs.Dict.{Dict, find, find-put_other, find-put_same, put}
use fuse_scrollfs.Prelude.{
  Bool-cases, Option, Option-cases, [], ap, arith, false, if◌then◌else◌, inl, inr, none, refl, some,
  sym, true, ℕ, ◌∙◌, ◌∷◌, ◌≡◌, ◌≢◌, ◌≤◌,
}
use fuse_scrollfs.Shadow.Buffer.{
  WriteSession, cut_off, held, is_cut, merge_dirty, merge_from_flushing, merge_truncate, or_insert,
  over, passes, session_layer,
}
use fuse_scrollfs.Store.{StoredBlock}
use mathlib.Core.Path.{subst}

pub layer-some :
    (idx : ℕ) (s : WriteSession) (blk : StoredBlock)
    → find idx s.dirty ≡ some blk
    → session_layer idx (some s) ≡ held blk
unfolding session_layer
layer-some idx s blk e = rw (session_layer, e) refl

pub layer-none :
    (idx : ℕ) (s : WriteSession)
    → find idx s.dirty ≡ none
    → session_layer idx (some s) ≡ (if is_cut s.truncate_to idx then cut_off else passes)
unfolding session_layer
layer-none idx s e = rw (session_layer, e) refl

or_insert-none :
    (idx : ℕ) (blk : StoredBlock) (d : Dict ℕ StoredBlock)
    → find idx d ≡ none
    → or_insert idx blk d ≡ put idx blk d
or_insert-none idx blk d e =
    ap (λ o. elim o as (λ _. Dict ℕ StoredBlock) [ none ↦ put idx blk d | some _ ↦ d ]) e

or_insert-some :
    (idx : ℕ) (blk b : StoredBlock) (d : Dict ℕ StoredBlock)
    → find idx d ≡ some b
    → or_insert idx blk d ≡ d
or_insert-some idx blk b d e =
    ap (λ o. elim o as (λ _. Dict ℕ StoredBlock) [ none ↦ put idx blk d | some _ ↦ d ]) e

find-or_insert_same :
    (idx : ℕ) (blk : StoredBlock) (d : Dict ℕ StoredBlock)
    → find idx d ≡ none
    → find idx (or_insert idx blk d) ≡ some blk
find-or_insert_same idx blk d e =
    ap (find idx) (or_insert-none idx blk d e) ∙ find-put_same idx blk d

find-or_insert_kept :
    (idx i : ℕ) (blk b : StoredBlock) (d : Dict ℕ StoredBlock)
    → find i d ≡ some b
    → find i (or_insert idx blk d) ≡ some b
find-or_insert_kept idx i blk b d e = elim (Option-cases (find idx d)) [
  | inl h ↦
      let apart : i ≢ idx =
        λ t. let r : find idx d ≡ some b = subst (λ x. find x d ≡ some b) t e in cc in
      ap (find i) (or_insert-none idx blk d h) ∙ find-put_other idx i blk d apart ∙ e
  | inr (c, h) ↦ ap (find i) (or_insert-some idx blk c d h) ∙ e
]

find-or_insert_other :
    (idx i : ℕ) (blk : StoredBlock) (d : Dict ℕ StoredBlock)
    → i ≢ idx
    → find i (or_insert idx blk d) ≡ find i d
find-or_insert_other idx i blk d ne = elim (Option-cases (find idx d)) [
  | inl h ↦ ap (find i) (or_insert-none idx blk d h) ∙ find-put_other idx i blk d ne
  | inr (c, h) ↦ ap (find i) (or_insert-some idx blk c d h)
]

-- What the newer session holds stays.
merge_dirty-some :
    (keep_from : Option ℕ) (older d : Dict ℕ StoredBlock) (i : ℕ) (b : StoredBlock)
    → find i d ≡ some b
    → find i (merge_dirty keep_from older d) ≡ some b
unfolding merge_dirty
merge_dirty-some keep_from [] d i b e = e
merge_dirty-some keep_from ((idx, blk) ∷ older) d i b e = elim (Bool-cases (is_cut keep_from idx)) [
  | inl h ↦ rw h (merge_dirty-some keep_from older d i b e)
  | inr h ↦ rw h (
      merge_dirty-some keep_from older (or_insert idx blk d) i b
        (find-or_insert_kept idx i blk b d e))
]

-- What it has cut off does not come back.
merge_dirty-cut :
    (keep_from : Option ℕ) (older d : Dict ℕ StoredBlock) (i : ℕ)
    → is_cut keep_from i ≡ true
    → find i d ≡ none
    → find i (merge_dirty keep_from older d) ≡ none
unfolding merge_dirty
merge_dirty-cut keep_from [] d i c e = e
merge_dirty-cut keep_from ((idx, blk) ∷ older) d i c e = elim (Bool-cases (is_cut keep_from idx)) [
  | inl h ↦ rw h (merge_dirty-cut keep_from older d i c e)
  | inr h ↦
      let apart : i ≢ idx = λ t.
        let r : is_cut keep_from idx ≡ true = subst (λ x. is_cut keep_from x ≡ true) t c in cc in
      rw h (
        merge_dirty-cut keep_from older (or_insert idx blk d) i c
          (find-or_insert_other idx i blk d apart ∙ e))
]

-- Where the newer session says nothing the older one speaks.
merge_dirty-none :
    (keep_from : Option ℕ) (older d : Dict ℕ StoredBlock) (i : ℕ)
    → is_cut keep_from i ≡ false
    → find i d ≡ none
    → find i (merge_dirty keep_from older d) ≡ find i older
unfolding merge_dirty
merge_dirty-none keep_from [] d i c e = e
merge_dirty-none keep_from ((idx, blk) ∷ older) d i c e = elim (Bool-cases (keyed_nat.eq i idx)) [
  | inl same ↦
      let q : i ≡ idx = keyed_nat.eq_sound i idx same in
      let h : is_cut keep_from idx ≡ false = subst (λ x. is_cut keep_from x ≡ false) q c in
      let e' : find i (or_insert idx blk d) ≡ some blk =
        subst (λ x. find i (or_insert x blk d) ≡ some blk) q (find-or_insert_same i blk d e) in
      rw (h, same) (merge_dirty-some keep_from older (or_insert idx blk d) i blk e')
  | inr other ↦
      let apart : i ≢ idx = λ t.
        let r : keyed_nat.eq idx idx ≡ false = subst (λ x. keyed_nat.eq x idx ≡ false) t other in
        let u = keyed_nat.eq_same idx in cc in
      elim (Bool-cases (is_cut keep_from idx)) [
        | inl h ↦ rw (h, other) (merge_dirty-none keep_from older d i c e)
        | inr h ↦
            rw (h, other)
              (merge_dirty-none keep_from older (or_insert idx blk d) i c
                (find-or_insert_other idx i blk d apart ∙ e))
      ]
]

-- The older session cut at or behind every place where the newer one is not cut.
abbrev pub CutsAgree : Option ℕ → Option ℕ → Type 0
CutsAgree none older = Unit
CutsAgree (some keep_from) none = Unit
CutsAgree (some keep_from) (some earlier) = keep_from ≤ earlier

merged_cut :
    (newer older : Option ℕ) (i : ℕ)
    → CutsAgree newer older
    → is_cut newer i ≡ false
    → is_cut (merge_truncate newer older) i ≡ is_cut older i
merged_cut none older i h c = refl
merged_cut (some keep_from) none i h c = c
merged_cut (some keep_from) (some earlier) i h c = ground (arith, h, c)

merged_cut-true :
    (newer older : Option ℕ) (i : ℕ)
    → is_cut newer i ≡ true
    → is_cut (merge_truncate newer older) i ≡ true
merged_cut-true none older i c = absurd cc
merged_cut-true (some keep_from) older i c = c

-- Two sessions that agree at a block.
pub layer-agree :
    (idx : ℕ) (s t : WriteSession)
    → find idx s.dirty ≡ find idx t.dirty
    → is_cut s.truncate_to idx ≡ is_cut t.truncate_to idx
    → session_layer idx (some s) ≡ session_layer idx (some t)
layer-agree idx s t e c = elim (Option-cases (find idx t.dirty)) [
  | inl h ↦
      layer-none idx s (e ∙ h)
      ∙ ap (λ x. if x then cut_off else passes) c
      ∙ sym (layer-none idx t h)
  | inr (b, h) ↦ layer-some idx s b (e ∙ h) ∙ sym (layer-some idx t b h)
]

-- The merged session is the newer one over the older one.
pub layer-merge_from_flushing :
    (idx : ℕ) (s flushing : WriteSession)
    → CutsAgree s.truncate_to flushing.truncate_to
    → session_layer idx (some (merge_from_flushing s flushing))
      ≡ over (session_layer idx (some s)) (session_layer idx (some flushing))
unfolding merge_from_flushing
layer-merge_from_flushing idx s flushing h =
    let m = merge_from_flushing s flushing in
    elim (Option-cases (find idx s.dirty)) [
      | inr (b, e) ↦
          rw (layer-some idx s b e)
            (layer-some idx m b (merge_dirty-some s.truncate_to flushing.dirty s.dirty idx b e))
      | inl e ↦ elim (Bool-cases (is_cut s.truncate_to idx)) [
        | inl c ↦
            let left =
              layer-none idx m (merge_dirty-cut s.truncate_to flushing.dirty s.dirty idx c e) in
            let c' = merged_cut-true s.truncate_to flushing.truncate_to idx c in
            let here : session_layer idx (some s) ≡ cut_off = layer-none idx s e ∙ rw c refl in
            left ∙ rw c' (sym (ap (λ x. over x (session_layer idx (some flushing))) here))
        | inr c ↦
            let c' = merged_cut s.truncate_to flushing.truncate_to idx h c in
            let here : session_layer idx (some s) ≡ passes = layer-none idx s e ∙ rw c refl in
            let found = merge_dirty-none s.truncate_to flushing.dirty s.dirty idx c e in
            layer-agree idx m flushing found c'
            ∙ sym (ap (λ x. over x (session_layer idx (some flushing))) here)
      ]
    ]
