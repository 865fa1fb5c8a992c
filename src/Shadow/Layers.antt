-- ===== src/Shadow/Layers.antt =====
-- What the methods of crates/scrollz/src/store/shadow.rs that fill a session change of its layer.
use fuse_scrollfs.BlockCache.{keyed_nat, keyed_pair}
use fuse_scrollfs.Dict.{Dict, find, find-put_other, find-put_same}
use fuse_scrollfs.Prelude.{
  Bool-cases, Option, [], ap, arith, false, if◌then◌else◌, inl, inr, ltb, ltb-false, lt→ltb, none,
  refl, some, true, ℕ, ◌<◌, ◌∙◌, ◌∷◌, ◌≡◌, ◌≢◌, ◌≤◌,
}
use fuse_scrollfs.Shadow.Buffer.{
  WriteSession, cut_at, cut_off, held, is_cut, retain_dirty, session_layer, session_put,
  session_truncate,
}
use fuse_scrollfs.Shadow.Merge.{layer-agree, layer-none, layer-some}
use fuse_scrollfs.Store.{StoredBlock}

pub layer-session_put_same :
    (idx new_size : ℕ) (blk : StoredBlock) (s : WriteSession)
    → session_layer idx (some (session_put idx blk new_size s)) ≡ held blk
unfolding session_put
layer-session_put_same idx new_size blk s =
    layer-some idx (session_put idx blk new_size s) blk (find-put_same idx blk s.dirty)

pub layer-session_put_other :
    (idx j new_size : ℕ) (blk : StoredBlock) (s : WriteSession)
    → j ≢ idx
    → session_layer j (some (session_put idx blk new_size s)) ≡ session_layer j (some s)
unfolding session_put
layer-session_put_other idx j new_size blk s ne =
    layer-agree j (session_put idx blk new_size s) s (find-put_other idx j blk s.dirty ne) refl

find-retain_dirty :
    (keep_from i : ℕ) (d : Dict ℕ StoredBlock)
    → find i (retain_dirty keep_from d) ≡ (if ltb i keep_from then find i d else none)
unfolding retain_dirty
find-retain_dirty keep_from i [] = ground arith
find-retain_dirty keep_from i ((idx, blk) ∷ d) =
    let rest = find-retain_dirty keep_from i d in
    elim (Bool-cases (keyed_nat.eq i idx)) [
      | inl same ↦
          let q : i ≡ idx = keyed_nat.eq_sound i idx same in
          elim (Bool-cases (ltb idx keep_from)) [
            | inl h ↦
                let h' : ltb i keep_from ≡ true = ap (λ x. ltb x keep_from) q ∙ h in
                rw (h, h', same) refl
            | inr h ↦
                let h' : ltb i keep_from ≡ false = ap (λ x. ltb x keep_from) q ∙ h in
                rw (h, h') (rest ∙ rw h' refl)
          ]
      | inr other ↦ elim (Bool-cases (ltb idx keep_from)) [
        | inl h ↦ rw (h, other) rest
        | inr h ↦ rw (h, other) rest
      ]
    ]

cut_at-kept :
    (o : Option ℕ) (keep_from j : ℕ)
    → j < keep_from
    → is_cut (some (cut_at o keep_from)) j ≡ is_cut o j
cut_at-kept none keep_from j l = ground (arith, l)
cut_at-kept (some prev) keep_from j l = ground (arith, l)

cut_at-dropped :
    (o : Option ℕ) (keep_from j : ℕ) → keep_from ≤ j → is_cut (some (cut_at o keep_from)) j ≡ true
cut_at-dropped none keep_from j l = ground (arith, l)
cut_at-dropped (some prev) keep_from j l = ground (arith, l)

pub layer-session_truncate_kept :
    (keep_from new_size j : ℕ) (s : WriteSession)
    → j < keep_from
    → session_layer j (some (session_truncate keep_from new_size s)) ≡ session_layer j (some s)
unfolding session_truncate
layer-session_truncate_kept keep_from new_size j s l =
    layer-agree j (session_truncate keep_from new_size s) s
      (find-retain_dirty keep_from j s.dirty ∙ rw (lt→ltb j keep_from l) refl)
      (cut_at-kept s.truncate_to keep_from j l)

pub layer-session_truncate_dropped :
    (keep_from new_size j : ℕ) (s : WriteSession)
    → keep_from ≤ j
    → session_layer j (some (session_truncate keep_from new_size s)) ≡ cut_off
unfolding session_truncate
layer-session_truncate_dropped keep_from new_size j s l =
    layer-none j (session_truncate keep_from new_size s)
      (find-retain_dirty keep_from j s.dirty ∙ rw (ltb-false j keep_from l) refl)
    ∙ rw (cut_at-dropped s.truncate_to keep_from j l) refl
