-- ===== src/Reconcile/Output.antt =====
-- Of crates/scrollz/src/reconcile/merge.rs.
-- What of the union reaches the merged lines.
use fuse_scrollfs.Dict.{Dict, find}
use fuse_scrollfs.Prelude.{
  Bool, Bool-cases, List, [], ap, false, inl, inr, refl, some, sym, true, ◌++◌, ◌||◌, ◌∙◌, ◌∷◌, ◌≡◌,
  ◌⊎◌,
}
use fuse_scrollfs.Reconcile.Ingest.{
  Kept, contains-append, dropped_of, kept_conflict, kept_extra, kept_item, lines_of-append, or_left,
  or_right,
}
use fuse_scrollfs.Reconcile.Merge.{Item, Union, insert_item, item_lt, lines_of, sort_items, values}
use fuse_scrollfs.Reconcile.Text.{Str, contains, keyed_str, str_eq, str_eq-same}
use mathlib.Core.Path.{subst}

contains-insert_item :
    (l : Str) (i : Item) (js : List Item)
    → contains l (lines_of (insert_item i js)) ≡ (str_eq l i.line || contains l (lines_of js))
contains-insert_item l i [] = refl
contains-insert_item l i (j ∷ js) = elim (Bool-cases (item_lt j i)) [
  | inl before ↦
      rw (before, contains-insert_item l i js)
        (swap (str_eq l j.line) (str_eq l i.line) (contains l (lines_of js)))
  | inr after ↦ rw after refl
]
  where
    swap : (a b c : Bool) → (a || (b || c)) ≡ (b || (a || c))
    swap true true c = refl
    swap true false c = refl
    swap false b c = refl

contains-sort_items :
    (l : Str) (is : List Item) → contains l (lines_of (sort_items is)) ≡ contains l (lines_of is)
contains-sort_items l [] = refl
contains-sort_items l (i ∷ is) =
    rw (contains-insert_item l i (sort_items is), contains-sort_items l is) refl

contains-values :
    (uuid : Str) (i : Item) (d : Dict Str Item)
    → find uuid d ≡ some i
    → contains i.line (lines_of (values d)) ≡ true
contains-values uuid i [] h = absurd cc
contains-values uuid i ((k, j) ∷ d) h = elim (Bool-cases (keyed_str.eq uuid k)) [
  | inl here ↦
      let s : some j ≡ some i = rw here at h in
      let p : i ≡ j = cc in
      or_left (str_eq i.line j.line) _ (ap (λ q. str_eq i.line q.line) (sym p) ∙ str_eq-same i.line)
  | inr later ↦ or_right (str_eq i.line j.line) _ (contains-values uuid i d (rw later at h))
]

-- The lines that `session_merge` gives back.
abbrev pub output_of : Union → List Str
output_of u = lines_of (sort_items (values u.by_uuid ++ u.extras))

contains-output :
    (l : Str) (u : Union)
    → contains l (output_of u)
      ≡ (contains l (lines_of (values u.by_uuid)) || contains l (lines_of u.extras))
contains-output l u =
    rw
      (
        contains-sort_items l (values u.by_uuid ++ u.extras),
        lines_of-append (values u.by_uuid) u.extras,
      )
      (contains-append l (lines_of (values u.by_uuid)) (lines_of u.extras))

pub contains-output_item :
    (uuid : Str) (i : Item) (u : Union)
    → find uuid u.by_uuid ≡ some i
    → contains i.line (output_of u) ≡ true
contains-output_item uuid i u e =
    rw (contains-output i.line u) (
      or_left (contains i.line (lines_of (values u.by_uuid))) _
        (contains-values uuid i u.by_uuid e))

pub contains-output_extra :
    (l : Str) (u : Union) → contains l (lines_of u.extras) ≡ true → contains l (output_of u) ≡ true
contains-output_extra l u h =
    rw (contains-output l u) (or_right (contains l (lines_of (values u.by_uuid))) _ h)

pub Kept-output :
    (u : Union) (l : Str)
    → Kept u l
    → (contains l (output_of u) ≡ true) ⊎ (contains l (dropped_of u.conflicts) ≡ true)
Kept-output u l (kept_item uuid i e p) =
    inl (subst (λ m. contains m (output_of u) ≡ true) p (contains-output_item uuid i u e))
Kept-output u l (kept_extra h) = inl (contains-output_extra l u h)
Kept-output u l (kept_conflict h) = inr h
