-- ===== src/Reconcile/Ingest.antt =====
-- What the union of crates/scrollz/src/reconcile/merge.rs keeps of the lines it takes in.
use fuse_scrollfs.Dict.{find, find-put_other, find-put_same, put}
use fuse_scrollfs.Prelude.{
  Bool, Bool-cases, List, [], ap, false, inl, inr, refl, some, sym, true, ◌++◌, ◌||◌, ◌∙◌, ◌∷◌, ◌≡◌,
  ◌⊎◌,
}
use fuse_scrollfs.Reconcile.Merge.{Conflict, Item, Union, add_conflict, lines_of, put_item}
use fuse_scrollfs.Reconcile.Record.{RecordKind, no_uuid, transcript, unparsable}
use fuse_scrollfs.Reconcile.Text.{
  Str, contains, keyed_str, str_eq, str_eq-same, str_eq_other, str_eq_sound,
}
use fuse_scrollfs.Rmw.Cut.{cut}
use mathlib.Core.Path.{subst}

abbrev pub dropped_of : List Conflict → List Str
dropped_of [] = []
dropped_of (c ∷ cs) = c.dropped ∷ dropped_of cs

pub contains-append :
    (l : Str) (xs ys : List Str) → contains l (xs ++ ys) ≡ (contains l xs || contains l ys)
contains-append l [] ys = refl
contains-append l (x ∷ xs) ys = rw (contains-append l xs ys) (or_assoc (str_eq l x) _ _)
  where
    or_assoc : (a b c : Bool) → (a || (b || c)) ≡ ((a || b) || c)
    or_assoc true b c = refl
    or_assoc false b c = refl

pub lines_of-append : (is js : List Item) → lines_of (is ++ js) ≡ lines_of is ++ lines_of js
lines_of-append [] js = refl
lines_of-append (i ∷ is) js = ap (λ ls. i.line ∷ ls) (lines_of-append is js)

dropped_of-append : (cs ds : List Conflict) → dropped_of (cs ++ ds) ≡ dropped_of cs ++ dropped_of ds
dropped_of-append [] ds = refl
dropped_of-append (c ∷ cs) ds = ap (λ ls. c.dropped ∷ ls) (dropped_of-append cs ds)

pub or_left : (a b : Bool) → a ≡ true → (a || b) ≡ true
or_left true b h = refl
or_left false b h = absurd cc

pub or_right : (a b : Bool) → b ≡ true → (a || b) ≡ true
or_right true b h = refl
or_right false b h = h

-- An entry that was there is there, or another took its uuid and its line is a conflict.
pub record Moved (uuid : Str) (i : Item) (v : Union) : Type 0 where
  pub item : Item
  pub found : find uuid v.by_uuid ≡ some item
  pub safe : (item ≡ i) ⊎ (contains i.line (dropped_of v.conflicts) ≡ true)

pub record Grows (u v : Union) : Type 0 where
  pub entries : (uuid : Str) (i : Item) → find uuid u.by_uuid ≡ some i → Moved uuid i v
  pub extra :
      (l : Str) → contains l (lines_of u.extras) ≡ true → contains l (lines_of v.extras) ≡ true
  pub conflict :
      (l : Str)
      → contains l (dropped_of u.conflicts) ≡ true
      → contains l (dropped_of v.conflicts) ≡ true

pub Grows-refl : (u : Union) → Grows u u
Grows-refl u = record {
  entries = λ uuid i e. record { item = i; found = e; safe = inl refl };
  extra = λ l h. h;
  conflict = λ l h. h;
}

pub Grows-trans : (u v w : Union) → Grows u v → Grows v w → Grows u w
Grows-trans u v w g h = record {
  entries = λ uuid i e.
      let m = g.entries uuid i e in
      let n = h.entries uuid m.item m.found in
      record {
        item = n.item;
        found = n.found;
        safe = elim m.safe [
          | inr d ↦ inr (h.conflict i.line d)
          | inl p ↦ elim n.safe [
            | inl q ↦ inl (q ∙ p)
            | inr d ↦ inr (subst (λ j. contains j.line (dropped_of w.conflicts) ≡ true) p d)
          ]
        ];
      };
  extra = λ l q. h.extra l (g.extra l q);
  conflict = λ l q. h.conflict l (g.conflict l q);
}

-- A line that is not lost.
pub data Kept (u : Union) (l : Str) : Type 0 where
  kept_item : (uuid : Str) → (i : Item) → find uuid u.by_uuid ≡ some i → i.line ≡ l → Kept u l
  kept_extra : contains l (lines_of u.extras) ≡ true → Kept u l
  kept_conflict : contains l (dropped_of u.conflicts) ≡ true → Kept u l

pub Kept-Grows : (u v : Union) (l : Str) → Grows u v → Kept u l → Kept v l
Kept-Grows u v l g (kept_extra h) = kept_extra (g.extra l h)
Kept-Grows u v l g (kept_conflict h) = kept_conflict (g.conflict l h)
Kept-Grows u v l g (kept_item uuid i e p) =
    let m = g.entries uuid i e in
    elim m.safe [
      | inl q ↦ kept_item uuid m.item m.found (ap (λ j. j.line) q ∙ p)
      | inr d ↦ kept_conflict (subst (λ k. contains k (dropped_of v.conflicts) ≡ true) p d)
    ]

pub record Entry (uuid : Str) (u : Union) : Type 0 where
  pub item : Item
  pub found : find uuid u.by_uuid ≡ some item

-- A transcript is there by its uuid, another line by its text.
abbrev pub InUnion : Union → RecordKind → Str → Type 0
InUnion u (transcript uuid) l = Entry uuid u
InUnion u no_uuid l = contains l (lines_of u.extras) ≡ true
InUnion u (unparsable cut) l = contains l (lines_of u.extras) ≡ true

pub InUnion-Grows :
    (u v : Union) (k : RecordKind) (l : Str) → Grows u v → InUnion u k l → InUnion v k l
InUnion-Grows u v (transcript uuid) l g e =
    let m = g.entries uuid e.item e.found in record { item = m.item; found = m.found }
InUnion-Grows u v no_uuid l g h = g.extra l h
InUnion-Grows u v (unparsable cut) l g h = g.extra l h

pub add_conflict-Grows : (uuid line : Str) (u : Union) → Grows u (add_conflict uuid line u)
unfolding add_conflict
add_conflict-Grows uuid line u = record {
  entries = λ k i e. record { item = i; found = e; safe = inl refl };
  extra = λ l h. h;
  conflict = λ l h.
      let new : Conflict = record { uuid = uuid; dropped = line } in
      rw
        (
          dropped_of-append u.conflicts (new ∷ []),
          contains-append l (dropped_of u.conflicts) (line ∷ []),
        )
        (or_left (contains l (dropped_of u.conflicts)) _ h);
}

pub add_conflict-dropped :
    (uuid line : Str) (u : Union)
    → contains line (dropped_of (add_conflict uuid line u).conflicts) ≡ true
unfolding add_conflict
add_conflict-dropped uuid line u =
    let new : Conflict = record { uuid = uuid; dropped = line } in
    rw
      (
        dropped_of-append u.conflicts (new ∷ []),
        contains-append line (dropped_of u.conflicts) (line ∷ []),
        str_eq-same line,
      )
      (or_right (contains line (dropped_of u.conflicts)) true refl)

-- A new entry, where the old one is a conflict already.
pub put_item-Grows :
    (uuid : Str) (item : Item) (u : Union)
    → ((i : Item) → find uuid u.by_uuid ≡ some i → contains i.line (dropped_of u.conflicts) ≡ true)
    → Grows u (put_item uuid item u)
unfolding put_item
put_item-Grows uuid item u safe = record {
  entries = λ k i e. elim (Bool-cases (str_eq k uuid)) [
    | inl same ↦
        let p : k ≡ uuid = str_eq_sound k uuid same in
        let e' : find uuid u.by_uuid ≡ some i = subst (λ q. find q u.by_uuid ≡ some i) p e in
        record {
          item = item;
          found =
              subst (λ q. find q (put uuid item u.by_uuid) ≡ some item) (sym p)
                (find-put_same uuid item u.by_uuid);
          safe = inr (safe i e');
        }
    | inr other ↦ record {
      item = i;
      found = find-put_other uuid k item u.by_uuid (str_eq_other k uuid other) ∙ e;
      safe = inl refl;
    }
  ];
  extra = λ l h. h;
  conflict = λ l h. h;
}
