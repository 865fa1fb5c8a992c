-- ===== src/Reconcile/AddItem.antt =====
-- Of crates/scrollz/src/reconcile/merge.rs.
-- One record taken into the union.
use fuse_scrollfs.Dict.{find, find-put_other, find-put_same, put}
use fuse_scrollfs.Prelude.{
  Bool-cases, Option, [], ap, false, inl, inr, leb, none, refl, some, sym, true, ◌++◌, ◌+◌, ◌||◌,
  ◌∙◌, ◌∷◌, ◌≡◌,
}
use fuse_scrollfs.Reconcile.Ingest.{
  Grows, Grows-refl, Grows-trans, InUnion, Kept, add_conflict-Grows, add_conflict-dropped,
  contains-append, dropped_of, kept_conflict, kept_extra, kept_item, lines_of-append, or_left,
  or_right, put_item-Grows,
}
use fuse_scrollfs.Reconcile.Merge.{
  Item, Union, add_conflict, add_extra, add_item, add_transcript, count_truncated, lines_of,
  put_item,
}
use fuse_scrollfs.Reconcile.Record.{RecordKind, no_uuid, transcript, unparsable}
use fuse_scrollfs.Reconcile.Text.{
  Str, contains, keyed_str, str_eq, str_eq-same, str_eq_other, str_eq_sound, utf8_len,
}
use mathlib.Core.Path.{subst}

put_item-found :
    (uuid : Str) (item : Item) (u : Union) → find uuid (put_item uuid item u).by_uuid ≡ some item
unfolding put_item
put_item-found uuid item u = find-put_same uuid item u.by_uuid

-- `class_of` says what a line is.
module _ (class_of : Str → RecordKind) where
  pub record IsWell (u : Union) : Type 0 where
    pub seen : (l : Str) → contains l u.seen_lines ≡ true → contains l (lines_of u.extras) ≡ true
    pub keys :
        (uuid : Str) (i : Item) → find uuid u.by_uuid ≡ some i → class_of i.line ≡ transcript uuid

  pub record Added (k : RecordKind) (l : Str) (u v : Union) : Type 0 where
    pub grows : Grows u v
    pub kept : Kept v l
    pub in_union : InUnion v k l
    pub well : IsWell v

  put_item-IsWell :
      (uuid : Str) (item : Item) (u : Union)
      → class_of item.line ≡ transcript uuid
      → IsWell u
      → IsWell (put_item uuid item u)
  unfolding put_item
  put_item-IsWell uuid item u h w = record {
    seen = w.seen;
    keys = λ k i e. elim (Bool-cases (str_eq k uuid)) [
      | inl same ↦
          let p : uuid ≡ k = sym (str_eq_sound k uuid same) in
          let e' : find uuid (put uuid item u.by_uuid) ≡ some i =
            subst (λ q. find q (put uuid item u.by_uuid) ≡ some i) (sym p) e in
          let s : some item ≡ some i = sym (find-put_same uuid item u.by_uuid) ∙ e' in
          let q : item ≡ i = cc in
          subst (λ j. class_of j.line ≡ transcript k) q (h ∙ ap transcript p)
      | inr other ↦
          w.keys k i (sym (find-put_other uuid k item u.by_uuid (str_eq_other k uuid other)) ∙ e)
    ];
  }

  add_conflict-IsWell : (uuid line : Str) (u : Union) → IsWell u → IsWell (add_conflict uuid line u)
  unfolding add_conflict
  add_conflict-IsWell uuid line u w = record { seen = w.seen; keys = w.keys }

  add_conflict-found :
      (uuid line : Str) (u : Union) (i : Item)
      → find uuid u.by_uuid ≡ some i
      → find uuid (add_conflict uuid line u).by_uuid ≡ some i
  unfolding add_conflict
  add_conflict-found uuid line u i e = e

  -- A new line for the uuid: the old one, if any, becomes a conflict.
  replaced :
      (uuid : Str) (item prev : Item) (u : Union)
      → class_of item.line ≡ transcript uuid
      → IsWell u
      → find uuid u.by_uuid ≡ some prev
      → Added (transcript uuid) item.line u (put_item uuid item (add_conflict uuid prev.line u))
  replaced uuid item prev u h w e =
      let u' = add_conflict uuid prev.line u in
      let was = add_conflict-found uuid prev.line u prev e in
      record {
        grows = Grows-trans u u' (put_item uuid item u') (add_conflict-Grows uuid prev.line u) (
            put_item-Grows uuid item u' (λ i e'.
              let s : some prev ≡ some i = sym was ∙ e' in
              let q : prev ≡ i = cc in
              subst (λ j. contains j.line (dropped_of u'.conflicts) ≡ true) q
                (add_conflict-dropped uuid prev.line u)));
        kept = kept_item uuid item (put_item-found uuid item u') refl;
        in_union = record { item = item; found = put_item-found uuid item u' };
        well = put_item-IsWell uuid item u' h (add_conflict-IsWell uuid prev.line u w);
      }

  add_transcript_lem :
      (uuid : Str) (item : Item) (u : Union) (o : Option Item)
      → find uuid u.by_uuid ≡ o
      → class_of item.line ≡ transcript uuid
      → IsWell u
      → Added (transcript uuid) item.line u (add_transcript uuid item u)
  unfolding add_transcript
  add_transcript_lem uuid item u none e h w =
      rw (add_transcript, e)
        (record {
          grows =
              put_item-Grows uuid item u (λ i e'. let s : none ≡ some i = sym e ∙ e' in absurd cc);
          kept = kept_item uuid item (put_item-found uuid item u) refl;
          in_union = record { item = item; found = put_item-found uuid item u };
          well = put_item-IsWell uuid item u h w;
        })
  add_transcript_lem uuid item u (some prev) e h w =
      rw (add_transcript, e)
        (elim (Bool-cases (leb (utf8_len item.line) (utf8_len prev.line))) [
          | inr longer ↦ rw longer (replaced uuid item prev u h w e)
          | inl shorter ↦ elim (Bool-cases (str_eq prev.line item.line)) [
            | inl same ↦
                rw (shorter, same)
                  (record {
                    grows = Grows-refl u;
                    kept = kept_item uuid prev e (str_eq_sound prev.line item.line same);
                    in_union = record { item = prev; found = e };
                    well = w;
                  })
            | inr other ↦
                rw (shorter, other)
                  (record {
                    grows = add_conflict-Grows uuid item.line u;
                    kept = kept_conflict (add_conflict-dropped uuid item.line u);
                    in_union = record {
                      item = prev;
                      found = add_conflict-found uuid item.line u prev e;
                    };
                    well = add_conflict-IsWell uuid item.line u w;
                  })
          ]
        ])

  -- A line without a uuid.
  record Extra (l : Str) (u v : Union) : Type 0 where
    grows : Grows u v
    present : contains l (lines_of v.extras) ≡ true
    well : IsWell v

  add_extra_lem : (item : Item) (u : Union) → IsWell u → Extra item.line u (add_extra item u)
  unfolding add_extra
  add_extra_lem item u w = elim (Bool-cases (contains item.line u.seen_lines)) [
    | inl known ↦
        rw known (record { grows = Grows-refl u; present = w.seen item.line known; well = w })
    | inr new ↦ rw new (record {
      grows = record {
        entries = λ uuid i e. record { item = i; found = e; safe = inl refl };
        extra = λ l h. rw (in_both l) (or_left (contains l (lines_of u.extras)) _ h);
        conflict = λ l h. h;
      };
      present =
          rw (in_both item.line, str_eq-same item.line)
            (or_right (contains item.line (lines_of u.extras)) true refl);
      well = record {
        seen = λ l h. rw (in_both l) (elim (Bool-cases (str_eq l item.line)) [
          | inl same ↦ rw same (or_right (contains l (lines_of u.extras)) true refl)
          | inr other ↦ or_left (contains l (lines_of u.extras)) _ (w.seen l (rw other at h))
        ]);
        keys = w.keys;
      };
    })
  ]
    where
      in_both :
          (l : Str)
          → contains l (lines_of (u.extras ++ item ∷ []))
            ≡ (contains l (lines_of u.extras) || (str_eq l item.line || false))
      in_both l =
          rw (lines_of-append u.extras (item ∷ [])) (contains-append l (lines_of u.extras) _)

  pub add_item_lem :
      (k : RecordKind) (item : Item) (u : Union)
      → class_of item.line ≡ k
      → IsWell u
      → Added k item.line u (add_item k item u)
  unfolding add_item count_truncated
  add_item_lem (transcript uuid) item u h w =
      add_transcript_lem uuid item u (find uuid u.by_uuid) refl h w
  add_item_lem no_uuid item u h w =
      let e = add_extra_lem item u w in
      record { grows = e.grows; kept = kept_extra e.present; in_union = e.present; well = e.well }
  add_item_lem (unparsable false) item u h w =
      let e = add_extra_lem item u w in
      record { grows = e.grows; kept = kept_extra e.present; in_union = e.present; well = e.well }
  add_item_lem (unparsable true) item u h w =
      let counted = record u { truncated = u.truncated + 1 } in
      let e = add_extra_lem item counted (record { seen = w.seen; keys = w.keys }) in
      record {
        grows = record {
          entries = e.grows.entries;
          extra = e.grows.extra;
          conflict = e.grows.conflict;
        };
        kept = kept_extra e.present;
        in_union = e.present;
        well = e.well;
      }
