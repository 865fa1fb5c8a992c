-- ===== src/Reconcile/Lossless.antt =====
-- What a log that is taken in does to the union (crates/scrollz/src/reconcile/merge.rs).
use fuse_scrollfs.Prelude.{
  Bool-cases, List, Option, [], ap, false, if◌then◌else◌, inl, inr, none, refl, some, sym, true,
  ◌+◌, ◌∙◌, ◌∷◌, ◌≡◌, ◌≢◌,
}
use fuse_scrollfs.Reconcile.AddItem.{Added, IsWell, add_item_lem}
use fuse_scrollfs.Reconcile.Ingest.{
  Grows, Grows-refl, Grows-trans, InUnion, InUnion-Grows, Kept, Kept-Grows,
}
use fuse_scrollfs.Reconcile.Merge.{
  Item, Union, add_item, ingest, ingest_record, is_blank, kind, new_union, or_else,
}
use fuse_scrollfs.Reconcile.Record.{
  RecordKind, SerdeJson, and_then, classify_lines, classify_record, no_uuid, record_timestamp,
}
use fuse_scrollfs.Reconcile.Text.{Str, contains, str_eq, str_eq_sound}
use mathlib.Core.Path.{subst}

module _ {V : Type 0} (serde : SerdeJson V) where
  -- What a line is to the merge, which leaves the blank ones out.
  abbrev pub text_kind : Str → RecordKind
  text_kind l = if is_blank l then no_uuid else kind serde l

  classify_record-line : (l : Str) → (classify_record serde l).0.line ≡ l
  unfolding classify_record
  classify_record-line l = go (serde.from_str l) refl
    where
      go : (o : Option V) → serde.from_str l ≡ o → (classify_record serde l).0.line ≡ l
      go none e = rw (classify_record, e) refl
      go (some v) e = rw (classify_record, e) refl

  -- One line taken in.
  ingest_record_lem :
      (l : Str) (u : Union)
      → is_blank l ≡ false
      → IsWell text_kind u
      → Added text_kind
          (kind serde l)
          l
          u
          (ingest_record serde ((classify_record serde l).0) ((classify_record serde l).1) u)
  unfolding ingest_record kind
  ingest_record_lem l u b w =
      let is_text : text_kind l ≡ kind serde l = rw b refl in
      let r = (classify_record serde l).0 in
      let k = (classify_record serde l).1 in
      let last_ts = or_else (and_then (record_timestamp serde) r.json) u.last_ts in
      let item : Item = record {
        ts = or_else (and_then (record_timestamp serde) r.json) last_ts;
        ord = u.ord;
        line = r.line;
      } in
      let start = record u { last_ts = last_ts } in
      let added = add_item k item start in
      let p = classify_record-line l in
      let a =
        subst (λ m. Added text_kind k m start added) p
          (add_item_lem text_kind k item start (ap text_kind p ∙ is_text)
            (record { seen = w.seen; keys = w.keys })) in
      let end = record added { ord = added.ord + 1 } in
      let same : Grows added end = record {
        entries = λ uuid i e. record { item = i; found = e; safe = inl refl };
        extra = λ m h. h;
        conflict = λ m h. h;
      } in
      let all = Grows-trans start added end a.grows same in
      record {
        grows = record { entries = all.entries; extra = all.extra; conflict = all.conflict };
        kept = Kept-Grows added end l same a.kept;
        in_union = InUnion-Grows added end k l same a.in_union;
        well = record { seen = a.well.seen; keys = a.well.keys };
      }

  -- All lines of a log, but the blank ones.
  pub record TakenIn (ls : List Str) (u v : Union) : Type 0 where
    pub grows : Grows u v
    pub well : IsWell text_kind v
    pub kept : (l : Str) → contains l ls ≡ true → is_blank l ≡ false → Kept v l
    pub in_union :
        (l : Str) → contains l ls ≡ true → is_blank l ≡ false → InUnion v (kind serde l) l

  pub ingest_lem :
      (ls : List Str) (u : Union)
      → IsWell text_kind u
      → TakenIn ls u (ingest serde (classify_lines serde ls) u)
  ingest_lem [] u w = record {
    grows = Grows-refl u;
    well = w;
    kept = λ l h. absurd cc;
    in_union = λ l h. absurd cc;
  }
  ingest_lem (l ∷ ls) u w = elim (Bool-cases (is_blank l)) [
    | inl blank ↦
        let t = ingest_lem ls u w in
        rw blank (record {
          grows = t.grows;
          well = t.well;
          kept = λ m h n. t.kept m (not_first m h (λ p. blank_text m p blank n)) n;
          in_union = λ m h n. t.in_union m (not_first m h (λ p. blank_text m p blank n)) n;
        })
    | inr text ↦
        let v = ingest_record serde ((classify_record serde l).0) ((classify_record serde l).1) u in
        let a = ingest_record_lem l u text w in
        let t = ingest_lem ls v a.well in
        let end = ingest serde (classify_lines serde ls) v in
        rw text (record {
          grows = Grows-trans u v end a.grows t.grows;
          well = t.well;
          kept = λ m h n. elim (Bool-cases (str_eq m l)) [
            | inl first ↦
                subst (λ q. Kept end q) (sym (str_eq_sound m l first))
                  (Kept-Grows v end l t.grows a.kept)
            | inr later ↦ t.kept m (rw later at h) n
          ];
          in_union = λ m h n. elim (Bool-cases (str_eq m l)) [
            | inl first ↦
                subst (λ q. InUnion end (kind serde q) q) (sym (str_eq_sound m l first))
                  (InUnion-Grows v end (kind serde l) l t.grows a.in_union)
            | inr later ↦ t.in_union m (rw later at h) n
          ];
        })
  ]
    where
      not_first : (m : Str) → contains m (l ∷ ls) ≡ true → str_eq m l ≢ true → contains m ls ≡ true
      not_first m h n = elim (Bool-cases (str_eq m l)) [
        | inl first ↦ absurd (n first)
        | inr later ↦ rw later at h
      ]

      blank_text : (m : Str) → str_eq m l ≡ true → is_blank l ≡ true → is_blank m ≡ false → ⊥
      blank_text m p b n = let q : is_blank m ≡ true = ap is_blank (str_eq_sound m l p) ∙ b in cc

  pub new_union-IsWell : IsWell text_kind new_union
  new_union-IsWell = record { seen = λ l h. absurd cc; keys = λ uuid i h. absurd cc }
