-- ===== src/Reconcile/Apart.antt =====
-- The uuids and the bridge of crates/scrollz/src/reconcile/merge.rs, described on the records of the
-- two logs.
use fuse_scrollfs.Prelude.{
  Bool-cases, List, Option, [], ap, arith, false, inl, inr, none, refl, some, sym, true, ◌+◌, ◌||◌,
  ◌∙◌, ◌∷◌, ◌≡◌, ◌⊎◌,
}
use fuse_scrollfs.Reconcile.Ingest.{or_left, or_right}
use fuse_scrollfs.Reconcile.Merge.{
  count_common, has_bridge, is_bridge, no_uuids, parent_in, uuids_of,
}
use fuse_scrollfs.Reconcile.Record.{
  RawRecord, RecordKind, SerdeJson, is_compact_summary, no_uuid, record_parent_uuid, transcript,
  unparsable,
}
use fuse_scrollfs.Reconcile.Text.{Str, contains, str_eq, str_eq-same, str_eq_sound}
use fuse_scrollfs.Rmw.Cut.{cut}
use mathlib.Core.Path.{subst}

module _ {V : Type 0} where
  -- A record has the uuid.
  abbrev pub HasUuid : Str → List (RawRecord V × RecordKind) → Type 0
  HasUuid u [] = ⊥
  HasUuid u ((r, k) ∷ rs) = (k ≡ transcript u) ⊎ HasUuid u rs

  pub uuids_of-HasUuid :
      (u : Str) (recs : List (RawRecord V × RecordKind))
      → contains u (uuids_of recs) ≡ true
      → HasUuid u recs
  uuids_of-HasUuid u [] h = absurd cc
  uuids_of-HasUuid u ((r, no_uuid) ∷ rs) h = inr (uuids_of-HasUuid u rs h)
  uuids_of-HasUuid u ((r, unparsable cut) ∷ rs) h = inr (uuids_of-HasUuid u rs h)
  uuids_of-HasUuid u ((r, transcript v) ∷ rs) h = elim (Bool-cases (contains v (uuids_of rs))) [
    | inl twice ↦ inr (uuids_of-HasUuid u rs (rw twice at h))
    | inr first ↦
        let h' : (str_eq u v || contains u (uuids_of rs)) ≡ true = rw first at h in
        elim (Bool-cases (str_eq u v)) [
          | inl same ↦ inl (ap transcript (sym (str_eq_sound u v same)))
          | inr other ↦ inr (uuids_of-HasUuid u rs (rw other at h'))
        ]
  ]

  pub HasUuid-uuids_of :
      (u : Str) (recs : List (RawRecord V × RecordKind))
      → HasUuid u recs
      → contains u (uuids_of recs) ≡ true
  HasUuid-uuids_of u [] h = absurd h
  HasUuid-uuids_of u ((r, no_uuid) ∷ rs) (inl e) = absurd cc
  HasUuid-uuids_of u ((r, no_uuid) ∷ rs) (inr h) = HasUuid-uuids_of u rs h
  HasUuid-uuids_of u ((r, unparsable cut) ∷ rs) (inl e) = absurd cc
  HasUuid-uuids_of u ((r, unparsable cut) ∷ rs) (inr h) = HasUuid-uuids_of u rs h
  HasUuid-uuids_of u ((r, transcript v) ∷ rs) (inl e) =
      let q : v ≡ u = cc in
      elim (Bool-cases (contains v (uuids_of rs))) [
        | inl twice ↦ rw twice (ap (λ x. contains x (uuids_of rs)) (sym q) ∙ twice)
        | inr first ↦ rw first (
            subst (λ x. (str_eq u x || contains u (uuids_of rs)) ≡ true) (sym q)
              (rw (str_eq-same u) refl))
      ]
  HasUuid-uuids_of u ((r, transcript v) ∷ rs) (inr h) =
      let there = HasUuid-uuids_of u rs h in
      elim (Bool-cases (contains v (uuids_of rs))) [
        | inl twice ↦ rw twice there
        | inr first ↦ rw first (or_right (str_eq u v) (contains u (uuids_of rs)) there)
      ]

  pub some_uuid :
      (recs : List (RawRecord V × RecordKind))
      → no_uuids (uuids_of recs) ≡ false
      → (u : Str) × HasUuid u recs
  some_uuid recs h = first (uuids_of recs) refl h
    where
      first :
          (us : List Str) → uuids_of recs ≡ us → no_uuids us ≡ false → (u : Str) × HasUuid u recs
      first [] e h = absurd cc
      first (u ∷ us) e h =
          (u, uuids_of-HasUuid u recs (ap (contains u) e ∙ rw (str_eq-same u) refl))

  pub no_uuids-HasUuid :
      (recs : List (RawRecord V × RecordKind)) (u : Str)
      → HasUuid u recs
      → no_uuids (uuids_of recs) ≡ false
  no_uuids-HasUuid recs u h = not_empty (uuids_of recs) (HasUuid-uuids_of u recs h)
    where
      not_empty : (us : List Str) → contains u us ≡ true → no_uuids us ≡ false
      not_empty [] e = absurd cc
      not_empty (v ∷ us) e = refl

pub count_common-zero :
    (xs bs : List Str)
    → count_common xs bs ≡ 0
    → (u : Str) → contains u xs ≡ true
    → contains u bs ≡ true
    → ⊥
count_common-zero [] bs h u i j = cc
count_common-zero (a ∷ xs) bs h u i j = elim (Bool-cases (contains a bs)) [
  | inl common ↦ let h' : 1 + count_common xs bs ≡ 0 = rw common at h in absurd (omega (arith, h'))
  | inr apart ↦
      let h' : count_common xs bs ≡ 0 = rw apart at h in
      elim (Bool-cases (str_eq u a)) [
        | inl same ↦
            let q : contains a bs ≡ true =
              subst (λ x. contains x bs ≡ true) (str_eq_sound u a same) j in
            cc
        | inr other ↦ count_common-zero xs bs h' u (rw other at i) j
      ]
]

pub count_common-apart :
    (xs bs : List Str)
    → ((u : Str) → contains u xs ≡ true → contains u bs ≡ true → ⊥)
    → count_common xs bs ≡ 0
count_common-apart [] bs k = refl
count_common-apart (a ∷ xs) bs k = elim (Bool-cases (contains a bs)) [
  | inl common ↦ absurd (k a (rw (str_eq-same a) refl) common)
  | inr apart ↦
      rw apart (count_common-apart xs bs (λ u i j. k u (or_right (str_eq u a) (contains u xs) i) j))
]

module _ {V : Type 0} (serde : SerdeJson V) where
  -- The record is a compaction summary whose parent is a record of the base.
  abbrev pub Bridges : List (RawRecord V × RecordKind) → Option V → Type 0
  Bridges base none = ⊥
  Bridges base (some v) =
      (is_compact_summary serde v ≡ true)
      × (u : Str) × (record_parent_uuid serde v ≡ some u)
      × HasUuid u base

  abbrev pub IsBridged : List (RawRecord V × RecordKind) → List (RawRecord V × RecordKind) → Type 0
  IsBridged base [] = ⊥
  IsBridged base ((r, k) ∷ rs) = Bridges base r.json ⊎ IsBridged base rs

  parent_in-HasUuid :
      (base : List (RawRecord V × RecordKind)) (o : Option Str)
      → parent_in (uuids_of base) o ≡ true
      → (u : Str) × (o ≡ some u) × HasUuid u base
  parent_in-HasUuid base none h = absurd cc
  parent_in-HasUuid base (some u) h = (u, refl, uuids_of-HasUuid u base h)

  is_bridge-Bridges :
      (base : List (RawRecord V × RecordKind)) (o : Option V)
      → is_bridge serde (uuids_of base) o ≡ true
      → Bridges base o
  is_bridge-Bridges base none h = absurd cc
  is_bridge-Bridges base (some v) h = elim (Bool-cases (is_compact_summary serde v)) [
    | inl summary ↦
        let p = parent_in-HasUuid base (record_parent_uuid serde v) (rw summary at h) in
        (summary, p.0, p.1, p.2)
    | inr other ↦ let h' : false ≡ true = rw other at h in absurd cc
  ]

  Bridges-is_bridge :
      (base : List (RawRecord V × RecordKind)) (o : Option V)
      → Bridges base o
      → is_bridge serde (uuids_of base) o ≡ true
  Bridges-is_bridge base none h = absurd h
  Bridges-is_bridge base (some v) (summary, u, parent, there) =
      rw (summary, parent) (HasUuid-uuids_of u base there)

  pub has_bridge-IsBridged :
      (base recs : List (RawRecord V × RecordKind))
      → has_bridge serde (uuids_of base) recs ≡ true
      → IsBridged base recs
  has_bridge-IsBridged base [] h = absurd cc
  has_bridge-IsBridged base ((r, k) ∷ rs) h =
      elim (Bool-cases (is_bridge serde (uuids_of base) r.json)) [
        | inl here ↦ inl (is_bridge-Bridges base r.json here)
        | inr later ↦ inr (has_bridge-IsBridged base rs (rw later at h))
      ]

  pub IsBridged-has_bridge :
      (base recs : List (RawRecord V × RecordKind))
      → IsBridged base recs
      → has_bridge serde (uuids_of base) recs ≡ true
  IsBridged-has_bridge base [] h = absurd h
  IsBridged-has_bridge base ((r, k) ∷ rs) (inl here) =
      or_left (is_bridge serde (uuids_of base) r.json) _ (Bridges-is_bridge base r.json here)
  IsBridged-has_bridge base ((r, k) ∷ rs) (inr there) =
      or_right (is_bridge serde (uuids_of base) r.json) _ (IsBridged-has_bridge base rs there)
