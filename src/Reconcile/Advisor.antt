-- ===== src/Reconcile/Advisor.antt =====
-- crates/scrollz/src/reconcile/advisor.rs: what to do with a merge. The text of the rationale is
-- left out.
use fuse_scrollfs.Prelude.{
  Bool, Bool-cases, List, [], arith, false, if◌then◌else◌, inl, inr, ltb, refl, true, ◌↔◌, ◌∷◌, ◌≡◌,
}
use fuse_scrollfs.Reconcile.Apart.{
  HasUuid, HasUuid-uuids_of, IsBridged, IsBridged-has_bridge, count_common-apart, count_common-zero,
  has_bridge-IsBridged, no_uuids-HasUuid, some_uuid, uuids_of-HasUuid,
}
use fuse_scrollfs.Reconcile.Merge.{
  Conflict, Decision, MergeResult, compaction_bridge, count_common, decide, has_bridge, incremental,
  log_only, no_uuids, session_merge, suspect_reuse, uuids_of,
}
use fuse_scrollfs.Reconcile.Record.{RawRecord, RecordKind, SerdeJson, parse_lines}
use fuse_scrollfs.Reconcile.Text.{Str}

pub data Confidence : Type 0 where
  high : Confidence
  medium : Confidence
  low : Confidence

pub data Action : Type 0 where
  union_into_base : Action
  keep_separate : Action
  passthrough_restore : Action
  keep_both : Action

abbrev pub no_conflicts : List Conflict → Bool
no_conflicts [] = true
no_conflicts (c ∷ cs) = false

unfoldable pub recommend : MergeResult → Action × Confidence
recommend r = elim r.decision [
  | log_only ↦ (union_into_base, high)
  | compaction_bridge ↦ (union_into_base, high)
  | incremental ↦ (union_into_base, if no_conflicts r.conflicts then high else medium)
  | suspect_reuse ↦ (keep_separate, low)
]

-- No bridge, and uuids in both lists but none in common.
abbrev DecidedApart : Bool → List Str → List Str → Type 0
DecidedApart bridge base_uuids inc_uuids =
    (bridge ≡ false)
    × (no_uuids inc_uuids ≡ false)
    × (no_uuids base_uuids ≡ false)
    × (count_common base_uuids inc_uuids ≡ 0)

decide-apart :
    (bridge : Bool) (base_uuids inc_uuids : List Str)
    → decide bridge base_uuids inc_uuids ≡ suspect_reuse
    → DecidedApart bridge base_uuids inc_uuids
unfolding decide
decide-apart true base_uuids inc_uuids h = absurd cc
decide-apart false base_uuids inc_uuids h = elim (Bool-cases (no_uuids inc_uuids)) [
  | inl none_in ↦ let h' : log_only ≡ suspect_reuse = rw none_in at h in absurd cc
  | inr some_in ↦
      let h1 = rw some_in at h in
      elim (Bool-cases (ltb 0 (count_common base_uuids inc_uuids))) [
        | inl common ↦ let h2 : incremental ≡ suspect_reuse = rw common at h1 in absurd cc
        | inr apart ↦
            let h2 = rw apart at h1 in
            elim (Bool-cases (no_uuids base_uuids)) [
              | inl none_base ↦
                  let h3 : incremental ≡ suspect_reuse = rw none_base at h2 in absurd cc
              | inr some_base ↦ (refl, some_in, some_base, ground (arith, apart))
            ]
      ]
]

apart-decide :
    (bridge : Bool) (base_uuids inc_uuids : List Str)
    → DecidedApart bridge base_uuids inc_uuids
    → decide bridge base_uuids inc_uuids ≡ suspect_reuse
unfolding decide
apart-decide bridge base_uuids inc_uuids h = rw (h.0, h.1, h.2, h.3) refl

recommend-decision :
    (r : MergeResult) → ((recommend r).0 ≡ keep_separate) ↔ (r.decision ≡ suspect_reuse)
unfolding recommend
recommend-decision r = (to r.decision refl, λ e. rw (recommend, e) refl)
  where
    to :
        (d : Decision)
        → r.decision ≡ d
        → (recommend r).0 ≡ keep_separate
        → r.decision ≡ suspect_reuse
    to suspect_reuse e h = e
    to log_only e h = let h' : union_into_base ≡ keep_separate = rw (recommend, e) at h in absurd cc
    to incremental e h =
        let h' : union_into_base ≡ keep_separate = rw (recommend, e) at h in absurd cc
    to compaction_bridge e h =
        let h' : union_into_base ≡ keep_separate = rw (recommend, e) at h in absurd cc

module _ {V : Type 0} (serde : SerdeJson V) where
  -- Both logs have transcripts, no uuid is in both, and no record of the incoming log bridges them.
  abbrev pub AreApart : List (RawRecord V × RecordKind) → List (RawRecord V × RecordKind) → Type 0
  AreApart base_recs inc_recs =
      (¬ IsBridged serde base_recs inc_recs)
      × ((u : Str) × HasUuid u inc_recs)
      × ((u : Str) × HasUuid u base_recs)
      × ((u : Str) → HasUuid u base_recs → HasUuid u inc_recs → ⊥)

  DecidedApart-AreApart :
      (base_recs inc_recs : List (RawRecord V × RecordKind))
      → DecidedApart
          (has_bridge serde (uuids_of base_recs) inc_recs)
          (uuids_of base_recs)
          (uuids_of inc_recs)
      → AreApart base_recs inc_recs
  DecidedApart-AreApart base_recs inc_recs (no_bridge, some_in, some_base, apart) = (
    λ bridged.
        let h = IsBridged-has_bridge serde base_recs inc_recs bridged in
        let h' : false ≡ true = rw no_bridge at h in absurd cc,
    some_uuid inc_recs some_in,
    some_uuid base_recs some_base,
    λ u i j.
        count_common-zero (uuids_of base_recs) (uuids_of inc_recs) apart u
          (HasUuid-uuids_of u base_recs i) (HasUuid-uuids_of u inc_recs j),
  )

  AreApart-DecidedApart :
      (base_recs inc_recs : List (RawRecord V × RecordKind))
      → AreApart base_recs inc_recs
      → DecidedApart
          (has_bridge serde (uuids_of base_recs) inc_recs)
          (uuids_of base_recs)
          (uuids_of inc_recs)
  AreApart-DecidedApart base_recs inc_recs (unbridged, (u, i), (v, j), apart) = (
    elim (Bool-cases (has_bridge serde (uuids_of base_recs) inc_recs)) [
      | inl bridge ↦ absurd (unbridged (has_bridge-IsBridged serde base_recs inc_recs bridge))
      | inr no_bridge ↦ no_bridge
    ],
    no_uuids-HasUuid inc_recs u i,
    no_uuids-HasUuid base_recs v j,
    count_common-apart (uuids_of base_recs) (uuids_of inc_recs)
        (λ w k l. apart w (uuids_of-HasUuid w base_recs k) (uuids_of-HasUuid w inc_recs l)),
  )

  -- For any JSON parser, a merge is recommended to be kept separate just if both logs have a
  -- transcript, no uuid is that of a transcript in both, and no record of the incoming log is a
  -- compaction summary whose parent is the uuid of a transcript in the base.
  pub recommend-session_merge :
      (base incoming : Str)
      → ((recommend (session_merge serde base incoming)).0 ≡ keep_separate)
        ↔ AreApart (parse_lines serde base) (parse_lines serde incoming)
  unfolding session_merge
  recommend-session_merge base incoming =
      let base_recs = parse_lines serde base in
      let inc_recs = parse_lines serde incoming in
      let base_uuids = uuids_of base_recs in
      let inc_uuids = uuids_of inc_recs in
      let bridge = has_bridge serde base_uuids inc_recs in
      let r = session_merge serde base incoming in
      (
        λ h.
            DecidedApart-AreApart base_recs inc_recs
              (decide-apart bridge base_uuids inc_uuids ((recommend-decision r).0 h)),
        λ h.
            (recommend-decision r).1 (
              apart-decide bridge base_uuids inc_uuids
                (AreApart-DecidedApart base_recs inc_recs h)),
      )
