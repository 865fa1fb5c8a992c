-- ===== src/Reconcile/Merge.antt =====
-- crates/scrollz/src/reconcile/merge.rs: the union of two logs, and the gate that checks it.
use fuse_scrollfs.Dict.{Dict, find, put}
use fuse_scrollfs.Prelude.{
  Bool, List, Option, [], false, if◌then◌else◌, leb, ltb, none, not, some, true, ℕ, ◌&&◌, ◌++◌, ◌+◌,
  ◌||◌, ◌∷◌,
}
use fuse_scrollfs.Reconcile.Record.{
  RawRecord, RecordKind, SerdeJson, and_then, classify_record, is_compact_summary, no_uuid,
  parse_lines, record_parent_uuid, record_timestamp, transcript, unparsable,
}
use fuse_scrollfs.Reconcile.Text.{
  Str, contains, is_empty_str, keyed_str, lines, option_lt, str_eq, trim, utf8_len,
}
use fuse_scrollfs.Rmw.Cut.{cut}

pub data Decision : Type 0 where
  log_only : Decision
  incremental : Decision
  compaction_bridge : Decision
  suspect_reuse : Decision

-- A line of the output with its place in the order.
pub record Item : Type 0 where
  pub ts : Option Str
  pub ord : ℕ
  pub line : Str

-- A line that lost against another of its uuid; the code writes it out as text.
pub record Conflict : Type 0 where
  pub uuid : Str
  pub dropped : Str

-- What the closure `ingest` changes.
pub record Union : Type 0 where
  pub by_uuid : Dict Str Item
  pub seen_lines : List Str
  pub extras : List Item
  pub conflicts : List Conflict
  pub truncated : ℕ
  pub ord : ℕ
  pub last_ts : Option Str

abbrev pub new_union : Union
new_union = record {
  by_uuid = [];
  seen_lines = [];
  extras = [];
  conflicts = [];
  truncated = 0;
  ord = 0;
  last_ts = none;
}

abbrev pub or_else : {A : Type 0} → Option A → Option A → Option A
or_else none b = b
or_else (some a) b = some a

unfoldable pub add_conflict : Str → Str → Union → Union
add_conflict uuid line u = record u {
  conflicts = u.conflicts ++ record { uuid = uuid; dropped = line } ∷ [];
}

unfoldable pub put_item : Str → Item → Union → Union
put_item uuid item u = record u { by_uuid = put uuid item u.by_uuid }

-- The longer line of a uuid stays.
unfoldable pub add_transcript : Str → Item → Union → Union
add_transcript uuid item u = elim (find uuid u.by_uuid) [
  | none ↦ put_item uuid item u
  | some prev ↦
      if leb (utf8_len item.line) (utf8_len prev.line)
      then if str_eq prev.line item.line then u else add_conflict uuid item.line u
      else put_item uuid item (add_conflict uuid prev.line u)
]

-- A line without a uuid is kept once.
unfoldable pub add_extra : Item → Union → Union
add_extra item u =
    if contains item.line u.seen_lines
    then u
    else record u { seen_lines = item.line ∷ u.seen_lines; extras = u.extras ++ item ∷ [] }

unfoldable pub count_truncated : Bool → Union → Union
count_truncated cut u = if cut then record u { truncated = u.truncated + 1 } else u

unfoldable pub add_item : RecordKind → Item → Union → Union
add_item (transcript uuid) item u = add_transcript uuid item u
add_item no_uuid item u = add_extra item u
add_item (unparsable cut) item u = add_extra item (count_truncated cut u)

abbrev pub lines_of : List Item → List Str
lines_of [] = []
lines_of (i ∷ is) = i.line ∷ lines_of is

abbrev pub values : Dict Str Item → List Item
values [] = []
values ((k, i) ∷ d) = i ∷ values d

-- The order of the output: by time, then by the order of arrival, which no two items share.
abbrev pub item_lt : Item → Item → Bool
item_lt a b = option_lt a.ts b.ts || (not (option_lt b.ts a.ts) && ltb a.ord b.ord)

abbrev pub insert_item : Item → List Item → List Item
insert_item i [] = i ∷ []
insert_item i (j ∷ js) = let rest = insert_item i js in if item_lt j i then j ∷ rest else i ∷ j ∷ js

abbrev pub sort_items : List Item → List Item
sort_items [] = []
sort_items (i ∷ is) = insert_item i (sort_items is)

-- `BTreeSet`s of uuids, as lists without doubles.
abbrev pub uuids_of : {V : Type 0} → List (RawRecord V × RecordKind) → List Str
uuids_of [] = []
uuids_of ((r, transcript uuid) ∷ rs) =
    let rest = uuids_of rs in if contains uuid rest then rest else uuid ∷ rest
uuids_of ((r, no_uuid) ∷ rs) = uuids_of rs
uuids_of ((r, unparsable cut) ∷ rs) = uuids_of rs

-- How many of the first are among the second, or are not.
abbrev pub count_common : List Str → List Str → ℕ
count_common [] bs = 0
count_common (a ∷ xs) bs = let rest = count_common xs bs in if contains a bs then 1 + rest else rest

abbrev pub count_missing : List Str → List Str → ℕ
count_missing [] bs = 0
count_missing (a ∷ xs) bs =
    let rest = count_missing xs bs in if contains a bs then rest else 1 + rest

abbrev pub no_uuids : List Str → Bool
no_uuids [] = true
no_uuids (u ∷ us) = false

unfoldable pub decide : Bool → List Str → List Str → Decision
decide has_bridge base_uuids inc_uuids =
    if has_bridge
    then compaction_bridge
    else if no_uuids inc_uuids
    then log_only
    else if ltb 0 (count_common base_uuids inc_uuids)
    then incremental
    else if not (no_uuids base_uuids)
    then suspect_reuse
    else incremental

-- Of the evidence, what the decision depends on and the number of cut lines.
pub record MergeResult : Type 0 where
  pub decision : Decision
  pub merged_lines : List Str
  pub conflicts : List Conflict
  pub uuid_overlap : ℕ
  pub incoming_only_transcript : ℕ
  pub has_compaction_bridge : Bool
  pub truncated_lines : ℕ

abbrev pub is_blank : Str → Bool
is_blank l = is_empty_str (trim l)

abbrev pub same_record : RecordKind → Str → RecordKind → Str → Bool
same_record (transcript u) l (transcript v) m = str_eq u v
same_record (transcript u) l no_uuid m = false
same_record (transcript u) l (unparsable cut) m = false
same_record no_uuid l (transcript v) m = false
same_record no_uuid l no_uuid m = str_eq l m
same_record no_uuid l (unparsable cut) m = str_eq l m
same_record (unparsable cut) l (transcript v) m = false
same_record (unparsable cut) l no_uuid m = str_eq l m
same_record (unparsable cut) l (unparsable cut') m = str_eq l m

abbrev pub parent_in : List Str → Option Str → Bool
parent_in base_uuids none = false
parent_in base_uuids (some p) = contains p base_uuids

module _ {V : Type 0} (serde : SerdeJson V) where
  unfoldable pub ingest_record : RawRecord V → RecordKind → Union → Union
  ingest_record r k u =
      let own_ts = and_then (record_timestamp serde) r.json in
      let last_ts = or_else own_ts u.last_ts in
      let item : Item = record { ts = or_else own_ts last_ts; ord = u.ord; line = r.line } in
      let u = add_item k item (record u { last_ts = last_ts }) in record u { ord = u.ord + 1 }

  abbrev pub ingest : List (RawRecord V × RecordKind) → Union → Union
  ingest [] u = u
  ingest ((r, k) ∷ rs) u = ingest rs (ingest_record r k u)

  abbrev pub is_bridge : List Str → Option V → Bool
  is_bridge base_uuids none = false
  is_bridge base_uuids (some v) =
      is_compact_summary serde v && parent_in base_uuids (record_parent_uuid serde v)

  -- A summary whose parent is a record of the base.
  abbrev pub has_bridge : List Str → List (RawRecord V × RecordKind) → Bool
  has_bridge base_uuids [] = false
  has_bridge base_uuids ((r, k) ∷ rs) = is_bridge base_uuids r.json || has_bridge base_uuids rs

  unfoldable pub session_merge : Str → Str → MergeResult
  session_merge base incoming =
      let base_recs = parse_lines serde base in
      let inc_recs = parse_lines serde incoming in
      let base_uuids = uuids_of base_recs in
      let inc_uuids = uuids_of inc_recs in
      let bridge = has_bridge base_uuids inc_recs in
      let u = ingest inc_recs (ingest base_recs new_union) in
      record {
        decision = decide bridge base_uuids inc_uuids;
        merged_lines = lines_of (sort_items (values u.by_uuid ++ u.extras));
        conflicts = u.conflicts;
        uuid_overlap = count_common base_uuids inc_uuids;
        incoming_only_transcript = count_missing inc_uuids base_uuids;
        has_compaction_bridge = bridge;
        truncated_lines = u.truncated;
      }

  unfoldable pub kind : Str → RecordKind
  kind l = (classify_record serde l).1

  -- The gate looks for a transcript by its uuid, and for another line by its text.
  unfoldable pub any_match : RecordKind → Str → List Str → Bool
  any_match k l [] = false
  any_match k l (m ∷ ms) =
      let rest = any_match k l ms in if is_blank m then rest else same_record k l (kind m) m || rest

  unfoldable pub covered : List Str → List Str → Bool
  covered [] merged = true
  covered (l ∷ ls) merged =
      let rest = covered ls merged in
      if is_blank l then rest else any_match (kind l) l merged && rest

  unfoldable pub base_covered_by_merged : Str → Str → Bool
  base_covered_by_merged base merged = covered (lines base) (lines merged)
