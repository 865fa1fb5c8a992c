-- ===== src/Reconcile/Tests.antt =====
-- Two logs of three lines. The parser takes a line's first character for its kind: `u` (117) begins
-- a transcript whose uuid is the second character, `n` (110) a record without one.
use fuse_scrollfs.Prelude.{
  Option, [], drop, if◌then◌else◌, inl, none, refl, some, take, true, ◌||◌, ◌↔◌, ◌∷◌, ◌≡◌, ◌⊎◌,
}
use fuse_scrollfs.Reconcile.Advisor.{AreApart, keep_separate, recommend, recommend-session_merge}
use fuse_scrollfs.Reconcile.Gate.{covered-session_merge, session_merge-lossless}
use fuse_scrollfs.Reconcile.Ingest.{dropped_of}
use fuse_scrollfs.Reconcile.Merge.{
  MergeResult, add_conflict, add_extra, add_item, add_transcript, covered, ingest_record, put_item,
  session_merge,
}
use fuse_scrollfs.Reconcile.Record.{
  Key, SerdeJson, classify_record, key_is_compact_summary, key_parent_uuid, key_timestamp, key_uuid,
  kind_of, parse_lines, record_timestamp, record_uuid,
}
use fuse_scrollfs.Reconcile.Text.{Str, contains, keyed_str, lines, starts_with}

abbrev toy_get : Str → Key → Option Str
toy_get l key_uuid = if starts_with 117 l then some (take 1 (drop 1 l)) else none
toy_get l key_parent_uuid = none
toy_get l key_timestamp = none
toy_get l key_is_compact_summary = none

abbrev toy : SerdeJson Str
toy = record {
  from_str = λ l. if starts_with 117 l || starts_with 110 l then some l else none;
  get = toy_get;
  as_str = λ v. some v;
  as_bool = λ v. none;
}

-- Lines `ua` and `n1`, then lines `uab` and `n2`, where the longer line of uuid `a` wins.
abbrev base_log : Str
base_log = 117 ∷ 97 ∷ 10 ∷ 110 ∷ 49 ∷ 10 ∷ []

abbrev incoming_log : Str
incoming_log = 117 ∷ 97 ∷ 98 ∷ 10 ∷ 110 ∷ 50 ∷ []

abbrev merged : MergeResult
merged = session_merge toy base_log incoming_log

merged_lines_eq :
    merged.merged_lines ≡ (110 ∷ 49 ∷ []) ∷ (117 ∷ 97 ∷ 98 ∷ []) ∷ (110 ∷ 50 ∷ []) ∷ []
unfolding session_merge parse_lines classify_record kind_of record_uuid record_timestamp
    ingest_record add_item add_transcript add_extra add_conflict put_item keyed_str
merged_lines_eq = refl

covered-session_merge_example :
    (covered toy (lines base_log) merged.merged_lines ≡ true)
    × (covered toy (lines incoming_log) merged.merged_lines ≡ true)
covered-session_merge_example = covered-session_merge toy base_log incoming_log

session_merge-lossless_example :
    (contains (117 ∷ 97 ∷ []) merged.merged_lines ≡ true)
    ⊎ (contains (117 ∷ 97 ∷ []) (dropped_of merged.conflicts) ≡ true)
session_merge-lossless_example =
    session_merge-lossless toy base_log incoming_log (117 ∷ 97 ∷ []) refl (inl refl)

recommend-session_merge_example :
    ((recommend merged).0 ≡ keep_separate)
    ↔ AreApart toy (parse_lines toy base_log) (parse_lines toy incoming_log)
recommend-session_merge_example = recommend-session_merge toy base_log incoming_log
