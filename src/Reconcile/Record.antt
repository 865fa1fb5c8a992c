-- ===== src/Reconcile/Record.antt =====
-- crates/scrollz/src/reconcile/record.rs: what a line of a log is. The crate serde_json is a
-- parameter.
-- The names that the code looks up in an object.
use fuse_scrollfs.Prelude.{Bool, List, Option, [], false, if◌then◌else◌, none, not, some, ◌&&◌, ◌∷◌}
use fuse_scrollfs.Reconcile.Text.{Str, ends_with, is_empty_str, lines, starts_with, trim}

pub data Key : Type 0 where
  key_uuid : Key
  key_parent_uuid : Key
  key_timestamp : Key
  key_is_compact_summary : Key

pub record SerdeJson (V : Type 0) : Type 0 where
  pub from_str : Str → Option V
  pub get : V → Key → Option V
  pub as_str : V → Option Str
  pub as_bool : V → Option Bool

pub record RawRecord (V : Type 0) : Type 0 where
  pub line : Str
  pub json : Option V

pub data RecordKind : Type 0 where
  transcript : Str → RecordKind
  no_uuid : RecordKind
  unparsable : Bool → RecordKind

abbrev pub and_then : {A B : Type 0} → (A → Option B) → Option A → Option B
and_then f none = none
and_then f (some a) = f a

abbrev pub unwrap_or : {A : Type 0} → A → Option A → A
unwrap_or d none = d
unwrap_or d (some a) = a

module _ {V : Type 0} (serde : SerdeJson V) where
  unfoldable pub record_uuid : V → Option Str
  record_uuid v = and_then serde.as_str (serde.get v key_uuid)

  unfoldable pub record_parent_uuid : V → Option Str
  record_parent_uuid v = and_then serde.as_str (serde.get v key_parent_uuid)

  unfoldable pub record_timestamp : V → Option Str
  record_timestamp v = and_then serde.as_str (serde.get v key_timestamp)

  unfoldable pub is_compact_summary : V → Bool
  is_compact_summary v =
      unwrap_or false (and_then serde.as_bool (serde.get v key_is_compact_summary))

  -- An empty uuid is none.
  unfoldable pub kind_of : V → RecordKind
  kind_of v = elim (record_uuid v) [
    | none ↦ no_uuid
    | some u ↦ if is_empty_str u then no_uuid else transcript u
  ]

  -- 123 and 125 are the braces of an object: a line that opens one and does not close it was cut off.
  unfoldable pub classify_record : Str → RawRecord V × RecordKind
  classify_record line = elim (serde.from_str line) [
    | some v ↦ (record { line = line; json = some v }, kind_of v)
    | none ↦ (
      record { line = line; json = none },
      unparsable (starts_with 123 (trim line) && not (ends_with 125 (trim line))),
    )
  ]

  abbrev pub classify_lines : List Str → List (RawRecord V × RecordKind)
  classify_lines [] = []
  classify_lines (l ∷ ls) =
      let rest = classify_lines ls in
      if is_empty_str (trim l) then rest else classify_record l ∷ rest

  -- `content.lines().filter(..).map(classify_record)`.
  unfoldable pub parse_lines : Str → List (RawRecord V × RecordKind)
  parse_lines content = classify_lines (lines content)
