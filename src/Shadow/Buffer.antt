-- ===== src/Shadow/Buffer.antt =====
-- The write session of crates/scrollz/src/store/shadow.rs: what was written to an inode since its
-- last commit.
use fuse_scrollfs.BlockCache.{keyed_nat, keyed_pair}
use fuse_scrollfs.Bytes.{Bytes}
use fuse_scrollfs.Dict.{Dict, find, put}
use fuse_scrollfs.Prelude.{
  Bool, Option, [], false, if◌then◌else◌, leb, ltb, min, none, some, ℕ, ◌==◌, ◌∷◌,
}
use fuse_scrollfs.Store.{StoredBlock}

pub data HeadCacheUpdate : Type 0 where
  keep : HeadCacheUpdate
  replaced : Bytes → Bool → ℕ → HeadCacheUpdate
  cleared : HeadCacheUpdate

pub record WriteSession : Type 0 where
  pub dirty : Dict ℕ StoredBlock
  pub size : ℕ
  pub chunk_size : ℕ
  pub truncate_to : Option ℕ
  pub head_cache : HeadCacheUpdate

-- `is_some_and(|keep_from| idx >= keep_from)`.
abbrev pub is_cut : Option ℕ → ℕ → Bool
is_cut none idx = false
is_cut (some keep_from) idx = leb keep_from idx

-- `entry(idx).or_insert(block)`.
abbrev pub or_insert : ℕ → StoredBlock → Dict ℕ StoredBlock → Dict ℕ StoredBlock
or_insert idx block dirty = elim (find idx dirty) [ none ↦ put idx block dirty | some _ ↦ dirty ]

-- The loop over the older blocks; those that the newer session has cut off stay away.
unfoldable pub merge_dirty : Option ℕ → Dict ℕ StoredBlock → Dict ℕ StoredBlock → Dict ℕ StoredBlock
merge_dirty active_truncate [] dirty = dirty
merge_dirty active_truncate ((idx, block) ∷ older) dirty =
    merge_dirty active_truncate older
      (if is_cut active_truncate idx then dirty else or_insert idx block dirty)

abbrev pub merge_truncate : Option ℕ → Option ℕ → Option ℕ
merge_truncate none older = older
merge_truncate (some keep_from) older = some keep_from

-- An older head cache is kept if the newer session says nothing and is not shorter than it.
abbrev pub inherited : ℕ → HeadCacheUpdate → HeadCacheUpdate
inherited size keep = keep
inherited size cleared = cleared
inherited size (replaced bytes verbatim rawlen) =
    if ltb size rawlen then cleared else replaced bytes verbatim rawlen

abbrev pub merge_head : ℕ → HeadCacheUpdate → HeadCacheUpdate → HeadCacheUpdate
merge_head size keep older = inherited size older
merge_head size cleared older = cleared
merge_head size (replaced bytes verbatim rawlen) older = replaced bytes verbatim rawlen

unfoldable pub merge_from_flushing : WriteSession → WriteSession → WriteSession
merge_from_flushing s flushing = record s {
  dirty = merge_dirty s.truncate_to flushing.dirty s.dirty;
  truncate_to = merge_truncate s.truncate_to flushing.truncate_to;
  head_cache = merge_head s.size s.head_cache flushing.head_cache;
}

-- `dirty.retain(|&i, _| i < keep_from)`.
unfoldable pub retain_dirty : ℕ → Dict ℕ StoredBlock → Dict ℕ StoredBlock
retain_dirty keep_from [] = []
retain_dirty keep_from ((idx, block) ∷ dirty) =
    let kept = retain_dirty keep_from dirty in
    if ltb idx keep_from then (idx, block) ∷ kept else kept

abbrev pub cut_at : Option ℕ → ℕ → ℕ
cut_at none keep_from = keep_from
cut_at (some prev) keep_from = min prev keep_from

-- What the closures of `put_block`, `truncate_blocks` and `set_head_cache` do to the session.
unfoldable pub session_put : ℕ → StoredBlock → ℕ → WriteSession → WriteSession
session_put idx blk new_size s = record s {
  dirty = put idx blk s.dirty;
  size = new_size;
  head_cache = if idx == 0 then cleared else s.head_cache;
}

unfoldable pub session_truncate : ℕ → ℕ → WriteSession → WriteSession
session_truncate keep_from new_size s = record s {
  dirty = retain_dirty keep_from s.dirty;
  truncate_to = some (cut_at s.truncate_to keep_from);
  size = new_size;
  head_cache = if keep_from == 0 then cleared else s.head_cache;
}

unfoldable pub session_head : Bytes → Bool → ℕ → WriteSession → WriteSession
session_head bytes verbatim rawlen s = record s { head_cache = replaced bytes verbatim rawlen }

-- What a session says of a block.
pub data Layer : Type 0 where
  held : StoredBlock → Layer
  cut_off : Layer
  passes : Layer

unfoldable pub session_layer : ℕ → Option WriteSession → Layer
session_layer idx none = passes
session_layer idx (some s) = elim (find idx s.dirty) [
  | some blk ↦ held blk
  | none ↦ if is_cut s.truncate_to idx then cut_off else passes
]

-- The newer session first.
abbrev pub over : Layer → Layer → Layer
over (held blk) older = held blk
over cut_off older = cut_off
over passes older = older
