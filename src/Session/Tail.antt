-- ===== src/Session/Tail.antt =====
-- Of crates/scrollz/src/core/wsession.rs.
-- The state of an open file: its backend, its open last block and the counter of sealed blocks.
use fuse_scrollfs.Bytes.{Bytes, fit}
use fuse_scrollfs.Prelude.{
  Bool, Option, [], false, if◌then◌else◌, length, none, some, true, ℕ, ◌%◌, ◌&&◌, ◌+◌, ◌/◌, ◌==◌,
  ◌∷◌,
}
use fuse_scrollfs.Prelude.Exec.{Exec, modify}
use fuse_scrollfs.Store.{Store}

pub record Tail : Type 0 where
  pub idx : ℕ
  pub plain : Bytes
  pub chunk_size : ℕ
  pub file_size : ℕ
  pub journaled_len : ℕ

-- `InodeState` beside the backend and the counter of the metrics.
pub record Open (W : Type 0) : Type 0 where
  pub disk : W
  pub tail : Option Tail
  pub seals : ℕ

unfoldable pub empty_tail : ℕ → ℕ → Tail
empty_tail size chunk_size = record {
  idx = size / chunk_size;
  plain = [];
  chunk_size = chunk_size;
  file_size = size;
  journaled_len = 0;
}

module _ {W : Type 0} where
  abbrev pub on_disk : {A : Type 0} → Exec W A → Exec (Open W) A
  on_disk m s = let (r, w) = m s.disk in (r, record s { disk = w })

  abbrev pub set_tail : Option Tail → Exec (Open W) (Unit {0})
  set_tail t = modify (λ s. record s { tail = t })

  abbrev pub record_seal : Exec (Open W) (Unit {0})
  record_seal = modify (λ s. record s { seals = s.seals + 1 })

  unfoldable pub geometry_locked : Store W → Bool → ℕ → Open W → Option (ℕ × ℕ)
  geometry_locked store enabled ino s =
      let stored = store.block_geometry s.disk ino in
      elim s.tail [
        | none ↦ stored
        | some t ↦ if enabled then some (t.file_size, t.chunk_size) else stored
      ]

  unfoldable pub read_tail_block : Bool → ℕ → Open W → Option Bytes
  read_tail_block enabled idx s = elim s.tail [
    | none ↦ none
    | some t ↦ if enabled && t.idx == idx then some t.plain else none
  ]

  unfoldable pub start_empty_tail : ℕ → ℕ → Exec (Open W) (Unit {0})
  start_empty_tail size chunk_size = set_tail (some (empty_tail size chunk_size))

  unfoldable pub forget_locked : Exec (Open W) (Unit {0})
  forget_locked = set_tail none

-- `if plain.len() != want { plain.resize(want, 0) }`.
abbrev pub resized : ℕ → Bytes → Bytes
resized want plain = if length plain == want then plain else fit want plain

-- The block that an unaligned end falls in, as it was read, brought to its length.
unfoldable pub loaded_tail : ℕ → ℕ → Bytes → Tail
loaded_tail size chunk_size plain =
    let want = size % chunk_size in
    let plain = resized want plain in
    record {
      idx = size / chunk_size;
      plain = plain;
      chunk_size = chunk_size;
      file_size = size;
      journaled_len = length plain;
    }

abbrev pub is_empty : Bytes → Bool
is_empty [] = true
is_empty (b ∷ bs) = false

abbrev pub nothing_to_seal : Tail → Bool
nothing_to_seal t = is_empty t.plain && (t.file_size % t.chunk_size) == 0
