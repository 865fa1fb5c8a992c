-- ===== src/Session/Ops.antt =====
-- Of crates/scrollz/src/core/wsession.rs.
-- The operations of an open file.
use fuse_scrollfs.Bytes.{Bytes}
use fuse_scrollfs.Chunk.{add64}
use fuse_scrollfs.Codec.{Zstd}
use fuse_scrollfs.Prelude.{
  Bool, [], drop, if◌then◌else◌, length, ltb, min, none, some, suc, take, true, zero, ℕ, ◌%◌, ◌++◌,
  ◌-◌, ◌/◌, ◌==◌, ◌||◌, ◌∷◌,
}
use fuse_scrollfs.Prelude.Exec.{Exec, continue_with, lift, pure, ◌>>=◌, ◌>>◌}
use fuse_scrollfs.Prelude.Result.{err, not_found, ok, other_error}
use fuse_scrollfs.Rmw.Block.{seal_plain_block, store_plain_block}
use fuse_scrollfs.Rmw.Load.{CodecParams, load_plain_block}
use fuse_scrollfs.Rmw.Truncate.{truncate}
use fuse_scrollfs.Rmw.Write.{write_at}
use fuse_scrollfs.Session.Tail.{
  Open, Tail, geometry_locked, is_empty, loaded_tail, nothing_to_seal, on_disk, record_seal,
  set_tail, start_empty_tail,
}
use fuse_scrollfs.Store.{Store}

-- As many bytes as the tail has room for.
unfoldable pub extend_tail : ℕ → Bytes → Tail → Tail
extend_tail chunk_size rest t =
    let took = min (chunk_size - length t.plain) (length rest) in
    record t { plain = t.plain ++ take took rest; file_size = add64 t.file_size took }

module _ {W : Type 0} (z : Zstd) (store : Store W) (ino : ℕ) (params : CodecParams)
    (enabled : Bool) where
  -- `rmw::load_plain_block(...)?` and the tail made of it.
  unfoldable pub load_tail : ℕ → ℕ → Exec (Open W) (Unit {0})
  load_tail size chunk_size s =
      continue_with (λ plain. set_tail (some (loaded_tail size chunk_size plain)))
        (load_plain_block z params store s.disk ino (size / chunk_size), s)

  unfoldable pub ensure_tail_loaded : ℕ → ℕ → Exec (Open W) (Unit {0})
  ensure_tail_loaded chunk_size cur_size s = elim s.tail [
    | some t ↦ (ok tt, s)
    | none ↦
        if cur_size == 0 || (cur_size % chunk_size) == 0
        then start_empty_tail cur_size chunk_size s
        else load_tail cur_size chunk_size s
  ]

  unfoldable pub refill_tail_from_store : Exec (Open W) (Unit {0})
  refill_tail_from_store s = elim (store.block_geometry s.disk ino) [
    | none ↦ (ok tt, s)
    | some (size, chunk_size) ↦
        if size == 0 || (size % chunk_size) == 0 then (ok tt, s) else load_tail size chunk_size s
  ]

  unfoldable pub seal_into : (ℕ → Bytes → ℕ → Exec W (Unit {0})) → Tail → Exec (Open W) (Unit {0})
  seal_into write t = on_disk (write t.idx t.plain t.file_size) >> record_seal >> set_tail none

  unfoldable pub materialize_tail : Tail → Exec (Open W) (Unit {0})
  materialize_tail t =
      if nothing_to_seal t then set_tail none else seal_into (seal_plain_block z store ino params) t

  unfoldable pub materialize : Exec (Open W) (Unit {0})
  materialize s = elim s.tail [
    | none ↦ (ok tt, s)
    | some t ↦ if enabled then materialize_tail t s else (ok tt, s)
  ]

  -- fsync: the bytes that the journal does not have yet, where the backend has a journal.
  unfoldable pub journal_tail : Tail → Exec (Open W) (Unit {0})
  journal_tail t =
      if ltb t.journaled_len (length t.plain)
      then on_disk (store.append_tail ino (drop t.journaled_len t.plain) t.file_size)
        >> set_tail (some (record t { journaled_len = length t.plain }))
      else pure tt

  unfoldable pub seal_tail : Tail → Exec (Open W) (Unit {0})
  seal_tail t =
      if nothing_to_seal t
      then set_tail none
      else if store.supports_tail_journal
      then journal_tail t
      else seal_into (store_plain_block z store ino params) t

  unfoldable pub seal_locked : Exec (Open W) (Unit {0})
  seal_locked s = elim s.tail [
    | none ↦ (ok tt, s)
    | some t ↦ if enabled then seal_tail t s else (ok tt, s)
  ]

  unfoldable pub truncate_locked : ℕ → Exec (Open W) (Unit {0})
  truncate_locked new_size =
      if enabled
      then materialize >> on_disk (truncate z store ino params new_size)
      else on_disk (truncate z store ino params new_size)

  -- A full tail is sealed, and an empty one opened where bytes are left.
  unfoldable pub finish_block : ℕ → ℕ → Bool → Exec (Open W) (Unit {0})
  finish_block chunk_size next_size more_bytes =
      materialize >> (if more_bytes then start_empty_tail next_size chunk_size else pure tt)

  -- One round of the loop gives back how many bytes it wrote.
  unfoldable pub append_round : ℕ → ℕ → Bytes → Tail → Exec (Open W) ℕ
  append_round chunk_size next_size rest t =
      let took = min (chunk_size - length t.plain) (length rest) in
      let t = extend_tail chunk_size rest t in
      set_tail (some t)
      >> (if length t.plain == chunk_size
          then finish_block chunk_size (add64 next_size took) (ltb took (length rest))
          else pure tt)
      >> pure took

  unfoldable pub append_step : ℕ → ℕ → Bytes → Exec (Open W) ℕ
  append_step chunk_size next_size rest s = elim s.tail [
    | none ↦ (err not_found, s)
    | some t ↦ append_round chunk_size next_size rest t s
  ]

  -- The loop on fuel; `next_size` is `cur_size + written`, and `rest` what is not written yet.
  unfoldable pub append_loop : ℕ → ℕ → ℕ → Bytes → Exec (Open W) (Unit {0})
  append_loop fuel chunk_size next_size [] = pure tt
  append_loop zero chunk_size next_size (b ∷ bs) = lift (err other_error)
  append_loop (suc fuel) chunk_size next_size (b ∷ bs) =
      append_step chunk_size next_size (b ∷ bs) >>= λ took.
      append_loop fuel chunk_size (add64 next_size took) (drop took (b ∷ bs))

  unfoldable pub append_into_tail : Bytes → ℕ → ℕ → Exec (Open W) ℕ
  append_into_tail input chunk_size cur_size =
      ensure_tail_loaded chunk_size cur_size
      >> append_loop (length input) chunk_size cur_size input
      >>= λ _. pure (length input)

  unfoldable pub write_elsewhere : ℕ → Bytes → Exec (Open W) ℕ
  write_elsewhere offset input =
      materialize >> on_disk (write_at z store ino params offset input) >>= λ n.
      refill_tail_from_store >> pure n

  unfoldable pub write_open : ℕ → Bytes → Exec (Open W) ℕ
  write_open offset input s = elim (geometry_locked store true ino s) [
    | none ↦ (err not_found, s)
    | some (cur_size, chunk_size) ↦
        if offset == cur_size
        then append_into_tail input chunk_size cur_size s
        else write_elsewhere offset input s
  ]

  unfoldable pub write_at_locked : ℕ → Bytes → Exec (Open W) ℕ
  write_at_locked offset input =
      if enabled
      then if is_empty input then pure 0 else write_open offset input
      else on_disk (write_at z store ino params offset input)
