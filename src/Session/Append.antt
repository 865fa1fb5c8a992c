-- ===== src/Session/Append.antt =====
-- Of crates/scrollz/src/core/wsession.rs.
-- The loop of an append.
use fuse_scrollfs.Bytes.{Bytes, u64_mod}
use fuse_scrollfs.Bytes.Nth.{nth, nth-drop, nth-take}
use fuse_scrollfs.Chunk.{add64}
use fuse_scrollfs.Codec.{Zstd, max_decompressed_block}
use fuse_scrollfs.Prelude.{
  Bool, Bool-cases, Option, [], ap, arith, drop, false, fun_ext, if◌then◌else◌, inl, inr, length,
  length-drop, length-take, ltb, max, min, none, refl, some, suc, sym, take, true, zero, ℕ, ◌*◌,
  ◌+◌, ◌-◌, ◌/◌, ◌<◌, ◌==◌, ◌∷◌, ◌≡◌, ◌≤◌,
}
use fuse_scrollfs.Prelude.Exec.{Ensures, Ensures-bind, pure}
use fuse_scrollfs.Prelude.Result.{Result, err, not_found}
use fuse_scrollfs.Rmw.Load.{CodecParams}
use fuse_scrollfs.Rmw.Patch.{overwrite}
use fuse_scrollfs.Rmw.TruncateAt.{IsFile-beyond}
use fuse_scrollfs.Rmw.View.{IsFile, IsSound}
use fuse_scrollfs.Session.Extend.{extend_tail-TailIs}
use fuse_scrollfs.Session.Materialize.{materialize_lem}
use fuse_scrollfs.Session.Ops.{
  append_loop, append_round, append_step, extend_tail, finish_block, materialize,
}
use fuse_scrollfs.Session.Tail.{Open, Tail, empty_tail, start_empty_tail}
use fuse_scrollfs.Session.View.{Holds, TailIs, empty_tail-TailIs}
use fuse_scrollfs.Store.{Store}
use native.Mathlib.Nat.{add-zero, le-div_iff_mul-le, mul-le-mul_right}

overwrite_nothing : (f : ℕ → ℕ) (size : ℕ) → overwrite f size [] ≡ f
unfolding overwrite
overwrite_nothing f size = fun_ext (λ p. ground arith)

-- Two pieces one behind the other.
overwrite_twice :
    (f : ℕ → ℕ) (size m : ℕ) (rest : Bytes)
    → m ≤ length rest
    → overwrite (overwrite f size (take m rest)) (size + m) (drop m rest) ≡ overwrite f size rest
unfolding overwrite
overwrite_twice f size m rest l = fun_ext (λ p. ground (
  arith,
  l,
  length-take m rest,
  length-drop m rest,
  nth-take m rest (p - size),
  nth-drop m rest (p - (size + m)),
  ap (nth rest) (later p),
))
  where
    later : (p : ℕ) → m + (p - (size + m)) ≡ max m (p - size)
    later p = omega arith

drop_everything : (m : ℕ) (rest : Bytes) → length rest ≤ m → drop m rest ≡ []
drop_everything zero [] l = refl
drop_everything zero (b ∷ bs) l = absurd (omega (arith, l))
drop_everything (suc m) [] l = refl
drop_everything (suc m) (b ∷ bs) l = drop_everything m bs (omega (arith, l))

div-multiple : (k cs n : ℕ) → 0 < cs → k * cs ≡ n → n / cs * cs ≡ n
div-multiple k cs n c e =
    let low : n / cs * cs ≤ n = (le-div_iff_mul-le {x = n / cs} {y = n} c).0 (omega arith) in
    let q : k ≤ n / cs = (le-div_iff_mul-le {x = k} {y = n} c).1 (omega (arith, e)) in
    omega (arith, low, e, mul-le-mul_right cs q)

module _ {W : Type 0} (z : Zstd) (store : Store W) (ino : ℕ) (params : CodecParams)
    (fails : W → Type 0) (sound : IsSound z store ino params fails) (cs : ℕ) (positive : 0 < cs)
    (chunk_fits : cs ≤ max_decompressed_block) where
  -- While bytes are left, a tail is open that has room.
  abbrev pub LoopIs : (ℕ → ℕ) → ℕ → W → Bytes → Option Tail → Type 0
  LoopIs f size w rest (some t) = TailIs z store ino params f size cs w t × (length t.plain < cs)
  LoopIs f size w [] none = IsFile z store ino params f size cs w
  LoopIs f size w (b ∷ bs) none = ⊥

  pub LoopIs-Holds :
      (f : ℕ → ℕ) (size : ℕ) (w : W) (o : Option Tail)
      → LoopIs f size w [] o
      → Holds z store ino params f size cs w o
  LoopIs-Holds f size w none h = h
  LoopIs-Holds f size w (some t) h = h

  -- A full tail goes to the backend.
  finish_block_lem :
      (f : ℕ → ℕ) (size next_size k : ℕ) (rest : Bytes) (more_bytes : Bool) (s : Open W) (t : Tail)
      → s.tail ≡ some t
      → TailIs z store ino params f size cs s.disk t
      → next_size ≡ size
      → k * cs ≡ size
      → (more_bytes ≡ false → rest ≡ [])
      → Ensures
          (λ _ s'. LoopIs f size s'.disk rest s'.tail)
          (λ s'. fails s'.disk)
          (finish_block z store ino params true cs next_size more_bytes s)
  unfolding finish_block start_empty_tail empty_tail
  finish_block_lem f size next_size k rest more_bytes s t e i n a d =
      Ensures-bind _ _ (λ s'. fails s'.disk) (materialize z store ino params true s) _
        (materialize_lem z store ino params fails sound cs chunk_fits f size s (some t) e i)
        (λ _ s1 p. go more_bytes d s1 p)
    where
      go :
          (more_bytes : Bool)
          → (more_bytes ≡ false → rest ≡ [])
          → (s1 : Open W) → (s1.tail ≡ none) × IsFile z store ino params f size cs s1.disk
          → Ensures
              (λ _ s'. LoopIs f size s'.disk rest s'.tail)
              (λ s'. fails s'.disk)
              ((if more_bytes then start_empty_tail next_size cs else pure tt) s1)
      go true d s1 p =
          let beyond : (q : ℕ) → size ≤ q → f q ≡ 0 = λ q l.
            IsFile-beyond z store ino params fails sound cs positive chunk_fits f size q s1.disk l
              (p.1) in
          let new =
            empty_tail-TailIs z store ino params f size cs s1.disk
              (div-multiple k cs size positive a) beyond (p.1) in
          rw n (new, positive)
      go false d s1 p = rw (d refl, p.0) p.1

  append_round_lem :
      (f : ℕ → ℕ) (size : ℕ) (rest : Bytes) (s : Open W) (t : Tail)
      → TailIs z store ino params f size cs s.disk t
      → length t.plain < cs
      → 0 < length rest
      → size + length rest < u64_mod
      → Ensures
          (λ took s'.
            (took ≡ min (cs - length t.plain) (length rest))
            × LoopIs
                (overwrite f size (take took rest))
                (size + took)
                s'.disk
                (drop took rest)
                s'.tail)
          (λ s'. fails s'.disk)
          (append_round z store ino params true cs size rest t s)
  unfolding append_round
  append_round_lem f size rest s t i room p o =
      let took = min (cs - length t.plain) (length rest) in
      let t' = extend_tail cs rest t in
      let f' = overwrite f size (take took rest) in
      let i' = extend_tail-TailIs z store ino params cs f size s.disk t rest i room p o in
      let s' : Open W = record s { tail = some t' } in
      Ensures-bind (λ _ s'. LoopIs f' (size + took) s'.disk (drop took rest) s'.tail) _
        (λ s'. fails s'.disk)
        ((if length t'.plain == cs
            then finish_block z store ino params true cs (add64 size took) (ltb took (length rest))
            else pure tt)
          s')
        (λ _. pure took)
        (elim (Bool-cases (length t'.plain == cs)) [
          | inr room_left ↦ rw room_left (i', ground (arith, room_left, i'.is_plain.short))
          | inl full ↦ rw full (
              finish_block_lem f' (size + took) (add64 size took) (t'.idx + 1) (drop took rest)
                (ltb took (length rest)) s' t' refl i' (omega (arith, o))
                (ground (arith, full, i'.at_end))
                (λ all. drop_everything took rest (ground (arith, all))))
        ])
        (λ _ s1 q. (refl, q))

  append_step-some :
      (next_size : ℕ) (rest : Bytes) (s : Open W) (t : Tail)
      → s.tail ≡ some t
      → append_step z store ino params true cs next_size rest s
        ≡ append_round z store ino params true cs next_size rest t s
  unfolding append_step
  append_step-some next_size rest s t e =
      ap
        (λ o. elim o as (λ _. Result ℕ × Open W) [
          | none ↦ (err not_found, s)
          | some t ↦ append_round z store ino params true cs next_size rest t s
        ])
        e

  -- With as much fuel as bytes the loop writes them all.
  pub append_loop_lem :
      (fuel : ℕ) (f : ℕ → ℕ) (size : ℕ) (rest : Bytes) (s : Open W) (tail : Option Tail)
      → s.tail ≡ tail
      → length rest ≤ fuel
      → LoopIs f size s.disk rest tail
      → size + length rest < u64_mod
      → Ensures
          (λ _ s'.
            Holds z store ino params
              (overwrite f size rest)
              (size + length rest)
              cs
              s'.disk
              s'.tail)
          (λ s'. fails s'.disk)
          (append_loop z store ino params true fuel cs size rest s)
  unfolding append_loop
  append_loop_lem fuel f size [] s tail e l h o =
      rw (overwrite_nothing f size, add-zero size, e) (LoopIs-Holds f size s.disk tail h)
  append_loop_lem zero f size (b ∷ bs) s tail e l h o = absurd (omega (arith, l))
  append_loop_lem (suc fuel) f size (b ∷ bs) s none e l h o = absurd h
  append_loop_lem (suc fuel) f size (b ∷ bs) s (some t) e l h o =
      let rest = b ∷ bs in
      Ensures-bind
        (λ took s'.
          (took ≡ min (cs - length t.plain) (length rest))
          × LoopIs (overwrite f size (take took rest)) (size + took) s'.disk (drop took rest)
              s'.tail)
        _ (λ s'. fails s'.disk) (append_step z store ino params true cs size rest s) _
        (rw (append_step-some size rest s t e)
          (append_round_lem f size rest s t h.0 h.1 (omega arith) o))
        (λ took s1 q.
          let m : took ≤ length rest = omega (arith, q.0) in
          let n : length (drop took rest) ≡ length rest - took = length-drop took rest in
          let sizes : size + took + length (drop took rest) ≡ size + length rest =
            omega (arith, m, n) in
          let wraps : add64 size took ≡ size + took = omega (arith, o, m) in
          rw (wraps, sym (overwrite_twice f size took rest m), sym sizes)
            (append_loop_lem fuel (overwrite f size (take took rest)) (size + took) (drop took rest)
              s1 s1.tail refl (omega (arith, n, q.0, h.1, l)) (q.1) (omega (arith, n, m, o))))
