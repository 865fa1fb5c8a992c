-- ===== src/Reconcile/Gate.antt =====
-- The merge of crates/scrollz/src/reconcile/merge.rs against the gate that the caller asks before
-- it overwrites the base.
use fuse_scrollfs.Prelude.{Bool-cases, List, [], false, inl, inr, refl, true, ◌∷◌, ◌≡◌, ◌⊎◌}
use fuse_scrollfs.Reconcile.AddItem.{IsWell}
use fuse_scrollfs.Reconcile.Ingest.{
  InUnion, InUnion-Grows, Kept-Grows, dropped_of, or_left, or_right,
}
use fuse_scrollfs.Reconcile.Lossless.{TakenIn, ingest_lem, new_union-IsWell, text_kind}
use fuse_scrollfs.Reconcile.Merge.{
  Union, any_match, covered, ingest, is_blank, kind, new_union, same_record, session_merge,
}
use fuse_scrollfs.Reconcile.Output.{
  Kept-output, contains-output_extra, contains-output_item, output_of,
}
use fuse_scrollfs.Reconcile.Record.{
  RecordKind, SerdeJson, no_uuid, parse_lines, transcript, unparsable,
}
use fuse_scrollfs.Reconcile.Text.{Str, contains, lines, str_eq, str_eq-same, str_eq_sound}
use fuse_scrollfs.Rmw.Cut.{cut}
use mathlib.Core.Path.{subst}

module _ {V : Type 0} (serde : SerdeJson V) where
  any_match-contains :
      (k : RecordKind) (l m : Str) (ms : List Str)
      → contains m ms ≡ true
      → is_blank m ≡ false
      → same_record k l (kind serde m) m ≡ true
      → any_match serde k l ms ≡ true
  unfolding any_match
  any_match-contains k l m [] h b s = absurd cc
  any_match-contains k l m (n ∷ ns) h b s = elim (Bool-cases (str_eq m n)) [
    | inl here ↦
        let p : m ≡ n = str_eq_sound m n here in
        let b' : is_blank n ≡ false = subst (λ q. is_blank q ≡ false) p b in
        let s' : same_record k l (kind serde n) n ≡ true =
          subst (λ q. same_record k l (kind serde q) q ≡ true) p s in
        rw (b', s') refl
    | inr later ↦
        let rest = any_match-contains k l m ns (rw later at h) b s in
        elim (Bool-cases (is_blank n)) [
          | inl blank ↦ rw blank rest
          | inr text ↦ rw text (or_right (same_record k l (kind serde n) n) _ rest)
        ]
  ]

  text_kind-transcript :
      (l : Str) (uuid : Str)
      → text_kind serde l ≡ transcript uuid
      → (is_blank l ≡ false) × (kind serde l ≡ transcript uuid)
  text_kind-transcript l uuid h = elim (Bool-cases (is_blank l)) [
    | inl blank ↦ let h' : no_uuid ≡ transcript uuid = rw blank at h in absurd cc
    | inr text ↦ (text, rw text at h)
  ]

  -- A line of the union passes the gate.
  any_match-InUnion :
      (k : RecordKind) (l : Str) (u : Union)
      → kind serde l ≡ k
      → is_blank l ≡ false
      → IsWell (text_kind serde) u
      → InUnion u k l
      → any_match serde k l (output_of u) ≡ true
  any_match-InUnion (transcript uuid) l u e b w x =
      let (b', e') = text_kind-transcript x.item.line uuid (w.keys uuid x.item x.found) in
      any_match-contains (transcript uuid) l x.item.line (output_of u)
        (contains-output_item uuid x.item u x.found) b' (rw e' (str_eq-same uuid))
  any_match-InUnion no_uuid l u e b w x =
      any_match-contains no_uuid l l (output_of u) (contains-output_extra l u x) b
        (rw e (str_eq-same l))
  any_match-InUnion (unparsable cut) l u e b w x =
      any_match-contains (unparsable cut) l l (output_of u) (contains-output_extra l u x) b
        (rw e (str_eq-same l))

  covered_lem :
      (ls : List Str) (u : Union)
      → IsWell (text_kind serde) u
      → ((l : Str) → contains l ls ≡ true → is_blank l ≡ false → InUnion u (kind serde l) l)
      → covered serde ls (output_of u) ≡ true
  unfolding covered
  covered_lem [] u w h = refl
  covered_lem (l ∷ ls) u w h =
      let rest = covered_lem ls u w (λ m c. h m (or_right (str_eq m l) _ c)) in
      elim (Bool-cases (is_blank l)) [
        | inl blank ↦ rw blank rest
        | inr text ↦
            rw
              (
                text,
                any_match-InUnion (kind serde l) l u refl text w
                    (h l (or_left (str_eq l l) _ (str_eq-same l)) text),
              )
              rest
      ]

  -- Both logs, one after the other.
  both : (base incoming : Str) → Union
  both base incoming =
      ingest serde (parse_lines serde incoming) (ingest serde (parse_lines serde base) new_union)

  base_taken :
      (base : Str)
      → TakenIn serde (lines base) new_union (ingest serde (parse_lines serde base) new_union)
  unfolding parse_lines
  base_taken base = ingest_lem serde (lines base) new_union (new_union-IsWell serde)

  incoming_taken :
      (base incoming : Str)
      → TakenIn serde
          (lines incoming)
          (ingest serde (parse_lines serde base) new_union)
          (both base incoming)
  unfolding parse_lines both
  incoming_taken base incoming =
      ingest_lem serde (lines incoming) (ingest serde (parse_lines serde base) new_union)
        (base_taken base).well

  -- For any JSON parser, the merged lines of two logs pass, for either log, the test that
  -- base_covered_by_merged makes of their lines: every transcript of the log is there by its uuid
  -- and every other line that is not blank by its text.
  pub covered-session_merge :
      (base incoming : Str)
      → (covered serde (lines base) (session_merge serde base incoming).merged_lines ≡ true)
        × (covered serde (lines incoming) (session_merge serde base incoming).merged_lines ≡ true)
  unfolding session_merge both
  covered-session_merge base incoming =
      let t = base_taken base in
      let t' = incoming_taken base incoming in
      (
        covered_lem (lines base) (both base incoming) t'.well (λ l c b.
            InUnion-Grows (ingest serde (parse_lines serde base) new_union) (both base incoming)
              (kind serde l) l t'.grows (t.in_union l c b)),
        covered_lem (lines incoming) (both base incoming) t'.well t'.in_union,
      )

  -- For any JSON parser, every line of either log that is not blank is among the merged lines or
  -- is the dropped line of a reported conflict.
  pub session_merge-lossless :
      (base incoming : Str) (l : Str)
      → is_blank l ≡ false
      → (contains l (lines base) ≡ true) ⊎ (contains l (lines incoming) ≡ true)
      → (contains l (session_merge serde base incoming).merged_lines ≡ true)
        ⊎ (contains l (dropped_of (session_merge serde base incoming).conflicts) ≡ true)
  unfolding session_merge both
  session_merge-lossless base incoming l b from =
      let t = base_taken base in
      let t' = incoming_taken base incoming in
      Kept-output (both base incoming) l (elim from [
        | inl c ↦
            Kept-Grows (ingest serde (parse_lines serde base) new_union) (both base incoming) l
              t'.grows (t.kept l c b)
        | inr c ↦ t'.kept l c b
      ])
