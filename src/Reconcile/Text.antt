-- ===== src/Reconcile/Text.antt =====
-- The strings of crates/scrollz/src/reconcile, as lists of code points, with what the code calls of
-- the standard library.
use fuse_scrollfs.Dict.{Keyed}
use fuse_scrollfs.Prelude.{
  ==_iff, ==_refl, Bool, Bool-cases, List, Option, [], ap₂, false, if◌then◌else◌, inl, inr, leb,
  ltb, none, refl, some, true, ℕ, ◌&&◌, ◌+◌, ◌==◌, ◌||◌, ◌∷◌, ◌≡◌, ◌≢◌,
}
use mathlib.Core.Path.{subst}

abbrev pub Str : Type 0
Str = List ℕ

abbrev pub str_eq : Str → Str → Bool
str_eq [] [] = true
str_eq (a ∷ xs) (b ∷ bs) = a == b && str_eq xs bs
str_eq _ _ = false

pub str_eq-same : (a : Str) → str_eq a a ≡ true
str_eq-same [] = refl
str_eq-same (a ∷ xs) = rw (==_refl a, str_eq-same xs) refl

pub str_eq_sound : (a b : Str) → str_eq a b ≡ true → a ≡ b
str_eq_sound [] [] h = refl
str_eq_sound [] (b ∷ bs) h = absurd cc
str_eq_sound (a ∷ xs) [] h = absurd cc
str_eq_sound (a ∷ xs) (b ∷ bs) h = elim (Bool-cases (a == b)) [
  | inl e ↦ let t = rw e at h in ap₂ (λ y ys. y ∷ ys) ((==_iff a b).0 e) (str_eq_sound xs bs t)
  | inr e ↦ let t : false ≡ true = rw e at h in absurd cc
]

pub str_eq_other : (a b : Str) → str_eq a b ≡ false → a ≢ b
str_eq_other a b e q =
    let t : str_eq a b ≡ true = subst (λ x. str_eq a x ≡ true) q (str_eq-same a) in cc

instance unfoldable pub keyed_str : Keyed Str
keyed_str = record { eq = str_eq; eq_same = str_eq-same; eq_sound = str_eq_sound }

-- `str::lines`: a line ends with a line feed, before which one carriage return is dropped.
abbrev pub push_front : ℕ → List Str → List Str
push_front c [] = (c ∷ []) ∷ []
push_front c (l ∷ ls) = (c ∷ l) ∷ ls

abbrev pub starts_with : ℕ → Str → Bool
starts_with c [] = false
starts_with c (b ∷ bs) = b == c

abbrev pub ends_with : ℕ → Str → Bool
ends_with c [] = false
ends_with c (b ∷ []) = b == c
ends_with c (b ∷ b' ∷ bs) = ends_with c (b' ∷ bs)

abbrev pub lines : Str → List Str
lines [] = []
lines (c ∷ cs) =
    let rest = lines cs in
    if c == 10 then [] ∷ rest else if c == 13 && starts_with 10 cs then rest else push_front c rest

-- `char::is_whitespace`: the White_Space of Unicode.
abbrev pub is_whitespace : ℕ → Bool
is_whitespace c =
    (leb 9 c && leb c 13)
    || (c == 32)
    || (c == 133)
    || (c == 160)
    || (c == 5760)
    || (leb 8192 c && leb c 8202)
    || (c == 8232)
    || (c == 8233)
    || (c == 8239)
    || (c == 8287)
    || (c == 12288)

abbrev pub is_empty_str : Str → Bool
is_empty_str [] = true
is_empty_str (c ∷ cs) = false

abbrev pub trim_start : Str → Str
trim_start [] = []
trim_start (c ∷ cs) = let rest = trim_start cs in if is_whitespace c then rest else c ∷ cs

abbrev pub trim_end : Str → Str
trim_end [] = []
trim_end (c ∷ cs) =
    let rest = trim_end cs in if is_empty_str rest && is_whitespace c then [] else c ∷ rest

abbrev pub trim : Str → Str
trim s = trim_end (trim_start s)

-- `str::len`, in bytes of UTF-8.
abbrev pub utf8_len : Str → ℕ
utf8_len [] = 0
utf8_len (c ∷ cs) =
    (if ltb c 128 then 1 else if ltb c 2048 then 2 else if ltb c 65536 then 3 else 4) + utf8_len cs

-- The order of strings, and of optional ones.
abbrev pub str_lt : Str → Str → Bool
str_lt [] [] = false
str_lt [] (b ∷ bs) = true
str_lt (a ∷ xs) [] = false
str_lt (a ∷ xs) (b ∷ bs) = ltb a b || (a == b && str_lt xs bs)

abbrev pub option_lt : Option Str → Option Str → Bool
option_lt none none = false
option_lt none (some b) = true
option_lt (some a) none = false
option_lt (some a) (some b) = str_lt a b

-- `HashSet::contains`.
abbrev pub contains : Str → List Str → Bool
contains l [] = false
contains l (x ∷ xs) = str_eq l x || contains l xs
