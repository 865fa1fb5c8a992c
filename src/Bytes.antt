-- ===== src/Bytes.antt =====
-- Fixed-width words and byte buffers, as crates/scrollz/src/archive/format.rs handles them.
-- A byte is a number below 256; a `&[u8]` is a list of them.
pub mod Nth
use fuse_scrollfs.Prelude.{
  Bool, List, Option, [], arith, drop, false, if◌then◌else◌, length, length-drop, length-take, ltb,
  none, replicate, some, suc, take, true, zero, ℕ, ◌%◌, ◌&&◌, ◌*◌, ◌++◌, ◌+◌, ◌-◌, ◌/◌, ◌<◌, ◌==◌,
  ◌^◌, ◌∷◌, ◌≡◌, ◌≤◌,
}

abbrev pub Bytes : Type 0
Bytes = List ℕ

abbrev pub u64_mod : ℕ
u64_mod = 2 ^ 64

abbrev pub u32_mod : ℕ
u32_mod = 2 ^ 32

-- `u64::checked_add` and `u64::checked_mul`.
abbrev pub checked_add : ℕ → ℕ → Option ℕ
checked_add a b = if ltb (a + b) u64_mod then some (a + b) else none

abbrev pub checked_mul : ℕ → ℕ → Option ℕ
checked_mul a b = if ltb (a * b) u64_mod then some (a * b) else none

-- `to_le_bytes` of a word of the given number of bytes.
abbrev pub to_le : ℕ → ℕ → Bytes
to_le zero v = []
to_le (suc k) v = (v % 256) ∷ to_le k (v / 256)

-- `from_le_bytes`.
abbrev pub from_le : Bytes → ℕ
from_le [] = 0
from_le (b ∷ bs) = b + 256 * from_le bs

-- `buf[off .. off + n]`, which the callers have bounds-checked.
abbrev pub slice : ℕ → ℕ → Bytes → Bytes
slice off n bs = take n (drop off bs)

-- `buf[p .. p + len].copy_from_slice(bs)`.
abbrev pub splice : Bytes → ℕ → Bytes → Bytes
splice buf p bs = take p buf ++ bs ++ drop (p + length bs) buf

-- `Vec::resize` with zeros.
abbrev pub fit : ℕ → Bytes → Bytes
fit n bs = take n (bs ++ replicate (n - length bs) 0)

-- Equality of two byte slices.
abbrev pub bytes_eq : Bytes → Bytes → Bool
bytes_eq [] [] = true
bytes_eq (x ∷ xs) (y ∷ ys) = x == y && bytes_eq xs ys
bytes_eq _ _ = false

-- A `&mut buf` with its `&mut p`.
pub record Cursor : Type 0 where
  pub buf : Bytes
  pub p : ℕ

unfoldable pub put_u32 : Cursor → ℕ → Cursor
put_u32 c v = record { buf = splice c.buf c.p (to_le 4 v); p = c.p + 4 }

unfoldable pub put_u64 : Cursor → ℕ → Cursor
put_u64 c v = record { buf = splice c.buf c.p (to_le 8 v); p = c.p + 8 }

-- The value read and the advanced cursor.
unfoldable pub get_u32 : Bytes → ℕ → ℕ × ℕ
get_u32 buf p = (from_le (slice p 4 buf), p + 4)

unfoldable pub get_u64 : Bytes → ℕ → ℕ × ℕ
get_u64 buf p = (from_le (slice p 8 buf), p + 8)

pub from_le-to_le_4 : (v : ℕ) → v < u32_mod → from_le (to_le 4 v) ≡ v
from_le-to_le_4 v h = omega arith

pub from_le-to_le_8 : (v : ℕ) → v < u64_mod → from_le (to_le 8 v) ≡ v
from_le-to_le_8 v h = omega arith

pub length-to_le : (k v : ℕ) → length (to_le k v) ≡ k
length-to_le zero v = omega arith
length-to_le (suc k) v = omega (arith, length-to_le k (v / 256))

pub length-slice : (off n : ℕ) (bs : Bytes) → off + n ≤ length bs → length (slice off n bs) ≡ n
length-slice off n bs h = omega (arith, length-take n (drop off bs), length-drop off bs)
