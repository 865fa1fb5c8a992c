-- ===== src/Chunk/Range.antt =====
-- The block range of crates/scrollz/src/core/chunk.rs against the bytes of a write.
use fuse_scrollfs.Bytes.{u64_mod}
use fuse_scrollfs.Chunk.{add64, block_range, sub64}
use fuse_scrollfs.Prelude.{arith, ℕ, ◌*◌, ◌+◌, ◌-◌, ◌/◌, ◌<◌, ◌↔◌, ◌≡◌, ◌≤◌}
use native.Mathlib.Nat.{div-lt_iff_lt-mul, le-div_iff_mul-le}

first_le :
    (offset b cs : ℕ)
    → 0 < cs
    → (offset / cs ≤ b → offset < (b + 1) * cs) × (offset < (b + 1) * cs → offset / cs ≤ b)
first_le offset b cs h = (
  λ l. (div-lt_iff_lt-mul h).0 (omega (arith, l)),
  λ l. omega (arith, (div-lt_iff_lt-mul {x = offset} {y = b + 1} h).1 l),
)

pub le_last :
    (end b cs : ℕ)
    → 0 < cs
    → 0 < end
    → (b ≤ (end - 1) / cs → b * cs < end) × (b * cs < end → b ≤ (end - 1) / cs)
le_last end b cs h p = (
  λ l. omega (arith, (le-div_iff_mul-le {x = b} {y = end - 1} h).0 l),
  λ l. (le-div_iff_mul-le h).1 (omega (arith, l)),
)

-- Nothing wraps.
pub range_eq :
    (offset len cs : ℕ)
    → 0 < len
    → offset + len < u64_mod
    → block_range offset len cs ≡ (offset / cs, (offset + len - 1) / cs)
unfolding block_range
range_eq offset len cs p o =
    let e : sub64 (add64 offset len) 1 ≡ offset + len - 1 = omega arith in ground (arith, e)

-- For a write of at least one byte that ends below 2^64, a block is in the range of block_range
-- just if it has a byte of the write.
pub block_range-meets :
    (offset len cs b : ℕ)
    → 0 < cs
    → 0 < len
    → offset + len < u64_mod
    → (((block_range offset len cs).0 ≤ b) × (b ≤ (block_range offset len cs).1))
      ↔ ((offset < (b + 1) * cs) × (b * cs < offset + len))
block_range-meets offset len cs b h p o =
    let (f, g) = first_le offset b cs h in
    let (l, m) = le_last (offset + len) b cs h (omega arith) in
    rw (range_eq offset len cs p o) ((λ r. (f r.0, l r.1)), (λ r. (g r.0, m r.1)))
