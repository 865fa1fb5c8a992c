-- ===== src/BlockCache.antt =====
-- crates/scrollz/src/core/blockcache.rs: the cache of decompressed blocks, evicted by least recent
-- use within a budget of bytes that follows the available memory. The lock is held for the whole
-- of each method, so a method is one function. The clock and the probe of the available memory are
-- arguments.
pub mod Invariant
pub mod Methods
pub mod Evict
pub mod Touch
pub mod Budget
pub mod Insert
pub mod Tests
pub mod Invalidate
use fuse_scrollfs.Bytes.{Bytes, u64_mod}
use fuse_scrollfs.Dict.{Dict, Keyed, erase, find, put}
use fuse_scrollfs.Prelude.{
  ==_iff, ==_refl, Bool, Option, [], arith, if◌then◌else◌, leb, length, ltb, min, none, refl, set,
  some, suc, true, zero, ℕ, ◌&&◌, ◌*◌, ◌+◌, ◌-◌, ◌/◌, ◌==◌, ◌||◌, ◌∷◌, ◌≡◌,
}

instance unfoldable pub keyed_nat : Keyed ℕ
keyed_nat = record { eq = ◌==◌; eq_same = ==_refl; eq_sound = λ a b h. (==_iff a b).0 h }

abbrev pub Key : Type 0
Key = ℕ × ℕ

pub pair_same : (a : Key) → (a.0 == a.0 && a.1 == a.1) ≡ true
pair_same a = rw (==_refl a.0, ==_refl a.1) refl

pub pair_sound : (a b : Key) → (a.0 == b.0 && a.1 == b.1) ≡ true → a ≡ b
pair_sound a b h =
    let e : a.0 ≡ b.0 = ground (arith, h) in
    let f : a.1 ≡ b.1 = ground (arith, h) in λ i. (e i, f i)

instance unfoldable pub keyed_pair : Keyed Key
keyed_pair = record {
  eq = λ a b. a.0 == b.0 && a.1 == b.1;
  eq_same = pair_same;
  eq_sound = pair_sound;
}

pub record Node : Type 0 where
  pub bytes : Bytes
  pub seq : ℕ

pub record Inner : Type 0 where
  pub map : Dict Key Node
  pub order : Dict ℕ Key
  pub by_ino : Dict ℕ (Dict ℕ (Unit {0}))
  pub cur_bytes : ℕ
  pub eff_cap : ℕ
  pub seq : ℕ
  pub last_probe : Option ℕ

-- `RESERVE_BYTES`.
abbrev pub reserve_bytes : ℕ
reserve_bytes = 256 * 1024 * 1024

-- `saturating_add` on u64.
abbrev pub saturating_add : ℕ → ℕ → ℕ
saturating_add a b = min (a + b) (u64_mod - 1)

-- `order.iter().next()`: the entry with the smallest number.
unfoldable pub first_entry : Dict ℕ Key → Option (ℕ × Key)
first_entry [] = none
first_entry (e ∷ d) = elim (first_entry d) [
  | none ↦ some e
  | some f ↦ some (if ltb f.0 e.0 then f else e)
]

-- The inode's index set without the block; an empty one goes.
abbrev pub keep_set :
    ℕ → Dict ℕ (Unit {0}) → Dict ℕ (Dict ℕ (Unit {0})) → Dict ℕ (Dict ℕ (Unit {0}))
keep_set ino [] by_ino = erase ino by_ino
keep_set ino (e ∷ set) by_ino = put ino (e ∷ set) by_ino

unfoldable pub unindex : Key → Dict ℕ (Dict ℕ (Unit {0})) → Dict ℕ (Dict ℕ (Unit {0}))
unindex key by_ino = elim (find key.0 by_ino) [
  | none ↦ by_ino
  | some set ↦ keep_set key.0 (erase key.1 set) by_ino
]

-- The node goes, with its place in the order and its bytes.
abbrev pub drop_node : Key → Node → Inner → Inner
drop_node key node g = record g {
  map = erase key g.map;
  order = erase node.seq g.order;
  cur_bytes = g.cur_bytes - length node.bytes;
}

unfoldable pub remove_key : Inner → Key → Inner
remove_key g key = elim (find key g.map) [
  | none ↦ g
  | some node ↦ record (drop_node key node g) { by_ino = unindex key g.by_ino }
]

-- One round: an entry of the order that no node backs is dropped alone.
unfoldable pub evict_entry : Inner → ℕ → Key → Inner
evict_entry g old_seq old_key = elim (find old_key g.map) [
  | none ↦ record g { order = erase old_seq g.order }
  | some node ↦
      if node.seq == old_seq
      then remove_key g old_key
      else record g { order = erase old_seq g.order }
]

-- The `while` loop, with fuel for its rounds.
unfoldable pub evict : ℕ → ℕ → Inner → Inner
evict zero blen g = g
evict (suc fuel) blen g =
    elim (if ltb g.eff_cap (g.cur_bytes + blen) then first_entry g.order else none) [
      | none ↦ g
      | some e ↦ evict fuel blen (evict_entry g e.0 e.1)
    ]

-- The index set of the inode, a new one if there is none, gains the block.
unfoldable pub index_block : Key → Dict ℕ (Dict ℕ (Unit {0})) → Dict ℕ (Dict ℕ (Unit {0}))
index_block key by_ino =
    put key.0 (put key.1 tt (elim (find key.0 by_ino) [ none ↦ [] | some set ↦ set ])) by_ino

-- `by_ino.remove(&ino)` and the loop over its blocks.
unfoldable pub drop_blocks : ℕ → Dict ℕ (Unit {0}) → Inner → Inner
drop_blocks ino [] g = g
drop_blocks ino ((idx, _) ∷ idxs) g = elim (find (ino, idx) g.map) [
  | none ↦ drop_blocks ino idxs g
  | some node ↦ drop_blocks ino idxs (drop_node (ino, idx) node g)
]

-- What `insert` does once the node is to be cached.
unfoldable pub insert_node : ℕ → ℕ → Bytes → Inner → Inner
insert_node ino idx bytes g =
    let g1 = remove_key g (ino, idx) in
    let g2 = evict (length g1.order) (length bytes) g1 in
    record g2 {
      seq = g2.seq + 1;
      order = put (g2.seq + 1) (ino, idx) g2.order;
      map = put (ino, idx) (record { bytes = bytes; seq = g2.seq + 1 }) g2.map;
      by_ino = index_block (ino, idx) g2.by_ino;
      cur_bytes = g2.cur_bytes + length bytes;
    }

module _ (configured_cap : ℕ) where
  unfoldable pub get : ℕ → ℕ → Inner → Option Bytes × Inner
  get ino idx g = elim (if configured_cap == 0 then none else find (ino, idx) g.map) [
    | none ↦ (none, g)
    | some node ↦ (
      some node.bytes,
      record g {
        seq = g.seq + 1;
        map = put (ino, idx) (record node { seq = g.seq + 1 }) g.map;
        order = put (g.seq + 1) (ino, idx) (erase node.seq g.order);
      },
    )
  ]

  -- The budget is half of what is available beyond the reserve, the cache's own bytes counted in.
  unfoldable pub refresh_effective_cap : ℕ → ℕ → Option ℕ → Inner → Inner
  refresh_effective_cap probe_interval now available g =
      let due : Bool = elim g.last_probe [ none ↦ true | some t ↦ leb probe_interval (now - t) ] in
      let cap : ℕ = elim available [
        | none ↦ configured_cap
        | some avail ↦ min ((saturating_add avail g.cur_bytes - reserve_bytes) / 2) configured_cap
      ] in
      if due then record g { last_probe = some now; eff_cap = cap } else g

  unfoldable pub insert : ℕ → ℕ → Option ℕ → ℕ → ℕ → Bytes → Inner → Inner
  insert probe_interval now available ino idx bytes g0 =
      if configured_cap == 0
      then g0
      else (let g = refresh_effective_cap probe_interval now available g0 in
          if g.eff_cap == 0 || ltb g.eff_cap (length bytes)
          then remove_key g (ino, idx)
          else insert_node ino idx bytes g)

  unfoldable pub invalidate : ℕ → Inner → Inner
  invalidate ino g = elim (if configured_cap == 0 then none else find ino g.by_ino) [
    | none ↦ g
    | some idxs ↦ drop_blocks ino idxs (record g { by_ino = erase ino g.by_ino })
  ]
