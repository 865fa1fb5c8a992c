-- ===== src/BlockCache/Tests.antt =====
-- The block cache with one block of two bytes.
use fuse_scrollfs.BlockCache.{Inner, get, insert, invalidate, keyed_nat, keyed_pair}
use fuse_scrollfs.BlockCache.Budget.{insert-eff_cap}
use fuse_scrollfs.BlockCache.Insert.{insert-IsConsistent, put_node, put_node-IsConsistent}
use fuse_scrollfs.BlockCache.Invalidate.{get-invalidate}
use fuse_scrollfs.BlockCache.Invariant.{IsConsistent}
use fuse_scrollfs.BlockCache.Touch.{get-IsConsistent}
use fuse_scrollfs.Dict.{find}
use fuse_scrollfs.Prelude.{[], arith, none, refl, some, ◌∷◌, ◌≡◌, ◌≤◌, ◌⊎◌}

abbrev pub empty_cache : Inner
empty_cache = record {
  map = [];
  order = [];
  by_ino = [];
  cur_bytes = 0;
  eff_cap = 100;
  seq = 0;
  last_probe = none;
}

empty-IsConsistent : IsConsistent empty_cache
empty-IsConsistent = record {
  distinct = tt;
  order_distinct = tt;
  accounted = refl;
  linked = λ k n h. absurd cc;
  indexed = λ k n h. absurd cc;
}

abbrev one_block : Inner
one_block = put_node (7, 0) (1 ∷ 2 ∷ []) empty_cache

one_block-IsConsistent : IsConsistent one_block
one_block-IsConsistent =
    put_node-IsConsistent empty_cache (7, 0) (1 ∷ 2 ∷ []) empty-IsConsistent refl

-- A budget of three bytes does not hold both blocks.
insert-IsConsistent_example :
    IsConsistent (insert 3 0 5 (some 1000000000) 7 1 (3 ∷ 4 ∷ []) one_block)
insert-IsConsistent_example =
    insert-IsConsistent 3 0 5 (some 1000000000) 7 1 (3 ∷ 4 ∷ []) one_block one_block-IsConsistent

get-invalidate_example : (get 3 7 0 (invalidate 3 7 one_block)).0 ≡ none
get-invalidate_example = get-invalidate 3 7 0 one_block one_block-IsConsistent

-- Before the invalidation the block is read.
get-one_block : (get 3 7 0 one_block).0 ≡ some (1 ∷ 2 ∷ [])
unfolding get keyed_pair keyed_nat
get-one_block = refl

get-IsConsistent_example : IsConsistent (get 3 7 0 one_block).1
get-IsConsistent_example = get-IsConsistent 3 7 0 one_block one_block-IsConsistent

insert-eff_cap_example :
    (find (7, 1) (insert 3 0 5 (some 1000000000) 7 1 (3 ∷ 4 ∷ []) one_block).map ≡ none)
    ⊎ ((insert 3 0 5 (some 1000000000) 7 1 (3 ∷ 4 ∷ []) one_block).cur_bytes
        ≤ (insert 3 0 5 (some 1000000000) 7 1 (3 ∷ 4 ∷ []) one_block).eff_cap)
insert-eff_cap_example =
    insert-eff_cap 3 0 5 (some 1000000000) 7 1 (3 ∷ 4 ∷ []) one_block (omega arith)
      one_block-IsConsistent
