-- ===== src/Tests/Trees/Stock.antt =====
-- A tree of the three pages of the nodes' runs, in a log, and a pool of two frames over it.
use labdb.Prelude.{
  ℕ, zero, suc, ◌+◌, ◌≤◌, ◌<◌, ◌^◌, ◌≡◌, ◌≢◌, refl, arith, ◌∙◌, Bool, true, false, ◌||◌, Option,
  none, some, [], ◌∷◌, if◌then◌else◌, ◌==◌, ==_ne, ==→eq, ok, Bool-cases, inl, inr, List, sym,
  subst, ok-injective, check_that,
}
use labdb.Common.{load, store, put, memcpy}
use labdb.Page.{Page, null_page, slot_count, id}
use labdb.PageStore.{View}
use labdb.Io.{empty_file}
use labdb.Wal.{Wal, open_wal, recover}
use labdb.Wal.Reads.{Store, Op, write_op, Keeps, spec_run, wal_run, run-Keeps}
use labdb.Wal.Durability.{create-Keeps, empty_store}
use labdb.Pager.{Pager, Durability, new_meta}
use labdb.Pool.{Pool, new_pool, repeat, pool_store}
use labdb.Pool.Sound.{Held, PoolShows, page-injective}
use labdb.Pool.Laws.{pool_store-PageLaws}
use labdb.Pool.Start.{logged-Held, new_pool-PoolShows, persist_global, persist_global-Persists}
use labdb.Btree.{
  init_leaf, leaf_key_at, value_at, insert_at, init_internal, key_at, set_key_at, child_at,
  set_child_at,
}
use labdb.Btree.Indexed.{listed}
use labdb.Btree.Tree.{Tree, search, insert, insert_new, height_from, open_tree}
use labdb.Btree.Shape.{IsStrict, IsLeaf, IsNode, IsTree, leaf, node, Owned, low_of, high_of}
use labdb.Btree.Search.{search-IsTree}
use labdb.Btree.Grown.{put_key, is_new}
use labdb.Btree.Fresh.{empty_map, open_tree-IsTree, search-insert}
use labdb.Btree.Height.{height_from-IsTree}
use labdb.Btree.Root.{Bound, unique_tree, insert-Bound, insert_new-Bound}
use labdb.Tests.Trees.{low_leaf, high_leaf, top}

abbrev pages : View
unfolding low_leaf high_leaf top
pages n =
    if n == 1
    then some top
    else if n == 2
    then some low_leaf
    else if n == 3
    then some high_leaf
    else none

abbrev content : ℕ → Option ℕ
content k = if 5 == k then some 50 else if 7 == k then some 70 else if 9 == k then some 90 else none

two-IsStrict : (keys : ℕ → ℕ) → keys 0 < keys 1 → IsStrict keys 2
two-IsStrict keys h i zero l u = absurd (omega arith)
two-IsStrict keys h zero (suc zero) l u = h
two-IsStrict keys h (suc i) (suc zero) l u = absurd (omega arith)
two-IsStrict keys h i (suc (suc j)) l u = absurd (omega arith)

one-IsStrict : (keys : ℕ → ℕ) → IsStrict keys 1
one-IsStrict keys i zero l u = absurd (omega arith)
one-IsStrict keys i (suc j) l u = absurd (omega arith)

below_two : (P : ℕ → Type 0) → P 0 → P 1 → (i : ℕ) → i < 2 → P i
below_two P a b zero u = a
below_two P a b (suc zero) u = b
below_two P a b (suc (suc i)) u = absurd (omega arith)

below_one : (P : ℕ → Type 0) → P 0 → (i : ℕ) → i < 1 → P i
below_one P a zero u = a
below_one P a (suc i) u = absurd (omega arith)

content-low : (k : ℕ) → 5 ≢ k → 7 ≢ k → k < 9 → content k ≡ none
content-low k a b u = rw (==_ne 5 k a, ==_ne 7 k b, ==_ne 9 k (omega arith)) refl

content-high : (k : ℕ) → 9 ≢ k → 9 ≤ k → content k ≡ none
content-high k a l = rw (==_ne 9 k a, ==_ne 5 k (omega arith), ==_ne 7 k (omega arith)) refl

low-IsLeaf : IsLeaf low_leaf 2 0 9 content
unfolding low_leaf high_leaf top load store put memcpy listed init_leaf insert_at init_internal
    set_key_at set_child_at
low-IsLeaf = record {
  leaf = refl;
  self = refl;
  fits = omega arith;
  strict = two-IsStrict (leaf_key_at low_leaf) (omega arith);
  low = λ i u. omega arith;
  high = λ i u. below_two (λ i. leaf_key_at low_leaf i < 9) (omega arith) (omega arith) i u;
  here = λ i u.
      below_two (λ i. content (leaf_key_at low_leaf i) ≡ some (value_at low_leaf i)) refl refl i u;
  gone = λ k l u free. content-low k (free 0 (omega arith)) (free 1 (omega arith)) u;
}

high-IsLeaf : IsLeaf high_leaf 3 9 (2 ^ 64) content
unfolding low_leaf high_leaf top load store put memcpy listed init_leaf insert_at init_internal
    set_key_at set_child_at
high-IsLeaf = record {
  leaf = refl;
  self = refl;
  fits = omega arith;
  strict = one-IsStrict (leaf_key_at high_leaf);
  low = λ i u. below_one (λ i. 9 ≤ leaf_key_at high_leaf i) (omega arith) i u;
  high = λ i u. below_one (λ i. leaf_key_at high_leaf i < 2 ^ 64) (omega arith) i u;
  here = λ i u.
      below_one (λ i. content (leaf_key_at high_leaf i) ≡ some (value_at high_leaf i)) refl i u;
  gone = λ k l u free. content-high k (free 0 (omega arith)) l;
}

top-IsNode : IsNode top 1 0 (2 ^ 64)
unfolding low_leaf high_leaf top load store put memcpy listed init_leaf insert_at init_internal
    set_key_at set_child_at
top-IsNode = record {
  node = refl;
  self = refl;
  fits = omega arith;
  strict = one-IsStrict (key_at top);
  low = λ i u. omega arith;
  high = λ i u. below_one (λ i. key_at top i < 2 ^ 64) (omega arith) i u;
  ids = λ i u. below_two (λ i. child_at top i < 2 ^ 32) (omega arith) (omega arith) i (omega arith);
}

abbrev part : ℕ → ℕ → Bool
part i j = i + 2 == j

abbrev own : ℕ → Bool
own j = 1 == j || 2 == j || 3 == j

part-IsTree :
    (i : ℕ)
    → i ≤ slot_count top
    → IsTree pages content (part i) (low_of top 0 i) (high_of top (2 ^ 64) i) 1 (child_at top i)
unfolding low_leaf high_leaf top load store put memcpy listed init_leaf insert_at init_internal
    set_key_at set_child_at pages
part-IsTree zero u = leaf (part 0) 0 9 2 low_leaf refl refl low-IsLeaf
part-IsTree (suc zero) u = leaf (part 1) 9 (2 ^ 64) 3 high_leaf refl refl high-IsLeaf
part-IsTree (suc (suc i)) u = absurd (omega arith)

top-IsTree : IsTree pages content own 0 (2 ^ 64) 2 1
unfolding low_leaf high_leaf top load store put memcpy listed init_leaf insert_at init_internal
    set_key_at set_child_at pages
top-IsTree =
    node own 0 (2 ^ 64) 1 1 top part refl refl top-IsNode
      (λ i j u e. (ground arith, omega (arith, ==→eq (i + 2) j e)))
      (λ i i' j u u' e e'. omega (arith, ==→eq (i + 2) j e, ==→eq (i' + 2) j e')) part-IsTree

-- The pages in a new log, a pager over it, and a pool of two frames, which is less than the pages.
abbrev page_ops : List Op
page_ops = write_op 1 top ∷ write_op 2 low_leaf ∷ write_op 3 high_leaf ∷ []

abbrev new_log : Wal
new_log = open_wal empty_file 1 2

abbrev log : Wal
log = wal_run new_log page_ops

abbrev logged : Store
logged = spec_run empty_store page_ops

log-Keeps : Keeps log logged
log-Keeps =
    run-Keeps new_log empty_store page_ops
      ((omega arith, omega arith), ((omega arith, omega arith), ((omega arith, omega arith), tt)))
      (create-Keeps 1 2 (omega arith) (omega arith))

abbrev pager : Pager
pager = record {
  file = empty_file;
  meta = record new_meta { page_count = 4 };
  db_id = 1;
  committed_meta = new_meta;
  meta_dirty = true;
  file_pages = 1;
  wal = log;
  durability = Durability.full;
  checkpoint_frames = 1000;
  recovery = (recover new_log).1;
  reads = 0;
  commits = 0;
  checkpoints = 0;
  pages_checkpointed = 0;
}

abbrev Stocked : ℕ → Page → Type 0
Stocked n p = (n ≢ 0) × (n < 4) × (id p ≡ n) × Held pager n p

pages-Stocked : (n : ℕ) (p : Page) → pages n ≡ some p → Stocked n p
unfolding pages low_leaf high_leaf top load store put memcpy init_leaf insert_at init_internal
    set_key_at set_child_at
pages-Stocked n p e = elim (Bool-cases (n == 1)) [
  | inl s ↦
      let n1 : 1 ≡ n = ground arith in
      let t : top ≡ p = page-injective (rw s at e) in
      subst (λ n. Stocked n p) n1
        (subst (Stocked 1) t
          (omega arith, omega arith, refl, logged-Held pager logged 1 top log-Keeps refl))
  | inr s ↦ elim (Bool-cases (n == 2)) [
    | inl s' ↦
        let n2 : 2 ≡ n = ground arith in
        let t : low_leaf ≡ p = page-injective (rw (s, s') at e) in
        subst (λ n. Stocked n p) n2
          (subst (Stocked 2) t
            (omega arith, omega arith, refl, logged-Held pager logged 2 low_leaf log-Keeps refl))
    | inr s' ↦ elim (Bool-cases (n == 3)) [
      | inl s'' ↦
          let n3 : 3 ≡ n = ground arith in
          let t : high_leaf ≡ p = page-injective (rw (s, s', s'') at e) in
          subst (λ n. Stocked n p) n3
            (subst (Stocked 3) t
              (omega arith, omega arith, refl, logged-Held pager logged 3 high_leaf log-Keeps refl))
      | inr s'' ↦ absurd (cc (rw (s, s', s'') at e))
    ]
  ]
]

new_pool-PoolShows_example : (b : Pool) × (new_pool pager 2 ≡ ok b) × PoolShows b pages 1000
new_pool-PoolShows_example =
    new_pool-PoolShows pager logged pages 2 1000 log-Keeps pages-Stocked (omega arith) (omega arith)
      refl (omega arith)

abbrev stock : Pool
unfolding repeat
stock = record {
  pager = pager;
  frames = repeat 2;
  table = [];
  dirty_list = [];
  hand = 0;
  writeback = true;
  logical_reads = 0;
  disk_reads = 0;
  disk_writes = 0;
  evictions = 0;
}

stock_new : new_pool pager 2 ≡ ok stock
unfolding new_pool check_that
stock_new = refl

stock-PoolShows : PoolShows stock pages 1000
stock-PoolShows =
    let (b, e, h) =
      new_pool-PoolShows pager logged pages 2 1000 log-Keeps pages-Stocked (omega arith)
        (omega arith) refl (omega arith) in
    let same : b ≡ stock = ok-injective (sym e ∙ stock_new) in
    subst (λ b. PoolShows b pages 1000) same h

own-Owned : Owned pages own
unfolding pages
own-Owned n e = elim (Bool-cases (n == 1)) [
  | inl s ↦ (top, rw s refl)
  | inr s ↦ elim (Bool-cases (n == 2)) [
    | inl s' ↦ (low_leaf, rw (s, s') refl)
    | inr s' ↦ let s'' : (n == 3) ≡ true = ground arith in (high_leaf, rw (s, s', s'') refl)
  ]
]

-- 7 is found in the first leaf.
search-IsTree_example :
    (s : Pool) × (search pool_store 3 stock (unique_tree 1) 7 ≡ ok (s, some 70))
    × PoolShows s pages 1000
search-IsTree_example =
    search-IsTree pool_store PoolShows pool_store-PageLaws 3 2 stock pages 1000 (unique_tree 1)
      content own 7 (omega arith) refl stock-PoolShows top-IsTree (omega arith)

-- 6 is a new key, and 7 one that is there.
insert-Bound_example :
    Bound PoolShows pages own
      (put_key true content 6 60)
      2
      1000
      (is_new content 6)
      (insert pool_store persist_global 3 stock (unique_tree 1) 6 60)
insert-Bound_example =
    insert-Bound pool_store persist_global PoolShows pool_store-PageLaws persist_global-Persists 3 2
      1000 stock pages own 1 content 6 60 (omega arith) (omega arith) (omega arith) stock-PoolShows
      own-Owned (omega arith) (omega arith) top-IsTree

insert_new-Bound_example :
    Bound PoolShows pages own
      (put_key false content 7 71)
      2
      1000
      (is_new content 7)
      (insert_new pool_store persist_global 3 stock (unique_tree 1) 7 71)
insert_new-Bound_example =
    insert_new-Bound pool_store persist_global PoolShows pool_store-PageLaws persist_global-Persists
      3 2 1000 stock pages own 1 content 7 71 (omega arith) (omega arith) (omega arith)
      stock-PoolShows own-Owned (omega arith) (omega arith) top-IsTree

height_from-IsTree_example :
    (s : Pool) × (height_from pool_store 5 stock 1 ≡ ok (s, 2)) × PoolShows s pages 1000
height_from-IsTree_example =
    height_from-IsTree pool_store PoolShows pool_store-PageLaws 5 2 1000 stock pages content own 0
      (2 ^ 64) 1 (omega arith) stock-PoolShows top-IsTree

open_tree-IsTree_example :
    (s' : Pool) × (n : ℕ) × (view' : View) × (open_tree pool_store persist_global stock null_page
        false
      ≡ ok (s', record { root = n; unique = false }))
    × (pages n ≡ none)
    × (n < 2 ^ 32)
    × PoolShows s' view' 999
    × Owned view' (λ j. n == j)
    × IsTree view' empty_map (λ j. n == j) 0 (2 ^ 64) 1 n
open_tree-IsTree_example =
    open_tree-IsTree pool_store persist_global PoolShows pool_store-PageLaws persist_global-Persists
      stock pages 999 false stock-PoolShows

search-insert_example :
    (s' : Pool) × (t : Tree) × (new : Bool) × (s'' : Pool) × (insert pool_store persist_global 3
        stock
        (unique_tree 1)
        6
        60
      ≡ ok (s', t, new))
    × (search pool_store 3 s' t 7 ≡ ok (s'', some 70))
search-insert_example =
    search-insert pool_store persist_global PoolShows pool_store-PageLaws persist_global-Persists 3
      2 1000 stock pages own 1 content 6 60 7 (omega arith) (omega arith) (omega arith)
      stock-PoolShows own-Owned (omega arith) (omega arith) (omega arith) top-IsTree
