-- ===== src/Btree/Fresh.antt =====
-- A new tree, and lookups in a tree behind an insertion.
use labdb.Prelude.{
  ℕ, suc, ◌≤◌, ◌<◌, ◌^◌, ◌≡◌, refl, arith, ap, sym, ◌∙◌, Bool, true, none, some, if◌then◌else◌,
  ◌==◌, ==_refl, ==→eq, Outcome, ok, goes_on,
}
use labdb.Common.{zeroes}
use labdb.Common.Fields.{load-store_apart, load-store_self}
use labdb.Page.{null_page, slot_count, set_id, type_code}
use labdb.PageStore.{PageStore, PageLaws, View, put_page}
use labdb.Btree.{init_leaf}
use labdb.Btree.Tree.{Tree, search, open_tree, insert}
use labdb.Btree.Shape.{Map, IsLeaf, IsTree, leaf, Owned}
use labdb.Btree.Search.{search-IsTree}
use labdb.Btree.Grown.{put_key, put_key-true, put_page_here}
use labdb.Btree.Root.{Persists, unique_tree, insert-Bound}

abbrev pub empty_map : Map
empty_map k = none

empty-IsLeaf : (n lo hi : ℕ) → n < 2 ^ 32 → IsLeaf (init_leaf zeroes n) n lo hi empty_map
unfolding init_leaf
empty-IsLeaf n lo hi u =
    let count : slot_count (init_leaf zeroes n) ≡ 0 =
      load-store_apart 4 _ 16 0 2 6 (omega arith) ∙ load-store_self 2 _ 6 0 (omega arith) in
    let type : type_code (init_leaf zeroes n) ≡ 4 =
      load-store_apart 4 _ 16 0 2 4 (omega arith)
      ∙ load-store_apart 2 _ 6 0 2 4 (omega arith)
      ∙ load-store_self 2 _ 4 4 (omega arith) in
    record {
      leaf = ground arith;
      self =
          load-store_apart 4 _ 16 0 4 0 (omega arith)
          ∙ load-store_apart 2 _ 6 0 4 0 (omega arith)
          ∙ load-store_apart 2 _ 4 4 4 0 (omega arith)
          ∙ load-store_self 4 zeroes 0 n (omega (arith, u));
      fits = omega (arith, count);
      strict = λ i j a b. absurd (omega (arith, count));
      low = λ i b. absurd (omega (arith, count));
      high = λ i b. absurd (omega (arith, count));
      here = λ i b. absurd (omega (arith, count));
      gone = λ k a b free. refl;
    }

-- In a store with the laws of a page store, where the callback for a new root leaves the pages alone:
-- where there is no root yet and room for a page, opening a tree ends without an error, and leaves a
-- well-formed tree of one level in a page that was free, which holds nothing.
pub open_tree-IsTree :
    {S : Type 0} (store : PageStore S) (persist : S → ℕ → Outcome S) (Shows : S → View → ℕ → Type 0)
    → PageLaws store Shows
    → Persists persist Shows
    → (s : S) (view : View) (room : ℕ) (unique : Bool) → Shows s view (suc room)
    → (s' : S) × (n : ℕ) × (view' : View) × (open_tree store persist s null_page unique
        ≡ ok (s', record { root = n; unique = unique }))
      × (view n ≡ none)
      × (n < 2 ^ 32)
      × Shows s' view' room
      × Owned view' (λ j. n == j)
      × IsTree view' empty_map (λ j. n == j) 0 (2 ^ 64) 1 n
unfolding open_tree
open_tree-IsTree store persist Shows laws persists s view room unique shows =
    let (t1, n, w1, fresh, named, shows1) = laws.allocate s view room shows in
    let page = init_leaf zeroes n in
    let h = empty-IsLeaf n 0 (2 ^ 64) named in
    let view1 = put_page view n (set_id zeroes n) in
    let (t2, w2, shows2) =
      laws.write t1 view1 room n (set_id zeroes n) page shows1
        (put_page_here view n (set_id zeroes n)) h.self in
    let view2 = put_page view1 n page in
    let (t3, w3, shows3) = persists t2 view2 room n shows2 in
    (
      t3,
      n,
      view2,
      goes_on _ w1 (goes_on _ w2 (goes_on _ w3 refl)),
      fresh,
      named,
      shows3,
      (λ j e. (page, ap view2 (sym (==→eq n j e)) ∙ put_page_here view1 n page)),
      leaf (λ j. n == j) 0 (2 ^ 64) n page (put_page_here view1 n page) (==_refl n) h,
    )

-- In a store with the laws of a page store, where the callback for a new root leaves the pages alone, in a
-- well-formed unique tree with room for one more page on each level and one above, and with fuel for one more level: an insertion ends, and a search
-- behind it ends and gives for the inserted key the inserted value, and for any other key what the tree
-- held.
pub search-insert :
    {S : Type 0} (store : PageStore S) (persist : S → ℕ → Outcome S) (Shows : S → View → ℕ → Type 0)
    → PageLaws store Shows
    → Persists persist Shows
    → (fuel levels room : ℕ) (s : S) (view : View) (own : ℕ → Bool) (root : ℕ) (map : Map)
      (k v j : ℕ)
    → suc levels ≤ fuel
    → suc levels ≤ room
    → root < 2 ^ 32
    → Shows s view room
    → Owned view own
    → k < 2 ^ 64
    → v < 2 ^ 64
    → j < 2 ^ 64
    → IsTree view map own 0 (2 ^ 64) levels root
    → (s' : S) × (t : Tree) × (new : Bool) × (s'' : S) × (insert store persist fuel s
          (unique_tree root)
          k
          v
        ≡ ok (s', t, new))
      × (search store fuel s' t j ≡ ok (s'', if k == j then some v else map j))
search-insert store persist Shows laws persists fuel levels room s view own root map k v j f enough
      small shows owned key value u tree =
    let b =
      insert-Bound store persist Shows laws persists fuel levels room s view own root map k v
        (omega arith) enough small shows owned key value tree in
    let (s'', e, shows') =
      search-IsTree store Shows laws fuel b.levels' b.state b.view' b.left b.tree
        (put_key true map k v) b.own' j (omega (arith, b.height.1)) b.unique b.shows b.is_tree u in
    (b.state, b.tree, _, s'', b.returns, e ∙ ap (λ m. ok (s'', m)) (put_key-true map k v j))
