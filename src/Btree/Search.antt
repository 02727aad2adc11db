-- ===== src/Btree/Search.antt =====
-- A search finds what the tree holds.
use labdb.Prelude.{
  ℕ, zero, suc, ◌-◌, ◌≤◌, ◌<◌, ◌^◌, ◌≡◌, ◌≢◌, refl, arith, ap, sym, ◌∙◌, Bool, true, false, ◌&&◌,
  ◌==◌, ltb, inl, inr, Bool-cases, ==→eq, ok, check_that, goes_on,
}
use labdb.Page.{Page, slot_count}
use labdb.PageStore.{PageStore, PageLaws, View}
use labdb.Btree.{leaf_key_at, lower_bound, key_at, child_at, child_index_for}
use labdb.Btree.Bounds.{IsLower, IsUpper, leaf-bounds, child-bounds}
use labdb.Btree.Tree.{Tree, is_leaf, search_leaf, search_from, search}
use labdb.Btree.Shape.{
  Map, IsStrict-IsSorted, IsLeaf, IsNode, IsTree, leaf, node, low_of, high_of, IsLeaf-same,
  IsNode-same, same-count, same-child, same-low_of, same-high_of,
}

-- The place of a key in a leaf of distinct keys.
module _ (p : Page) (n lo hi k : ℕ) (map : Map) (h : IsLeaf p n lo hi map) where
  pub place : IsLower (leaf_key_at p) (slot_count p) k (lower_bound p k)
  place = (leaf-bounds p k (IsStrict-IsSorted (leaf_key_at p) (slot_count p) h.strict)).0

  -- A key that is not at its place is nowhere in the leaf.
  pub absent :
      (ltb (lower_bound p k) (slot_count p) && leaf_key_at p (lower_bound p k) == k) ≡ false
      → (i : ℕ) → i < slot_count p
      → leaf_key_at p i ≢ k
  absent e i u same =
      let r = lower_bound p k in
      let after : ¬ (i < r) = λ a. omega (arith, place.below i a, same) in
      let inside : r < slot_count p = omega (arith, after, u) in
      let not_here : leaf_key_at p r ≢ k = λ e'. absurd (ground arith) in
      let behind : r < i = elim (Bool-cases (r == i)) [
        | inl e' ↦ absurd (not_here (ap (leaf_key_at p) (==→eq r i e') ∙ same))
        | inr e' ↦ ground (arith, after)
      ] in
      omega (arith, h.strict r i behind u, place.above r (omega arith) inside, same)

  pub search_leaf-map : lo ≤ k → k < hi → search_leaf p k ≡ map k
  unfolding search_leaf
  search_leaf-map l u =
      elim (Bool-cases
        (ltb (lower_bound p k) (slot_count p) && leaf_key_at p (lower_bound p k) == k)) [
          | inl e ↦ rw e (sym (h.here (lower_bound p k) (ground arith)) ∙ ap map (ground arith))
          | inr e ↦ rw e (sym (h.gone k l u (absent e)))
        ]

-- The child that a descent takes has the key in its range.
module _ (p : Page) (n lo hi k : ℕ) (h : IsNode p n lo hi) (l : lo ≤ k) (u : k < hi) where
  pub way : IsUpper (key_at p) (slot_count p) k (child_index_for p k)
  way = (child-bounds p k (IsStrict-IsSorted (key_at p) (slot_count p) h.strict)).0

  pub low_of-child : low_of p lo (child_index_for p k) ≤ k
  low_of-child = elim (Bool-cases (child_index_for p k == 0)) [
    | inl e ↦ rw e l
    | inr e ↦ rw e (way.below (child_index_for p k - 1) (ground arith))
  ]

  pub high_of-child : k < high_of p hi (child_index_for p k)
  high_of-child = elim (Bool-cases (child_index_for p k == slot_count p)) [
    | inl e ↦ rw e u
    | inr e ↦ rw e (way.above (child_index_for p k) (omega arith) (ground (arith, way.within)))
  ]

module _ {S : Type 0} (store : PageStore S) (Shows : S → View → ℕ → Type 0)
    (laws : PageLaws store Shows) where
  search_from-leaf :
      (fuel : ℕ) (s t : S) (id k : ℕ) (q : Page)
      → store.read_page s id ≡ ok (t, q)
      → is_leaf q ≡ true
      → search_from store (suc fuel) s id k ≡ ok (t, search_leaf q k)
  unfolding search_from
  search_from-leaf fuel s t id k q e is = goes_on _ e (rw is refl)

  search_from-node :
      (fuel : ℕ) (s t : S) (id k : ℕ) (q : Page)
      → store.read_page s id ≡ ok (t, q)
      → is_leaf q ≡ false
      → search_from store (suc fuel) s id k
        ≡ search_from store fuel t (child_at q (child_index_for q k)) k
  unfolding search_from
  search_from-node fuel s t id k q e is = goes_on _ e (rw is refl)

  search_from-IsTree :
      (fuel levels : ℕ) (s : S) (view : View) (room : ℕ) (map : Map) (own : ℕ → Bool)
      (lo hi n k : ℕ)
      → levels ≤ fuel
      → Shows s view room
      → IsTree view map own lo hi levels n
      → lo ≤ k
      → k < hi
      → (t : S) × (search_from store fuel s n k ≡ ok (t, map k)) × Shows t view room
  search_from-IsTree zero _ s view room map _ _ _ _ k f shows (leaf own lo hi n p at mine h) l u =
      absurd (omega arith)
  search_from-IsTree zero _ s view room map _ _ _ _ k f shows
        (node own lo hi levels n p part at mine h inside apart sub) l u =
      absurd (omega arith)
  search_from-IsTree (suc fuel) _ s view room map _ _ _ _ k f shows (leaf own lo hi n p at mine h) l
        u =
      let (t, q, e, same, shows') = laws.read s view room n p shows at in
      let h' = IsLeaf-same p q same n lo hi map h in
      (
        t,
        search_from-leaf fuel s t n k q e h'.leaf
            ∙ ap (λ m. ok (t, m)) (search_leaf-map q n lo hi k map h' l u),
        shows',
      )
  search_from-IsTree (suc fuel) _ s view room map _ _ _ _ k f shows
        (node own lo hi levels n p part at mine h inside apart sub) l u =
      let (t, q, e, same, shows') = laws.read s view room n p shows at in
      let h' = IsNode-same p q same n lo hi h in
      let r = child_index_for q k in
      let inside : r ≤ slot_count p =
        omega (arith, same-count p q same, (way q n lo hi k h' l u).within) in
      let (t', e', shows'') =
        search_from-IsTree fuel levels t view room map (part r) (low_of p lo r) (high_of p hi r)
          (child_at p r) k (omega arith) shows' (sub r inside)
          (omega (arith, low_of-child q n lo hi k h' l u, same-low_of p q same n lo hi r h inside))
          (omega
            (arith, high_of-child q n lo hi k h' l u, same-high_of p q same n lo hi r h inside)) in
      (
        t',
        search_from-node fuel s t n k q e h'.node
            ∙ ap (λ c. search_from store fuel t c k) (same-child p q same r (omega (arith, h.fits)))
            ∙ e',
        shows'',
      )

-- In a store with the laws of a page store, a well-formed unique tree of no more levels than the fuel: `search` ends without an error, gives the value the tree
-- holds for the key, or none, and leaves the pages as they were.
pub search-IsTree :
    {S : Type 0} (store : PageStore S) (Shows : S → View → ℕ → Type 0)
    → PageLaws store Shows
    → (fuel levels : ℕ) (s : S) (view : View) (room : ℕ) (t : Tree) (map : Map) (own : ℕ → Bool)
      (k : ℕ)
    → levels ≤ fuel
    → t.unique ≡ true
    → Shows s view room
    → IsTree view map own 0 (2 ^ 64) levels t.root
    → k < 2 ^ 64
    → (s' : S) × (search store fuel s t k ≡ ok (s', map k)) × Shows s' view room
unfolding search check_that
search-IsTree store Shows laws fuel levels s view room t map own k f unique shows tree u =
    let (s', e, shows') =
      search_from-IsTree store Shows laws fuel levels s view room map own 0 (2 ^ 64) t.root k f
        shows tree (omega arith) u in
    (s', rw (search, unique) e, shows')
