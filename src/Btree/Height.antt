-- ===== src/Btree/Height.antt =====
-- The height of a tree.
use labdb.Prelude.{
  ℕ, zero, suc, ◌+◌, ◌≤◌, ◌≡◌, refl, arith, ap, ◌∙◌, Bool, true, false, ok, goes_on,
}
use labdb.Page.{Page}
use labdb.PageStore.{PageStore, PageLaws, View}
use labdb.Btree.{child_at}
use labdb.Btree.Tree.{is_leaf, height_from}
use labdb.Btree.Shape.{
  Map, IsTree, leaf, node, low_of, high_of, IsLeaf-same, IsNode-same, same-child,
}

module _ {S : Type 0} (store : PageStore S) where
  height_from-leaf :
      (fuel : ℕ) (s t : S) (n : ℕ) (q : Page)
      → store.read_page s n ≡ ok (t, q)
      → is_leaf q ≡ true
      → height_from store (suc fuel) s n ≡ ok (t, 1)
  unfolding height_from
  height_from-leaf fuel s t n q e is = goes_on _ e (rw is refl)

  height_from-node :
      (fuel : ℕ) (s t t' : S) (n levels : ℕ) (q : Page)
      → store.read_page s n ≡ ok (t, q)
      → is_leaf q ≡ false
      → height_from store fuel t (child_at q 0) ≡ ok (t', levels)
      → height_from store (suc fuel) s n ≡ ok (t', levels + 1)
  unfolding height_from
  height_from-node fuel s t t' n levels q e is e' = goes_on _ e (rw is (goes_on _ e' refl))

-- In a store with the laws of a page store, the height of a well-formed tree is its number of levels, and fuel for as many is enough.
pub height_from-IsTree :
    {S : Type 0} (store : PageStore S) (Shows : S → View → ℕ → Type 0)
    → PageLaws store Shows
    → (fuel levels room : ℕ) (s : S) (view : View) (map : Map) (own : ℕ → Bool) (lo hi n : ℕ)
    → levels ≤ fuel
    → Shows s view room
    → IsTree view map own lo hi levels n
    → (t : S) × (height_from store fuel s n ≡ ok (t, levels)) × Shows t view room
height_from-IsTree store Shows laws zero _ room s view map _ _ _ _ f shows
      (leaf own lo hi n p at mine h) =
    absurd (omega arith)
height_from-IsTree store Shows laws zero _ room s view map _ _ _ _ f shows
      (node own lo hi levels n p part at mine h inside apart sub) =
    absurd (omega arith)
height_from-IsTree store Shows laws (suc fuel) _ room s view map _ _ _ _ f shows
      (leaf own lo hi n p at mine h) =
    let (t, q, e, same, shows') = laws.read s view room n p shows at in
    (t, height_from-leaf store fuel s t n q e (IsLeaf-same p q same n lo hi map h).leaf, shows')
height_from-IsTree store Shows laws (suc fuel) _ room s view map _ _ _ _ f shows
      (node own lo hi levels n p part at mine h inside apart sub) =
    let (t, q, e, same, shows') = laws.read s view room n p shows at in
    let first : child_at q 0 ≡ child_at p 0 = same-child p q same 0 (omega arith) in
    let (t', e', shows'') =
      height_from-IsTree store Shows laws fuel levels room t view map (part 0) (low_of p lo 0)
        (high_of p hi 0) (child_at p 0) (omega arith) shows' (sub 0 (omega arith)) in
    (
      t',
      height_from-node store fuel s t t' n levels q e (IsNode-same p q same n lo hi h).node
            (ap (height_from store fuel t) first ∙ e')
          ∙ ap (λ m. ok (t', m)) (omega arith),
      shows'',
    )
