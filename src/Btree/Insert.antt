-- ===== src/Btree/Insert.antt =====
-- Insertion into a tree, whatever splits on the way.
use labdb.Prelude.{
  ℕ, zero, suc, ◌-◌, ◌≤◌, ◌<◌, ◌^◌, ◌≡◌, refl, arith, sym, subst, Bool, true, false, some, Outcome,
  ok, goes_on,
}
use labdb.Page.{Page, slot_count}
use labdb.PageStore.{PageStore, PageLaws, View}
use labdb.Btree.{child_at, child_index_for}
use labdb.Btree.Tree.{Inserted, is_leaf, insert_leaf, absorb, insert_rec}
use labdb.Btree.Shape.{
  Map, IsLeaf, IsTree, leaf, node, Owned, low_of, high_of, high_of-le, IsLeaf-same, IsNode-same,
  same-count, same-child, same-low_of, same-high_of,
}
use labdb.Btree.Search.{way, low_of-child, high_of-child}
use labdb.Btree.Pieces.{IsTree-cast}
use labdb.Btree.Grown.{put_key, is_new, put_key_other, Done}
use labdb.Btree.InsertLeaf.{insert_leaf-Done}
use labdb.Btree.Absorb.{absorb-Done}

module _ {S : Type 0} (store : PageStore S) (persist : S → ℕ → Outcome S)
    (Shows : S → View → ℕ → Type 0) (laws : PageLaws store Shows) where
  insert_rec-leaf :
      (fuel : ℕ) (s t : S) (n k v : ℕ) (overwrite : Bool) (q : Page)
      → store.read_page s n ≡ ok (t, q)
      → is_leaf q ≡ true
      → insert_rec store persist (suc fuel) s true n k v overwrite
        ≡ insert_leaf store persist t true n q k v overwrite
  unfolding insert_rec
  insert_rec-leaf fuel s t n k v overwrite q e is = goes_on _ e (rw is refl)

  insert_rec-node :
      (fuel : ℕ) (s t t' : S) (n k v : ℕ) (overwrite : Bool) (q : Page) (below : Inserted)
      → store.read_page s n ≡ ok (t, q)
      → is_leaf q ≡ false
      → insert_rec store persist fuel t true (child_at q (child_index_for q k)) k v overwrite
        ≡ ok (t', below)
      → insert_rec store persist (suc fuel) s true n k v overwrite
        ≡ absorb store persist t' n q (child_index_for q k) below
  unfolding insert_rec
  insert_rec-node fuel s t t' n k v overwrite q below e is e' =
      goes_on _ e (rw is (goes_on _ e' refl))

  module _ (map : Map) (k v : ℕ) (overwrite : Bool) (key : k < 2 ^ 64) (value : v < 2 ^ 64) where
    at_leaf :
        (fuel room : ℕ) (s : S) (view : View) (own : ℕ → Bool) (lo hi n : ℕ) (p : Page)
        → Shows s view room
        → 1 ≤ room
        → Owned view own
        → lo ≤ k
        → k < hi
        → view n ≡ some p
        → own n ≡ true
        → IsLeaf p n lo hi map
        → Done Shows view own
            (put_key overwrite map k v)
            lo
            hi
            1
            n
            room
            (is_new map k)
            (insert_rec store persist (suc fuel) s true n k v overwrite)
    at_leaf fuel room s view own lo hi n p shows enough owned l u at mine h =
        let (t, q, e, same, shows') = laws.read s view room n p shows at in
        let some_room : room ≡ suc (room - 1) = omega arith in
        let h' = IsLeaf-same p q same n lo hi map h in
        let map' = put_key overwrite map k v in
        subst (Done Shows view own map' lo hi 1 n room (is_new map k))
          (sym (insert_rec-leaf fuel s t n k v overwrite q e h'.leaf))
          (subst
            (λ r.
              Done Shows view own map' lo hi 1 n r (is_new map k)
                (insert_leaf store persist t true n q k v overwrite))
            (sym some_room)
            (insert_leaf-Done store persist Shows laws t view (room - 1) n p q lo hi own map k v
              (subst (Shows t view) some_room shows') at mine owned h' l u key value overwrite h))

    -- The insertion below a node ends and leaves a tree, or two, with the new entry.
    pub insert_rec-Done :
        (fuel levels room : ℕ) (s : S) (view : View) (own : ℕ → Bool) (lo hi n : ℕ)
        → levels ≤ fuel
        → levels ≤ room
        → Shows s view room
        → Owned view own
        → lo ≤ k
        → k < hi
        → hi ≤ 2 ^ 64
        → IsTree view map own lo hi levels n
        → Done Shows view own
            (put_key overwrite map k v)
            lo
            hi
            levels
            n
            room
            (is_new map k)
            (insert_rec store persist fuel s true n k v overwrite)
    insert_rec-Done zero _ room s view _ _ _ _ f enough shows owned l u top
          (leaf own lo hi n p at mine h) =
        absurd (omega arith)
    insert_rec-Done zero _ room s view _ _ _ _ f enough shows owned l u top
          (node own lo hi levels n p part at mine h inside apart sub) =
        absurd (omega arith)
    insert_rec-Done (suc fuel) _ room s view _ _ _ _ f enough shows owned l u top
          (leaf own lo hi n p at mine h) =
        at_leaf fuel room s view own lo hi n p shows enough owned l u at mine h
    insert_rec-Done (suc fuel) _ room s view _ _ _ _ f enough shows owned l u top
          (node own lo hi levels n p part at mine h inside apart sub) =
        let (t, q, e, same, shows') = laws.read s view room n p shows at in
        let h' = IsNode-same p q same n lo hi h in
        let count = same-count p q same in
        let ci = child_index_for q k in
        let chosen : ci ≤ slot_count q = (way q n lo hi k h' l u).within in
        let map' = put_key overwrite map k v in
        let new = is_new map k in
        let sub' : (i : ℕ)
            → i ≤ slot_count q
            → IsTree view map (part i) (low_of q lo i) (high_of q hi i) levels (child_at q i) =
          λ i b.
            let b' : i ≤ slot_count p = omega (arith, count) in
            IsTree-cast view map (part i) (low_of p lo i) (low_of q lo i) (high_of p hi i)
              (high_of q hi i) levels (child_at p i) (child_at q i)
              (sym (same-low_of p q same n lo hi i h b'))
              (sym (same-high_of p q same n lo hi i h b'))
              (sym (same-child p q same i (omega (arith, h.fits)))) (sub i b') in
        let low = low_of-child q n lo hi k h' l u in
        let high = high_of-child q n lo hi k h' l u in
        let d =
          insert_rec-Done fuel levels room t view (part ci) (low_of q lo ci) (high_of q hi ci)
            (child_at q ci) (omega arith) (omega arith) shows'
            (λ j m. owned j (inside ci j (omega (arith, count)) m).0) low high
            (omega (arith, top, high_of-le q n lo hi ci h' chosen)) (sub' ci chosen) in
        subst (Done Shows view own map' lo hi (suc levels) n room new)
          (sym (insert_rec-node fuel s t d.state n k v overwrite q d.result e h'.node d.returns))
          (absorb-Done store persist Shows laws view p q n lo hi levels ci k room own part map map'
            new (insert_rec store persist fuel t true (child_at q ci) k v overwrite) at mine owned h
            same h' chosen (λ i j b m. inside i j (omega (arith, count)) m)
            (λ i i' j b b' m m'. apart i i' j (omega (arith, count)) (omega (arith, count)) m m')
            sub' low high (λ j ne. put_key_other overwrite map k v j ne) top enough d)
