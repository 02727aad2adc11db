-- ===== src/Btree/InsertLeaf.antt =====
-- The insertion at a leaf, on all its branches.
use labdb.Prelude.{
  ℕ, suc, ◌≤◌, ◌<◌, ◌^◌, ◌≡◌, ◌≢◌, refl, arith, ap, sym, subst, ◌∙◌, Bool, true, false, ◌&&◌, none,
  some, ◌==◌, ltb, inl, inr, Bool-cases, ==_refl, ==→eq, Outcome, goes_on,
}
use labdb.Common.{zeroes}
use labdb.Page.{Page, slot_count, set_id}
use labdb.PageStore.{PageStore, PageLaws, View, put_page}
use labdb.Btree.{leaf_is_full, leaf_key_at, value_at, lower_bound, insert_at, set_value_at}
use labdb.Btree.Tree.{Split, entry_place, split_leaf, insert_leaf}
use labdb.Btree.Shape.{Map, IsLeaf, IsLeaf-congr, leaf, Owned}
use labdb.Btree.Search.{place, absent}
use labdb.Btree.LeafInsert.{Assigns, IsLeaf-insert_at, IsLeaf-set_value_at}
use labdb.Btree.LeafSplit.{Halves, split_leaf-Halves}
use labdb.Btree.Grown.{
  put_key, is_new, is_new-some, is_new-none, put_key_new, put_key_over, put_key_kept, put_page_here,
  put_page_other, whole, halves, Done, put_page-Grows, with_page, split-Grows,
}

-- Whether the key is at its place.
abbrev hit : Page → ℕ → Bool
hit q k = ltb (lower_bound q k) (slot_count q) && leaf_key_at q (lower_bound q k) == k

module _ {S : Type 0} (store : PageStore S) (persist : S → ℕ → Outcome S)
    (Shows : S → View → ℕ → Type 0) (laws : PageLaws store Shows) (s : S) (view : View) (room n : ℕ)
    (p q : Page) (lo hi : ℕ) (own : ℕ → Bool) (map : Map) (k v : ℕ)
    (shows : Shows s view (suc room)) (at : view n ≡ some p) (mine : own n ≡ true)
    (owned : Owned view own) (h : IsLeaf q n lo hi map) (l : lo ≤ k) (u : k < hi) (key : k < 2 ^ 64)
    (value : v < 2 ^ 64) where
  r : ℕ
  r = lower_bound q k

  -- A new value is written in place.
  overwritten :
      hit q k ≡ true
      → Done Shows view own
          (put_key true map k v)
          lo
          hi
          1
          n
          (suc room)
          (is_new map k)
          (insert_leaf store persist s true n q k v true)
  unfolding insert_leaf
  overwritten e =
      let i = lower_bound q k in
      let inside : i < slot_count q = ground arith in
      let same : leaf_key_at q i ≡ k = ground arith in
      let old : map k ≡ some (value_at q i) = ap map (sym same) ∙ h.here i inside in
      let assigns : Assigns map (put_key true map k v) (leaf_key_at q i) v =
        subst (λ j. Assigns map (put_key true map k v) j v) (sym same)
          (put_key_over map k v (value_at q i) old) in
      let h' =
        IsLeaf-set_value_at q n lo hi map (put_key true map k v) i v h inside assigns value in
      let page = set_value_at q i v in
      let (t, w, shows') = laws.write s view (suc room) n p page shows at h'.self in
      record {
        state = t;
        result = record { split = none; inserted = false };
        view' = put_page view n page;
        own' = own;
        left = suc room;
        returns = rw (insert_leaf, e) (goes_on _ w refl);
        shows = shows';
        room = omega arith;
        grows = put_page-Grows view own n page mine owned;
        below = whole (leaf own lo hi n page (put_page_here view n page) mine h');
        flag = sym (is_new-some map k (value_at q (lower_bound q k)) old);
      }

  -- An entry that is there is left alone.
  left_alone :
      hit q k ≡ true
      → IsLeaf p n lo hi map
      → Done Shows view own
          (put_key false map k v)
          lo
          hi
          1
          n
          (suc room)
          (is_new map k)
          (insert_leaf store persist s true n q k v false)
  unfolding insert_leaf
  left_alone e h0 =
      let i = lower_bound q k in
      let inside : i < slot_count q = ground arith in
      let same : leaf_key_at q i ≡ k = ground arith in
      let old : map k ≡ some (value_at q i) = ap map (sym same) ∙ h.here i inside in
      record {
        state = s;
        result = record { split = none; inserted = false };
        view' = view;
        own' = own;
        left = suc room;
        returns = rw (insert_leaf, e) refl;
        shows = shows;
        room = omega arith;
        grows = record {
          owned = owned;
          old = λ j e. inl e;
          more = λ j e. e;
          kept = λ j x e at. at;
        };
        below = whole (
            leaf own lo hi n p at mine (
              IsLeaf-congr p n lo hi map (put_key false map k v)
                (λ j a b. put_key_kept map k v (value_at q i) j old) h0));
        flag = sym (is_new-some map k (value_at q (lower_bound q k)) old);
      }

  free : hit q k ≡ false → map k ≡ none
  free e = h.gone k l u (absent q n lo hi k map h e)

  -- A leaf with room takes the entry.
  taken :
      (overwrite : Bool)
      → hit q k ≡ false
      → leaf_is_full q ≡ false
      → Done Shows view own
          (put_key overwrite map k v)
          lo
          hi
          1
          n
          (suc room)
          (is_new map k)
          (insert_leaf store persist s true n q k v overwrite)
  unfolding insert_leaf entry_place
  taken overwrite e f =
      let map' = put_key overwrite map k v in
      let page = insert_at q (lower_bound q k) k v in
      let h' =
        IsLeaf-insert_at q n lo hi map map' (lower_bound q k) k v h
          (put_key_new overwrite map k v (free e)) (free e) (place q n lo hi k map h) l u key value
          (ground arith) in
      let (t, w, shows') = laws.write s view (suc room) n p page shows at h'.self in
      record {
        state = t;
        result = record { split = none; inserted = true };
        view' = put_page view n page;
        own' = own;
        left = suc room;
        returns = rw (insert_leaf, e, f) (goes_on _ w refl);
        shows = shows';
        room = omega arith;
        grows = put_page-Grows view own n page mine owned;
        below = whole (leaf own lo hi n page (put_page_here view n page) mine h');
        flag = sym (is_new-none map k (free e));
      }

  -- A full leaf is split.
  cut :
      (overwrite : Bool)
      → hit q k ≡ false
      → leaf_is_full q ≡ true
      → Done Shows view own
          (put_key overwrite map k v)
          lo
          hi
          1
          n
          (suc room)
          (is_new map k)
          (insert_leaf store persist s true n q k v overwrite)
  unfolding insert_leaf with_page
  cut overwrite e f =
      let map' = put_key overwrite map k v in
      let (t1, rid, w1, fresh, named, shows1) = laws.allocate s view room shows in
      let a = (split_leaf true q rid k v).0 in
      let b = (split_leaf true q rid k v).1 in
      let parts : Halves a b n rid lo hi map' =
        split_leaf-Halves q n lo hi rid k v map map' h (ground (arith, h.fits)) named
          (put_key_new overwrite map k v (free e)) (free e) l u key value in
      let apart : rid ≢ n = λ same. absurd (cc (fresh, at, ap view same)) in
      let view1 = put_page view rid (set_id zeroes rid) in
      let view2 = put_page view1 n a in
      let (t2, w2, shows2) =
        laws.write t1 view1 room n p a shows1
          (put_page_other view rid n (set_id zeroes rid) apart ∙ at) parts.left_leaf.self in
      let there : view2 rid ≡ some (set_id zeroes rid) =
        put_page_other view1 n rid a (λ same. apart (sym same))
        ∙ put_page_here view rid (set_id zeroes rid) in
      let (t3, w3, shows3) =
        laws.write t2 view2 room rid (set_id zeroes rid) b shows2 there parts.right_leaf.self in
      let up : Split = record { sep_key = leaf_key_at b 0; right = rid } in
      let view3 = put_page view2 rid b in
      record {
        state = t3;
        result = record { split = some up; inserted = true };
        view' = view3;
        own' = with_page own rid;
        left = room;
        returns = rw (insert_leaf, e, f) (goes_on _ w1 (goes_on _ w2 (goes_on _ w3 refl)));
        shows = shows3;
        room = omega arith;
        grows = split-Grows view own n rid (set_id zeroes rid) a b mine fresh owned;
        below =
            halves (λ j. n == j) (λ j. rid == j) up parts.low parts.high named
              (λ j s. ap (with_page own rid) (sym (==→eq n j s)) ∙ (rw mine refl))
              (λ j s. elim (Bool-cases (own j)) [ inl t ↦ rw t refl | inr t ↦ rw (t, s) refl ])
              (λ j s s'. apart (==→eq rid j s' ∙ sym (==→eq n j s)))
              (leaf (λ j. n == j) lo (leaf_key_at b 0) n a
                (put_page_other view2 rid n b apart ∙ put_page_here view1 n a) (==_refl n)
                parts.left_leaf)
              (leaf (λ j. rid == j) (leaf_key_at b 0) hi rid b (put_page_here view2 rid b)
                (==_refl rid) parts.right_leaf);
        flag = sym (is_new-none map k (free e));
      }

  present :
      (overwrite : Bool)
      → hit q k ≡ true
      → IsLeaf p n lo hi map
      → Done Shows view own
          (put_key overwrite map k v)
          lo
          hi
          1
          n
          (suc room)
          (is_new map k)
          (insert_leaf store persist s true n q k v overwrite)
  present true e h0 = overwritten e
  present false e h0 = left_alone e h0

  pub insert_leaf-Done :
      (overwrite : Bool)
      → IsLeaf p n lo hi map
      → Done Shows view own
          (put_key overwrite map k v)
          lo
          hi
          1
          n
          (suc room)
          (is_new map k)
          (insert_leaf store persist s true n q k v overwrite)
  insert_leaf-Done overwrite h0 = elim (Bool-cases (hit q k)) [
    | inl e ↦ present overwrite e h0
    | inr e ↦ elim (Bool-cases (leaf_is_full q)) [
      | inl f ↦ cut overwrite e f
      | inr f ↦ taken overwrite e f
    ]
  ]
