-- ===== src/Btree/Root.antt =====
-- Insertion at the root, where the tree may grow by a level.
use labdb.Prelude.{
  ℕ, zero, suc, ◌+◌, ◌-◌, ◌≤◌, ◌<◌, ◌^◌, ◌≡◌, ◌≢◌, inl, inr, refl, arith, ap, sym, subst, ◌∙◌, Bool,
  true, false, Option, none, some, ◌==◌, Bool-cases, Outcome, ok, goes_on,
}
use labdb.Common.{zeroes, load}
use labdb.Common.Fields.{load-store_apart, load-store_self}
use labdb.Page.{Page, set_id, id, type_code}
use labdb.PageStore.{PageStore, PageLaws, View, put_page}
use labdb.Btree.{key_at, child_at, set_key_at, set_child_at, init_internal}
use labdb.Btree.Tree.{Tree, Split, new_root, insert_rec, insert_with, insert, insert_new}
use labdb.Btree.Shape.{Map, IsTree, IsTree-congr, Owned}
use labdb.Btree.Pieces.{low_key, high_key, Pieces, Run, gather}
use labdb.Btree.Grown.{
  put_key, is_new, put_page_here, put_page_other, Grows, Below, whole, halves, Done, with_page,
  with_page_self, new-Grows, Grows-trans,
}
use labdb.Btree.Insert.{insert_rec-Done}

two_of : {A : Type 0} → A → A → ℕ → A
two_of a b zero = a
two_of a b (suc i) = b

-- The page of a new root: one separator and two children.
module _ (rid old : ℕ) (up : Split) (named : rid < 2 ^ 32) (small : old < 2 ^ 32)
    (key : up.sep_key < 2 ^ 64) (child : up.right < 2 ^ 32) where
  root_page : Page
  root_page = new_root rid old up

  field-new_root : (w o : ℕ) → o + w ≤ 6 → load w root_page o ≡ load w (init_internal zeroes rid) o
  unfolding root_page new_root set_child_at set_key_at
  field-new_root w o h =
      load-store_apart 2 _ 6 1 w o (omega arith)
      ∙ load-store_apart 4 _ 2736 up.right w o (omega arith)
      ∙ load-store_apart 4 _ 2732 old w o (omega arith)
      ∙ load-store_apart 8 _ 20 up.sep_key w o (omega arith)

  id-new_root : id root_page ≡ rid
  unfolding init_internal
  id-new_root =
      field-new_root 4 0 (omega arith)
      ∙ load-store_apart 4 _ 16 0 4 0 (omega arith)
      ∙ load-store_apart 2 _ 6 0 4 0 (omega arith)
      ∙ load-store_apart 2 _ 4 5 4 0 (omega arith)
      ∙ load-store_self 4 zeroes 0 rid (omega (arith, named))

  type-new_root : type_code root_page ≡ 5
  unfolding init_internal
  type-new_root =
      field-new_root 2 4 (omega arith)
      ∙ load-store_apart 4 _ 16 0 2 4 (omega arith)
      ∙ load-store_apart 2 _ 6 0 2 4 (omega arith)
      ∙ load-store_self 2 _ 4 5 (omega arith)

  root-Run : Run root_page (λ i. up.sep_key) (two_of old up.right) 0 1
  unfolding root_page new_root set_child_at set_key_at two_of
  root-Run = record {
    node = (let e = type-new_root in ground arith);
    count = load-store_self 2 _ 6 1 (omega arith);
    fits = omega arith;
    key = λ i u.
        ap (key_at root_page) {x = i} {y = 0} (omega arith)
        ∙ load-store_apart 2 _ 6 1 8 20 (omega arith)
        ∙ load-store_apart 4 _ 2736 up.right 8 20 (omega arith)
        ∙ load-store_apart 4 _ 2732 old 8 20 (omega arith)
        ∙ load-store_self 8 _ 20 up.sep_key (omega (arith, key));
    child = λ i u. elim (Bool-cases (i == 0)) [
      | inl e ↦
          ap (child_at root_page) {x = i} {y = 0} (ground arith)
          ∙ load-store_apart 2 _ 6 1 4 2732 (omega arith)
          ∙ load-store_apart 4 _ 2736 up.right 4 2732 (omega arith)
          ∙ load-store_self 4 _ 2732 old (omega (arith, small))
          ∙ ap (two_of old up.right) {x = 0} {y = 0 + i} (ground arith)
      | inr e ↦
          ap (child_at root_page) {x = i} {y = 1} (ground arith)
          ∙ load-store_apart 2 _ 6 1 4 2736 (omega arith)
          ∙ load-store_self 4 _ 2736 up.right (omega (arith, child))
          ∙ ap (two_of old up.right) {x = 1} {y = 0 + i} (ground arith)
    ];
  }

module _ (view : View) (map : Map) (own : ℕ → Bool) (rid old : ℕ) (up : Split) (one two : ℕ → Bool)
    (levels : ℕ) (small : old < 2 ^ 32) (low : 0 < up.sep_key) (high : up.sep_key < 2 ^ 64)
    (child : up.right < 2 ^ 32) (one-own : (j : ℕ) → one j ≡ true → own j ≡ true)
    (two-own : (j : ℕ) → two j ≡ true → own j ≡ true) (one-other : (j : ℕ) → one j ≡ true → j ≢ rid)
    (two-other : (j : ℕ) → two j ≡ true → j ≢ rid)
    (disjoint : (j : ℕ) → one j ≡ true → two j ≡ true → ⊥)
    (left_tree : IsTree view map one 0 up.sep_key levels old)
    (right_tree : IsTree view map two up.sep_key (2 ^ 64) levels up.right) where
  ids : ℕ → ℕ
  ids = two_of old up.right

  trees : ℕ → ℕ → Bool
  trees = two_of one two

  ids-small : (i : ℕ) → i ≤ 1 → ids i < 2 ^ 32
  unfolding ids two_of
  ids-small zero u = small
  ids-small (suc i) u = child

  owns : (i j : ℕ) → i ≤ 1 → trees i j ≡ true → own j ≡ true
  unfolding trees two_of
  owns zero j u e = one-own j e
  owns (suc i) j u e = two-own j e

  others : (i j : ℕ) → i ≤ 1 → trees i j ≡ true → j ≢ rid
  unfolding trees two_of
  others zero j u e = one-other j e
  others (suc i) j u e = two-other j e

  apart : (i i' j : ℕ) → i ≤ 1 → i' ≤ 1 → trees i j ≡ true → trees i' j ≡ true → i ≡ i'
  unfolding trees two_of
  apart zero zero j u u' e e' = refl
  apart zero (suc i') j u u' e e' = absurd (disjoint j e e')
  apart (suc i) zero j u u' e e' = absurd (disjoint j e' e)
  apart (suc i) (suc i') j u u' e e' = omega arith

  sub :
      (i : ℕ)
      → i ≤ 1
      → IsTree view map
          (trees i)
          (low_key (λ x. up.sep_key) 0 i)
          (high_key (λ x. up.sep_key) 1 (2 ^ 64) i)
          levels
          (ids i)
  unfolding trees ids two_of
  sub zero u = left_tree
  sub (suc zero) u = right_tree
  sub (suc (suc i)) u = absurd (omega arith)

  root-Pieces :
      Pieces view map own rid 0
        (2 ^ 64)
        levels
        1
        (λ i. up.sep_key)
        (two_of old up.right)
        (two_of one two)
  unfolding trees ids
  root-Pieces = record {
    strict = λ i j a b. absurd (omega arith);
    low = λ i u. omega (arith, low);
    high = λ i u. high;
    small = ids-small;
    owns = owns;
    others = others;
    apart = apart;
    sub = sub;
  }

-- A tree with a new entry: what `insert` and `insert_new` leave.
pub record Bound {S : Type 0} (Shows : S → View → ℕ → Type 0) (view : View) (own : ℕ → Bool)
    (map' : Map) (levels before : ℕ) (new : Bool) (call : Outcome (S × Tree × Bool)) : Type 0 where
  pub state : S
  pub tree : Tree
  pub view' : View
  pub own' : ℕ → Bool
  pub levels' : ℕ
  pub left : ℕ
  pub returns : call ≡ ok (state, tree, new)
  pub shows : Shows state view' left
  pub room : before ≤ left + suc levels
  pub height : (levels ≤ levels') × (levels' ≤ suc levels)
  pub grows : Grows view own view' own'
  pub unique : tree.unique ≡ true
  pub named : tree.root < 2 ^ 32
  pub is_tree : IsTree view' map' own' 0 (2 ^ 64) levels' tree.root

abbrev pub unique_tree : ℕ → Tree
unique_tree root = record { root = root; unique = true }

-- What is asked of the callback: it ends, and leaves the tree's pages alone.
abbrev pub Persists : {S : Type 0} → (S → ℕ → Outcome S) → (S → View → ℕ → Type 0) → Type 0
Persists {S} persist Shows =
    (s : S) (view : View) (room n : ℕ)
    → Shows s view room
    → (t : S) × (persist s n ≡ ok t) × Shows t view room

module _ {S : Type 0} (store : PageStore S) (persist : S → ℕ → Outcome S)
    (Shows : S → View → ℕ → Type 0) (laws : PageLaws store Shows)
    (persists : Persists persist Shows) (fuel levels room : ℕ) (s : S) (view : View)
    (own : ℕ → Bool) (root : ℕ) (map : Map) (k v : ℕ) (overwrite : Bool) (f : levels ≤ fuel)
    (enough : suc levels ≤ room) (small : root < 2 ^ 32) (shows : Shows s view room)
    (owned : Owned view own) (key : k < 2 ^ 64) (value : v < 2 ^ 64)
    (tree : IsTree view map own 0 (2 ^ 64) levels root) where
  d :
      Done Shows view own
        (put_key overwrite map k v)
        0
        (2 ^ 64)
        levels
        root
        room
        (is_new map k)
        (insert_rec store persist fuel s true root k v overwrite)
  d =
      insert_rec-Done store persist Shows laws map k v overwrite key value fuel levels room s view
        own 0 (2 ^ 64) root f (omega arith) shows owned (omega arith) key (omega arith) tree

  inserted_whole :
      d.result.split ≡ none
      → insert_with store persist fuel s (unique_tree root) k v overwrite
        ≡ ok (d.state, unique_tree root, d.result.inserted)
  unfolding insert_with
  inserted_whole e = goes_on _ d.returns (rw e refl)

  inserted_halves :
      (up : Split) (t1 t2 t3 : S) (rid : ℕ)
      → d.result.split ≡ some up
      → store.allocate_page d.state ≡ ok (t1, rid)
      → store.write_page t1 rid (new_root rid root up) ≡ ok t2
      → persist t2 rid ≡ ok t3
      → insert_with store persist fuel s (unique_tree root) k v overwrite
        ≡ ok (t3, unique_tree rid, d.result.inserted)
  unfolding insert_with
  inserted_halves up t1 t2 t3 rid e w1 w2 w3 =
      goes_on _ d.returns (rw e (goes_on _ w1 (goes_on _ w2 (goes_on _ w3 refl))))

  map' : Map
  map' = put_key overwrite map k v

  grown :
      (split : Option Split)
      → d.result.split ≡ split
      → Below d.view' map' d.own' 0 (2 ^ 64) levels root split
      → Bound Shows view own map' levels room
          (is_new map k)
          (insert_with store persist fuel s (unique_tree root) k v overwrite)
  unfolding map' new_root root_page
  grown _ e (whole tree') = record {
    state = d.state;
    tree = unique_tree root;
    view' = d.view';
    own' = d.own';
    levels' = levels;
    left = d.left;
    returns = inserted_whole e ∙ ap (λ b. ok (d.state, unique_tree root, b)) d.flag;
    shows = d.shows;
    room = omega (arith, d.room);
    height = (omega arith, omega arith);
    grows = d.grows;
    unique = refl;
    named = small;
    is_tree = tree';
  }
  grown _ e (halves one two up low high child in_one in_two disjoint left_tree right_tree) =
      let some_left : d.left ≡ suc (d.left - 1) = omega (arith, d.room) in
      let (t1, rid, w1, fresh, named, shows1) =
        laws.allocate d.state d.view' (d.left - 1)
          (subst (Shows d.state d.view') some_left d.shows) in
      let z = set_id zeroes rid in
      let v2 = put_page d.view' rid z in
      let page = new_root rid root up in
      let self = id-new_root rid root up named small high child in
      let (t2, w2, shows2) =
        laws.write t1 v2 (d.left - 1) rid z page shows1 (put_page_here d.view' rid z) self in
      let v3 = put_page v2 rid page in
      let (t3, w3, shows3) = persists t2 v3 (d.left - 1) rid shows2 in
      let own3 = with_page d.own' rid in
      let grows3 = new-Grows d.view' d.own' rid z page fresh d.grows.owned in
      let apart : (j : ℕ) → d.own' j ≡ true → rid ≢ j =
        λ j m same. let (x, at) = d.grows.owned j m in absurd (cc (fresh, at, ap d.view' same)) in
      let same : (j : ℕ) → d.own' j ≡ true → v3 j ≡ d.view' j = λ j m.
        put_page_other v2 rid j page (apart j m) ∙ put_page_other d.view' rid j z (apart j m) in
      let m = map' in
      let left_tree' =
        IsTree-congr d.view' v3 m m one 0 up.sep_key levels root (λ j b. same j (in_one j b))
          (λ j a b. refl) left_tree in
      let right_tree' =
        IsTree-congr d.view' v3 m m two up.sep_key (2 ^ 64) levels up.right
          (λ j b. same j (in_two j b)) (λ j a b. refl) right_tree in
      let pieces =
        root-Pieces v3 m own3 rid root up one two levels small low high child
          (λ j b. grows3.more j (in_one j b)) (λ j b. grows3.more j (in_two j b))
          (λ j b e'. apart j (in_one j b) (sym e')) (λ j b e'. apart j (in_two j b) (sym e'))
          disjoint left_tree' right_tree' in
      record {
        state = t3;
        tree = unique_tree rid;
        view' = v3;
        own' = own3;
        levels' = suc levels;
        left = d.left - 1;
        returns =
            inserted_halves up t1 t2 t3 rid e w1 w2 w3
            ∙ ap (λ b. ok (t3, unique_tree rid, b)) d.flag;
        shows = shows3;
        room = omega (arith, d.room);
        height = (omega arith, omega arith);
        grows = Grows-trans view d.view' v3 own d.own' own3 owned d.grows grows3;
        unique = refl;
        named = named;
        is_tree =
            gather v3 m own3 rid 0 (2 ^ 64) levels 1 (λ i. up.sep_key) (two_of root up.right)
              (two_of one two) pieces page rid 0 1 own3 (put_page_here v2 rid page) self
              (with_page_self d.own' rid)
              (λ i j a b c. (pieces.owns i j (omega arith) c, pieces.others i j (omega arith) c))
              (omega arith) (root-Run rid root up named small high child);
      }

  insert_with-Bound :
      Bound Shows view own map' levels room
        (is_new map k)
        (insert_with store persist fuel s (unique_tree root) k v overwrite)
  unfolding map'
  insert_with-Bound = grown d.result.split refl d.below

-- In a store with the laws of a page store, where the callback for a new root leaves the pages alone, a
-- well-formed unique tree in pages with room for one more on each level and one above: `insert` ends
-- without an error, says whether the key was new, and leaves a well-formed unique tree, of as many levels or
-- one more, that holds the map with the key's new value. No page outside of the tree changed, and the
-- tree's new pages were free before.
pub insert-Bound :
    {S : Type 0} (store : PageStore S) (persist : S → ℕ → Outcome S) (Shows : S → View → ℕ → Type 0)
    → PageLaws store Shows
    → Persists persist Shows
    → (fuel levels room : ℕ) (s : S) (view : View) (own : ℕ → Bool) (root : ℕ) (map : Map) (k v : ℕ)
    → levels ≤ fuel
    → suc levels ≤ room
    → root < 2 ^ 32
    → Shows s view room
    → Owned view own
    → k < 2 ^ 64
    → v < 2 ^ 64
    → IsTree view map own 0 (2 ^ 64) levels root
    → Bound Shows view own
        (put_key true map k v)
        levels
        room
        (is_new map k)
        (insert store persist fuel s (unique_tree root) k v)
unfolding insert map'
insert-Bound store persist Shows laws persists fuel levels room s view own root map k v f enough
      small shows owned key value tree =
    insert_with-Bound store persist Shows laws persists fuel levels room s view own root map k v
      true f enough small shows owned key value tree

-- In a store with the laws of a page store, where the callback for a new root leaves the pages alone, a
-- well-formed unique tree in pages with room for one more on each level and one above: `insert_new` ends
-- without an error, says whether the key was new, and leaves a well-formed unique tree that holds the map with the entry added if it was, and the same map if not.
pub insert_new-Bound :
    {S : Type 0} (store : PageStore S) (persist : S → ℕ → Outcome S) (Shows : S → View → ℕ → Type 0)
    → PageLaws store Shows
    → Persists persist Shows
    → (fuel levels room : ℕ) (s : S) (view : View) (own : ℕ → Bool) (root : ℕ) (map : Map) (k v : ℕ)
    → levels ≤ fuel
    → suc levels ≤ room
    → root < 2 ^ 32
    → Shows s view room
    → Owned view own
    → k < 2 ^ 64
    → v < 2 ^ 64
    → IsTree view map own 0 (2 ^ 64) levels root
    → Bound Shows view own
        (put_key false map k v)
        levels
        room
        (is_new map k)
        (insert_new store persist fuel s (unique_tree root) k v)
unfolding insert_new map'
insert_new-Bound store persist Shows laws persists fuel levels room s view own root map k v f enough
      small shows owned key value tree =
    insert_with-Bound store persist Shows laws persists fuel levels room s view own root map k v
      false f enough small shows owned key value tree
