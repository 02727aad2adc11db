-- ===== src/Btree/Halved.antt =====
-- What a node finds behind the insertion into its child: one tree or two, and what `absorb` does then.
use labdb.Prelude.{
  ℕ, ◌<◌, ◌^◌, ◌≡◌, refl, subst, Bool, true, false, Option, none, some, Outcome, ok, goes_on,
}
use labdb.Page.{Page}
use labdb.PageStore.{PageStore, View}
use labdb.Btree.{internal_is_full, insert_child_at}
use labdb.Btree.Tree.{Split, Inserted, split_internal, route, absorb}
use labdb.Btree.Shape.{Map, IsTree}
use labdb.Btree.Grown.{Below, whole, halves}

-- The tree of an insertion without a split, and the two of one with it.
pub whole_tree :
    (view : View) (map : Map) (own : ℕ → Bool) (lo hi levels n : ℕ) (split : Option Split)
    → split ≡ none
    → Below view map own lo hi levels n split
    → IsTree view map own lo hi levels n
whole_tree view map own lo hi levels n _ e (whole tree) = tree
whole_tree view map own lo hi levels n _ e
      (halves one two up low high small in_one in_two disjoint left right) =
    absurd (cc e)

pub record Parts (view : View) (map : Map) (own : ℕ → Bool) (lo hi levels n : ℕ) (up : Split)
    : Type 0 where
  pub one : ℕ → Bool
  pub two : ℕ → Bool
  pub low : lo < up.sep_key
  pub high : up.sep_key < hi
  pub small : up.right < 2 ^ 32
  pub in_one : (j : ℕ) → one j ≡ true → own j ≡ true
  pub in_two : (j : ℕ) → two j ≡ true → own j ≡ true
  pub disjoint : (j : ℕ) → one j ≡ true → two j ≡ true → ⊥
  pub left_tree : IsTree view map one lo up.sep_key levels n
  pub right_tree : IsTree view map two up.sep_key hi levels up.right

pub two_trees :
    (view : View) (map : Map) (own : ℕ → Bool) (lo hi levels n : ℕ) (split : Option Split)
    (up : Split)
    → split ≡ some up
    → Below view map own lo hi levels n split
    → Parts view map own lo hi levels n up
two_trees view map own lo hi levels n _ up e (whole tree) = absurd (cc e)
two_trees view map own lo hi levels n _ up e
      (halves one two up' low high small in_one in_two disjoint left right) =
    let same : up' ≡ up = cc e in
    subst (Parts view map own lo hi levels n) same (record {
      one = one;
      two = two;
      low = low;
      high = high;
      small = small;
      in_one = in_one;
      in_two = in_two;
      disjoint = disjoint;
      left_tree = left;
      right_tree = right;
    })

pub absorb_kept :
    {S : Type 0} (store : PageStore S) (persist : S → ℕ → Outcome S) (s : S) (n : ℕ) (q : Page)
    (ci : ℕ) (split : Option Split) (inserted : Bool)
    → split ≡ none
    → absorb store persist s n q ci (record { split = split; inserted = inserted })
      ≡ ok (s, record { split = split; inserted = inserted })
unfolding absorb
absorb_kept store persist s n q ci none inserted e = refl
absorb_kept store persist s n q ci (some up) inserted e = absurd (cc e)

pub absorbed_room :
    {S : Type 0} (store : PageStore S) (persist : S → ℕ → Outcome S) (s t : S) (n : ℕ) (q : Page)
    (ci : ℕ) (below : Inserted) (up : Split)
    → below.split ≡ some up
    → internal_is_full q ≡ false
    → store.write_page s n (insert_child_at q ci up.sep_key up.right) ≡ ok t
    → absorb store persist s n q ci below
      ≡ ok (t, record { split = none; inserted = below.inserted })
unfolding absorb
absorbed_room store persist s t n q ci below up e f w = rw (absorb, e, f) (goes_on _ w refl)

pub absorbed_full :
    {S : Type 0} (store : PageStore S) (persist : S → ℕ → Outcome S) (s : S) (n : ℕ) (q : Page)
    (ci : ℕ) (below : Inserted) (up : Split) (t1 t2 t3 : S) (rid : ℕ)
    → below.split ≡ some up
    → internal_is_full q ≡ true
    → store.allocate_page s ≡ ok (t1, rid)
    → let parts = split_internal q rid in
      let r = route parts.0 parts.1 parts.2 up in
      store.write_page t1 n r.0 ≡ ok t2
      → store.write_page t2 rid r.1 ≡ ok t3
      → absorb store persist s n q ci below
        ≡ ok (
          t3,
          record {
            split = some (record { sep_key = parts.2; right = rid });
            inserted = below.inserted;
          },
        )
unfolding absorb
absorbed_full store persist s n q ci below up t1 t2 t3 rid e f w1 w2 w3 =
    rw (absorb, e, f) (goes_on _ w1 (goes_on _ w2 (goes_on _ w3 refl)))
