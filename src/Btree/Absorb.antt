-- ===== src/Btree/Absorb.antt =====
-- A node behind the insertion into one of its children.
use labdb.Prelude.{
  ℕ, suc, ◌+◌, ◌-◌, ◌≤◌, ◌<◌, ◌^◌, ◌≡◌, ◌≢◌, inl, inr, refl, arith, ap, sym, subst, ◌∙◌, Bool, true,
  false, none, some, ◌==◌, Bool-cases, Option-cases, Outcome,
}
use labdb.Common.{zeroes}
use labdb.Page.{Page, slot_count, set_id, id}
use labdb.PageStore.{PageStore, PageLaws, View, SamePage, put_page}
use labdb.Btree.{internal_max_keys, internal_is_full, key_at, child_at, insert_child_at}
use labdb.Btree.Tree.{Split, Inserted, split_internal, route, absorb}
use labdb.Btree.Shape.{
  Map, IsNode, IsTree, Owned, low_of, high_of, same-count, same-key, same-child,
}
use labdb.Btree.Pieces.{high_key, Pieces, IsTree-cast, Pieces-congr, Run, gather}
use labdb.Btree.Grown.{
  put_page_here, put_page_other, Grows, Below, whole, Done, put_page-Grows, with_page, split-Grows,
  joined, joined-left, joined-Grows, Grows-trans,
}
use labdb.Btree.Descend.{
  replaced, keys_with, ids_with, parts_with, rest, new-others, new-apart, node-kept,
  Pieces-replaced,
}
use labdb.Btree.SplitChild.{below_sep, above_sep, sep-high, Pieces-split}
use labdb.Btree.Runs.{Run-insert_child_at}
use labdb.Btree.NodeSplit.{Cut, id-insert, route-Cut}
use labdb.Btree.Halved.{whole_tree, Parts, two_trees, absorb_kept, absorbed_room, absorbed_full}
use labdb.Btree.Separate.{at2, at3, Below-cut}

module _ {S : Type 0} (store : PageStore S) (persist : S → ℕ → Outcome S)
    (Shows : S → View → ℕ → Type 0) (laws : PageLaws store Shows) (view : View) (p q : Page)
    (n lo hi levels ci k before : ℕ) (own : ℕ → Bool) (part : ℕ → ℕ → Bool) (map map' : Map)
    (new : Bool) (call : Outcome (S × Inserted)) (at : view n ≡ some p) (mine : own n ≡ true)
    (owned : Owned view own) (hp : IsNode p n lo hi) (same : SamePage p q) (h : IsNode q n lo hi)
    (chosen : ci ≤ slot_count q)
    (inside : (i j : ℕ) → i ≤ slot_count q → part i j ≡ true → (own j ≡ true) × (j ≢ n))
    (apart : (i i' j : ℕ)
      → i ≤ slot_count q
      → i' ≤ slot_count q
      → part i j ≡ true
      → part i' j ≡ true
      → i ≡ i')
    (sub : (i : ℕ)
      → i ≤ slot_count q
      → IsTree view map (part i) (low_of q lo i) (high_of q hi i) levels (child_at q i))
    (l : low_of q lo ci ≤ k) (u : k < high_of q hi ci) (other : (j : ℕ) → k ≢ j → map' j ≡ map j)
    (top : hi ≤ 2 ^ 64) (enough : suc levels ≤ before)
    (d : Done Shows view
      (part ci)
      map'
      (low_of q lo ci)
      (high_of q hi ci)
      levels
      (child_at q ci)
      before
      new
      call) where
  view1 : View
  view1 = d.view'

  own1 : ℕ → Bool
  own1 = joined own d.own'

  grows1 : Grows view own view1 own1
  unfolding view1 own1
  grows1 =
      joined-Grows view view1 own (part ci) d.own' owned (λ j e. (inside ci j chosen e).0) d.grows

  at1 : view1 n ≡ some p
  unfolding view1
  at1 =
      node-kept view d.view' map map' p q n lo hi levels ci k own d.own' part at h chosen owned
        inside apart sub l u d.grows other

  mine1 : own1 n ≡ true
  unfolding own1
  mine1 = joined-left own d.own' n mine

  -- The child took the entry: nothing changes here.
  absorb-none :
      d.result.split ≡ none
      → Done Shows view own map' lo hi
          (suc levels)
          n
          before
          new
          (absorb store persist d.state n q ci d.result)
  unfolding absorb view1 own1
  absorb-none e =
      let count = slot_count q in
      let pieces =
        Pieces-replaced view d.view' map map' p q n lo hi levels ci k own d.own' part at h chosen
          owned inside apart sub l u d.grows other
          (whole_tree view1 map' d.own' (low_of q lo ci) (high_of q hi ci) levels (child_at q ci)
            d.result.split e d.below) in
      let run : Run p (key_at q) (child_at q) 0 count = record {
        node = hp.node;
        count = sym (same-count p q same);
        fits = h.fits;
        key =
            λ i b. sym (same-key p q same i (omega (arith, h.fits))) ∙ ap (key_at q) (omega arith);
        child = λ i b.
            sym (same-child p q same i (omega (arith, h.fits))) ∙ ap (child_at q) (omega arith);
      } in
      let tree =
        gather view1 map' own1 n lo hi levels count (key_at q) (child_at q)
          (replaced part ci d.own') pieces p n 0 count own1 at1 hp.self mine1
          (λ i j a b c. (pieces.owns i j (omega arith) c, pieces.others i j (omega arith) c))
          (omega arith) run in
      record {
        state = d.state;
        result = d.result;
        view' = view1;
        own' = own1;
        left = d.left;
        returns = absorb_kept store persist d.state n q ci d.result.split d.result.inserted e;
        shows = d.shows;
        room = omega (arith, d.room);
        grows = grows1;
        below = subst (Below view1 map' own1 lo hi (suc levels) n) (sym e) (
            whole (
              IsTree-cast view1 map' own1 lo lo (high_key (key_at q) count hi (0 + count)) hi
                (suc levels) n n refl
                (let e' : (0 + count == count) ≡ true = ground arith in rw e' refl) refl tree));
        flag = d.flag;
      }

  module _ (up : Split) (e : d.result.split ≡ some up) where
    parts : Parts d.view' map' d.own' (low_of q lo ci) (high_of q hi ci) levels (child_at q ci) up
    parts =
        two_trees d.view' map' d.own' (low_of q lo ci) (high_of q hi ci) levels (child_at q ci)
          d.result.split up e d.below

    keys : ℕ → ℕ
    keys = keys_with (key_at q) ci up.sep_key

    ids : ℕ → ℕ
    ids = ids_with (child_at q) ci up.right

    trees : ℕ → ℕ → Bool
    trees = parts_with part ci parts.one parts.two

    pieces : Pieces view1 map' own1 n lo hi levels (slot_count q + 1) keys ids trees
    unfolding view1 own1 keys ids trees
    pieces =
        Pieces-split d.view' map' q n lo hi levels ci up.sep_key up.right own d.own' parts.one
          parts.two part h chosen inside apart
          (rest view d.view' map map' p q n lo hi levels ci k own d.own' part at h chosen owned
            inside apart sub l u d.grows other)
          (new-others view d.view' map map' p q n lo hi levels ci k own d.own' part at h chosen
            owned inside apart sub l u d.grows other)
          (new-apart view d.view' map map' p q n lo hi levels ci k own d.own' part at h chosen owned
            inside apart sub l u d.grows other)
          parts.low parts.high parts.small parts.in_one parts.in_two parts.disjoint parts.left_tree
          parts.right_tree

    sep_small : up.sep_key < 2 ^ 64
    sep_small = omega (arith, sep-high q n lo hi ci up.sep_key h chosen parts.high, top)

    key_small : (i : ℕ) → i < slot_count q → key_at q i < 2 ^ 64
    key_small i b = omega (arith, h.high i b, top)

    -- The node has room for the separator.
    absorb-room :
        internal_is_full q ≡ false
        → Done Shows view own map' lo hi
            (suc levels)
            n
            before
            new
            (absorb store persist d.state n q ci d.result)
    unfolding absorb keys ids trees view1
    absorb-room f =
        let count = slot_count q in
        let page = insert_child_at q ci up.sep_key up.right in
        let whole_run : Run q (key_at q) (child_at q) 0 count = record {
          node = h.node;
          count = refl;
          fits = h.fits;
          key = λ i b. ap (key_at q) (omega arith);
          child = λ i b. ap (child_at q) (omega arith);
        } in
        let room : count < internal_max_keys = ground arith in
        let big : (i : ℕ) → i < count → key_at q (0 + i) < 2 ^ 64 =
          λ i b. key_small (0 + i) (omega arith) in
        let small : (i : ℕ) → i ≤ count → child_at q (0 + i) < 2 ^ 32 =
          λ i b. h.ids (0 + i) (omega arith) in
        let run : Run page keys ids 0 (count + 1) =
          subst
            (λ c.
              Run page (keys_with (key_at q) c up.sep_key) (ids_with (child_at q) c up.right) 0
                (count + 1))
            {x = 0 + ci} {y = ci} (omega arith)
            (Run-insert_child_at q (key_at q) (child_at q) 0 count ci up.sep_key up.right whole_run
              room chosen sep_small parts.small big small) in
        let self : id page ≡ n =
          id-insert q (key_at q) (child_at q) 0 count ci up.sep_key up.right whole_run room chosen
            sep_small parts.small big small
          ∙ h.self in
        let (t, w, shows) = laws.write d.state view1 d.left n p page d.shows at1 self in
        let view2 = put_page view1 n page in
        let pieces2 =
          Pieces-congr view1 map' own1 n lo hi levels (count + 1) keys ids trees pieces view2
            (λ i j b c.
              put_page_other view1 n j page (λ same'. pieces.others i j b c (sym same'))) in
        let tree =
          gather view2 map' own1 n lo hi levels (count + 1) keys ids trees pieces2 page n 0
            (count + 1) own1 (put_page_here view1 n page) self mine1
            (λ i j a b c. (pieces2.owns i j (omega arith) c, pieces2.others i j (omega arith) c))
            (omega arith) run in
        record {
          state = t;
          result = record { split = none; inserted = d.result.inserted };
          view' = view2;
          own' = own1;
          left = d.left;
          returns = absorbed_room store persist d.state t n q ci d.result up e f w;
          shows = shows;
          room = omega (arith, d.room);
          grows =
              Grows-trans view view1 view2 own own1 own1 owned grows1
                (put_page-Grows view1 own1 n page mine1 grows1.owned);
          below = whole (
              IsTree-cast view2 map' own1 lo lo (high_key keys (count + 1) hi (0 + (count + 1))) hi
                (suc levels) n n refl
                (let e' : (0 + (count + 1) == count + 1) ≡ true = ground arith in rw e' refl) refl
                tree);
          flag = d.flag;
        }

    -- A full node is split too.
    module _ (full : slot_count q ≡ internal_max_keys) (t1 : S) (rid : ℕ) (fresh : view1 rid ≡ none)
        (named : rid < 2 ^ 32) where
      median : ℕ
      median = (split_internal q rid).2

      routed : Page × Page
      routed = route (split_internal q rid).0 (split_internal q rid).1 (split_internal q rid).2 up

      cut : Cut routed.0 routed.1 keys ids 340 n rid median
      unfolding routed median keys ids
      cut =
          route-Cut q n lo hi rid ci h full named top up chosen
            (below_sep q n lo hi ci up.sep_key h chosen parts.low)
            (above_sep q n lo hi ci up.sep_key h chosen parts.high) sep_small parts.small

    -- The node's split, with the pages that the allocation and the writes leave.
    absorb-full :
        slot_count q ≡ internal_max_keys
        → Done Shows view own map' lo hi
            (suc levels)
            n
            before
            new
            (absorb store persist d.state n q ci d.result)
    unfolding absorb view1 routed median
    absorb-full full =
        let f : internal_is_full q ≡ true = ground arith in
        let some_left : d.left ≡ suc (d.left - 1) = omega (arith, d.room) in
        let (t1, rid, w1, fresh, named, shows1) =
          laws.allocate d.state view1 (d.left - 1)
            (subst (Shows d.state view1) some_left d.shows) in
        let c = cut full t1 rid fresh named in
        let r = routed full t1 rid fresh named in
        let m = median full t1 rid fresh named in
        let z = set_id zeroes rid in
        let all =
          subst (λ x. Pieces view1 map' own1 n lo hi levels x keys ids trees) {x = slot_count q + 1}
            {y = 340} (omega (arith, full)) pieces in
        let v2 = put_page view1 rid z in
        let v3 = put_page v2 n r.0 in
        let v4 = put_page v3 rid r.1 in
        let there =
          at2 view1 map' own1 n lo hi levels rid m p r.0 r.1 keys ids trees all c at1 mine1
            grows1.owned fresh named in
        let there' =
          at3 view1 map' own1 n lo hi levels rid m p r.0 r.1 keys ids trees all c at1 mine1
            grows1.owned fresh named in
        let (t2, w2, shows2) = laws.write t1 v2 (d.left - 1) n p r.0 shows1 there c.left_id in
        let (t3, w3, shows3) = laws.write t2 v3 (d.left - 1) rid z r.1 shows2 there' c.right_id in
        let next : Split = record { sep_key = m; right = rid } in
        record {
          state = t3;
          result = record { split = some next; inserted = d.result.inserted };
          view' = v4;
          own' = with_page own1 rid;
          left = d.left - 1;
          returns =
              absorbed_full store persist d.state n q ci d.result up t1 t2 t3 rid e f w1 w2 w3;
          shows = shows3;
          room = omega (arith, d.room);
          grows =
              Grows-trans view view1 v4 own own1 (with_page own1 rid) owned grows1
                (split-Grows view1 own1 n rid z r.0 r.1 mine1 fresh grows1.owned);
          below =
              Below-cut view1 map' own1 n lo hi levels rid m p r.0 r.1 keys ids trees all c at1
                mine1 grows1.owned fresh named;
          flag = d.flag;
        }

    absorb-some :
        Done Shows view own map' lo hi
          (suc levels)
          n
          before
          new
          (absorb store persist d.state n q ci d.result)
    absorb-some = elim (Bool-cases (internal_is_full q)) [
      | inl f ↦ absorb-full (ground (arith, h.fits))
      | inr f ↦ absorb-room f
    ]

  -- A node behind the insertion into its child, on all branches.
  pub absorb-Done :
      Done Shows view own map' lo hi
        (suc levels)
        n
        before
        new
        (absorb store persist d.state n q ci d.result)
  absorb-Done = elim (Option-cases d.result.split) [
    | inl e ↦ absorb-none e
    | inr (up, e) ↦ absorb-some up e
  ]
