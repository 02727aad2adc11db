-- ===== src/Btree/Grown.antt =====
-- What an insertion below a node leaves: the pages, the tree or its two halves, and what it reports.
use labdb.Prelude.{
  ℕ, ◌+◌, ◌≤◌, ◌<◌, ◌^◌, ◌≡◌, ◌≢◌, ◌⊎◌, inl, inr, refl, ap, sym, subst, ◌∙◌, Bool, true, false,
  ◌||◌, Option, none, some, if◌then◌else◌, ◌==◌, Bool-cases, Option-cases, ==_refl, ==_ne, ==→eq,
  ==→ne, Outcome, ok,
}
use labdb.Page.{Page}
use labdb.PageStore.{View, put_page}
use labdb.Btree.Tree.{Split, Inserted}
use labdb.Btree.Shape.{Map, IsTree, Owned}
use labdb.Btree.LeafInsert.{Assigns}

-- The map behind an insertion: an entry that is there is kept unless it is overwritten.
unfoldable pub put_key : Bool → Map → ℕ → ℕ → Map
put_key overwrite map k v j =
    if k == j
    then elim (map k) [ none ↦ some v | some old ↦ some (if overwrite then v else old) ]
    else map j

-- Whether the key is new.
unfoldable pub is_new : Map → ℕ → Bool
is_new map k = elim (map k) [ none ↦ true | some v ↦ false ]

pub is_new-some : (map : Map) (k v : ℕ) → map k ≡ some v → is_new map k ≡ false
unfolding is_new
is_new-some map k v h = rw (is_new, h) refl

pub is_new-none : (map : Map) (k : ℕ) → map k ≡ none → is_new map k ≡ true
unfolding is_new
is_new-none map k h = rw (is_new, h) refl

pub put_key_other :
    (overwrite : Bool) (map : Map) (k v j : ℕ) → k ≢ j → put_key overwrite map k v j ≡ map j
unfolding put_key
put_key_other overwrite map k v j h = rw (==_ne k j h) refl

pub put_key_new :
    (overwrite : Bool) (map : Map) (k v : ℕ)
    → map k ≡ none
    → Assigns map (put_key overwrite map k v) k v
unfolding put_key
put_key_new overwrite map k v h = record {
  at = rw (==_refl k, h) refl;
  other = λ j ne. put_key_other overwrite map k v j ne;
}

pub put_key_over :
    (map : Map) (k v old : ℕ) → map k ≡ some old → Assigns map (put_key true map k v) k v
unfolding put_key
put_key_over map k v old h = record {
  at = rw (==_refl k, h) refl;
  other = λ j ne. put_key_other true map k v j ne;
}

pub put_key-true :
    (map : Map) (k v j : ℕ) → put_key true map k v j ≡ (if k == j then some v else map j)
unfolding put_key
put_key-true map k v j = elim (Option-cases (map k)) [
  | inl e ↦ rw e refl
  | inr (old, e) ↦ rw e refl
]

pub put_key_kept : (map : Map) (k v old j : ℕ) → map k ≡ some old → put_key false map k v j ≡ map j
unfolding put_key
put_key_kept map k v old j h = elim (Bool-cases (k == j)) [
  | inl e ↦ rw (e, h) (sym (ap map (sym (==→eq k j e)) ∙ h))
  | inr e ↦ rw e refl
]

pub put_page_here : (view : View) (n : ℕ) (p : Page) → put_page view n p n ≡ some p
put_page_here view n p = rw (==_refl n) refl

pub put_page_other : (view : View) (n j : ℕ) (p : Page) → n ≢ j → put_page view n p j ≡ view j
put_page_other view n j p h = rw (==_ne n j h) refl

-- The pages of the tree behind an insertion, and that no other page changed.
pub record Grows (view : View) (own : ℕ → Bool) (view' : View) (own' : ℕ → Bool) : Type 0 where
  pub owned : Owned view' own'
  pub old : (j : ℕ) → own' j ≡ true → (own j ≡ true) ⊎ (view j ≡ none)
  pub more : (j : ℕ) → own j ≡ true → own' j ≡ true
  pub kept : (j : ℕ) (q : Page) → own j ≡ false → view j ≡ some q → view' j ≡ some q

-- A tree, or the two trees of a split.
pub data Below (view : View) (map : Map) (own : ℕ → Bool) (lo hi levels n : ℕ)
    : Option Split → Type 0 where
  whole : IsTree view map own lo hi levels n → Below view map own lo hi levels n none
  halves :
      (one two : ℕ → Bool) (up : Split)
      → lo < up.sep_key
      → up.sep_key < hi
      → up.right < 2 ^ 32
      → ((j : ℕ) → one j ≡ true → own j ≡ true)
      → ((j : ℕ) → two j ≡ true → own j ≡ true)
      → ((j : ℕ) → one j ≡ true → two j ≡ true → ⊥)
      → IsTree view map one lo up.sep_key levels n
      → IsTree view map two up.sep_key hi levels up.right
      → Below view map own lo hi levels n (some up)

-- The insertion ends, and leaves such pages and at least as much room as it says.
pub record Done {S : Type 0} (Shows : S → View → ℕ → Type 0) (view : View) (own : ℕ → Bool)
    (map : Map) (lo hi levels n before : ℕ) (new : Bool) (call : Outcome (S × Inserted))
    : Type 0 where
  pub state : S
  pub result : Inserted
  pub view' : View
  pub own' : ℕ → Bool
  pub left : ℕ
  pub returns : call ≡ ok (state, result)
  pub shows : Shows state view' left
  pub room : before ≤ left + levels
  pub grows : Grows view own view' own'
  pub below : Below view' map own' lo hi levels n result.split
  pub flag : result.inserted ≡ new

-- A page of the tree replaced.
pub put_page-Grows :
    (view : View) (own : ℕ → Bool) (n : ℕ) (p : Page)
    → own n ≡ true
    → Owned view own
    → Grows view own (put_page view n p) own
put_page-Grows view own n p mine owned = record {
  owned = λ j e. elim (Bool-cases (n == j)) [
    | inl s ↦ (p, ap (λ m. put_page view n p m) (sym (==→eq n j s)) ∙ put_page_here view n p)
    | inr s ↦ let (q, at) = owned j e in (q, put_page_other view n j p (==→ne n j s) ∙ at)
  ];
  old = λ j e. inl e;
  more = λ j e. e;
  kept = λ j q e at. put_page_other view n j p (λ same. absurd (cc (mine, e, ap own same))) ∙ at;
}

-- The pages of the tree and one more.
unfoldable pub with_page : (ℕ → Bool) → ℕ → ℕ → Bool
with_page own n j = own j || n == j

with_page-eq-false :
    (own : ℕ → Bool) (n j : ℕ) → own j ≡ false → (n == j) ≡ false → with_page own n j ≡ false
unfolding with_page
with_page-eq-false own n j h e = rw (h, e) refl

pub with_page_self : (own : ℕ → Bool) (n : ℕ) → with_page own n n ≡ true
unfolding with_page
with_page_self own n =
    let e : (n == n) ≡ true = ==_refl n in
    elim (Bool-cases (own n)) [ inl t ↦ rw t refl | inr t ↦ rw (t, e) refl ]

with_page-inverse : (own : ℕ → Bool) (n j : ℕ) → with_page own n j ≡ true → (own j ≡ true) ⊎ (n ≡ j)
with_page-inverse own n j e = elim (Bool-cases (own j)) [
  | inl t ↦ inl t
  | inr t ↦ elim (Bool-cases (n == j)) [
    | inl s ↦ inr (==→eq n j s)
    | inr s ↦ absurd (cc (e, with_page-eq-false own n j t s))
  ]
]

-- A new page alone.
pub new-Grows :
    (view : View) (own : ℕ → Bool) (rid : ℕ) (z p : Page)
    → view rid ≡ none
    → Owned view own
    → Grows view own (put_page (put_page view rid z) rid p) (with_page own rid)
unfolding with_page
new-Grows view own rid z p free owned =
    let view1 = put_page view rid z in
    let apart : (j : ℕ) (x : Page) → view j ≡ some x → rid ≢ j =
      λ j x at same. absurd (cc (free, at, ap view same)) in
    record {
      owned = λ j e. elim (with_page-inverse own rid j e) [
        | inl t ↦
            let (x, at) = owned j t in
            (
              x,
              put_page_other view1 rid j p (apart j x at)
                  ∙ put_page_other view rid j z (apart j x at)
                  ∙ at,
            )
        | inr s ↦ (p, ap (λ m. put_page view1 rid p m) (sym s) ∙ put_page_here view1 rid p)
      ];
      old = λ j e. elim (with_page-inverse own rid j e) [
        | inl t ↦ inl t
        | inr s ↦ inr (ap view (sym s) ∙ free)
      ];
      more = λ j e. rw (with_page, e) refl;
      kept = λ j x e at.
          put_page_other view1 rid j p (apart j x at)
          ∙ put_page_other view rid j z (apart j x at)
          ∙ at;
    }

-- A page of the tree replaced, and a new page.
pub split-Grows :
    (view : View) (own : ℕ → Bool) (n rid : ℕ) (z p q : Page)
    → own n ≡ true
    → view rid ≡ none
    → Owned view own
    → Grows view own (put_page (put_page (put_page view rid z) n p) rid q) (with_page own rid)
unfolding with_page
split-Grows view own n rid z p q mine free owned =
    let view1 = put_page view rid z in
    let view2 = put_page view1 n p in
    let apart : (j : ℕ) → own j ≡ true → rid ≢ j =
      λ j e same. let (x, at) = owned j e in absurd (cc (free, at, ap view same)) in
    record {
      owned = λ j e. elim (Bool-cases (rid == j)) [
        | inl s ↦
            (q, ap (λ m. put_page view2 rid q m) (sym (==→eq rid j s)) ∙ put_page_here view2 rid q)
        | inr s ↦ elim (Bool-cases (n == j)) [
          | inl s' ↦ (p, rw (s, s') refl)
          | inr s' ↦
              let old : own j ≡ true = elim (Bool-cases (own j)) [
                | inl t ↦ t
                | inr t ↦ absurd (cc (e, with_page-eq-false own rid j t s))
              ] in
              let (x, at) = owned j old in (x, rw (s, s') at)
        ]
      ];
      old = λ j e. elim (Bool-cases (own j)) [
        | inl t ↦ inl t
        | inr t ↦ elim (Bool-cases (rid == j)) [
          | inl s ↦ inr (ap view (sym (==→eq rid j s)) ∙ free)
          | inr s ↦ absurd (cc (e, with_page-eq-false own rid j t s))
        ]
      ];
      more = λ j e. rw (with_page, e) refl;
      kept = λ j x e at.
          let ne : rid ≢ j = λ same. absurd (cc (free, at, ap view same)) in
          let ne' : n ≢ j = λ same. absurd (cc (mine, e, ap own same)) in
          put_page_other view2 rid j q ne
          ∙ put_page_other view1 n j p ne'
          ∙ put_page_other view rid j z ne
          ∙ at;
    }

-- The pages of either.
unfoldable pub joined : (ℕ → Bool) → (ℕ → Bool) → ℕ → Bool
joined own own' j = own j || own' j

pub joined-left : (own own' : ℕ → Bool) (j : ℕ) → own j ≡ true → joined own own' j ≡ true
unfolding joined
joined-left own own' j e = rw (joined, e) refl

pub joined-right : (own own' : ℕ → Bool) (j : ℕ) → own' j ≡ true → joined own own' j ≡ true
unfolding joined
joined-right own own' j e = elim (Bool-cases (own j)) [
  | inl t ↦ rw (joined, t) refl
  | inr t ↦ rw (joined, t) e
]

pub joined-inverse :
    (own own' : ℕ → Bool) (j : ℕ) → joined own own' j ≡ true → (own j ≡ true) ⊎ (own' j ≡ true)
unfolding joined
joined-inverse own own' j e = elim (Bool-cases (own j)) [
  | inl t ↦ inl t
  | inr t ↦ inr (subst (λ b. (b || own' j) ≡ true) t e)
]

-- A part of a tree's pages changed.
pub joined-Grows :
    (view view' : View) (own part own' : ℕ → Bool)
    → Owned view own
    → ((j : ℕ) → part j ≡ true → own j ≡ true)
    → Grows view part view' own'
    → Grows view own view' (joined own own')
joined-Grows view view' own part own' owned within g = record {
  owned = λ j e. elim (joined-inverse own own' j e) [
    | inr t ↦ g.owned j t
    | inl t ↦ elim (Bool-cases (part j)) [
      | inl s ↦ g.owned j (g.more j s)
      | inr s ↦ let (x, at) = owned j t in (x, g.kept j x s at)
    ]
  ];
  old = λ j e. elim (joined-inverse own own' j e) [
    | inl t ↦ inl t
    | inr t ↦ elim (g.old j t) [ inl s ↦ inl (within j s) | inr s ↦ inr s ]
  ];
  more = λ j e. joined-left own own' j e;
  kept = λ j x e at.
      g.kept j x (elim (Bool-cases (part j)) [ inl s ↦ absurd (cc (e, within j s)) | inr s ↦ s ])
        at;
}

-- One change of a tree's pages behind another.
pub Grows-trans :
    (view view' view'' : View) (own own' own'' : ℕ → Bool)
    → Owned view own
    → Grows view own view' own'
    → Grows view' own' view'' own''
    → Grows view own view'' own''
Grows-trans view view' view'' own own' own'' owned f g = record {
  owned = g.owned;
  old = λ j e. elim (g.old j e) [
    | inl t ↦ f.old j t
    | inr t ↦ elim (Option-cases (view j)) [
      | inl none_here ↦ inr none_here
      | inr (x, at) ↦ elim (Bool-cases (own j)) [
        | inl s ↦ inl s
        | inr s ↦ absurd (cc (t, f.kept j x s at))
      ]
    ]
  ];
  more = λ j e. g.more j (f.more j e);
  kept = λ j x e at.
      g.kept j x
        (elim (Bool-cases (own' j)) [
          | inl s ↦ elim (f.old j s) [ inl t ↦ absurd (cc (e, t)) | inr t ↦ absurd (cc (t, at)) ]
          | inr s ↦ s
        ])
        (f.kept j x e at);
}
