-- ===== src/Btree/Pieces.antt =====
-- The trees below a node as a sequence, and the nodes that hold a run of it.
use labdb.Prelude.{
  ℕ, zero, suc, ◌+◌, ◌-◌, ◌≤◌, ◌<◌, ◌^◌, ◌≡◌, ◌≢◌, inl, inr, refl, arith, ap, sym, subst, ◌∙◌, Bool,
  true, false, ◌||◌, some, if◌then◌else◌, ◌==◌, leb, Bool-cases, ==→eq,
}
use labdb.Page.{Page, slot_count, id}
use labdb.PageStore.{View}
use labdb.Btree.{internal_max_keys, key_at, child_at}
use labdb.Btree.Tree.{is_leaf}
use labdb.Btree.Shape.{
  Map, IsStrict, IsStrict-IsSorted, IsTree, IsTree-congr, node, low_of, high_of,
}

-- The range of the tree `i` among `count` separators.
abbrev pub low_key : (ℕ → ℕ) → ℕ → ℕ → ℕ
low_key keys lo i = if i == 0 then lo else keys (i - 1)

abbrev pub high_key : (ℕ → ℕ) → ℕ → ℕ → ℕ → ℕ
high_key keys count hi i = if i == count then hi else keys i

-- Separators and the trees between them, each in pages of its own.
pub record Pieces (view : View) (map : Map) (own : ℕ → Bool) (n lo hi levels count : ℕ)
    (keys ids : ℕ → ℕ) (part : ℕ → ℕ → Bool) : Type 0 where
  pub strict : IsStrict keys count
  pub low : (i : ℕ) → i < count → lo ≤ keys i
  pub high : (i : ℕ) → i < count → keys i < hi
  pub small : (i : ℕ) → i ≤ count → ids i < 2 ^ 32
  pub owns : (i j : ℕ) → i ≤ count → part i j ≡ true → own j ≡ true
  pub others : (i j : ℕ) → i ≤ count → part i j ≡ true → j ≢ n
  pub apart : (i i' j : ℕ) → i ≤ count → i' ≤ count → part i j ≡ true → part i' j ≡ true → i ≡ i'
  pub sub :
      (i : ℕ)
      → i ≤ count
      → IsTree view map (part i) (low_key keys lo i) (high_key keys count hi i) levels (ids i)

pub IsTree-cast :
    (view : View) (map : Map) (own : ℕ → Bool) (lo lo' hi hi' levels n n' : ℕ)
    → lo ≡ lo'
    → hi ≡ hi'
    → n ≡ n'
    → IsTree view map own lo hi levels n
    → IsTree view map own lo' hi' levels n'
IsTree-cast view map own lo lo' hi hi' levels n n' e f g t =
    subst (λ a. IsTree view map own a hi' levels n') e
      (subst (λ b. IsTree view map own lo b levels n') f
        (subst (λ c. IsTree view map own lo hi levels c) g t))

-- A page with `m` of the separators, from `from` on, and the trees around them.
pub record Run (p : Page) (keys ids : ℕ → ℕ) (from m : ℕ) : Type 0 where
  pub node : is_leaf p ≡ false
  pub count : slot_count p ≡ m
  pub fits : m ≤ internal_max_keys
  pub key : (i : ℕ) → i < m → key_at p i ≡ keys (from + i)
  pub child : (i : ℕ) → i ≤ m → child_at p i ≡ ids (from + i)

module _ (view : View) (map : Map) (own0 : ℕ → Bool) (n0 lo hi levels count : ℕ) (keys ids : ℕ → ℕ)
    (part : ℕ → ℕ → Bool) (pieces : Pieces view map own0 n0 lo hi levels count keys ids part) where
  -- The same in another view with the same pages in it.
  pub Pieces-congr :
      (view' : View)
      → ((i j : ℕ) → i ≤ count → part i j ≡ true → view' j ≡ view j)
      → Pieces view' map own0 n0 lo hi levels count keys ids part
  Pieces-congr view' same = record {
    strict = pieces.strict;
    low = pieces.low;
    high = pieces.high;
    small = pieces.small;
    owns = pieces.owns;
    others = pieces.others;
    apart = pieces.apart;
    sub = λ i u.
        IsTree-congr view view' map map (part i) (low_key keys lo i) (high_key keys count hi i)
          levels (ids i) (λ j e. same i j u e) (λ k l b. refl) (pieces.sub i u);
  }

  low_key-le : (i j : ℕ) → i ≤ j → j < count → low_key keys lo i ≤ keys j
  low_key-le i j l u = elim (Bool-cases (i == 0)) [
    | inl e ↦ rw e (pieces.low j u)
    | inr e ↦ rw e (IsStrict-IsSorted keys count pieces.strict (i - 1) j (ground arith) u)
  ]

  high_key-lt : (i j : ℕ) → i < j → j ≤ count → keys i < high_key keys count hi j
  high_key-lt i j l u = elim (Bool-cases (j == count)) [
    | inl s ↦ rw s (pieces.high i (omega arith))
    | inr s ↦ rw s (pieces.strict i j l (ground arith))
  ]

  -- Such a page is the root of a tree, where the keys before `hi` lie below the run's upper end.
  pub gather :
      (p : Page) (n from m : ℕ) (own : ℕ → Bool)
      → view n ≡ some p
      → id p ≡ n
      → own n ≡ true
      → ((i j : ℕ) → from ≤ i → i ≤ from + m → part i j ≡ true → (own j ≡ true) × (j ≢ n))
      → from + m ≤ count
      → Run p keys ids from m
      → IsTree view map own
          (low_key keys lo from)
          (high_key keys count hi (from + m))
          (suc levels)
          n
  gather p n from m own at self mine inside fits run =
      let c = run.count in
      let lo' = low_key keys lo from in
      let hi' = high_key keys count hi (from + m) in
      node own lo' hi' levels n p (λ i. part (from + i)) at mine
        (record {
          node = run.node;
          self = self;
          fits = omega (arith, c, run.fits);
          strict = λ i j l u. omega (
            arith,
            run.key i (omega (arith, c)),
            run.key j (omega (arith, c)),
            pieces.strict (from + i) (from + j) (omega arith) (omega (arith, c)),
          );
          low = λ i u. omega (
            arith,
            run.key i (omega (arith, c)),
            low_key-le from (from + i) (omega arith) (omega (arith, c)),
          );
          high = λ i u. omega (
            arith,
            run.key i (omega (arith, c)),
            high_key-lt (from + i) (from + m) (omega (arith, c)) fits,
          );
          ids = λ i u.
              omega
                (arith, run.child i (omega (arith, c)), pieces.small (from + i) (omega (arith, c)));
        })
        (λ i j u e. inside (from + i) j (omega arith) (omega (arith, c)) e)
        (λ i i' j u u' e e'.
          omega (
            arith,
            pieces.apart (from + i) (from + i') j (omega (arith, c)) (omega (arith, c)) e e',
          ))
        (λ i u.
          IsTree-cast view map (part (from + i)) (low_key keys lo (from + i)) (low_of p lo' i)
            (high_key keys count hi (from + i)) (high_of p hi' i) levels (ids (from + i))
            (child_at p i)
            (elim (Bool-cases (i == 0)) [
              | inl e ↦ rw e (ap (low_key keys lo) {x = from + i} {y = from} (ground arith))
              | inr e ↦
                  let some_before : (from + i == 0) ≡ false = ground arith in
                  rw (e, some_before)
                    (ap keys (ground arith) ∙ sym (run.key (i - 1) (ground (arith, c))))
            ])
            (elim (Bool-cases (i == m)) [
              | inl e ↦
                  let same : i ≡ m = ==→eq i m e in
                  rw (c, e) (ap (λ x. high_key keys count hi (from + x)) same)
              | inr e ↦
                  let less : i < m = ground (arith, c) in
                  let some_after : (from + i == count) ≡ false = ground arith in
                  rw (c, e, some_after) (sym (run.key i less))
            ])
            (sym (run.child i (omega (arith, c)))) (pieces.sub (from + i) (omega (arith, c))))

-- The pages of the trees from `from` to `from + m`.
unfoldable pub union : (ℕ → ℕ → Bool) → ℕ → ℕ → ℕ → Bool
union part from zero j = part from j
union part from (suc m) j = union part from m j || part (from + m + 1) j

pub union-part :
    (part : ℕ → ℕ → Bool) (from m i j : ℕ)
    → from ≤ i
    → i ≤ from + m
    → part i j ≡ true
    → union part from m j ≡ true
unfolding union
union-part part from zero i j l u e = ap (λ x. part x j) (omega arith) ∙ e
union-part part from (suc m) i j l u e = elim (Bool-cases (leb i (from + m))) [
  | inl s ↦ rw (union-part part from m i j l (ground arith) e) refl
  | inr s ↦
      let last : part (from + m + 1) j ≡ true = ap (λ x. part x j) (ground arith) ∙ e in
      elim (Bool-cases (union part from m j)) [ inl t ↦ rw t refl | inr t ↦ rw (t, last) refl ]
]

no-true : (a b : Bool) → a ≡ false → b ≡ false → (a || b) ≢ true
no-true true b e f g = cc
no-true false true e f g = cc
no-true false false e f g = cc

pub union-inverse :
    (part : ℕ → ℕ → Bool) (from m j : ℕ)
    → union part from m j ≡ true
    → (i : ℕ) × (from ≤ i) × (i ≤ from + m) × (part i j ≡ true)
unfolding union
union-inverse part from zero j e = (from, omega arith, omega arith, e)
union-inverse part from (suc m) j e = elim (Bool-cases (union part from m j)) [
  | inl t ↦ let (i, a, b, f) = union-inverse part from m j t in (i, a, omega arith, f)
  | inr t ↦
      let last : part (from + m + 1) j ≡ true = elim (Bool-cases (part (from + m + 1) j)) [
        | inl s ↦ s
        | inr s ↦ absurd (no-true (union part from m j) (part (from + m + 1) j) t s e)
      ] in
      (from + m + 1, omega arith, omega arith, last)
]
