-- ===== src/Btree/Shape.antt =====
-- What a well-formed tree in a store of pages is, and when it stays one.
use labdb.Prelude.{
  ℕ, suc, ◌+◌, ◌-◌, ◌*◌, ◌≤◌, ◌<◌, ◌^◌, ◌≡◌, ◌≢◌, inl, inr, refl, arith, ap, sym, ◌∙◌, Bool, true,
  false, Option, none, some, if◌then◌else◌, ◌==◌, Bool-cases, ==→eq,
}
use labdb.Common.{load}
use labdb.Common.Fields.{load-congr}
use labdb.Page.{Page, page_size, slot_count, id}
use labdb.PageStore.{View, SamePage}
use labdb.Btree.{leaf_max_entries, internal_max_keys, base, leaf_key_at, value_at, key_at, child_at}
use labdb.Btree.Bounds.{IsSorted}
use labdb.Btree.Tree.{is_leaf}

abbrev pub Map : Type 0
Map = ℕ → Option ℕ

abbrev pub IsStrict : (ℕ → ℕ) → ℕ → Type 0
IsStrict keys n = (i j : ℕ) → i < j → j < n → keys i < keys j

pub IsStrict-IsSorted : (keys : ℕ → ℕ) (n : ℕ) → IsStrict keys n → IsSorted keys n
IsStrict-IsSorted keys n h i j l u = elim (Bool-cases (i == j)) [
  | inl e ↦ let same : i ≡ j = ==→eq i j e in rw same (omega arith)
  | inr e ↦ omega (arith, h i j (ground arith) u)
]

-- A leaf with the number `n` that holds the part of `map` from `lo` on and before `hi`.
pub record IsLeaf (p : Page) (n lo hi : ℕ) (map : Map) : Type 0 where
  pub leaf : is_leaf p ≡ true
  pub self : id p ≡ n
  pub fits : slot_count p ≤ leaf_max_entries
  pub strict : IsStrict (leaf_key_at p) (slot_count p)
  pub low : (i : ℕ) → i < slot_count p → lo ≤ leaf_key_at p i
  pub high : (i : ℕ) → i < slot_count p → leaf_key_at p i < hi
  pub here : (i : ℕ) → i < slot_count p → map (leaf_key_at p i) ≡ some (value_at p i)
  pub gone :
      (k : ℕ) → lo ≤ k → k < hi → ((i : ℕ) → i < slot_count p → leaf_key_at p i ≢ k) → map k ≡ none

-- An internal node with the number `n` for the keys from `lo` on and before `hi`.
pub record IsNode (p : Page) (n lo hi : ℕ) : Type 0 where
  pub node : is_leaf p ≡ false
  pub self : id p ≡ n
  pub fits : slot_count p ≤ internal_max_keys
  pub strict : IsStrict (key_at p) (slot_count p)
  pub low : (i : ℕ) → i < slot_count p → lo ≤ key_at p i
  pub high : (i : ℕ) → i < slot_count p → key_at p i < hi
  pub ids : (i : ℕ) → i ≤ slot_count p → child_at p i < 2 ^ 32

-- The range of the child `i`: its separators, or the node's own bounds at the ends.
abbrev pub low_of : Page → ℕ → ℕ → ℕ
low_of p lo i = if i == 0 then lo else key_at p (i - 1)

abbrev pub high_of : Page → ℕ → ℕ → ℕ
high_of p hi i = if i == slot_count p then hi else key_at p i

-- A tree of `levels` levels below the page `n`, in the pages of `own`.
pub data IsTree (view : View) (map : Map) : (ℕ → Bool) → ℕ → ℕ → ℕ → ℕ → Type 0 where
  leaf :
      (own : ℕ → Bool) (lo hi n : ℕ) (p : Page)
      → view n ≡ some p
      → own n ≡ true
      → IsLeaf p n lo hi map
      → IsTree view map own lo hi 1 n
  node :
      (own : ℕ → Bool) (lo hi levels n : ℕ) (p : Page) (part : ℕ → ℕ → Bool)
      → view n ≡ some p
      → own n ≡ true
      → IsNode p n lo hi
      → ((i j : ℕ) → i ≤ slot_count p → part i j ≡ true → (own j ≡ true) × (j ≢ n))
      → ((i i' j : ℕ)
          → i ≤ slot_count p
          → i' ≤ slot_count p
          → part i j ≡ true
          → part i' j ≡ true
          → i ≡ i')
      → ((i : ℕ)
          → i ≤ slot_count p
          → IsTree view map (part i) (low_of p lo i) (high_of p hi i) levels (child_at p i))
      → IsTree view map own lo hi (suc levels) n

-- The pages of a tree are there.
abbrev pub Owned : View → (ℕ → Bool) → Type 0
Owned view own = (n : ℕ) → own n ≡ true → (p : Page) × (view n ≡ some p)

-- A node's range covers its children's.
pub low_of-le :
    (p : Page) (n lo hi i : ℕ) → IsNode p n lo hi → i ≤ slot_count p → lo ≤ low_of p lo i
low_of-le p n lo hi i h u = elim (Bool-cases (i == 0)) [
  | inl e ↦ rw e (omega arith)
  | inr e ↦ rw e (h.low (i - 1) (ground arith))
]

pub high_of-le :
    (p : Page) (n lo hi i : ℕ) → IsNode p n lo hi → i ≤ slot_count p → high_of p hi i ≤ hi
high_of-le p n lo hi i h u = elim (Bool-cases (i == slot_count p)) [
  | inl e ↦ rw e (omega arith)
  | inr e ↦ rw e (omega (arith, h.high i (ground arith)))
]

pub IsLeaf-congr :
    (p : Page) (n lo hi : ℕ) (map map' : Map)
    → ((k : ℕ) → lo ≤ k → k < hi → map' k ≡ map k)
    → IsLeaf p n lo hi map
    → IsLeaf p n lo hi map'
IsLeaf-congr p n lo hi map map' same h = record {
  leaf = h.leaf;
  self = h.self;
  fits = h.fits;
  strict = h.strict;
  low = h.low;
  high = h.high;
  here = λ i u. same (leaf_key_at p i) (h.low i u) (h.high i u) ∙ h.here i u;
  gone = λ k l u free. same k l u ∙ h.gone k l u free;
}

-- A tree depends on its own pages, and on the map in its range.
pub IsTree-congr :
    (view view' : View) (map map' : Map) (own : ℕ → Bool) (lo hi levels n : ℕ)
    → ((j : ℕ) → own j ≡ true → view' j ≡ view j)
    → ((k : ℕ) → lo ≤ k → k < hi → map' k ≡ map k)
    → IsTree view map own lo hi levels n
    → IsTree view' map' own lo hi levels n
IsTree-congr view view' map map' _ _ _ _ _ pages same (leaf own lo hi n p at mine h) =
    leaf own lo hi n p (pages n mine ∙ at) mine (IsLeaf-congr p n lo hi map map' same h)
IsTree-congr view view' map map' _ _ _ _ _ pages same
      (node own lo hi levels n p part at mine h inside apart sub) =
    node own lo hi levels n p part (pages n mine ∙ at) mine h inside apart (λ i u.
      IsTree-congr view view' map map' (part i) (low_of p lo i) (high_of p hi i) levels
        (child_at p i) (λ j e. pages j (inside i j u e).0)
        (λ k l u'.
          same k (omega (arith, l, low_of-le p n lo hi i h u))
            (omega (arith, u', high_of-le p n lo hi i h u)))
        (sub i u))

-- A copy of a page is as good as the page.
module _ (p q : Page) (same : SamePage p q) where
  pub same-field : (w o : ℕ) → o + w ≤ page_size → load w q o ≡ load w p o
  same-field w o h = load-congr w q p o (λ i l u. sym (same i (omega arith)))

  pub same-count : slot_count q ≡ slot_count p
  same-count = same-field 2 6 (omega arith)

  same-is_leaf : is_leaf q ≡ is_leaf p
  same-is_leaf = ap (λ (t : ℕ). t == 4) (same-field 2 4 (omega arith))

  same-leaf_key : (i : ℕ) → i < leaf_max_entries → leaf_key_at q i ≡ leaf_key_at p i
  same-leaf_key i u = same-field 8 (base i) (omega arith)

  same-value : (i : ℕ) → i < leaf_max_entries → value_at q i ≡ value_at p i
  same-value i u = same-field 8 (base i + 8) (omega arith)

  pub same-key : (i : ℕ) → i < internal_max_keys → key_at q i ≡ key_at p i
  same-key i u = same-field 8 (20 + i * 8) (omega arith)

  pub same-child : (i : ℕ) → i ≤ internal_max_keys → child_at q i ≡ child_at p i
  same-child i u = same-field 4 (2732 + i * 4) (omega arith)

  pub IsLeaf-same : (n lo hi : ℕ) (map : Map) → IsLeaf p n lo hi map → IsLeaf q n lo hi map
  IsLeaf-same n lo hi map h =
      let key : (i : ℕ) → i < slot_count q → leaf_key_at q i ≡ leaf_key_at p i =
        λ i u. same-leaf_key i (omega (arith, same-count, h.fits)) in
      record {
        leaf = same-is_leaf ∙ h.leaf;
        self = same-field 4 0 (omega arith) ∙ h.self;
        fits = omega (arith, same-count, h.fits);
        strict = λ i j l u.
            omega (arith, key i (omega arith), key j u, h.strict i j l (omega (arith, same-count)));
        low = λ i u. omega (arith, key i u, h.low i (omega (arith, same-count)));
        high = λ i u. omega (arith, key i u, h.high i (omega (arith, same-count)));
        here = λ i u.
            ap map (key i u)
            ∙ h.here i (omega (arith, same-count))
            ∙ ap some (sym (same-value i (omega (arith, same-count, h.fits))));
        gone = λ k l u free.
            h.gone k l u (λ i u' e.
              free i (omega (arith, same-count)) (key i (omega (arith, same-count)) ∙ e));
      }

  pub IsNode-same : (n lo hi : ℕ) → IsNode p n lo hi → IsNode q n lo hi
  IsNode-same n lo hi h =
      let key : (i : ℕ) → i < slot_count q → key_at q i ≡ key_at p i =
        λ i u. same-key i (omega (arith, same-count, h.fits)) in
      record {
        node = same-is_leaf ∙ h.node;
        self = same-field 4 0 (omega arith) ∙ h.self;
        fits = omega (arith, same-count, h.fits);
        strict = λ i j l u.
            omega (arith, key i (omega arith), key j u, h.strict i j l (omega (arith, same-count)));
        low = λ i u. omega (arith, key i u, h.low i (omega (arith, same-count)));
        high = λ i u. omega (arith, key i u, h.high i (omega (arith, same-count)));
        ids = λ i u. omega (
          arith,
          same-child i (omega (arith, same-count, h.fits)),
          h.ids i (omega (arith, same-count)),
        );
      }

  pub same-low_of :
      (n lo hi i : ℕ) → IsNode p n lo hi → i ≤ slot_count p → low_of q lo i ≡ low_of p lo i
  same-low_of n lo hi i h u = elim (Bool-cases (i == 0)) [
    | inl e ↦ rw e refl
    | inr e ↦ rw e (same-key (i - 1) (ground (arith, h.fits)))
  ]

  pub same-high_of :
      (n lo hi i : ℕ) → IsNode p n lo hi → i ≤ slot_count p → high_of q hi i ≡ high_of p hi i
  same-high_of n lo hi i h u = elim (Bool-cases (i == slot_count p)) [
    | inl e ↦ rw (same-count, e) refl
    | inr e ↦ rw (same-count, e) (same-key i (ground (arith, h.fits)))
  ]
