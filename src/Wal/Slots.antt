-- ===== src/Wal/Slots.antt =====
-- The maps of src/wal.cpp from page ids to log slots, as association lists with one entry to a key.
-- The order of the entries stands for the iteration order, which the source leaves unspecified.
use labdb.Prelude.{
  ℕ, ◌≡◌, refl, arith, Option, none, some, List, [], ◌∷◌, ◌==◌, if◌then◌else◌, inl, inr, ◌∙◌,
  Bool-cases,
}

abbrev pub SlotMap : Type 0
SlotMap = List (ℕ × ℕ)

-- m.find(id)
unfoldable pub find : ℕ → SlotMap → Option ℕ
find id [] = none
find id ((k, s) ∷ m) = if k == id then some s else find id m

-- m[id] = slot
unfoldable pub assign : ℕ → ℕ → SlotMap → SlotMap
assign id slot [] = (id, slot) ∷ []
assign id slot ((k, s) ∷ m) = if k == id then (k, slot) ∷ m else (k, s) ∷ assign id slot m

-- for (const auto& [page, s] : from) into[page] = s
unfoldable pub assign_all : SlotMap → SlotMap → SlotMap
assign_all [] into = into
assign_all ((k, s) ∷ from) into = assign_all from (assign k s into)

pub find-assign :
    (id k s : ℕ) (m : SlotMap) → find id (assign k s m) ≡ (if k == id then some s else find id m)
unfolding find assign
find-assign id k s [] = refl
find-assign id k s ((j, t) ∷ m) = ground (arith, find-assign id k s m)

-- No entry has the key `k`.
abbrev pub Absent : ℕ → SlotMap → Type 0
Absent k m = find k m ≡ none

-- Each key has one entry.
abbrev pub Unique : SlotMap → Type 0
Unique [] = Unit
Unique ((k, s) ∷ m) = Absent k m × Unique m

pub assign-Unique : (k s : ℕ) (m : SlotMap) → Unique m → Unique (assign k s m)
unfolding assign find
assign-Unique k s [] u = (refl, tt)
assign-Unique k s ((j, t) ∷ m) u = elim (Bool-cases (j == k)) [
  | inl e ↦ rw e u
  | inr e ↦ rw e (find-assign j k s m ∙ ground (arith, u.0), assign-Unique k s m u.1)
]

or_else : Option ℕ → Option ℕ → Option ℕ
or_else none o = o
or_else (some s) o = some s

-- The entries that are assigned win.
pub find-assign_all :
    (id : ℕ) (from into : SlotMap)
    → Unique from
    → find id (assign_all from into)
      ≡ (elim (find id from) [ some s ↦ some s | none ↦ find id into ])
unfolding find assign_all
find-assign_all id [] into u = refl
find-assign_all id ((k, s) ∷ from) into u =
    find-assign_all id from (assign k s into) u.1 ∙ ground (arith, find-assign id k s into, u.0)

-- An entry with a new key is assigned last.
pub assign_all-assign :
    (k s : ℕ) (from into : SlotMap)
    → Absent k from
    → assign_all (assign k s from) into ≡ assign k s (assign_all from into)
unfolding assign find assign_all
assign_all-assign k s [] into h = refl
assign_all-assign k s ((j, t) ∷ from) into h =
    ground (arith, assign_all-assign k s from (assign j t into))

-- To write an entry once more changes nothing.
pub assign_self : (k s : ℕ) (m : SlotMap) → find k m ≡ some s → assign k s m ≡ m
unfolding assign find
assign_self k s [] h = cc
assign_self k s ((j, t) ∷ m) h = ground (arith, assign_self k s m)
