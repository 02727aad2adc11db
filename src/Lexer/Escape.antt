-- ===== src/Lexer/Escape.antt =====
-- String literals: doubling the quotes of a value and closing it gives a text that reads back as the
-- value.
use labdb.Prelude.{
  ℕ, ◌≡◌, ◌≢◌, refl, arith, Option, none, some, List, [], ◌∷◌, ◌++◌, if◌then◌else◌, ◌==◌,
  Bool-cases, false, ap, sym, ◌∙◌, ==→eq, inl, inr,
}
use labdb.Lexer.{Cursor, first, past, string_body}

-- The text of a value between quotes: each quote is doubled.
unfoldable pub escape : List ℕ → List ℕ
escape [] = []
escape (c ∷ l) = if c == 39 then 39 ∷ 39 ∷ escape l else c ∷ escape l

abbrev prefix : ℕ → Option (List ℕ × Cursor) → Option (List ℕ × Cursor)
prefix c none = none
prefix c (some (v, s')) = some (c ∷ v, s')

string_body-plain :
    (c : ℕ) (l : List ℕ) (s : Cursor)
    → (c == 39) ≡ false
    → string_body (c ∷ l) s ≡ prefix c (string_body l (past s c l))
unfolding string_body
string_body-plain c [] s h = rw h
string_body-plain c (d ∷ l) s h = rw h (go (string_body (d ∷ l) (past s c (d ∷ l))))
  where
    go :
        (o : Option (List ℕ × Cursor))
        → (elim o [ none ↦ none | some (v, s') ↦ some (c ∷ v, s') ]) ≡ prefix c o
    go none = refl
    go (some o) = refl

string_body-doubled :
    (l : List ℕ) (s : Cursor)
    → string_body (39 ∷ 39 ∷ l) s ≡ prefix 39 (string_body l (past (past s 39 (39 ∷ l)) 39 l))
unfolding string_body
string_body-doubled l s = go (string_body l (past (past s 39 (39 ∷ l)) 39 l))
  where
    go :
        (o : Option (List ℕ × Cursor))
        → (elim o [ none ↦ none | some (v, s') ↦ some (39 ∷ v, s') ]) ≡ prefix 39 o
    go none = refl
    go (some o) = refl

-- The text of any value between quotes, with its quotes doubled, reads back as the value, if no
-- other quote follows at once; what follows is left to read.
pub string_body-escape :
    (value rest : List ℕ) (s : Cursor)
    → first rest ≢ 39
    → (s' : Cursor) × (string_body (escape value ++ 39 ∷ rest) s ≡ some (value, s'))
      × (s'.rest ≡ rest)
unfolding escape string_body
string_body-escape [] [] s h = (past s 39 [], refl, refl)
string_body-escape [] (d ∷ rest) s h = (past s 39 (d ∷ rest), ground arith, refl)
string_body-escape (c ∷ value) rest s h = elim (Bool-cases (c == 39)) [
  | inl e ↦
      let l = escape value ++ 39 ∷ rest in
      let (s', found, left) = string_body-escape value rest (past (past s 39 (39 ∷ l)) 39 l) h in
      (
        s',
        rw e (
            string_body-doubled l s
            ∙ rw found (ap (λ (k : ℕ). some (k ∷ value, s')) (sym (==→eq c 39 e)))),
        left,
      )
  | inr e ↦
      let l = escape value ++ 39 ∷ rest in
      let (s', found, left) = string_body-escape value rest (past s c l) h in
      (s', rw e (string_body-plain c l s e ∙ rw found), left)
]
