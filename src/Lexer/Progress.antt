-- ===== src/Lexer/Progress.antt =====
-- Every token but the end takes a byte, so the fuel of `tokenize` is enough.
use labdb.Prelude.{
  ℕ, zero, suc, ◌+◌, ◌≤◌, ◌<◌, ◌≡◌, ◌⊎◌, inl, inr, refl, arith, Bool, true, false, ◌&&◌, List, [],
  ◌∷◌, Option, none, some, if◌then◌else◌, ◌==◌, length, Bool-cases, ==_ne,
}
use labdb.Lexer.{
  Cursor, Lexed, lexed, error, first, second, behind, past, advance_while, skip_space, lex_word,
  lex_digits, int_token, string_token, operator, lex_number, string_body, lex_string, lex_operator,
  lex_token, next, is_end, tokens_from, tokenize, start, ident_start, ident_cont, is_digit,
}
use labdb.Prelude.Int.{ℤ}
use labdb.Token.{Token}

abbrev left : Cursor → ℕ
left s = length s.rest

length-behind : (l : List ℕ) → length (behind l) ≤ length l
length-behind [] = omega arith
length-behind (c ∷ l) = omega arith

left-past : (s : Cursor) (c : ℕ) (l : List ℕ) → left (past s c l) ≡ length l
left-past s c l = ground arith

left-advance_while :
    (p : ℕ → Bool) (l : List ℕ) (s : Cursor) → left (advance_while p l s).1 ≤ length l
unfolding advance_while
left-advance_while p [] s = omega arith
left-advance_while p (c ∷ l) s = elim (Bool-cases (p c)) [
  | inl e ↦ rw e (omega (arith, left-advance_while p l (past s c l)))
  | inr e ↦ rw e (omega arith)
]

-- A run that starts takes a byte.
left-advance_while_lt :
    (p : ℕ → Bool) (c : ℕ) (l : List ℕ) (s : Cursor)
    → p c ≡ true
    → left (advance_while p (c ∷ l) s).1 < length (c ∷ l)
unfolding advance_while
left-advance_while_lt p c l s e = rw e (omega (arith, left-advance_while p l (past s c l)))

abbrev IsWithin : ℕ → Option (List ℕ × Cursor) → Type 0
IsWithin n none = Unit
IsWithin n (some (v, s)) = left s ≤ n

IsWithin-prefix :
    (n m c : ℕ) (o : Option (List ℕ × Cursor))
    → n ≤ m
    → IsWithin n o
    → IsWithin m (elim o [ none ↦ none | some (v, s') ↦ some (c ∷ v, s') ])
IsWithin-prefix n m c none l h = tt
IsWithin-prefix n m c (some (v, s')) l h = omega (arith, h)

string_body-IsWithin : (l : List ℕ) (s : Cursor) → IsWithin (length l) (string_body l s)
unfolding string_body
string_body-IsWithin [] s = tt
string_body-IsWithin (c ∷ []) s = elim (Bool-cases (c == 39)) [
  | inl e ↦ rw e (omega (arith, left-past s c []))
  | inr e ↦ rw e tt
]
string_body-IsWithin (c ∷ d ∷ l) s = elim (Bool-cases (c == 39)) [
  | inr e ↦ rw e (
      IsWithin-prefix (length (d ∷ l)) (length (c ∷ d ∷ l)) c _ (omega arith)
        (string_body-IsWithin (d ∷ l) (past s c (d ∷ l))))
  | inl e ↦ elim (Bool-cases (d == 39)) [
    | inr f ↦ rw (e, f) (omega (arith, left-past s c (d ∷ l)))
    | inl f ↦
        rw (e, f)
          (IsWithin-prefix (length l) (length (c ∷ d ∷ l)) 39 _ (omega arith)
            (string_body-IsWithin l (past (past s c (d ∷ l)) d l)))
  ]
]

-- What a token leaves: an error, the end, or less than there was.
abbrev Shorter : ℕ → Lexed (Token × Cursor) → Type 0
Shorter n (error e) = Unit
Shorter n (lexed (t, s)) = left s < n

Shorter-le : (n m : ℕ) (r : Lexed (Token × Cursor)) → n ≤ m → Shorter n r → Shorter m r
Shorter-le n m (error e) l h = tt
Shorter-le n m (lexed (t, s)) l h = omega (arith, h)

lex_word-Shorter :
    (s : Cursor) (c : ℕ) (l : List ℕ)
    → s.rest ≡ c ∷ l
    → ident_cont c ≡ true
    → Shorter (length s.rest) (lexed (lex_word s))
unfolding lex_word
lex_word-Shorter s c l e h = rw e (left-advance_while_lt ident_cont c l s h)

int_token-Shorter :
    (n : ℕ) (s : Cursor) (text : List ℕ) (o : Option ℤ) (s' : Cursor)
    → left s' < n
    → Shorter n (int_token s text o s')
unfolding int_token
int_token-Shorter n s text none s' h = tt
int_token-Shorter n s text (some v) s' h = h

lex_digits-Shorter :
    (begin : Cursor) (sign : List ℕ) (s : Cursor) (c : ℕ) (l : List ℕ)
    → s.rest ≡ c ∷ l
    → is_digit c ≡ true
    → Shorter (length s.rest) (lex_digits begin sign s)
unfolding lex_digits
lex_digits-Shorter begin sign s c l e h =
    let run = advance_while is_digit s.rest s in
    let shorter : left run.1 < length s.rest = rw e (left-advance_while_lt is_digit c l s h) in
    let point = past run.1 46 (elim run.1.rest [ [] ↦ [] | _ ∷ l ↦ l ]) in
    let decimal : left (advance_while is_digit point.rest point).1 < length s.rest = omega (
      arith,
      shorter,
      left-advance_while is_digit point.rest point,
      tail run.1.rest,
      left-past run.1 46 (elim run.1.rest [ [] ↦ [] | _ ∷ l ↦ l ]),
    ) in
    elim (Bool-cases (first run.1.rest == 46 && is_digit (second run.1.rest))) [
      | inl b ↦ rw b decimal
      | inr b ↦ rw b (int_token-Shorter (length s.rest) begin _ _ run.1 shorter)
    ]
  where
    tail : (l : List ℕ) → length {A = ℕ} (elim l [ [] ↦ [] | _ ∷ r ↦ r ]) ≤ length l
    tail [] = omega arith
    tail (c ∷ l) = omega arith

lex_string-Shorter :
    (s : Cursor) (c : ℕ) (l : List ℕ) → s.rest ≡ c ∷ l → Shorter (length s.rest) (lex_string s)
unfolding lex_string
lex_string-Shorter s c l e =
    rw e (go (string_body l (past s 39 l)) (string_body-IsWithin l (past s 39 l)))
  where
    go :
        (o : Option (List ℕ × Cursor))
        → IsWithin (length l) o
        → Shorter (suc (length l)) (string_token s o)
    go none h = tt
    go (some (v, s')) h = omega (arith, h)

lex_operator-Shorter :
    (s : Cursor) (c : ℕ) (l : List ℕ) → s.rest ≡ c ∷ l → Shorter (length s.rest) (lex_operator s)
unfolding lex_operator operator
lex_operator-Shorter s c l e = rw e (ground (arith, length-behind l))

ident_cont-ident_start : (c : ℕ) → ident_start c ≡ true → ident_cont c ≡ true
unfolding ident_start ident_cont
ident_cont-ident_start c h = ground arith

if-Shorter :
    (n : ℕ) (b : Bool) (x y : Lexed (Token × Cursor))
    → (b ≡ true → Shorter n x)
    → Shorter n y
    → Shorter n (if b then x else y)
if-Shorter n true x y h k = h refl
if-Shorter n false x y h k = k

abbrev at : List ℕ → ℕ → ℕ → Cursor
at rest line col = record { rest = rest; line = line; col = col }

module _ (line col : ℕ) where
  lex_number-Shorter :
      (c : ℕ) (l : List ℕ)
      → (is_digit c ≡ true) ⊎ ((c ≡ 45) × (is_digit (first l) ≡ true))
      → Shorter (suc (length l)) (lex_number (at (c ∷ l) line col))
  unfolding lex_number is_digit
  lex_number-Shorter c l (inl h) =
      rw (==_ne c 45 (ground arith))
        (lex_digits-Shorter (at (c ∷ l) line col) [] (at (c ∷ l) line col) c l refl h)
  lex_number-Shorter c [] (inr (m, h)) = absurd (ground arith)
  lex_number-Shorter c (d ∷ l) (inr (m, h)) =
      let s = at (c ∷ d ∷ l) line col in
      let s' = past s 45 (d ∷ l) in
      let shorter = lex_digits-Shorter s (45 ∷ []) s' d l refl h in
      rw m (
        Shorter-le (length s'.rest) (suc (length (d ∷ l))) (lex_digits s (45 ∷ []) s') (omega arith)
          shorter)

  lex_token-Shorter :
      (c : ℕ) (l : List ℕ) → Shorter (suc (length l)) (lex_token (at (c ∷ l) line col))
  unfolding lex_token
  lex_token-Shorter c l =
      let n = suc (length l) in
      let s = at (c ∷ l) line col in
      let sign = c == 45 && is_digit (first l) in
      let r3 = if c == 39 then lex_string s else lex_operator s in
      let r2 = if sign then lex_number s else r3 in
      let r1 = if is_digit c then lex_number s else r2 in
      let r0 = if ident_start c then lexed (lex_word s) else r1 in
      if-Shorter n (n == 0) _ r0 (λ e. absurd (ground arith))
        (if-Shorter n (ident_start c) (lexed (lex_word s)) r1
          (λ e. lex_word-Shorter s c l refl (ident_cont-ident_start c e))
          (if-Shorter n (is_digit c) (lex_number s) r2 (λ e. lex_number-Shorter c l (inl e))
            (if-Shorter n sign (lex_number s) r3
              (λ e. lex_number-Shorter c l (inr (ground arith, ground arith)))
              (if-Shorter n (c == 39) (lex_string s) (lex_operator s)
                (λ e. lex_string-Shorter s c l refl) (lex_operator-Shorter s c l refl)))))

-- What the next token leaves: an error, the end, or less than there was.
abbrev Ends : ℕ → Lexed (Token × Cursor) → Type 0
Ends n (error e) = Unit
Ends n (lexed (t, s)) = (is_end t ≡ true) ⊎ (left s < n)

Ends-Shorter : (n m : ℕ) (r : Lexed (Token × Cursor)) → n ≤ m → Shorter n r → Ends m r
Ends-Shorter n m (error e) l h = tt
Ends-Shorter n m (lexed (t, s)) l h = inr (omega (arith, h))

lex_token-Ends :
    (rest : List ℕ) (line col m : ℕ) → length rest ≤ m → Ends m (lex_token (at rest line col))
unfolding lex_token
lex_token-Ends [] line col m h = inl refl
lex_token-Ends (c ∷ l) line col m h =
    Ends-Shorter (suc (length l)) m (lex_token (at (c ∷ l) line col)) h
      (lex_token-Shorter line col c l)

next-Ends : (s : Cursor) → Ends (left s) (next s)
unfolding next skip_space
next-Ends s =
    let s' = skip_space s in
    lex_token-Ends s'.rest s'.line s'.col (left s) (left-advance_while _ s.rest s)

abbrev IsReturned : Option (Lexed (List Token)) → Type 0
IsReturned o = (r : Lexed (List Token)) × (o ≡ some r)

with_token : Token → Option (Lexed (List Token)) → Option (Lexed (List Token))
with_token t o = elim o [
  | none ↦ none
  | some (error e) ↦ some (error e)
  | some (lexed ts) ↦ some (lexed (t ∷ ts))
]

with_token-IsReturned :
    (t : Token) (o : Option (Lexed (List Token))) → IsReturned o → IsReturned (with_token t o)
unfolding with_token
with_token-IsReturned t none (r, e) = absurd (cc)
with_token-IsReturned t (some (error e)) x = (error e, refl)
with_token-IsReturned t (some (lexed ts)) x = (lexed (t ∷ ts), refl)

tokens_from-IsReturned : (fuel : ℕ) (s : Cursor) → left s < fuel → IsReturned (tokens_from fuel s)
unfolding tokens_from with_token
tokens_from-IsReturned zero s h = absurd (omega arith)
tokens_from-IsReturned (suc fuel) s h =
    go (λ s' u. tokens_from-IsReturned fuel s' (omega (arith, u, h))) (next s) (next-Ends s)
  where
    go :
        ((s' : Cursor) → left s' < left s → IsReturned (tokens_from fuel s'))
        → (o : Lexed (Token × Cursor)) → Ends (left s) o
        → IsReturned (elim o [
          | error e ↦ some (error e)
          | lexed (t, s') ↦ elim (is_end t) [
            | true ↦ some (lexed (t ∷ []))
            | false ↦ with_token t (tokens_from fuel s')
          ]
        ])
    go ih (error e) x = (error e, refl)
    go ih (lexed (t, s')) (inl z) = rw z (lexed (t ∷ []), refl)
    go ih (lexed (t, s')) (inr u) = elim (Bool-cases (is_end t)) [
      | inl z ↦ rw z (lexed (t ∷ []), refl)
      | inr z ↦ rw z (with_token-IsReturned t (tokens_from fuel s') (ih s' u))
    ]

-- On every text the lexer ends: with the tokens, or with an error.
pub tokenize-IsReturned : (src : List ℕ) → (r : Lexed (List Token)) × (tokenize src ≡ some r)
unfolding tokenize
tokenize-IsReturned src = tokens_from-IsReturned (length src + 1) (start src) (omega arith)
