-- ===== src/Lexer.antt =====
-- src/lexer.hpp: SQL text into tokens, in one pass. The lexer's `src_` and `pos_` are the bytes that
-- are left to read; `<cctype>` is that of the C locale.
pub mod Escape
pub mod Keywords
pub mod Progress
use labdb.Prelude.{
  ℕ, zero, suc, ◌+◌, ◌-◌, ◌*◌, ◌^◌, ◌≤◌, Bool, true, false, ◌&&◌, ◌||◌, not, Option, none, some,
  List, [], ◌∷◌, ◌++◌, map, if◌then◌else◌, ◌==◌, leb, ltb, length, String,
}
use labdb.Prelude.Int.{ℤ, pos, negate}
use labdb.Token.{TokenType, Token, codes}

pub record LexError : Type 0 where
  pub message : List ℕ
  pub line : ℕ
  pub col : ℕ

-- What is left to read, and where it starts.
pub record Cursor : Type 0 where
  pub rest : List ℕ
  pub line : ℕ
  pub col : ℕ

pub data Lexed {ℓ} (A : Type ℓ) : Type ℓ where
  lexed : A → Lexed A
  error : LexError → Lexed A

-- The first byte of a list and the second, or '\0'.
abbrev pub first : List ℕ → ℕ
first [] = 0
first (c ∷ l) = c

abbrev pub second : List ℕ → ℕ
second [] = 0
second (c ∷ l) = first l

-- The list without its first byte.
abbrev pub behind : List ℕ → List ℕ
behind [] = []
behind (c ∷ l) = l

-- The cursor behind the byte `c`, with `rest` left.
abbrev pub past : Cursor → ℕ → List ℕ → Cursor
past s c rest =
    if c == 10
    then record { rest = rest; line = s.line + 1; col = 1 }
    else record { rest = rest; line = s.line; col = s.col + 1 }

is_alpha : ℕ → Bool
is_alpha c = (leb b'A' c && leb c b'Z') || (leb b'a' c && leb c b'z')

unfoldable pub is_digit : ℕ → Bool
is_digit c = leb b'0' c && leb c b'9'

unfoldable pub ident_start : ℕ → Bool
unfolding is_alpha
ident_start c = is_alpha c || c == b'_'

unfoldable pub ident_cont : ℕ → Bool
unfolding is_alpha is_digit
ident_cont c = is_alpha c || is_digit c || c == b'_'

is_space : ℕ → Bool
is_space c = c == 32 || c == 9 || c == 13 || c == 10

-- `while (!done() && p(peek())) advance()`, from the bytes `l` on: the bytes passed, and the cursor.
unfoldable pub advance_while : (ℕ → Bool) → List ℕ → Cursor → List ℕ × Cursor
advance_while p [] s = ([], record s { rest = [] })
advance_while p (c ∷ l) s =
    let (run, s') = advance_while p l (past s c l) in
    if p c then (c ∷ run, s') else ([], record s { rest = c ∷ l })

unfoldable pub skip_space : Cursor → Cursor
unfolding advance_while is_space
skip_space s = (advance_while is_space s.rest s).1

-- std::toupper
unfoldable pub to_upper : ℕ → ℕ
to_upper c = if leb b'a' c && leb c b'z' then c - 32 else c

unfoldable pub upper : List ℕ → List ℕ
unfolding to_upper
upper = map to_upper

-- `operator==` of strings
unfoldable pub bytes_eq : List ℕ → List ℕ → Bool
bytes_eq [] [] = true
bytes_eq (a ∷ l) (b ∷ r) = (a == b) && bytes_eq l r
bytes_eq _ _ = false

keyword_of : List ℕ → List (String × TokenType) → TokenType
unfolding bytes_eq
keyword_of u [] = TokenType.identifier
keyword_of u ((name, t) ∷ more) = if bytes_eq u (codes name) then t else keyword_of u more

abbrev keywords : List (String × TokenType)
keywords =
    ("CREATE", TokenType.create)
    ∷ ("TABLE", TokenType.table)
    ∷ ("INSERT", TokenType.insert)
    ∷ ("INTO", TokenType.into)
    ∷ ("VALUES", TokenType.values)
    ∷ ("SELECT", TokenType.select)
    ∷ ("FROM", TokenType.from)
    ∷ ("WHERE", TokenType.where_)
    ∷ ("INT64", TokenType.int64)
    ∷ ("INT32", TokenType.int32)
    ∷ ("BOOL", TokenType.bool)
    ∷ ("TEXT", TokenType.text_)
    ∷ ("NULL", TokenType.null)
    ∷ ("NOT", TokenType.not_)
    ∷ ("TRUE", TokenType.true_)
    ∷ ("FALSE", TokenType.false_)
    ∷ ("JOIN", TokenType.join)
    ∷ ("INNER", TokenType.inner)
    ∷ ("ON", TokenType.on)
    ∷ ("AND", TokenType.and)
    ∷ ("AS", TokenType.as_)
    ∷ ("GROUP", TokenType.group)
    ∷ ("BY", TokenType.by)
    ∷ ("HAVING", TokenType.having)
    ∷ ("ORDER", TokenType.order)
    ∷ ("ASC", TokenType.asc)
    ∷ ("DESC", TokenType.desc)
    ∷ ("LIMIT", TokenType.limit)
    ∷ ("INDEX", TokenType.index)
    ∷ ("BEGIN", TokenType.begin)
    ∷ ("COMMIT", TokenType.commit)
    ∷ ("ROLLBACK", TokenType.rollback)
    ∷ []

unfoldable pub keyword_or_identifier : List ℕ → TokenType
unfolding keyword_of upper
keyword_or_identifier word = keyword_of (upper word) keywords

-- A token that starts at the cursor.
abbrev token_at : Cursor → TokenType → List ℕ → Token
token_at s t text = record { type = t; text = text; int_val = pos 0; line = s.line; col = s.col }

unfoldable pub lex_word : Cursor → Token × Cursor
unfolding ident_cont advance_while keyword_or_identifier
lex_word s =
    let (word, s') = advance_while ident_cont s.rest s in
    (token_at s (keyword_or_identifier word) word, s')

-- The value of decimal digits.
unfoldable pub digits_value : ℕ → List ℕ → ℕ
digits_value n [] = n
digits_value n (c ∷ l) = digits_value (n * 10 + (c - b'0')) l

-- `std::from_chars` on an int64: digits, perhaps signed, and out of range beyond 64 bits.
unfoldable pub int_of : Bool → List ℕ → Option ℤ
unfolding digits_value
int_of negative digits =
    let n = digits_value 0 digits in
    if negative
    then (if leb n (2 ^ 63) then some (negate n) else none)
    else if ltb n (2 ^ 63)
    then some (pos n)
    else none

unfoldable pub int_token : Cursor → List ℕ → Option ℤ → Cursor → Lexed (Token × Cursor)
int_token s text (some v) s' =
    lexed (record (token_at s TokenType.int_literal text) { int_val = v }, s')
int_token s text none s' = error (record {
  message = codes "integer literal out of range: " ++ text;
  line = s.line;
  col = s.col;
})

-- `lex_number` behind the sign: `start` is where the token starts, `sign` what was passed of it.
unfoldable pub lex_digits : Cursor → List ℕ → Cursor → Lexed (Token × Cursor)
unfolding is_digit advance_while int_of int_token
lex_digits start sign s =
    let (whole, s') = advance_while is_digit s.rest s in
    let point = past s' b'.' (elim s'.rest [ [] ↦ [] | _ ∷ l ↦ l ]) in
    let (part, s'') = advance_while is_digit point.rest point in
    if first s'.rest == b'.' && is_digit (second s'.rest)
    then lexed (token_at start TokenType.float_literal (sign ++ whole ++ b'.' ∷ part), s'')
    else int_token start (sign ++ whole) (int_of (first sign == b'-') whole) s'

unfoldable pub lex_number : Cursor → Lexed (Token × Cursor)
unfolding lex_digits
lex_number s =
    if first s.rest == b'-'
    then lex_digits s (b'-' ∷ []) (past s b'-' (behind s.rest))
    else lex_digits s [] s

-- The loop of `lex_string`: the value, and the cursor behind the closing quote; `none` at the end of
-- the text.
unfoldable pub string_body : List ℕ → Cursor → Option (List ℕ × Cursor)
string_body [] s = none
string_body (c ∷ []) s = if c == 39 then some ([], past s c []) else none
string_body (c ∷ d ∷ l) s =
    let escaped = string_body l (past (past s c (d ∷ l)) d l) in
    let plain = string_body (d ∷ l) (past s c (d ∷ l)) in
    if c == 39
    then (if d == 39
        then elim escaped [ none ↦ none | some (v, s') ↦ some (39 ∷ v, s') ]
        else some ([], past s c (d ∷ l)))
    else elim plain [ none ↦ none | some (v, s') ↦ some (c ∷ v, s') ]

unfoldable pub string_token : Cursor → Option (List ℕ × Cursor) → Lexed (Token × Cursor)
string_token s (some (value, s')) = lexed (token_at s TokenType.str_literal value, s')
string_token s none =
    error (record { message = codes "unterminated string literal"; line = s.line; col = s.col })

unfoldable pub lex_string : Cursor → Lexed (Token × Cursor)
unfolding string_body string_token
lex_string s = let rest = behind s.rest in string_token s (string_body rest (past s 39 rest))

unfoldable pub operator : Cursor → TokenType → List ℕ → Cursor → Lexed (Token × Cursor)
operator s t text s' = lexed (token_at s t text, s')

-- Tokens of one byte and of two, behind the byte `c`: `one` and `two` are the cursors after them.
unfoldable pub lex_operator : Cursor → Lexed (Token × Cursor)
unfolding operator
lex_operator s =
    let c = first s.rest in
    let d = second s.rest in
    let one = past s c (behind s.rest) in
    let two = past one d (behind one.rest) in
    let single = λ (t : TokenType). operator s t (c ∷ []) one in
    let double = λ (t : TokenType). operator s t (c ∷ d ∷ []) two in
    if c == b'('
    then single TokenType.l_paren
    else if c == b')'
    then single TokenType.r_paren
    else if c == b','
    then single TokenType.comma
    else if c == b'*'
    then single TokenType.star
    else if c == b';'
    then single TokenType.semicolon
    else if c == b'.'
    then single TokenType.dot
    else if c == b'='
    then single TokenType.eq
    else if c == b'<'
    then (if d == b'='
        then double TokenType.le
        else if d == b'>'
        then double TokenType.ne
        else single TokenType.lt)
    else if c == b'>'
    then (if d == b'=' then double TokenType.ge else single TokenType.gt)
    else error (record {
      message = codes "unexpected character '" ++ c ∷ codes "'";
      line = s.line;
      col = s.col;
    })

-- `next` behind the white space.
unfoldable pub lex_token : Cursor → Lexed (Token × Cursor)
unfolding lex_word lex_number lex_string lex_operator ident_start is_digit
lex_token s =
    let c = first s.rest in
    if length s.rest == 0
    then lexed (token_at s TokenType.end [], s)
    else if ident_start c
    then lexed (lex_word s)
    else if is_digit c
    then lex_number s
    else if c == b'-' && is_digit (second s.rest)
    then lex_number s
    else if c == 39
    then lex_string s
    else lex_operator s

unfoldable pub next : Cursor → Lexed (Token × Cursor)
unfolding skip_space lex_token
next s = lex_token (skip_space s)

abbrev pub is_end : Token → Bool
is_end t = elim t.type [ TokenType.end ↦ true | _ ↦ false ]

-- The loop of `tokenize`, on fuel: `none` means that the fuel ran out.
unfoldable pub tokens_from : ℕ → Cursor → Option (Lexed (List Token))
unfolding next
tokens_from zero s = none
tokens_from (suc fuel) s = elim (next s) [
  | error e ↦ some (error e)
  | lexed (t, s') ↦ elim (is_end t) [
    | true ↦ some (lexed (t ∷ []))
    | false ↦ elim (tokens_from fuel s') [
      | none ↦ none
      | some (error e) ↦ some (error e)
      | some (lexed ts) ↦ some (lexed (t ∷ ts))
    ]
  ]
]

abbrev pub start : List ℕ → Cursor
start src = record { rest = src; line = 1; col = 1 }

-- A token takes a byte at least, so the loop has at most a round for each byte and one for the end.
unfoldable pub tokenize : List ℕ → Option (Lexed (List Token))
unfolding tokens_from
tokenize src = tokens_from (length src + 1) (start src)
