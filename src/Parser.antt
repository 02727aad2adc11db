-- ===== src/Parser.antt =====
-- src/parser.hpp, src/parser.cpp: recursive descent over the tokens. A rule of the grammar is a function
-- from the tokens that are left to a result and the tokens behind it; it fails with a position.
pub mod Select
pub mod Script
use labdb.Prelude.{
  ℕ, zero, suc, ◌+◌, ◌-◌, ◌^◌, String, Bool, true, false, ◌&&◌, ◌||◌, not, List, [], ◌∷◌, ◌++◌,
  Option, none, some, if◌then◌else◌, length,
}
use labdb.Prelude.Int.{ℤ, pos, negsuc}
use labdb.Token.{TokenType, Token, codes, ◌is◌}
use labdb.Lexer.{upper, bytes_eq}
use labdb.Record.{ColType, Column, Schema, Field, Row, null_field}
use labdb.Ast.{
  CreateTableStmt, CreateIndexStmt, InsertStmt, ColumnRef, AggFunc, SelectItem, Comparison,
  TableRef, JoinClause, OrderItem, SelectStmt, Statement,
}

pub record ParseError : Type 0 where
  pub message : List ℕ
  pub line : ℕ
  pub col : ℕ

-- `spent` is for a loop that runs out of fuel, which the code's loops have none of.
pub data Parsed (A : Type 0) : Type 0 where
  parsed : A → List Token → Parsed A
  error : ParseError → Parsed A
  spent : Parsed A

abbrev pub Rule : Type 0 → Type 0
Rule A = List Token → Parsed A

abbrev pub and_then : {A B : Type 0} → Parsed A → (A → Rule B) → Parsed B
and_then (parsed a toks) rule = rule a toks
and_then (error e) rule = error e
and_then spent rule = spent

infixl 5 ◌>>=◌ ◌>>◌
abbrev pub ◌>>=◌ : {A B : Type 0} → Rule A → (A → Rule B) → Rule B
m >>= rule = λ toks. and_then (m toks) rule

abbrev pub ◌>>◌ : {A B : Type 0} → Rule A → Rule B → Rule B
m >> rule = m >>= (λ passed. rule)

abbrev pub ok : {A : Type 0} → A → Rule A
ok a = λ toks. parsed a toks

-- The end token, which ends every list of the lexer.
abbrev end_token : Token
end_token = record { type = TokenType.end; text = []; int_val = pos 0; line = 1; col = 1 }

abbrev pub head : List Token → Token
head [] = end_token
head (t ∷ toks) = t

abbrev behind : List Token → List Token
behind [] = []
behind (t ∷ toks) = toks

-- The token after the next one; the end token repeats at the end.
abbrev second : List Token → Token
second [] = end_token
second (t ∷ []) = t
second (t ∷ u ∷ toks) = u

abbrev pub peek : Rule Token
peek = λ toks. parsed (head toks) toks

abbrev peek_next : Rule Token
peek_next = λ toks. parsed (second toks) toks

abbrev pub advance : Rule Token
advance = λ toks. parsed (head toks) (behind toks)

abbrev pub check : TokenType → Rule Bool
check t = λ toks. parsed ((head toks).type is t) toks

abbrev pub fail : {A : Type 0} → List ℕ → Rule A
fail message =
    λ toks. error (record { message = message; line = (head toks).line; col = (head toks).col })

found : Token → List ℕ
found t = if t.type is TokenType.end then codes "end of input" else codes "'" ++ t.text ++ codes "'"

unfoldable pub expect : TokenType → String → Rule Token
unfolding found
expect t what = do
  b ← check t
  next ← peek
  if b then advance else fail (codes "expected " ++ codes what ++ codes ", found " ++ found next)

-- `if (check(t)) advance();`, with what was found
abbrev pub accept : TokenType → Rule Bool
accept t = do b ← check t; if b then advance >> ok true else ok false

-- A loop over items with a comma between them, on fuel.
unfoldable pub items : {A : Type 0} → ℕ → Rule A → Rule (List A)
items zero item = λ toks. spent
items (suc fuel) item = do
  x ← item
  more ← accept TokenType.comma
  if more then (items fuel item >>= λ xs. ok (x ∷ xs)) else ok (x ∷ [])

-- An item takes a token at least, so there are no more items than tokens.
unfoldable pub comma_list : {A : Type 0} → Rule A → Rule (List A)
unfolding items
comma_list item = λ toks. items (length toks) item toks

abbrev type_of : TokenType → Option ColType
type_of TokenType.int64 = some ColType.int64
type_of TokenType.int32 = some ColType.int32
type_of TokenType.bool = some ColType.bool
type_of TokenType.text_ = some ColType.text_
type_of _ = none

unfoldable pub parse_type : Rule ColType
parse_type = do
  t ← peek
  elim (type_of t.type) [
    | some c ↦ advance >> ok c
    | none ↦ fail (codes "expected a column type (INT64, INT32, BOOL, or TEXT)")
  ]

unfoldable pub parse_nullable : Rule Bool
unfolding expect
parse_nullable = do
  negated ← accept TokenType.not_
  if negated
      then (expect TokenType.null "NULL after NOT" >> ok false)
      else (accept TokenType.null >> ok true)

unfoldable pub parse_column_def : Rule Column
unfolding expect parse_type parse_nullable
parse_column_def = do
  name ← expect TokenType.identifier "a column name"
  type ← parse_type
  nullable ← parse_nullable
  ok (record { name = name.text; type = type; nullable = nullable })

unfoldable pub parse_create_index : Rule Statement
unfolding expect
parse_create_index = do
  expect TokenType.index "INDEX"
  expect TokenType.on "ON and the table to index"
  table ← expect TokenType.identifier "a table name"
  expect TokenType.l_paren "'(' before the column to index"
  column ← expect TokenType.identifier "a column name"
  expect TokenType.r_paren "')' after the column (an index has one column)"
  ok (Statement.create_index (record { table = table.text; column = column.text }))

unfoldable pub parse_create_table : Rule Statement
unfolding expect comma_list parse_column_def
parse_create_table = do
  expect TokenType.table "TABLE or INDEX"
  table ← expect TokenType.identifier "a table name"
  expect TokenType.l_paren "'(' before the column list"
  columns ← comma_list parse_column_def
  expect TokenType.r_paren "')' after the column list"
  ok (Statement.create (record { table = table.text; schema = columns }))

unfoldable pub parse_create : Rule Statement
unfolding expect parse_create_index parse_create_table
parse_create = do
  expect TokenType.create "CREATE"
  index ← check TokenType.index
  if index then parse_create_index else parse_create_table

-- The 64-bit pattern of an int64.
abbrev pub int_bits : ℤ → ℕ
int_bits (pos n) = n
int_bits (negsuc n) = 2 ^ 64 - 1 - n

abbrev pub value_field : ColType → ℕ → List ℕ → Field
value_field t bits text = record { type = t; is_null = false; bits = bits; text = text }

-- `double_of` is `std::from_chars` on a double: the pattern of the value of a decimal literal.
module _ (double_of : List ℕ → ℕ) where
  abbrev literal_of : Token → Option Field
  literal_of t = elim t.type [
    | TokenType.int_literal ↦ some (value_field ColType.int64 (int_bits t.int_val) [])
    | TokenType.str_literal ↦ some (value_field ColType.text_ 0 t.text)
    | TokenType.float_literal ↦ some (value_field ColType.double (double_of t.text) [])
    | TokenType.true_ ↦ some (value_field ColType.bool 1 [])
    | TokenType.false_ ↦ some (value_field ColType.bool 0 [])
    | TokenType.null ↦ some (null_field ColType.int64)
    | _ ↦ none
  ]

  unfoldable pub parse_literal : Rule Field
  parse_literal = do
    t ← peek
    elim (literal_of t) [
      | some v ↦ advance >> ok v
      | none ↦ fail (codes "expected a literal (a number, a 'string', TRUE, FALSE, or NULL)")
    ]

  unfoldable pub parse_insert : Rule Statement
  unfolding expect comma_list parse_literal
  parse_insert = do
    expect TokenType.insert "INSERT"
    expect TokenType.into "INTO"
    table ← expect TokenType.identifier "a table name"
    expect TokenType.values "VALUES"
    expect TokenType.l_paren "'(' before the value list"
    values ← comma_list parse_literal
    expect TokenType.r_paren "')' after the value list"
    ok (Statement.insert (record { table = table.text; values = values }))
