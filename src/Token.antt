-- ===== src/Token.antt =====
-- src/token.hpp: the atoms of SQL text. Texts are lists of bytes. The value of a decimal literal is a
-- function of its text (`std::from_chars` on a double), so a token carries the text alone.
use Prim.Native.Char.{code}
use labdb.Prelude.{ℕ, String, List, [], ◌∷◌, Bool, ◌==◌}
use labdb.Prelude.Int.{ℤ}

-- The bytes of an ASCII text.
abbrev pub codes : String → List ℕ
codes String.[] = []
codes (String.◌∷◌ c s) = code c ∷ codes s

pub data TokenType : Type 0 where
  identifier int_literal float_literal str_literal : TokenType
  create table insert into values select from where_ : TokenType
  int64 int32 bool text_ : TokenType
  null not_ true_ false_ : TokenType
  join inner on and as_ : TokenType
  group by having order asc desc limit : TokenType
  index : TokenType
  begin commit rollback : TokenType
  eq ne lt le gt ge : TokenType
  l_paren r_paren comma star semicolon dot : TokenType
  end : TokenType

pub record Token : Type 0 where
  pub type : TokenType
  pub text : List ℕ
  pub int_val : ℤ
  pub line : ℕ
  pub col : ℕ

-- The enumerator's value.
abbrev pub type_number : TokenType → ℕ
type_number TokenType.identifier = 0
type_number TokenType.int_literal = 1
type_number TokenType.float_literal = 2
type_number TokenType.str_literal = 3
type_number TokenType.create = 4
type_number TokenType.table = 5
type_number TokenType.insert = 6
type_number TokenType.into = 7
type_number TokenType.values = 8
type_number TokenType.select = 9
type_number TokenType.from = 10
type_number TokenType.where_ = 11
type_number TokenType.int64 = 12
type_number TokenType.int32 = 13
type_number TokenType.bool = 14
type_number TokenType.text_ = 15
type_number TokenType.null = 16
type_number TokenType.not_ = 17
type_number TokenType.true_ = 18
type_number TokenType.false_ = 19
type_number TokenType.join = 20
type_number TokenType.inner = 21
type_number TokenType.on = 22
type_number TokenType.and = 23
type_number TokenType.as_ = 24
type_number TokenType.group = 25
type_number TokenType.by = 26
type_number TokenType.having = 27
type_number TokenType.order = 28
type_number TokenType.asc = 29
type_number TokenType.desc = 30
type_number TokenType.limit = 31
type_number TokenType.index = 32
type_number TokenType.begin = 33
type_number TokenType.commit = 34
type_number TokenType.rollback = 35
type_number TokenType.eq = 36
type_number TokenType.ne = 37
type_number TokenType.lt = 38
type_number TokenType.le = 39
type_number TokenType.gt = 40
type_number TokenType.ge = 41
type_number TokenType.l_paren = 42
type_number TokenType.r_paren = 43
type_number TokenType.comma = 44
type_number TokenType.star = 45
type_number TokenType.semicolon = 46
type_number TokenType.dot = 47
type_number TokenType.end = 48

infix 50 ◌is◌
abbrev pub ◌is◌ : TokenType → TokenType → Bool
t is u = type_number t == type_number u

unfoldable pub token_type_name : TokenType → String
token_type_name TokenType.identifier = "identifier"
token_type_name TokenType.int_literal = "integer"
token_type_name TokenType.float_literal = "decimal"
token_type_name TokenType.str_literal = "string"
token_type_name TokenType.create = "CREATE"
token_type_name TokenType.table = "TABLE"
token_type_name TokenType.insert = "INSERT"
token_type_name TokenType.into = "INTO"
token_type_name TokenType.values = "VALUES"
token_type_name TokenType.select = "SELECT"
token_type_name TokenType.from = "FROM"
token_type_name TokenType.where_ = "WHERE"
token_type_name TokenType.int64 = "INT64"
token_type_name TokenType.int32 = "INT32"
token_type_name TokenType.bool = "BOOL"
token_type_name TokenType.text_ = "TEXT"
token_type_name TokenType.null = "NULL"
token_type_name TokenType.not_ = "NOT"
token_type_name TokenType.true_ = "TRUE"
token_type_name TokenType.false_ = "FALSE"
token_type_name TokenType.join = "JOIN"
token_type_name TokenType.inner = "INNER"
token_type_name TokenType.on = "ON"
token_type_name TokenType.and = "AND"
token_type_name TokenType.as_ = "AS"
token_type_name TokenType.group = "GROUP"
token_type_name TokenType.by = "BY"
token_type_name TokenType.having = "HAVING"
token_type_name TokenType.order = "ORDER"
token_type_name TokenType.asc = "ASC"
token_type_name TokenType.desc = "DESC"
token_type_name TokenType.limit = "LIMIT"
token_type_name TokenType.index = "INDEX"
token_type_name TokenType.begin = "BEGIN"
token_type_name TokenType.commit = "COMMIT"
token_type_name TokenType.rollback = "ROLLBACK"
token_type_name TokenType.eq = "="
token_type_name TokenType.ne = "<>"
token_type_name TokenType.lt = "<"
token_type_name TokenType.le = "<="
token_type_name TokenType.gt = ">"
token_type_name TokenType.ge = ">="
token_type_name TokenType.l_paren = "("
token_type_name TokenType.r_paren = ")"
token_type_name TokenType.comma = ","
token_type_name TokenType.star = "*"
token_type_name TokenType.semicolon = ";"
token_type_name TokenType.dot = "."
token_type_name TokenType.end = "end of input"
