-- ===== src/Parser/Select.antt =====
-- src/parser.cpp: the rules of SELECT.
use labdb.Prelude.{
  ℕ, zero, suc, ◌+◌, Bool, true, false, ◌&&◌, ◌||◌, not, List, [], ◌∷◌, ◌++◌, Option, none, some,
  String, if◌then◌else◌, length,
}
use labdb.Prelude.Int.{ℤ, pos, negsuc}
use labdb.Token.{TokenType, Token, codes, ◌is◌}
use labdb.Lexer.{upper, bytes_eq}
use labdb.Record.{ColType}
use labdb.Ast.{
  ColumnRef, AggFunc, SelectItem, Comparison, TableRef, JoinClause, OrderItem, Statement,
}
use labdb.Parser.{
  Rule, error, spent, ok, ◌>>=◌, ◌>>◌, peek, peek_next, advance, check, accept, expect, fail,
  comma_list, parse_literal, value_field,
}

unfoldable pub parse_column_ref : String → Rule ColumnRef
unfolding expect
parse_column_ref what = do
  first ← expect TokenType.identifier what
  dot ← accept TokenType.dot
  if dot
      then (expect TokenType.identifier "a column name after '.'" >>= λ c.
          ok (record { table = first.text; column = c.text }))
      else ok (record { table = []; column = first.text })

-- The aggregate that a name stands for, in any case.
unfoldable pub function_of : List ℕ → Option AggFunc
unfolding upper bytes_eq
function_of name =
    let u = upper name in
    if bytes_eq u (codes "COUNT")
    then some AggFunc.count
    else if bytes_eq u (codes "SUM")
    then some AggFunc.sum
    else if bytes_eq u (codes "AVG")
    then some AggFunc.avg
    else if bytes_eq u (codes "MIN")
    then some AggFunc.min
    else if bytes_eq u (codes "MAX")
    then some AggFunc.max
    else none

abbrev is_count : AggFunc → Bool
is_count AggFunc.count = true
is_count _ = false

abbrev no_column : ColumnRef
no_column = record { table = []; column = [] }

-- What stands between an aggregate's brackets.
unfoldable pub parse_argument : AggFunc → Rule SelectItem
unfolding parse_column_ref
parse_argument func = do
  star ← check TokenType.star
  if not star
      then (parse_column_ref "a column name" >>= λ r.
          ok (record { ref = r; func = func; star = false; alias = [] }))
      else if is_count func
      then (advance >> ok (record { ref = no_column; func = func; star = true; alias = [] }))
      else fail (codes "only COUNT can take *")

unfoldable pub parse_aggregate : Rule SelectItem
unfolding expect function_of parse_argument
parse_aggregate = do
  name ← peek
  elim (function_of name.text) [
    | none ↦ fail (
        codes "unknown function '"
        ++ name.text
        ++ codes "' (the aggregates are COUNT, SUM, AVG, MIN and MAX)")
    | some func ↦ do
      advance
      expect TokenType.l_paren "'('"
      v ← parse_argument func
      expect TokenType.r_paren "')' after the aggregate's argument"
      ok v
  ]

unfoldable pub parse_value : String → Rule SelectItem
unfolding parse_aggregate parse_column_ref
parse_value what = do
  name ← check TokenType.identifier
  next ← peek_next
  if name && (next.type is TokenType.l_paren)
      then parse_aggregate
      else (parse_column_ref what >>= λ r.
          ok (record { ref = r; func = AggFunc.plain; star = false; alias = [] }))

abbrev is_comparison : TokenType → Bool
is_comparison t =
    (t is TokenType.eq)
    || (t is TokenType.ne)
    || (t is TokenType.lt)
    || (t is TokenType.le)
    || (t is TokenType.gt)
    || (t is TokenType.ge)

unfoldable pub parse_operator : Rule TokenType
parse_operator = do
  t ← peek
  if is_comparison t.type
      then (advance >> ok t.type)
      else fail (codes "expected a comparison operator (=, <>, <, <=, >, >=)")

-- [ "AS" ] identifier, behind a table's name
unfoldable pub parse_alias : Rule (List ℕ)
unfolding expect
parse_alias = do
  named ← accept TokenType.as_
  name ← check TokenType.identifier
  if named
      then (expect TokenType.identifier "an alias after AS" >>= λ t. ok t.text)
      else if name
      then (advance >>= λ t. ok t.text)
      else ok []

unfoldable pub parse_table_ref : Rule TableRef
unfolding expect parse_alias
parse_table_ref = do
  name ← expect TokenType.identifier "a table name"
  alias ← parse_alias
  ok (record { name = name.text; alias = alias })

-- "AS" identifier, behind an item of the select list
unfoldable pub parse_item : Rule SelectItem
unfolding expect parse_value
parse_item = do
  v ← parse_value "a column name"
  named ← accept TokenType.as_
  if named
      then (expect TokenType.identifier "an alias after AS" >>= λ t.
          ok (record v { alias = t.text }))
      else ok v

-- "*", or a list of items
unfoldable pub parse_columns : Rule (Bool × List SelectItem)
unfolding comma_list parse_item
parse_columns = do
  star ← accept TokenType.star
  if star then ok (true, []) else (comma_list parse_item >>= λ vs. ok (false, vs))

-- [ "GROUP" "BY" column_ref { "," column_ref } ]
unfoldable pub parse_group : Rule (List ColumnRef)
unfolding expect comma_list parse_column_ref
parse_group = do
  group ← accept TokenType.group
  if group
      then (expect TokenType.by "BY after GROUP"
          >> comma_list (parse_column_ref "a column name to group by"))
      else ok []

unfoldable pub parse_order_item : Rule OrderItem
unfolding parse_value
parse_order_item = do
  v ← parse_value "a column name to order by"
  asc ← accept TokenType.asc
  desc ← if asc then ok false else accept TokenType.desc
  ok (record { value = v; desc = desc })

unfoldable pub parse_order : Rule (List OrderItem)
unfolding expect comma_list parse_order_item
parse_order = do
  order ← accept TokenType.order
  if order then (expect TokenType.by "BY after ORDER" >> comma_list parse_order_item) else ok []

-- A row count that is not negative; the error stands at its token.
abbrev limit_of : Token → Rule (Option ℤ)
limit_of n = elim n.int_val [
  | pos k ↦ ok (some (pos k))
  | negsuc k ↦ λ toks.
      error (record { message = codes "LIMIT must not be negative"; line = n.line; col = n.col })
]

unfoldable pub parse_limit : Rule (Option ℤ)
unfolding expect
parse_limit = do
  limit ← accept TokenType.limit
  if limit
      then (expect TokenType.int_literal "a row count after LIMIT" >>= λ n. limit_of n)
      else ok none

module _ (double_of : List ℕ → ℕ) where
  unfoldable pub parse_comparison : Rule Comparison
  unfolding parse_value parse_operator parse_column_ref parse_literal
  parse_comparison = do
    left ← parse_value "a column name"
    op ← parse_operator
    name ← check TokenType.identifier
    if name
        then (parse_column_ref "a column name" >>= λ r. ok (record {
          left = left;
          op = op;
          right = some r;
          literal = value_field ColType.int64 0 [];
        }))
        else (parse_literal double_of >>= λ v.
            ok (record { left = left; op = op; right = none; literal = v }))

  -- The loop of `parse_condition`, on fuel: each term takes a token at least.
  unfoldable pub terms : ℕ → Rule (List Comparison)
  unfolding parse_comparison
  terms zero = λ toks. spent
  terms (suc fuel) = do
    c ← parse_comparison
    and ← accept TokenType.and
    if and then (terms fuel >>= λ cs. ok (c ∷ cs)) else ok (c ∷ [])

  unfoldable pub parse_condition : Rule (List Comparison)
  unfolding terms
  parse_condition = λ toks. terms (length toks) toks

  -- A condition behind a keyword that may be missing.
  unfoldable pub parse_clause : TokenType → Rule (List Comparison)
  unfolding parse_condition
  parse_clause t = do found ← accept t; if found then parse_condition else ok []

  unfoldable pub parse_join : Rule JoinClause
  unfolding expect parse_table_ref parse_condition
  parse_join = do
    accept TokenType.inner
    expect TokenType.join "JOIN after INNER"
    table ← parse_table_ref
    expect TokenType.on "ON and a join condition"
    on ← parse_condition
    ok (record { table = table; on = on })

  -- The loop over the joins, on fuel.
  unfoldable pub joins : ℕ → Rule (List JoinClause)
  unfolding parse_join
  joins zero = λ toks. spent
  joins (suc fuel) = do
    join ← check TokenType.join
    inner ← check TokenType.inner
    if join || inner then (parse_join >>= λ j. joins fuel >>= λ js. ok (j ∷ js)) else ok []

  unfoldable pub parse_joins : Rule (List JoinClause)
  unfolding joins
  parse_joins = λ toks. joins (length toks + 1) toks

  unfoldable pub parse_select : Rule Statement
  unfolding expect parse_columns parse_table_ref parse_joins parse_clause parse_group parse_order
      parse_limit
  parse_select = do
    expect TokenType.select "SELECT"
    (star, columns) ← parse_columns
    expect TokenType.from "FROM"
    from ← parse_table_ref
    js ← parse_joins
    where_ ← parse_clause TokenType.where_
    group_by ← parse_group
    having ← parse_clause TokenType.having
    order_by ← parse_order
    limit ← parse_limit
    ok (
        Statement.select (record {
          star = star;
          columns = columns;
          from = from;
          joins = js;
          where_ = where_;
          group_by = group_by;
          having = having;
          order_by = order_by;
          limit = limit;
        }))
