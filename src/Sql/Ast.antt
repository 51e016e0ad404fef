-- ===== src/Sql/Ast.antt =====
-- The syntax tree of the sqlparser crate, as far as crates/sql-engine looks at it: the variants that
-- the code matches on, with `other` for the remaining ones, and the fields that it reads. A field
-- that the code only tests for presence is the answer of that test.
use Prim.Native.Char.{Char}
use mongres.Prelude.{String, Bool, List, [], ◌∷◌, Option, none}

-- `Ident`; two identifiers are equal if their texts and their quotes are.
pub record Ident : Type 0 where
  pub value : String
  pub quote_style : Option Char

-- `Ident::new`
abbrev pub ident_new : String → Ident
ident_new value = record { value = value; quote_style = none }

-- `ObjectName`
abbrev pub ObjectName : Type 0
ObjectName = List Ident

-- `Value`
pub data Value : Type 0 where
  null : Value
  boolean : Bool → Value
  single_quoted_string escaped_string_literal unicode_string_literal national_string_literal :
      String → Value
  placeholder : String → Value
  number : String → Value
  other : Value

-- `BinaryOperator`
pub data BinaryOperator : Type 0 where
  and or eq not_eq gt gt_eq lt lt_eq other : BinaryOperator

-- `Expr`; `Vec<Expr>` is `Exprs`.
mutual
  pub data Expr : Type 0 where
    identifier : Ident → Expr
    compound_identifier : List Ident → Expr
    value : Value → Expr
    nested : Expr → Expr
    binary_op : Expr → BinaryOperator → Expr → Expr
    in_list : Expr → Exprs → Bool → Expr
    is_null is_not_null : Expr → Expr
    other : Expr

  pub data Exprs : Type 0 where
    nil : Exprs
    cons : Expr → Exprs → Exprs

abbrev pub exprs : Exprs → List Expr
exprs nil = []
exprs (cons e es) = e ∷ exprs es

-- `TableFactor`, with the presence of its arguments
pub data TableFactor : Type 0 where
  table : ObjectName → Bool → TableFactor
  other : TableFactor

-- `TableWithJoins`, with the presence of joins
pub record TableWithJoins : Type 0 where
  pub relation : TableFactor
  pub has_joins : Bool

-- `SelectItem`
pub data SelectItem : Type 0 where
  unnamed_expr : Expr → SelectItem
  expr_with_alias : Expr → Ident → SelectItem
  wildcard qualified_wildcard : SelectItem

-- `GroupByExpr`, with the presence of expressions and of modifiers
pub data GroupByExpr : Type 0 where
  all : GroupByExpr
  expressions : Bool → Bool → GroupByExpr

-- `Select`
pub record Select : Type 0 where
  pub projection : List SelectItem
  pub tables : List TableWithJoins
  pub selection : Option Expr
  pub group_by : GroupByExpr
  pub has_distinct : Bool
  pub has_top : Bool
  pub has_into : Bool
  pub has_lateral_views : Bool
  pub has_prewhere : Bool
  pub has_cluster_by : Bool
  pub has_distribute_by : Bool
  pub has_sort_by : Bool
  pub has_having : Bool
  pub has_named_window : Bool
  pub has_qualify : Bool
  pub has_connect_by : Bool

-- `SetExpr`
pub data SetExpr : Type 0 where
  select : Select → SetExpr
  values : List (List Expr) → SetExpr
  other : SetExpr

-- `Query`
pub record Query : Type 0 where
  pub body : SetExpr
  pub limit : Option Expr
  pub has_with : Bool
  pub has_order_by : Bool
  pub has_offset : Bool
  pub has_fetch : Bool
  pub has_limit_by : Bool
  pub has_locks : Bool
  pub has_for_clause : Bool
  pub has_settings : Bool
  pub has_format_clause : Bool

-- `Insert`
pub record Insert : Type 0 where
  pub table_name : ObjectName
  pub columns : List Ident
  pub source : Option Query
  pub has_table_alias : Bool
  pub ignore : Bool
  pub overwrite : Bool
  pub has_partitioned : Bool
  pub has_after_columns : Bool
  pub has_table_keyword : Bool
  pub has_on : Bool
  pub has_returning : Bool
  pub replace_into : Bool
  pub has_priority : Bool
  pub has_insert_alias : Bool

-- `AssignmentTarget`
pub data AssignmentTarget : Type 0 where
  column_name : ObjectName → AssignmentTarget
  tuple : AssignmentTarget

-- `Assignment`
pub record Assignment : Type 0 where
  pub target : AssignmentTarget
  pub value : Expr

-- `Statement::Update`
pub record Update : Type 0 where
  pub table : TableWithJoins
  pub assignments : List Assignment
  pub selection : Option Expr
  pub has_from : Bool
  pub has_returning : Bool
  pub has_conflict : Bool

-- `FromTable`
pub data FromTable : Type 0 where
  with_from_keyword without_keyword : List TableWithJoins → FromTable

-- `Delete`
pub record Delete : Type 0 where
  pub source : FromTable
  pub selection : Option Expr
  pub has_tables : Bool
  pub has_using : Bool
  pub has_returning : Bool
  pub has_order_by : Bool
  pub has_limit : Bool

-- `Statement`
pub data Statement : Type 0 where
  query : Query → Statement
  insert : Insert → Statement
  update : Update → Statement
  delete : Delete → Statement
  other : Statement
