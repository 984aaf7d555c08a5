-- ===== src/Expr/Meaning.antt =====
-- What a database makes of an expression: a value for each row, found from the values of the
-- parts. The values and the operators are the database's; `IsSql` names the laws of the SQL
-- standard that the transformation of src/expr relies on, by the tables of three-valued logic.
use dbfuzz_multidb.Common.{Bool, true, false, Text, List, [], ◌∷◌, ◌≡◌}
use dbfuzz_multidb.Expr.Syntax.{
  Truth, tru, fls, unk, Operator, arithmetic, comparison, logic, Sql, verbatim, literal, call,
  operation, distinct_from, case_when, cast_as, interval_of, json_at, negation, null_test, between,
  like, regexp, query_test, union_test, Sqls, no_sql, more_sql,
}
use dbfuzz_multidb.Expr.Out.{greater_equal, less_equal}

-- The truth tables of the standard.
abbrev pub or_table : Truth → Truth → Truth
or_table tru b = tru
or_table fls b = b
or_table unk tru = tru
or_table unk fls = unk
or_table unk unk = unk

abbrev pub and_table : Truth → Truth → Truth
and_table tru b = b
and_table fls b = fls
and_table unk tru = unk
and_table unk fls = fls
and_table unk unk = unk

abbrev pub logic_table : Bool → Truth → Truth → Truth
logic_table true a b = or_table a b
logic_table false a b = and_table a b

abbrev pub not_table : Truth → Truth
not_table tru = fls
not_table fls = tru
not_table unk = unk

-- "is null" for true, "is not null" for false.
abbrev pub null_table : Bool → Truth → Truth
null_table true unk = tru
null_table true tru = fls
null_table true fls = fls
null_table false unk = fls
null_table false tru = tru
null_table false fls = tru

-- The branch that a case takes.
abbrev pub case_table {ℓ} : {A : Type ℓ} → Truth → A → A → A
case_table tru x y = x
case_table fls x y = y
case_table unk x y = y

pub record Database : Type 1 where
  pub Value : Type 0
  pub Row : Type 0
  pub truth : Truth → Value
  pub plain_text : Text → Row → Value
  -- a function may be an aggregate, which sees more than one row
  pub function : Text → List (Row → Value) → Row → Value
  pub arithmetic_op : Text → Value → Value → Value
  pub comparison_op : Text → Value → Value → Value
  pub logic_op : Bool → Value → Value → Value
  pub distinct_op : Value → Value → Value
  pub case_op : Value → Value → Value → Value
  pub cast_op : Bool → Text → Value → Value
  pub interval_op : Bool → Text → Value → Value → Value
  pub json_op : Bool → Text → Value → Value
  pub not_op : Value → Value
  pub null_op : Bool → Value → Value
  pub between_op : Value → Value → Value → Value
  pub like_op : Text → Text → Value → Value
  pub regexp_op : Bool → Value → Value → Value
  -- a comparison with a query, by its text and its search condition, which sees the rows of the
  -- query as well as the row outside
  pub query_op : Text → Value → Text → Text → (Row → Value) → Row → Value
  pub union_op : Text → Value → Text → Text → Text → (Row → Value) → (Row → Value) → Row → Value

-- The laws. Comparisons and tests have a truth value.
pub record IsSql (db : Database) : Type 0 where
  pub logic_law :
      (is_or : Bool) (a b : Truth)
      → db.logic_op is_or (db.truth a) (db.truth b) ≡ db.truth (logic_table is_or a b)
  pub not_law : (a : Truth) → db.not_op (db.truth a) ≡ db.truth (not_table a)
  pub null_law :
      (is_null : Bool) (a : Truth)
      → db.null_op is_null (db.truth a) ≡ db.truth (null_table is_null a)
  pub case_law : (a : Truth) (x y : db.Value) → db.case_op (db.truth a) x y ≡ case_table a x y
  pub between_law :
      (m l r : db.Value)
      → db.between_op m l r
        ≡ db.logic_op false (db.comparison_op greater_equal m l) (db.comparison_op less_equal m r)
  pub comparison_truth :
      (oper : Text) (x y : db.Value) → (t : Truth) × (db.comparison_op oper x y ≡ db.truth t)
  pub distinct_truth : (x y : db.Value) → (t : Truth) × (db.distinct_op x y ≡ db.truth t)
  pub null_truth :
      (is_null : Bool) (x : db.Value) → (t : Truth) × (db.null_op is_null x ≡ db.truth t)
  pub like_truth :
      (operator format : Text) (x : db.Value)
      → (t : Truth) × (db.like_op operator format x ≡ db.truth t)
  pub regexp_truth :
      (negated : Bool) (x y : db.Value) → (t : Truth) × (db.regexp_op negated x y ≡ db.truth t)
  pub query_truth :
      (comp_op : Text) (x : db.Value) (before after : Text) (search : db.Row → db.Value)
      (r : db.Row)
      → (t : Truth) × (db.query_op comp_op x before after search r ≡ db.truth t)
  pub union_truth :
      (comp_op : Text) (x : db.Value) (before middle after : Text) (left right : db.Row → db.Value)
      (r : db.Row)
      → (t : Truth) × (db.union_op comp_op x before middle after left right r ≡ db.truth t)

module _ (db : Database) where
  abbrev pub operate : Operator → db.Value → db.Value → db.Value
  operate (arithmetic oper) x y = db.arithmetic_op oper x y
  operate (comparison oper) x y = db.comparison_op oper x y
  operate (logic is_or) x y = db.logic_op is_or x y

  unfoldable mutual
    pub eval : Sql → db.Row → db.Value
    eval (verbatim text) r = db.plain_text text r
    eval (literal t) r = db.truth t
    eval (call name separator args) r = db.function name (eval_list args) r
    eval (operation oper lhs rhs) r = operate oper (eval lhs r) (eval rhs r)
    eval (distinct_from lhs rhs) r = db.distinct_op (eval lhs r) (eval rhs r)
    eval (case_when c t f) r = db.case_op (eval c r) (eval t r) (eval f r)
    eval (cast_as convert target e) r = db.cast_op convert target (eval e r)
    eval (interval_of is_add unit d a) r = db.interval_op is_add unit (eval d r) (eval a r)
    eval (json_at arrow json_path e) r = db.json_op arrow json_path (eval e r)
    eval (negation e) r = db.not_op (eval e r)
    eval (null_test is_null e) r = db.null_op is_null (eval e r)
    eval (between m low high) r = db.between_op (eval m r) (eval low r) (eval high r)
    eval (like operator format e) r = db.like_op operator format (eval e r)
    eval (regexp negated lhs rhs) r = db.regexp_op negated (eval lhs r) (eval rhs r)
    eval (query_test comp_op lhs before after search) r =
        db.query_op comp_op (eval lhs r) before after (eval search) r
    eval (union_test comp_op lhs before middle after left right) r =
        db.union_op comp_op (eval lhs r) before middle after (eval left) (eval right) r

    pub eval_list : Sqls → List (db.Row → db.Value)
    eval_list no_sql = []
    eval_list (more_sql e es) = eval e ∷ eval_list es

  -- Two texts with the same value on every row.
  infix 4 ◌≈◌
  abbrev pub ◌≈◌ : Sql → Sql → Type 0
  s ≈ t = (r : db.Row) → eval s r ≡ eval t r

  -- A truth value on every row.
  abbrev pub IsTruth : Sql → Type 0
  IsTruth s = (r : db.Row) → (t : Truth) × (eval s r ≡ db.truth t)
