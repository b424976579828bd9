-- ===== src/Expression/Qual.antt =====
-- sqlcore/executor/execExpre.c and ExecSelect of execSelect.c: conditions on the rows of a scan. Every
-- node writes its value into one place, `resultExpreData`, here the argument `slot`; an outer `none`
-- is behaviour that C does not define. How a column is looked up in a row, and what the
-- plan below hands over as rows, are parameters.
mod Evaluation
mod Conditions
mod Missing
mod Tests
use toadb.Base.{
  ℕ, zero, suc, ◌-◌, Bool, true, false, not, ◌&&◌, ◌||◌, List, [], ◌∷◌, Option, none, some, ◌==◌,
  if◌then◌else◌, ◌>>=◌, ℤ, eqz,
}
use toadb.Expression.DataTypes.{
  ValueType, Data, Pval, ExprDataInfo, get_data_info, get_data_bool, zero_int,
}
use toadb.Expression.Operators.{Op, Operator, compute_expr, hat_bool}

pub data BoolExprType : Type 0 where
  and_expr : BoolExprType
  or_expr : BoolExprType
  not_expr : BoolExprType

-- The names of a table and a column are their bytes.
pub record ColumnRef : Type 0 where
  pub field : List ℕ
  pub table_name : List ℕ
  pub vt : ValueType

pub record ConstValue : Type 0 where
  pub val : Data
  pub vt : ValueType
  pub isnull : Bool

-- The trees of a condition; `null` is the null pointer and `other` a node of another type.
pub data Node : Type 0 where
  null : Node
  merger_entry : ℕ → ℕ → BoolExprType → Node → Node → Node
  expr_entry : ℕ → ℕ → Op → Node → Node → Node
  column_ref : ColumnRef → Node
  const_value : ConstValue → Node
  other : Node

-- A column of a row, with the object in its data bytes.
pub record RowColumnData : Type 0 where
  pub size : ℤ
  pub data_of : Pval

abbrev pub is_null_node : Node → Bool
is_null_node Node.null = true
is_null_node n = false

-- ExprDataInfo leftvalue = {0}
abbrev pub zero_info : ExprDataInfo
zero_info = record {
  value_type = ValueType.vt_unknown;
  size = zero_int;
  data_of = Data.p_data none;
}

-- A byte behind a pointer to char, as a string of at most one byte.
abbrev pub char_string : ℤ → List ℕ
char_string (ℤ.pos zero) = []
char_string (ℤ.pos (suc n)) = suc n ∷ []
char_string (ℤ.negsuc n) = (255 - n) ∷ []

-- TranslateRawColumnData: the new data, given the old. Of a string only the bytes before its end
-- count.
unfoldable pub translate_raw_column_data : Pval → ValueType → Data → Option Data
translate_raw_column_data (Pval.to_int i) ValueType.vt_int d = some (Data.i_data i)
translate_raw_column_data (Pval.to_int i) ValueType.vt_integer d = some (Data.i_data i)
translate_raw_column_data (Pval.to_string s) ValueType.vt_varchar d = some (Data.p_data (some s))
translate_raw_column_data (Pval.to_string s) ValueType.vt_string d = some (Data.p_data (some s))
translate_raw_column_data (Pval.to_char c) ValueType.vt_char d =
    some (Data.p_data (some (char_string c)))
translate_raw_column_data (Pval.to_char c) ValueType.vt_bool d =
    some (Data.i_data (hat_bool (eqz c (ℤ.pos b'T'))))
translate_raw_column_data p ValueType.vt_unknown d = some d
translate_raw_column_data p ValueType.vt_pointer d = some d
translate_raw_column_data p ValueType.vt_max d = some d
translate_raw_column_data p t d = none

-- What is returned, `true` for the pointer to the result and `false` for NULL, and the result.
abbrev pub Answer : Type 0
Answer = Option (Bool × ExprDataInfo)

unfoldable pub get_expr_data_const_value : ConstValue → ExprDataInfo
get_expr_data_const_value c = record {
  value_type = c.vt;
  size = if c.isnull then zero_int else ℤ.negsuc 0;
  data_of = c.val;
}

-- GetExprDataColumnValue after the column's data is looked up.
unfoldable pub get_expr_data_column_value : ColumnRef → Option RowColumnData → ExprDataInfo → Answer
get_expr_data_column_value c none slot = some (false, slot)
get_expr_data_column_value c (some col) slot = do
  d ← translate_raw_column_data col.data_of c.vt slot.data_of
  some (true, record { value_type = c.vt; size = col.size; data_of = d })

-- An operand of a node, and the result after its evaluation.
abbrev pub operand : Node → Answer → ExprDataInfo → Option (ExprDataInfo × ExprDataInfo)
operand node answer slot =
    if is_null_node node then some (zero_info, slot) else (do o ← answer; some (o.1, o.1))

module _ (float_bool : ExprDataInfo → Option Bool) where
  -- The switch of ComputeBoolExprNode; && and || leave out the second test where the first decides.
  unfoldable pub merge_bool : BoolExprType → ExprDataInfo → ExprDataInfo → Option Bool
  merge_bool BoolExprType.and_expr l r = do
    a ← get_data_bool float_bool (some l)
    elim a [ true ↦ get_data_bool float_bool (some r) | false ↦ some false ]
  merge_bool BoolExprType.or_expr l r = do
    a ← get_data_bool float_bool (some l)
    elim a [ true ↦ some true | false ↦ get_data_bool float_bool (some r) ]
  merge_bool BoolExprType.not_expr l r = do a ← get_data_bool float_bool (some l); some (not a)

  unfoldable pub compute_bool_expr_node : BoolExprType → ExprDataInfo → ExprDataInfo → Answer
  compute_bool_expr_node t l r = do
    result ← merge_bool t l r
    info ← get_data_info (Pval.to_int (hat_bool result)) ValueType.vt_int
    some (true, info)

module _ (float_opf : Op → Option Operator) where
  unfoldable pub compute_expre_node : Op → ExprDataInfo → ExprDataInfo → ExprDataInfo → Answer
  compute_expre_node op l r slot = do
    result ← compute_expr float_opf (some l) (some r) op
    elim result [ none ↦ some (false, slot) | some info ↦ some (true, info) ]

module _ (float_bool : ExprDataInfo → Option Bool) (float_opf : Op → Option Operator) where
  -- Looks up a column of the current row in an entry of the range table.
  module _ (get_col_row_data : ℕ → ColumnRef → Option RowColumnData) where
    -- ProcessQualExprNode, with the range table index that a column at this place uses. A merger
    -- entry stands where an expression entry is read: its `isJoin` is then the right index.
    unfoldable pub process_qual_expr_node : ℕ → Node → ExprDataInfo → Answer
    process_qual_expr_node rindex Node.null slot = some (false, slot)
    process_qual_expr_node rindex (Node.merger_entry li ri t l r) slot = do
      left ← operand l (process_qual_expr_node li l slot) slot
      right ← operand r (process_qual_expr_node ri r left.1) left.1
      compute_bool_expr_node float_bool t left.0 right.0
    process_qual_expr_node rindex (Node.expr_entry li ri op l r) slot = do
      left ← operand l (process_qual_expr_node li l slot) slot
      right ← operand r (process_qual_expr_node ri r left.1) left.1
      compute_expre_node float_opf op left.0 right.0 right.1
    process_qual_expr_node rindex (Node.column_ref c) slot =
        get_expr_data_column_value c (get_col_row_data rindex c) slot
    process_qual_expr_node rindex (Node.const_value c) slot =
        some (true, get_expr_data_const_value c)
    process_qual_expr_node rindex Node.other slot = some (false, slot)

    -- The inner loop of ExecSelect: whether a condition is true, where NULL is true.
    unfoldable pub qual_loop : ℕ → List Node → ExprDataInfo → Answer
    qual_loop rindex [] slot = some (false, slot)
    qual_loop rindex (qual ∷ quals) slot = do
      o ← process_qual_expr_node rindex qual slot
      b ← get_data_bool float_bool (if o.0 then some o.1 else none)
      elim b [ true ↦ some (true, o.1) | false ↦ qual_loop rindex quals o.1 ]

  module _ {Row : Type 0} (get_col_row_data : Row → ℕ → ColumnRef → Option RowColumnData) where
    -- ExecSelect on the rows that the plan below has still to hand over: the row returned, or none
    -- at their end, the rows left and the result. `rindex` is what the node of the plan has at its
    -- place.
    unfoldable pub exec_select :
        ℕ
        → Option (List Node)
        → List Row
        → ExprDataInfo
        → Option (Option Row × List Row × ExprDataInfo)
    exec_select rindex quals [] slot = some (none, [], slot)
    exec_select rindex none (row ∷ rows) slot = some (some row, rows, slot)
    exec_select rindex (some quals) (row ∷ rows) slot = do
      o ← qual_loop (get_col_row_data row) rindex quals slot
      elim o.0 [
        | true ↦ some (some row, rows, o.1)
        | false ↦ exec_select rindex (some quals) rows o.1
      ]
