-- ===== src/Expression/Qual/Tests.antt =====
-- Conditions on rows that hold one int or one truth value.
use toadb.Base.{
  ℕ, zero, suc, ◌≡◌, refl, List, [], ◌∷◌, Option, none, some, Bool, true, false, ℤ, lez, eqz,
  if◌then◌else◌, ◌==◌,
}
use toadb.Expression.DataTypes.{ValueType, Data, Pval, ExprDataInfo, get_data_info, get_data_bool}
use toadb.Expression.Operators.{
  Op, Operator, hat_bool, compute_expr, get_data_type_procs, integer_opf, bool_opf,
  int32_less_equal_operator, int32_equal_operator,
}
use toadb.Expression.Qual.{
  BoolExprType, ColumnRef, Node, RowColumnData, zero_info, exec_select, process_qual_expr_node,
  translate_raw_column_data, get_expr_data_const_value,
}
use toadb.Expression.Qual.Evaluation.{eval, process_qual_expr_node-eval}
use toadb.Expression.Qual.Conditions.{
  Cond, node_of, is_true, first_kept, HasTruth, exec_select-first,
}
use toadb.Expression.Qual.Missing.{exec_select-missing_operator}

abbrev no_float : ExprDataInfo → Option Bool
no_float info = none

abbrev no_floats : Op → Option Operator
no_floats op = none

abbrev int_column : ColumnRef
int_column = record { field = b'a' ∷ []; table_name = b't' ∷ []; vt = ValueType.vt_int }

abbrev flag_column : ColumnRef
flag_column = record { field = b'f' ∷ []; table_name = b't' ∷ []; vt = ValueType.vt_bool }

-- A row of one int in entry 1 of the range table.
abbrev int_row : ℤ → ℕ → ColumnRef → Option RowColumnData
int_row i index c =
    if index == 1 then some record { size = ℤ.pos 20; data_of = Pval.to_int i } else none

abbrev flag_row : ℤ → ℕ → ColumnRef → Option RowColumnData
flag_row i index c =
    if index == 1 then some record { size = ℤ.pos 17; data_of = Pval.to_char i } else none

abbrev int_const : ℕ → Node
int_const n =
    Node.const_value record { val = Data.i_data (ℤ.pos n); vt = ValueType.vt_int; isnull = false }

-- a <= 3, and a = 7 for all other atoms
abbrev atoms : ℕ → Node
atoms zero = Node.expr_entry 1 0 Op.less_equal (Node.column_ref int_column) (int_const 3)
atoms (suc i) = Node.expr_entry 1 0 Op.equal (Node.column_ref int_column) (int_const 7)

abbrev truths : ℤ → ℕ → Bool
truths row zero = lez row (ℤ.pos 3)
truths row (suc i) = eqz row (ℤ.pos 7)

abbrev int_info : Bool → ExprDataInfo
int_info b = record {
  value_type = ValueType.vt_int;
  size = ℤ.pos 4;
  data_of = Data.i_data (hat_bool b);
}

int_info-truth : (b : Bool) → get_data_bool no_float (some (int_info b)) ≡ some b
unfolding get_data_bool
int_info-truth true = refl
int_info-truth false = refl

atoms-HasTruth :
    (row : ℤ) (index i : ℕ)
    → HasTruth no_float no_floats (int_row row) index (atoms i) (truths row i)
unfolding eval compute_expr get_data_type_procs integer_opf int32_less_equal_operator
    int32_equal_operator get_data_info translate_raw_column_data get_expr_data_const_value
atoms-HasTruth row index zero = record {
  value = int_info (lez row (ℤ.pos 3));
  evaluated = refl;
  truth = int_info-truth (lez row (ℤ.pos 3));
}
atoms-HasTruth row index (suc i) = record {
  value = int_info (eqz row (ℤ.pos 7));
  evaluated = refl;
  truth = int_info-truth (eqz row (ℤ.pos 7));
}

-- not a <= 3 and not a = 7
abbrev condition : Cond
condition = Cond.both 1 0 (Cond.negated 1 0 (Cond.atom 0)) (Cond.negated 1 0 (Cond.atom 1))

abbrev rows : List ℤ
rows = ℤ.pos 2 ∷ ℤ.pos 7 ∷ ℤ.pos 9 ∷ ℤ.pos 8 ∷ []

exec_select-first_example :
    let kept = first_kept (λ row. is_true (truths row) condition) rows in
    (slot' : ExprDataInfo) × (exec_select no_float no_floats int_row 0
        (some (node_of atoms condition ∷ []))
        rows
        zero_info
      ≡ some (kept.0, kept.1, slot'))
exec_select-first_example =
    exec_select-first no_float no_floats int_row 0 atoms truths condition rows zero_info
      atoms-HasTruth

kept : first_kept (λ row. is_true (truths row) condition) rows ≡ (some (ℤ.pos 9), ℤ.pos 8 ∷ [])
unfolding first_kept is_true
kept = refl

two_value : eval no_float no_floats (int_row (ℤ.pos 2)) 0 (atoms 0) ≡ some (int_info true)
unfolding eval compute_expr get_data_type_procs integer_opf int32_less_equal_operator get_data_info
    translate_raw_column_data get_expr_data_const_value
two_value = refl

process_qual_expr_node-eval_example :
    process_qual_expr_node no_float no_floats (int_row (ℤ.pos 2)) 0 (atoms 0) zero_info
    ≡ some (true, int_info true)
process_qual_expr_node-eval_example =
    process_qual_expr_node-eval no_float no_floats (int_row (ℤ.pos 2)) 0 (atoms 0) zero_info
      (int_info true) two_value

-- f < f, for a row where f is true
abbrev flag_info : ExprDataInfo
flag_info = record {
  value_type = ValueType.vt_bool;
  size = ℤ.pos 17;
  data_of = Data.i_data (ℤ.pos 1);
}

flag_value :
    eval no_float no_floats (flag_row (ℤ.pos 84)) 1 (Node.column_ref flag_column) ≡ some flag_info
unfolding eval translate_raw_column_data
flag_value = refl

no_less : compute_expr no_floats (some flag_info) (some flag_info) Op.less ≡ some none
unfolding compute_expr get_data_type_procs bool_opf
no_less = refl

flag_truth : get_data_bool no_float (some flag_info) ≡ some true
unfolding get_data_bool
flag_truth = refl

exec_select-missing_operator_example :
    let test =
      Node.expr_entry 1 1 Op.less (Node.column_ref flag_column) (Node.column_ref flag_column) in
    let select = λ (node : Node).
      exec_select no_float no_floats flag_row 0 (some (node ∷ [])) (ℤ.pos 84 ∷ []) zero_info in
    (select test ≡ some (some (ℤ.pos 84), [], flag_info))
    × ((slot' : ExprDataInfo) × (select (Node.merger_entry 1 0 BoolExprType.not_expr test Node.null)
          ≡ some (none, [], slot')))
exec_select-missing_operator_example =
    exec_select-missing_operator no_float no_floats flag_row 0 1 1 1 0 Op.less
      (Node.column_ref flag_column) (Node.column_ref flag_column) flag_info flag_info zero_info
      (ℤ.pos 84) [] true flag_value flag_value no_less flag_truth
