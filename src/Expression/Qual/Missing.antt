-- ===== src/Expression/Qual/Missing.antt =====
-- Conditions whose operator is missing in the table of the left operand's type.
use toadb.Base.{
  ℤ, ℕ, ◌≡◌, refl, List, [], ◌∷◌, Option, none, some, Bool, true, false, if◌then◌else◌, ap, ◌∙◌,
  Bool-cases, inl, inr,
}
use toadb.Expression.DataTypes.{ValueType, Data, ExprDataInfo, get_data_info, get_data_bool}
use toadb.Expression.Operators.{hat_bool, Op, Operator, compute_expr}
use toadb.Expression.Qual.{
  BoolExprType, ColumnRef, Node, RowColumnData, merge_bool, compute_expre_node,
  compute_bool_expr_node, process_qual_expr_node, qual_loop, exec_select,
}
use toadb.Expression.Qual.Evaluation.{eval, eval-not_null, process_qual_expr_node-eval}

abbrev int_info : Bool → ExprDataInfo
int_info b = record {
  value_type = ValueType.vt_int;
  size = ℤ.pos 4;
  data_of = Data.i_data (hat_bool b);
}

module _ (float_bool : ExprDataInfo → Option Bool) (float_opf : Op → Option Operator) where
  process-missing :
      (get_col_row_data : ℕ → ColumnRef → Option RowColumnData) (rindex li ri : ℕ) (op : Op)
      (l r : Node) (v w slot : ExprDataInfo)
      → eval float_bool float_opf get_col_row_data li l ≡ some v
      → eval float_bool float_opf get_col_row_data ri r ≡ some w
      → compute_expr float_opf (some v) (some w) op ≡ some none
      → process_qual_expr_node float_bool float_opf get_col_row_data rindex
          (Node.expr_entry li ri op l r)
          slot
        ≡ some (false, w)
  unfolding process_qual_expr_node compute_expre_node
  process-missing get rindex li ri op l r v w slot el er m =
      let p = process_qual_expr_node-eval float_bool float_opf get li l slot v el in
      let q = process_qual_expr_node-eval float_bool float_opf get ri r v w er in
      rw
        (
          eval-not_null float_bool float_opf get li l v el,
          eval-not_null float_bool float_opf get ri r w er,
          p,
          q,
          m,
        )
        refl

  module _ {Row : Type 0} (get_col_row_data : Row → ℕ → ColumnRef → Option RowColumnData) where
    -- If both operands of a comparison have values but the type of the left one has no
    -- function for the operator, ExecSelect returns the row, and for the negated comparison
    -- it goes by the truth of the right operand alone.
    pub exec_select-missing_operator :
        (rindex li ri ni nj : ℕ) (op : Op) (l r : Node) (v w slot : ExprDataInfo) (row : Row)
        (rows : List Row) (b : Bool)
        → eval float_bool float_opf (get_col_row_data row) li l ≡ some v
        → eval float_bool float_opf (get_col_row_data row) ri r ≡ some w
        → compute_expr float_opf (some v) (some w) op ≡ some none
        → get_data_bool float_bool (some w) ≡ some b
        → let test = Node.expr_entry li ri op l r in
          let select = λ (node : Node).
            exec_select float_bool float_opf get_col_row_data rindex
              (some (node ∷ []))
              (row ∷ [])
              slot in
          (select test ≡ some (some row, [], w))
          × ((slot' : ExprDataInfo) × (select
                  (Node.merger_entry ni nj BoolExprType.not_expr test Node.null)
                ≡ some (if b then (none, [], slot') else (some row, [], slot'))))
    unfolding exec_select qual_loop get_data_bool process_qual_expr_node compute_bool_expr_node
        merge_bool get_data_info
    exec_select-missing_operator rindex li ri ni nj op l r v w slot row rows b el er m t =
        let p = process-missing (get_col_row_data row) in
        (
          rw (p rindex li ri op l r v w slot el er m) refl,
          elim (Bool-cases b) [
            | inl e ↦
                let t2 = t ∙ ap some e in
                (int_info false, rw (p ni li ri op l r v w slot el er m, t2, e) refl)
            | inr e ↦
                let t2 = t ∙ ap some e in
                (int_info true, rw (p ni li ri op l r v w slot el er m, t2, e) refl)
          ],
        )
