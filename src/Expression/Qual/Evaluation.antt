-- ===== src/Expression/Qual/Evaluation.antt =====
-- The value of a condition without the shared result, and the rows that ExecSelect returns for it.
use toadb.Base.{
  ℕ, ◌≡◌, refl, Bool, true, false, Option, none, some, if◌then◌else◌, ◌>>=◌, Bool-cases,
  Option-cases, bind-some, inl, inr, arith,
}
use toadb.Expression.DataTypes.{ValueType, Data, Pval, ExprDataInfo, get_data_info}
use toadb.Expression.Operators.{Op, Operator, compute_expr, hat_bool}
use toadb.Expression.Qual.{
  ColumnRef, Node, RowColumnData, is_null_node, zero_info, translate_raw_column_data,
  get_expr_data_const_value, get_expr_data_column_value, operand, merge_bool,
  compute_bool_expr_node, compute_expre_node, process_qual_expr_node,
}

abbrev pub has_data : ValueType → Bool
has_data ValueType.vt_unknown = false
has_data ValueType.vt_pointer = false
has_data ValueType.vt_max = false
has_data t = true

translate-has_data :
    (p : Pval) (t : ValueType) (d e : Data)
    → has_data t ≡ true
    → translate_raw_column_data p t d ≡ translate_raw_column_data p t e
unfolding translate_raw_column_data
translate-has_data (Pval.to_int i) t d e h = ground arith
translate-has_data (Pval.to_char i) t d e h = ground arith
translate-has_data (Pval.to_string i) t d e h = ground arith

abbrev column_value : ColumnRef → RowColumnData → Option ExprDataInfo
column_value c col = do
  d ← if has_data c.vt then translate_raw_column_data col.data_of c.vt (Data.p_data none) else none
  some record { value_type = c.vt; size = col.size; data_of = d }

get_expr_data_column_value-some :
    (c : ColumnRef) (col : RowColumnData) (slot v : ExprDataInfo)
    → column_value c col ≡ some v
    → get_expr_data_column_value c (some col) slot ≡ some (true, v)
unfolding get_expr_data_column_value
get_expr_data_column_value-some c col slot v e =
    let same = translate-has_data col.data_of c.vt slot.data_of (Data.p_data none) in
    elim (Option-cases (translate_raw_column_data col.data_of c.vt (Data.p_data none))) [
      | inl none_there ↦ elim (Bool-cases (has_data c.vt)) [
        | inl known ↦ ground arith
        | inr unknown ↦ ground arith
      ]
      | inr (d, there) ↦ elim (Bool-cases (has_data c.vt)) [
        | inl known ↦ let s = same known in ground arith
        | inr unknown ↦ ground arith
      ]
    ]

module _ (float_bool : ExprDataInfo → Option Bool) (float_opf : Op → Option Operator) where
  module _ (get_col_row_data : ℕ → ColumnRef → Option RowColumnData) where
    abbrev child : Node → Option ExprDataInfo → Option ExprDataInfo
    child node value = if is_null_node node then some zero_info else value

    -- The value of a tree of which every part has a value.
    unfoldable pub eval : ℕ → Node → Option ExprDataInfo
    eval rindex Node.null = none
    eval rindex (Node.merger_entry li ri t l r) = do
      a ← child l (eval li l)
      b ← child r (eval ri r)
      result ← merge_bool float_bool t a b
      get_data_info (Pval.to_int (hat_bool result)) ValueType.vt_int
    eval rindex (Node.expr_entry li ri op l r) = do
      a ← child l (eval li l)
      b ← child r (eval ri r)
      result ← compute_expr float_opf (some a) (some b) op
      result
    eval rindex (Node.column_ref c) = do col ← get_col_row_data rindex c; column_value c col
    eval rindex (Node.const_value c) = some (get_expr_data_const_value c)
    eval rindex Node.other = none

    abbrev process : ℕ → Node → ExprDataInfo → Option (Bool × ExprDataInfo)
    process = process_qual_expr_node float_bool float_opf get_col_row_data

    operand-value :
        (rindex : ℕ) (node : Node) (slot v : ExprDataInfo)
        → child node (eval rindex node) ≡ some v
        → ((w : ExprDataInfo)
            → eval rindex node ≡ some w
            → process rindex node slot ≡ some (true, w))
        → (left : ExprDataInfo) × (operand node (process rindex node slot) slot ≡ some (v, left))
    operand-value rindex node slot v e ih = elim (Bool-cases (is_null_node node)) [
      | inl is ↦ (slot, rw is (ground arith))
      | inr not_null ↦ (v, rw (not_null, ih v (ground arith)) refl)
    ]

    -- Where every part of a condition has a value, ProcessQualExprNode returns the value
    -- that a plain recursion over the tree gives, whatever the shared result held before.
    pub process_qual_expr_node-eval :
        (rindex : ℕ) (node : Node) (slot v : ExprDataInfo)
        → eval rindex node ≡ some v
        → process_qual_expr_node float_bool float_opf get_col_row_data rindex node slot
          ≡ some (true, v)
    unfolding process_qual_expr_node eval compute_bool_expr_node compute_expre_node
        get_expr_data_column_value
    process_qual_expr_node-eval rindex Node.null slot v e = absurd (cc)
    process_qual_expr_node-eval rindex (Node.merger_entry li ri t l r) slot v e =
        let (a, ea, e1) = bind-some (child l (eval li l)) _ e in
        let (b, eb, e2) = bind-some (child r (eval ri r)) _ e1 in
        let (result, er, e3) = bind-some (merge_bool float_bool t a b) _ e2 in
        let left = operand-value li l slot a ea (λ w. process_qual_expr_node-eval li l slot w) in
        let right =
          operand-value ri r left.0 b eb (λ w. process_qual_expr_node-eval ri r left.0 w) in
        rw (left.1, right.1, compute_bool_expr_node, er, e3) refl
    process_qual_expr_node-eval rindex (Node.expr_entry li ri op l r) slot v e =
        let (a, ea, e1) = bind-some (child l (eval li l)) _ e in
        let (b, eb, e2) = bind-some (child r (eval ri r)) _ e1 in
        let (result, er, e3) = bind-some (compute_expr float_opf (some a) (some b) op) _ e2 in
        let left = operand-value li l slot a ea (λ w. process_qual_expr_node-eval li l slot w) in
        let right =
          operand-value ri r left.0 b eb (λ w. process_qual_expr_node-eval ri r left.0 w) in
        rw (left.1, right.1, compute_expre_node, er, e3) refl
    process_qual_expr_node-eval rindex (Node.column_ref c) slot v e =
        let (col, ec, e1) = bind-some (get_col_row_data rindex c) _ e in
        rw ec (get_expr_data_column_value-some c col slot v e1)
    process_qual_expr_node-eval rindex (Node.const_value c) slot v e = ground arith
    process_qual_expr_node-eval rindex Node.other slot v e = absurd (cc)

    pub eval-not_null :
        (rindex : ℕ) (node : Node) (v : ExprDataInfo)
        → eval rindex node ≡ some v
        → is_null_node node ≡ false
    unfolding eval
    eval-not_null rindex Node.null v e = absurd (cc)
    eval-not_null rindex (Node.merger_entry li ri t l r) v e = refl
    eval-not_null rindex (Node.expr_entry li ri op l r) v e = refl
    eval-not_null rindex (Node.column_ref c) v e = refl
    eval-not_null rindex (Node.const_value c) v e = refl
    eval-not_null rindex Node.other v e = refl
