-- ===== src/Tuple/Update.antt =====
-- The columns that UPDATE makes: ProcessSetValueExpr and FormNewRowsPos of
-- sqlcore/executor/execSelect.c, with TransformConstExprValue and transFormExpr2RowColumnData of
-- sqlcore/storage/tuple/tuples.c.
pub mod Constants
use toadb.Base.{
  ℕ, zero, suc, ◌+◌, ◌≡◌, refl, Bool, true, false, not, List, [], ◌∷◌, Option, none, some, ◌>>=◌,
  if◌then◌else◌, ◌==◌, leb, ◌&&◌, ℤ, eqz, length, arith,
}
use toadb.Expression.DataTypes.{
  ValueType, Data, Pval, ExprDataInfo, read_int, read_char, read_pointer, zero_int, size_of_int,
}
use toadb.Expression.Qual.{ColumnRef, ConstValue, Node, is_null_node}
use toadb.Tuple.{
  ColumnDefInfo, RawColumn, signed_char, truth_char, column, size_of_row_column_data,
  transform_const_value_row_data,
}

-- *((char *) pData)
abbrev pub first_char : List ℕ → ℤ
first_char [] = zero_int
first_char (c ∷ s) = signed_char c

abbrev info : ValueType → ℤ → Data → ExprDataInfo
info t n d = record { value_type = t; size = n; data_of = d }

-- The inner `none` is NULL; the float is a parameter. A truth value gets the type of a float.
module _ (float_data : ConstValue → Data) where
  unfoldable pub transform_const_expr_value : ConstValue → Option (Option ExprDataInfo)
  transform_const_expr_value c = elim c.vt [
    | ValueType.vt_int ↦ do
      i ← read_int c.val
      some (some (info ValueType.vt_integer size_of_int (Data.i_data i)))
    | ValueType.vt_integer ↦ do
      i ← read_int c.val
      some (some (info ValueType.vt_integer size_of_int (Data.i_data i)))
    | ValueType.vt_varchar ↦ do
      p ← read_pointer c.val
      s ← p
      some (some (info ValueType.vt_string (ℤ.pos (length s + 1)) (Data.p_data (some s))))
    | ValueType.vt_string ↦ do
      p ← read_pointer c.val
      s ← p
      some (some (info ValueType.vt_string (ℤ.pos (length s + 1)) (Data.p_data (some s))))
    | ValueType.vt_char ↦ do
      p ← read_pointer c.val
      s ← p
      some (some (info ValueType.vt_char (ℤ.pos (length s)) (Data.c_data (first_char s))))
    | ValueType.vt_double ↦ some (some (info ValueType.vt_float (ℤ.pos 4) (float_data c)))
    | ValueType.vt_float ↦ some (some (info ValueType.vt_float (ℤ.pos 4) (float_data c)))
    | ValueType.vt_bool ↦ do
      i ← read_int c.val
      some (
          some
            (info ValueType.vt_float (ℤ.pos 1) (Data.c_data (truth_char (not (eqz i zero_int))))))
    | ValueType.vt_unknown ↦ some none
    | ValueType.vt_pointer ↦ some none
    | ValueType.vt_max ↦ some none
  ]

-- The bytes that are left behind the block of a new column in its page of the memory pool, and behind
-- the block of the string that is copied into it.
pub record Behind : Type 0 where
  pub new_column : ℕ
  pub string : ℕ

-- A string is copied with as many bytes more as the column's header has: that is in bounds of the
-- pages, and touches only free bytes behind the new column, where both blocks have as much behind them.
abbrev pub has_room : Behind → Bool
has_room behind =
    leb size_of_row_column_data behind.new_column && leb size_of_row_column_data behind.string

-- A float is written where the data would stand in a column at NULL. `none` is an access outside the pool's
-- pages, or a union read by another member than it was written by.
unfoldable pub trans_form_expr2_row_column_data :
    Behind → Option ExprDataInfo → ℕ → Option (Option RawColumn)
trans_form_expr2_row_column_data behind none attr_index = some none
trans_form_expr2_row_column_data behind (some e) attr_index = elim e.value_type [
  | ValueType.vt_int ↦ do
    i ← read_int e.data_of
    some (some (column attr_index 4 (some (Pval.to_int i))))
  | ValueType.vt_integer ↦ do
    i ← read_int e.data_of
    some (some (column attr_index 4 (some (Pval.to_int i))))
  | ValueType.vt_varchar ↦ do
    p ← read_pointer e.data_of
    s ← p
    if has_room behind
        then some (some (column attr_index (length s + 1) (some (Pval.to_string s))))
        else none
  | ValueType.vt_string ↦ do
    p ← read_pointer e.data_of
    s ← p
    if has_room behind
        then some (some (column attr_index (length s + 1) (some (Pval.to_string s))))
        else none
  | ValueType.vt_char ↦ do
    p ← read_pointer e.data_of
    s ← p
    some (some (column attr_index 1 (some (Pval.to_char (first_char s)))))
  | ValueType.vt_double ↦ none
  | ValueType.vt_float ↦ none
  | ValueType.vt_bool ↦ do
    i ← read_int e.data_of
    some (some (column attr_index 4 (some (Pval.to_char (truth_char (eqz i (ℤ.pos 1)))))))
  | ValueType.vt_unknown ↦ some none
  | ValueType.vt_pointer ↦ some none
  | ValueType.vt_max ↦ some none
]

-- A column to be set; `set_value` is Node.null where there is none.
pub record TargetEntry : Type 0 where
  pub set_value : Node
  pub col_ref : ColumnRef
  pub rindex : ℕ
  pub attr_index : ℕ

-- A parameter gives what ExecSelectQual returns for an expression, where the inner `none` is NULL.
module _ (float_data : ConstValue → Data)
    (exec_select_qual : Node → Option (Option ExprDataInfo)) where
  unfoldable pub process_set_value_expr : Node → Option (Option ExprDataInfo)
  process_set_value_expr (Node.const_value c) = transform_const_expr_value float_data c
  process_set_value_expr node = exec_select_qual node

  -- Whether an index is in the range table, and where GetTblRowDataPosition and GetColRowDataEx find
  -- the old column of the row, or `none` where one of them returns NULL; and the state of the memory pool when
  -- the new column is made.
  module _ {Position : Type 0} (in_range_table : ℕ → Bool)
      (old_position : TargetEntry → Option Position) (behind : TargetEntry → Behind) where
    -- The columns that are in the result at the end of the loop of FormNewRowsPos or its `break`.
    unfoldable pub form_loop : List TargetEntry → Option (List (Position × RawColumn))
    form_loop [] = some []
    form_loop (target ∷ targets) =
        let rest = form_loop targets in
        elim (is_null_node target.set_value) [
          | true ↦ rest
          | false ↦ elim (in_range_table target.rindex) [
            | false ↦ some []
            | true ↦ do
              new_value ← process_set_value_expr target.set_value
              elim new_value [
                | none ↦ some []
                | some value ↦ elim (old_position target) [
                  | none ↦ some []
                  | some position ↦ do
                    made ←
                        trans_form_expr2_row_column_data (behind target) (some value)
                          target.attr_index
                    col ← made
                    cols ← rest
                    some ((position, col) ∷ cols)
                ]
              ]
          ]
        ]

    -- FormNewRowsPos where there is a row and a range table: -1 is the inner `none`.
    unfoldable pub form_new_rows_pos :
        Option (List TargetEntry) → Option (Option (List (Position × RawColumn)))
    form_new_rows_pos none = some none
    form_new_rows_pos (some targets) = do
      cols ← form_loop targets
      some (if length cols == length targets then some cols else none)
