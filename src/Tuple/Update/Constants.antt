-- ===== src/Tuple/Update/Constants.antt =====
-- UPDATE of columns to constants.
use toadb.Base.{
  ℕ, suc, ◌≡◌, refl, sym, ap, ◌∙◌, Bool, true, false, not, List, [], ◌∷◌, ◌++◌, Option, none, some,
  Option-cases, ◌⊎◌, inl, inr, ◌>>=◌, ==_refl, length, append-nil, arith,
}
use toadb.Expression.DataTypes.{ValueType, Data, Pval, ExprDataInfo}
use toadb.Expression.Qual.{ConstValue, Node}
use toadb.Tuple.{ColumnDefInfo, RawColumn, transform_const_value_row_data}
use toadb.Tuple.Update.{
  TargetEntry, transform_const_expr_value, trans_form_expr2_row_column_data, process_set_value_expr,
  form_loop, form_new_rows_pos, Behind, has_room,
}

-- The types of which UPDATE makes a column, in a pool with that many bytes behind the blocks.
abbrev pub is_stored_type : Behind → ValueType → Bool
is_stored_type behind ValueType.vt_int = true
is_stored_type behind ValueType.vt_integer = true
is_stored_type behind ValueType.vt_varchar = has_room behind
is_stored_type behind ValueType.vt_string = has_room behind
is_stored_type behind t = false

-- The other types of values.
abbrev pub is_faulty_type : Behind → ValueType → Bool
is_faulty_type behind ValueType.vt_unknown = false
is_faulty_type behind ValueType.vt_pointer = false
is_faulty_type behind ValueType.vt_max = false
is_faulty_type behind t = not (is_stored_type behind t)

-- A column of the type of a constant.
abbrev pub own_column : ConstValue → ColumnDefInfo
own_column c = record { col_name = []; def_type = c.vt }

bind_self {ℓ} : {A : Type ℓ} (o : Option A) → (o >>= (λ a. some a)) ≡ o
bind_self none = refl
bind_self (some a) = refl

bind-append {ℓ} :
    {A : Type ℓ} (o : Option (List A)) (x : A) (xs : List A)
    → ((o >>= (λ ys. some (xs ++ ys))) >>= (λ zs. some (x ∷ zs)))
      ≡ (o >>= (λ ys. some ((x ∷ xs) ++ ys)))
bind-append none x xs = refl
bind-append (some ys) x xs = refl

module _ (float_data : ConstValue → Data) (float_bytes : ConstValue → Option Pval) where
  set_stored :
      (behind : Behind) (c : ConstValue) (attr_index : ℕ) (col : RawColumn)
      → is_stored_type behind c.vt ≡ true
      → transform_const_value_row_data float_bytes c (own_column c) attr_index ≡ some (some col)
      → (e : ExprDataInfo) × (transform_const_expr_value float_data c ≡ some (some e))
        × (trans_form_expr2_row_column_data behind (some e) attr_index ≡ some (some col))
  unfolding transform_const_expr_value trans_form_expr2_row_column_data
      transform_const_value_row_data
  set_stored behind c attr_index col is made =
      elim (Option-cases (transform_const_expr_value float_data c)) [
        | inl out ↦ absurd (ground arith)
        | inr (none, e) ↦ absurd (ground arith)
        | inr (some v, e) ↦ (v, e, ground arith)
      ]

  set_faulty :
      (behind : Behind) (c : ConstValue) (attr_index : ℕ)
      → is_faulty_type behind c.vt ≡ true
      → (transform_const_expr_value float_data c ≡ none)
        ⊎ ((e : ExprDataInfo) × (transform_const_expr_value float_data c ≡ some (some e))
            × (trans_form_expr2_row_column_data behind (some e) attr_index ≡ none))
  unfolding transform_const_expr_value trans_form_expr2_row_column_data
  set_faulty behind c attr_index is =
      elim (Option-cases (transform_const_expr_value float_data c)) [
        | inl e ↦ inl e
        | inr (none, e) ↦ absurd (ground arith)
        | inr (some v, e) ↦ inr (v, e, ground arith)
      ]

  module _ (exec_select_qual : Node → Option (Option ExprDataInfo)) {Position : Type 0}
      (in_range_table : ℕ → Bool) (old_position : TargetEntry → Option Position)
      (behind : TargetEntry → Behind) where
    -- A target that sets an existing column of its row to a constant.
    abbrev pub SetsConstant : TargetEntry → ConstValue → Position → Type 0
    SetsConstant target c position =
        (target.set_value ≡ Node.const_value c)
        × (in_range_table target.rindex ≡ true)
        × (old_position target ≡ some position)

    -- Targets that set columns to constants of a stored type, of which INSERT makes the given columns.
    pub data SetStored : List TargetEntry → List (Position × RawColumn) → Type 0 where
      done : SetStored [] []
      next :
          (target : TargetEntry) (c : ConstValue) (position : Position) (col : RawColumn)
          {targets : List TargetEntry} {cols : List (Position × RawColumn)}
          → SetsConstant target c position
          → is_stored_type (behind target) c.vt ≡ true
          → transform_const_value_row_data float_bytes c (own_column c) target.attr_index
            ≡ some (some col)
          → SetStored targets cols
          → SetStored (target ∷ targets) ((position, col) ∷ cols)

    abbrev form : List TargetEntry → Option (List (Position × RawColumn))
    form = form_loop float_data exec_select_qual in_range_table old_position behind

    process-constant :
        (target : TargetEntry) (c : ConstValue)
        → target.set_value ≡ Node.const_value c
        → process_set_value_expr float_data exec_select_qual target.set_value
          ≡ transform_const_expr_value float_data c
    unfolding process_set_value_expr
    process-constant target c e = rw e refl

    form_loop-step :
        (target : TargetEntry) (c : ConstValue) (position : Position) (col : RawColumn)
        (targets : List TargetEntry)
        → SetsConstant target c position
        → is_stored_type (behind target) c.vt ≡ true
        → transform_const_value_row_data float_bytes c (own_column c) target.attr_index
          ≡ some (some col)
        → form (target ∷ targets) ≡ (do cols ← form targets; some ((position, col) ∷ cols))
    unfolding form_loop
    form_loop-step target c position col targets (sets, there, found) is made =
        let (e, value, column_made) = set_stored (behind target) c target.attr_index col is made in
        rw (sets, there, process-constant target c sets ∙ value, found, column_made, form_loop) refl

    form_loop-stored :
        (targets rest : List TargetEntry) (cols : List (Position × RawColumn))
        → SetStored targets cols
        → (form (targets ++ rest) ≡ (do more ← form rest; some (cols ++ more)))
          × (length cols ≡ length targets)
    form_loop-stored targets rest cols done = (sym (bind_self (form rest)), refl)
    form_loop-stored targets rest cols
          (next t c position col {targets = ts} {cols = more} sets is made sets_more) =
        let (ih, len) = form_loop-stored ts rest more sets_more in
        (
          form_loop-step t c position col (ts ++ rest) sets is made
              ∙ ap (λ o. o >>= (λ cols. some ((position, col) ∷ cols))) ih
              ∙ bind-append (form rest) (position, col) more,
          ap suc len,
        )

    form_loop-faulty :
        (target : TargetEntry) (c : ConstValue) (position : Position) (targets : List TargetEntry)
        → SetsConstant target c position
        → is_faulty_type (behind target) c.vt ≡ true
        → form (target ∷ targets) ≡ none
    unfolding form_loop
    form_loop-faulty target c position targets (sets, there, found) is =
        elim (set_faulty (behind target) c target.attr_index is) [
          | inl value ↦ rw (sets, there, process-constant target c sets ∙ value, form_loop) refl
          | inr (e, value, faulty) ↦
              rw (sets, there, process-constant target c sets ∙ value, found, faulty, form_loop)
                refl
        ]

    -- If the targets set columns to int constants, or to string constants while both blocks
    -- of the pool have room for the 48 bytes that are copied too many, then FormNewRowsPos
    -- returns for each target, in their order, the place of the old column with the column
    -- that INSERT makes of the constant for a column of the constant's own type; if one
    -- more target among others after them sets a column to a string without that room, or
    -- to a char, bool or floating-point constant, then its behaviour is undefined.
    pub form_new_rows_pos-constants :
        (targets rest : List TargetEntry) (cols : List (Position × RawColumn))
        (target : TargetEntry) (c : ConstValue) (position : Position)
        → SetStored targets cols
        → SetsConstant target c position
        → is_faulty_type (behind target) c.vt ≡ true
        → let form_new =
            form_new_rows_pos float_data exec_select_qual in_range_table old_position behind in
          (form_new (some targets) ≡ some (some cols))
          × (form_new (some (targets ++ target ∷ rest)) ≡ none)
    unfolding form_new_rows_pos form_loop
    form_new_rows_pos-constants targets rest cols target c position stored sets faulty =
        let (alone, len) = form_loop-stored targets [] cols stored in
        let (before, same) = form_loop-stored targets (target ∷ rest) cols stored in
        let e : form targets ≡ some cols =
          ap form (sym (append-nil targets)) ∙ alone ∙ ap some (append-nil cols) in
        let fault = form_loop-faulty target c position rest sets faulty in
        (rw (e, len, ==_refl (length targets)) refl, rw (before, fault) refl)
