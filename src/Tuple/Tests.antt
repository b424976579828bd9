-- ===== src/Tuple/Tests.antt =====
-- A table of a string, an int and a truth value, whose rows are given by name.
use toadb.Base.{
  ℕ, zero, suc, ◌+◌, ◌*◌, ◌<◌, ◌≡◌, ◌≢◌, refl, Bool, true, false, List, [], ◌∷◌, ◌++◌, Option, none,
  some, inl, inr, ℤ, ◌+ℤ◌, get_elem?, length, if◌then◌else◌, ◌==◌, ◌⊎◌, arith,
}
use toadb.Expression.DataTypes.{ValueType, Data, Pval, ExprDataInfo}
use toadb.Expression.Qual.{ConstValue, Node}
use toadb.Tuple.{
  ColumnDefInfo, RawColumn, TableRowData, Fresh, zeroed_memory, size_of_pointer,
  size_of_table_row_data, column, get_column_ref_index_by_name, index_loop, get_data_by_index,
  data_loop, transform_const_value_row_data, columns_loop, values_form_row_data,
}
use toadb.Tuple.Lookup.{IsFirst, IsAbsent}
use toadb.Tuple.Row.{stored, AllSupplied, IsFilled, sum_sizes, values_form_row_data-round_trip}
use toadb.Tuple.Missing.{AllOffered, HasMissing, values_form_row_data-missing}
use toadb.Tuple.Update.{TargetEntry, Behind, form_new_rows_pos}
use toadb.Tuple.Update.Constants.{SetStored, form_new_rows_pos-constants}

abbrev no_bytes : ConstValue → Option Pval
no_bytes c = none

abbrev no_data : ConstValue → Data
no_data c = Data.p_data none

abbrev name_def : ColumnDefInfo
name_def = record { col_name = b'n' ∷ []; def_type = ValueType.vt_varchar }

abbrev int_def : ColumnDefInfo
int_def = record { col_name = b'a' ∷ []; def_type = ValueType.vt_int }

abbrev flag_def : ColumnDefInfo
flag_def = record { col_name = b'f' ∷ []; def_type = ValueType.vt_bool }

-- (a, n)
abbrev names : List (List ℕ)
names = (b'a' ∷ []) ∷ (b'n' ∷ []) ∷ []

abbrev seven : ConstValue
seven = record { val = Data.i_data (ℤ.pos 7); vt = ValueType.vt_int; isnull = false }

abbrev word : ConstValue
word = record {
  val = Data.p_data (some (b'x' ∷ b'y' ∷ []));
  vt = ValueType.vt_string;
  isnull = false;
}

abbrev used : Fresh
used = record { size = ℤ.pos 9; pointers = true ∷ true ∷ false ∷ [] }

name-IsFirst : IsFirst names name_def.col_name 1
name-IsFirst = (
  refl,
  λ j. elim j as (λ i. i < 1 → get_elem? names i ≢ some name_def.col_name) [
    | zero ↦ λ lt e. ground arith
    | suc i ↦ λ lt e. omega arith
  ],
)

int-IsFirst : IsFirst names int_def.col_name 0
int-IsFirst = (refl, λ j lt e. omega arith)

flag-IsAbsent : IsAbsent names flag_def.col_name
flag-IsAbsent zero e = ground arith
flag-IsAbsent (suc zero) e = ground arith
flag-IsAbsent (suc (suc j)) e = absurd (cc)

supplied : AllSupplied names (seven ∷ word ∷ []) (name_def ∷ int_def ∷ flag_def ∷ [])
unfolding stored
supplied = (
  inr (1, word, word.val, name-IsFirst, refl, refl),
  (inr (0, seven, seven.val, int-IsFirst, refl, refl), (inl flag-IsAbsent, record {})),
)

values_form_row_data-round_trip_example :
    let defs = name_def ∷ int_def ∷ flag_def ∷ [] in
    (row : TableRowData) × (values_form_row_data no_bytes used
        (some names)
        (some (seven ∷ word ∷ []))
        defs
      ≡ some (some row))
    × (row.num ≡ 3)
    × (length row.column_data ≡ row.num)
    × (row.size
        ≡ used.size
          +ℤ ℤ.pos (row.num * size_of_pointer + size_of_table_row_data + sum_sizes row.column_data))
    × ((i : ℕ) (def : ColumnDefInfo)
        → get_elem? defs i ≡ some def
        → (col : RawColumn) × (get_elem? row.column_data i ≡ some col)
          × IsFilled names (seven ∷ word ∷ []) i def col)
values_form_row_data-round_trip_example =
    values_form_row_data-round_trip no_bytes used names (seven ∷ word ∷ [])
      (name_def ∷ int_def ∷ flag_def ∷ []) supplied

-- The same row, computed: 32 bytes of header after the 9 that the memory held, and 51 + 52 + 48.
row :
    values_form_row_data no_bytes used
      (some names)
      (some (seven ∷ word ∷ []))
      (name_def ∷ int_def ∷ flag_def ∷ [])
    ≡ some (
        some record {
          size = ℤ.pos 192;
          num = 3;
          column_data =
              column 0 3 (some (Pval.to_string (b'x' ∷ b'y' ∷ [])))
              ∷ column 1 4 (some (Pval.to_int (ℤ.pos 7)))
              ∷ column 2 0 none
              ∷ [];
        })
unfolding values_form_row_data columns_loop get_column_ref_index_by_name index_loop
    get_data_by_index data_loop transform_const_value_row_data
row = refl

offered : AllOffered names (seven ∷ []) (int_def ∷ name_def ∷ flag_def ∷ [])
unfolding stored
offered = (
  inl (inr (0, seven, seven.val, int-IsFirst, refl, refl)),
  (inr (1, name-IsFirst, refl), (inl (inl flag-IsAbsent), tt)),
)

values_form_row_data-missing_example :
    let defs = int_def ∷ name_def ∷ flag_def ∷ [] in
    let result =
      values_form_row_data no_bytes (zeroed_memory 3) (some names) (some (seven ∷ [])) defs in
    (AllSupplied names (seven ∷ []) defs × (row : TableRowData) × (result ≡ some (some row)))
    ⊎ (HasMissing names (seven ∷ []) defs × (result ≡ some none))
values_form_row_data-missing_example =
    values_form_row_data-missing no_bytes names (seven ∷ []) (int_def ∷ name_def ∷ flag_def ∷ [])
      offered

-- The value for n is missing.
refused :
    values_form_row_data no_bytes
      (zeroed_memory 3)
      (some names)
      (some (seven ∷ []))
      (int_def ∷ name_def ∷ flag_def ∷ [])
    ≡ some none
unfolding values_form_row_data columns_loop get_column_ref_index_by_name index_loop
    get_data_by_index data_loop transform_const_value_row_data
refused = refl

-- SET a = 7, n = 'xy' on a row whose old columns stand at 0 and 1
abbrev set_to : ConstValue → ColumnDefInfo → ℕ → TargetEntry
set_to c def attr_index = record {
  set_value = Node.const_value c;
  col_ref = record { field = def.col_name; table_name = b't' ∷ []; vt = def.def_type };
  rindex = 1;
  attr_index = attr_index;
}

abbrev no_expression : Node → Option (Option ExprDataInfo)
no_expression node = some none

abbrev in_table : ℕ → Bool
in_table i = true

abbrev at_index : TargetEntry → Option ℕ
at_index target = some target.attr_index

-- Pages with much room, and the page of column 2 with little.
abbrev behind : TargetEntry → Behind
behind target =
    if target.attr_index == 2
    then record { new_column = 10; string = 400 }
    else record { new_column = 300; string = 400 }

abbrev set_columns : List TargetEntry
set_columns = set_to seven int_def 1 ∷ set_to word name_def 0 ∷ []

abbrev new_columns : List (ℕ × RawColumn)
new_columns =
    (1, column 1 4 (some (Pval.to_int (ℤ.pos 7))))
    ∷ (0, column 0 3 (some (Pval.to_string (b'x' ∷ b'y' ∷ []))))
    ∷ []

stored_set :
    SetStored no_data no_bytes no_expression in_table at_index behind set_columns new_columns
unfolding transform_const_value_row_data
stored_set =
    SetStored.next (set_to seven int_def 1) seven 1 (column 1 4 (some (Pval.to_int (ℤ.pos 7))))
      (refl, refl, refl) refl refl
      (SetStored.next (set_to word name_def 0) word 0
        (column 0 3 (some (Pval.to_string (b'x' ∷ b'y' ∷ [])))) (refl, refl, refl) refl refl
        SetStored.done)

form_new_rows_pos-constants_example :
    let form_new = form_new_rows_pos no_data no_expression in_table at_index behind in
    (form_new (some set_columns) ≡ some (some new_columns))
    × (form_new (some (set_columns ++ set_to word name_def 2 ∷ [])) ≡ none)
form_new_rows_pos-constants_example =
    form_new_rows_pos-constants no_data no_bytes no_expression in_table at_index behind set_columns
      [] new_columns (set_to word name_def 2) word 2 stored_set (refl, refl, refl) refl
