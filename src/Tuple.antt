-- ===== src/Tuple.antt =====
-- sqlcore/storage/tuple/tuples.c, and GetColumnRefIndexByName and GetDataByIndex of
-- sqlcore/node/parserNode.c: rows made of the values of a statement. Sizes do not overflow an int.
-- An outer `none` is behaviour that C does not define; the bytes of a float are a parameter.
mod Lookup
mod Row
mod Update
mod Missing
mod Tests
use toadb.Base.{
  ℕ, zero, suc, ◌+◌, ◌-◌, ◌*◌, Bool, true, false, List, [], ◌∷◌, Option, none, some, ◌==◌, ltb,
  if◌then◌else◌, ◌>>=◌, ◌||◌, ◌&&◌, not, ℤ, eqz, ◌+ℤ◌, length, drop, replicate,
}
use toadb.Expression.DataTypes.{
  ValueType, Data, Pval, ExprDataInfo, read_int, read_char, read_pointer, zero_int,
}
use toadb.Expression.Qual.{ConstValue}

pub record ColumnDefInfo : Type 0 where
  pub col_name : List ℕ
  pub def_type : ValueType

-- The header of a transaction's visibility, which is filled in when a row is stored, is left out.
pub record RawColumn : Type 0 where
  pub size : ℕ
  pub attrindex : ℕ
  pub contents : Option Pval

pub record TableRowData : Type 0 where
  pub size : ℤ
  pub num : ℕ
  pub column_data : List RawColumn

-- What the memory of a new TableRowData holds before the code writes it: the size, and for each
-- pointer whether it differs from NULL. The size is added to and the pointers are read without being
-- set first.
pub record Fresh : Type 0 where
  pub size : ℤ
  pub pointers : List Bool

-- The memory as AllocMem hands it out: util/mem/memPool.c zeroes every page and uses no block twice.
abbrev pub zeroed_memory : ℕ → Fresh
zeroed_memory col_num = record { size = ℤ.pos 0; pointers = replicate col_num false }

-- sizeof(RowColumnData), with the structure packed.
abbrev pub size_of_row_column_data : ℕ
size_of_row_column_data = 48

abbrev pub size_of_table_row_data : ℕ
size_of_table_row_data = 8

abbrev pub size_of_pointer : ℕ
size_of_pointer = 8

-- strcmp(a, b) == 0
abbrev pub same_bytes : List ℕ → List ℕ → Bool
same_bytes [] [] = true
same_bytes [] (c ∷ t) = false
same_bytes (b ∷ s) [] = false
same_bytes (b ∷ s) (c ∷ t) = (b == c) && same_bytes s t

unfoldable pub index_loop : List ℕ → ℕ → List (List ℕ) → ℤ
index_loop attr_name index [] = ℤ.negsuc 0
index_loop attr_name index (field ∷ fields) =
    if same_bytes attr_name field then ℤ.pos index else index_loop attr_name (suc index) fields

-- The list is given by the fields of its column references; `none` is NULL.
unfoldable pub get_column_ref_index_by_name : List ℕ → Option (List (List ℕ)) → ℤ
get_column_ref_index_by_name attr_name none = ℤ.negsuc 0
get_column_ref_index_by_name attr_name (some fields) = index_loop attr_name 1 fields

unfoldable pub data_loop : ℤ → ℕ → List ConstValue → Option ConstValue
data_loop index count [] = none
data_loop index count (cell ∷ cells) =
    if eqz (ℤ.pos (suc count)) index then some cell else data_loop index (suc count) cells

unfoldable pub get_data_by_index : ℤ → Option (List ConstValue) → Option ConstValue
get_data_by_index index none = none
get_data_by_index index (some cells) = data_loop index 0 cells

-- A byte as the signed char that it is in memory.
abbrev pub signed_char : ℕ → ℤ
signed_char n = if ltb n 128 then ℤ.pos n else ℤ.negsuc (255 - n)

abbrev pub truth_char : Bool → ℤ
truth_char b = if b then ℤ.pos b'T' else ℤ.pos b'F'

abbrev pub char_contents : List ℕ → Option Pval
char_contents [] = none
char_contents (c ∷ s) = some (Pval.to_char (signed_char c))

-- A new column with its size in bytes of data.
abbrev pub column : ℕ → ℕ → Option Pval → RawColumn
column attr_index data_size contents = record {
  size = size_of_row_column_data + data_size;
  attrindex = attr_index;
  contents = contents;
}

abbrev pub any : List Bool → Bool
any [] = false
any (b ∷ bs) = b || any bs

-- A column before the ones that are made after it, and the sum of the sizes.
abbrev pub add_column :
    RawColumn → Option (Option (ℕ × List RawColumn)) → Option (Option (ℕ × List RawColumn))
add_column col none = none
add_column col (some none) = some none
add_column col (some (some (total, cols))) = some (some (col.size + total, col ∷ cols))

module _ (float_bytes : ConstValue → Option Pval) where
  -- The inner `none` is NULL.
  unfoldable pub transform_const_value_row_data :
      ConstValue → ColumnDefInfo → ℕ → Option (Option RawColumn)
  transform_const_value_row_data value def attr_index = elim def.def_type [
    | ValueType.vt_int ↦ do
      i ← read_int value.val
      some (some (column attr_index 4 (some (Pval.to_int i))))
    | ValueType.vt_integer ↦ do
      i ← read_int value.val
      some (some (column attr_index 4 (some (Pval.to_int i))))
    | ValueType.vt_varchar ↦ do
      p ← read_pointer value.val
      s ← p
      some (some (column attr_index (length s + 1) (some (Pval.to_string s))))
    | ValueType.vt_string ↦ do
      p ← read_pointer value.val
      s ← p
      some (some (column attr_index (length s + 1) (some (Pval.to_string s))))
    | ValueType.vt_char ↦ do
      p ← read_pointer value.val
      s ← p
      some (some (column attr_index (if ltb 0 (length s) then 1 else 0) (char_contents s)))
    | ValueType.vt_double ↦ some (some (column attr_index 4 (float_bytes value)))
    | ValueType.vt_float ↦ some (some (column attr_index 4 (float_bytes value)))
    | ValueType.vt_bool ↦ do
      i ← read_int value.val
      some (some (column attr_index 1 (some (Pval.to_char (truth_char (not (eqz i zero_int)))))))
    | ValueType.vt_unknown ↦ some none
    | ValueType.vt_pointer ↦ some none
    | ValueType.vt_max ↦ some none
  ]

  module _ (fresh : Fresh) (target_list : Option (List (List ℕ)))
      (value_list : Option (List ConstValue)) where
    -- The loop of ValuesFormRowData, with the sum of the sizes. Without a value for a column it frees
    -- every pointer that differs from NULL, those it has not yet set included; a column that could not be
    -- made is read through NULL.
    unfoldable pub columns_loop : ℕ → List ColumnDefInfo → Option (Option (ℕ × List RawColumn))
    columns_loop index [] = some (some (0, []))
    columns_loop index (def ∷ defs) =
        let rest = columns_loop (suc index) defs in
        elim (get_column_ref_index_by_name def.col_name target_list) [
          | ℤ.negsuc k ↦ add_column (column index 0 none) rest
          | ℤ.pos k ↦ elim (get_data_by_index (ℤ.pos k) value_list) [
            | none ↦ if any (drop index fresh.pointers) then none else some none
            | some value ↦ do
              made ← transform_const_value_row_data value def index
              col ← made
              add_column col rest
          ]
        ]

    unfoldable pub values_form_row_data : List ColumnDefInfo → Option (Option TableRowData)
    values_form_row_data defs =
        let header = length defs * size_of_pointer + size_of_table_row_data in
        do
          made ← columns_loop 0 defs
          elim made [
            | none ↦ some none
            | some (total, cols) ↦ some (
                some record {
                  size = fresh.size +ℤ ℤ.pos (header + total);
                  num = length defs;
                  column_data = cols;
                })
          ]
