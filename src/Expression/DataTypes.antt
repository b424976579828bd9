-- ===== src/Expression/DataTypes.antt =====
-- sqlcore/dictionary/dataTypes/dataTypes.c: values of expressions. `Data` is the C union with the member
-- that was written last; reading another member is `none`. A string is the list of its bytes before the
-- terminating zero, and its pointer may be NULL. Floating-point members are not modelled.
use toadb.Base.{
  ℕ, Bool, true, false, not, ◌&&◌, List, Option, none, some, ltz, ◌>>=◌, length, ℤ, eqz,
}

pub data ValueType : Type 0 where
  vt_unknown : ValueType
  vt_pointer : ValueType
  vt_int : ValueType
  vt_integer : ValueType
  vt_varchar : ValueType
  vt_string : ValueType
  vt_char : ValueType
  vt_double : ValueType
  vt_float : ValueType
  vt_bool : ValueType
  vt_max : ValueType

pub data Data : Type 0 where
  p_data : Option (List ℕ) → Data
  i_data : ℤ → Data
  c_data : ℤ → Data

pub record ExprDataInfo : Type 0 where
  pub value_type : ValueType
  pub size : ℤ
  pub data_of : Data

abbrev pub read_int : Data → Option ℤ
read_int (Data.i_data i) = some i
read_int d = none

abbrev pub read_char : Data → Option ℤ
read_char (Data.c_data c) = some c
read_char d = none

abbrev pub read_pointer : Data → Option (Option (List ℕ))
read_pointer (Data.p_data p) = some p
read_pointer d = none

-- What `pval` points to.
pub data Pval : Type 0 where
  to_int : ℤ → Pval
  to_char : ℤ → Pval
  to_string : List ℕ → Pval

abbrev pub zero_int : ℤ
zero_int = ℤ.pos 0

abbrev pub size_of_int : ℤ
size_of_int = ℤ.pos 4

-- The cases of `getDataInfo` on a non-NULL `pval` and result. VT_BOOL widens a char into `iData`.
unfoldable pub get_data_info : Pval → ValueType → Option ExprDataInfo
get_data_info (Pval.to_int i) ValueType.vt_int =
    some record { value_type = ValueType.vt_int; size = size_of_int; data_of = Data.i_data i }
get_data_info (Pval.to_int i) ValueType.vt_integer =
    some record { value_type = ValueType.vt_integer; size = size_of_int; data_of = Data.i_data i }
get_data_info (Pval.to_char c) ValueType.vt_char =
    some record { value_type = ValueType.vt_char; size = ℤ.pos 1; data_of = Data.c_data c }
get_data_info (Pval.to_char c) ValueType.vt_bool =
    some record { value_type = ValueType.vt_bool; size = ℤ.pos 1; data_of = Data.i_data c }
get_data_info (Pval.to_string s) ValueType.vt_varchar = some record {
  value_type = ValueType.vt_varchar;
  size = ℤ.pos (length s);
  data_of = Data.p_data (some s);
}
get_data_info (Pval.to_string s) ValueType.vt_string = some record {
  value_type = ValueType.vt_string;
  size = ℤ.pos (length s);
  data_of = Data.p_data (some s);
}
get_data_info p t = none

abbrev pub is_null : Option (List ℕ) → Bool
is_null none = true
is_null (some s) = false

-- `none` is NULL; floating-point values are left to the parameter.
module _ (float_bool : ExprDataInfo → Option Bool) where
  unfoldable pub get_data_bool : Option ExprDataInfo → Option Bool
  get_data_bool none = some true
  get_data_bool (some info) = elim info.value_type [
    | ValueType.vt_pointer ↦ do p ← read_pointer info.data_of; some (not (is_null p))
    | ValueType.vt_int ↦ do i ← read_int info.data_of; some (not (eqz i zero_int))
    | ValueType.vt_integer ↦ do i ← read_int info.data_of; some (not (eqz i zero_int))
    | ValueType.vt_varchar ↦ do
      p ← read_pointer info.data_of
      some (not (is_null p) && ltz zero_int info.size)
    | ValueType.vt_string ↦ do
      p ← read_pointer info.data_of
      some (not (is_null p) && ltz zero_int info.size)
    | ValueType.vt_char ↦ do c ← read_char info.data_of; some (not (eqz c zero_int))
    | ValueType.vt_double ↦ float_bool info
    | ValueType.vt_float ↦ float_bool info
    | ValueType.vt_bool ↦ do i ← read_int info.data_of; some (not (eqz i zero_int))
    | ValueType.vt_unknown ↦ some false
    | ValueType.vt_max ↦ some false
  ]
