-- ===== src/Expression/Operators.antt =====
-- The operator tables of sqlcore/dictionary/dataTypes/datatypes and `ComputeExpr`. An operator's result
-- `none` is behaviour that C does not define: an int overflow, a division by zero, a NULL string or a
-- union member that was not written. What the string operators write back into the operands' `size`
-- is left out; nothing reads it later.
pub mod Ints
pub mod Strings
use Prim.Native.Nat.{compare, Ordering}
use toadb.Base.{
  ℕ, zero, suc, ◌^◌, Bool, true, false, not, List, [], ◌∷◌, Option, none, some, ltb, ◌==◌,
  if◌then◌else◌, ◌>>=◌, length, ℤ, lez, ltz, eqz, abs, is_negative, negℤ, ◌+ℤ◌, ◌*ℤ◌, quot, rem,
}
use toadb.Expression.DataTypes.{
  ValueType, Data, ExprDataInfo, Pval, read_int, read_pointer, get_data_info, zero_int,
}

pub data Op : Type 0 where
  less : Op
  less_equal : Op
  equal : Op
  greater_equal : Op
  greater : Op
  not_equal : Op
  positive : Op
  negative : Op
  plus : Op
  minus : Op
  multiple : Op
  division : Op
  modulo : Op
  bool_value : Op

abbrev pub Operator : Type 0
Operator = ExprDataInfo → ExprDataInfo → Option ExprDataInfo

-- `HAT_TRUE` and `HAT_FALSE`.
abbrev pub hat_bool : Bool → ℤ
hat_bool true = ℤ.pos 1
hat_bool false = ℤ.pos 0

abbrev pub int_result : ℤ → Option ExprDataInfo
unfolding get_data_info
int_result i = get_data_info (Pval.to_int i) ValueType.vt_int

abbrev pub int_max : ℕ
int_max = 2147483647

abbrev pub fits : ℤ → Bool
fits (ℤ.pos n) = ltb n (suc int_max)
fits (ℤ.negsuc n) = ltb n (suc int_max)

-- An int result, if it is in the range of int.
abbrev pub check_int : ℤ → Option ℤ
check_int i = if fits i then some i else none

abbrev pub on_ints : (ℤ → ℤ → Option ℤ) → Operator
on_ints f l r = do
  first ← read_int l.data_of
  second ← read_int r.data_of
  result ← f first second
  int_result result

abbrev pub test_ints : (ℤ → ℤ → Bool) → Operator
test_ints f = on_ints (λ a b. some (hat_bool (f a b)))

unfoldable pub int32_less_equal_operator : Operator
int32_less_equal_operator = test_ints lez

unfoldable pub int32_less_operator : Operator
int32_less_operator = test_ints ltz

unfoldable pub int32_equal_operator : Operator
int32_equal_operator = test_ints eqz

unfoldable pub int32_greater_equal_operator : Operator
int32_greater_equal_operator = test_ints (λ a b. lez b a)

unfoldable pub int32_greater_operator : Operator
int32_greater_operator = test_ints (λ a b. ltz b a)

unfoldable pub int32_not_equal_operator : Operator
int32_not_equal_operator = test_ints (λ a b. not (eqz a b))

abbrev pub on_first : (ℤ → Option ℤ) → Operator
on_first f l r = do first ← read_int l.data_of; result ← f first; int_result result

unfoldable pub int32_positive_operator : Operator
int32_positive_operator = on_first (λ a. if lez zero_int a then some a else check_int (negℤ a))

unfoldable pub int32_negative_operator : Operator
int32_negative_operator = on_first (λ a. if ltz zero_int a then check_int (negℤ a) else some a)

unfoldable pub int32_plus_operator : Operator
int32_plus_operator = on_ints (λ a b. check_int (a +ℤ b))

unfoldable pub int32_minus_operator : Operator
int32_minus_operator = on_ints (λ a b. check_int (a +ℤ negℤ b))

unfoldable pub int32_multi_operator : Operator
int32_multi_operator = on_ints (λ a b. check_int (a *ℤ b))

unfoldable pub int32_division_operator : Operator
int32_division_operator = on_ints (λ a b. if eqz b zero_int then none else check_int (quot a b))

-- Where the quotient is not an int, `%` is not defined either.
unfoldable pub int32_mod_operator : Operator
int32_mod_operator =
    on_ints (λ a b. if eqz b zero_int then none else (do q ← check_int (quot a b); some (rem a b)))

-- `strncmp` of two strings, whose ends read as 0.
unfoldable pub strncmp : List ℕ → List ℕ → ℕ → Ordering
strncmp a b zero = Ordering.eq
strncmp [] [] (suc len) = Ordering.eq
strncmp [] (y ∷ b) (suc len) = compare 0 y
strncmp (x ∷ a) [] (suc len) = compare x 0
strncmp (x ∷ a) (y ∷ b) (suc len) =
    let rest = strncmp a b len in
    elim (compare x y) [
      | Ordering.lt ↦ Ordering.lt
      | Ordering.gt ↦ Ordering.gt
      | Ordering.eq ↦ rest
    ]

-- The comparison in the string operators: by length, then by bytes. The operators differ in what they
-- answer for a shorter, an equally long and a longer first operand.
abbrev pub by_length : Bool → Bool → Bool → ℕ → ℕ → Bool
by_length shorter same longer left_size right_size = elim (compare left_size right_size) [
  | Ordering.gt ↦ longer
  | Ordering.lt ↦ shorter
  | Ordering.eq ↦ same
]

abbrev pub on_strings : (List ℕ → List ℕ → Bool) → Operator
on_strings f l r = do
  str1 ← read_pointer l.data_of
  str2 ← read_pointer r.data_of
  a ← str1
  b ← str2
  int_result (hat_bool (f a b))

abbrev pub is_lt : Ordering → Bool
is_lt o = elim o [ Ordering.lt ↦ true | _ ↦ false ]

abbrev pub is_eq : Ordering → Bool
is_eq o = elim o [ Ordering.eq ↦ true | _ ↦ false ]

abbrev pub is_gt : Ordering → Bool
is_gt o = elim o [ Ordering.gt ↦ true | _ ↦ false ]

abbrev pub greater_string : List ℕ → List ℕ → Bool
greater_string a b = by_length false (is_gt (strncmp a b (length a))) true (length a) (length b)

abbrev pub greater_equal_string : List ℕ → List ℕ → Bool
greater_equal_string a b =
    by_length false (not (is_lt (strncmp a b (length a)))) true (length a) (length b)

abbrev pub equal_string : List ℕ → List ℕ → Bool
equal_string a b = by_length false (is_eq (strncmp a b (length a))) false (length a) (length b)

abbrev pub less_equal_string : List ℕ → List ℕ → Bool
less_equal_string a b =
    by_length true (not (is_gt (strncmp a b (length a)))) false (length a) (length b)

abbrev pub less_string : List ℕ → List ℕ → Bool
less_string a b = by_length true (is_lt (strncmp a b (length a))) false (length a) (length b)

unfoldable pub string_greater_operator : Operator
string_greater_operator = on_strings greater_string

unfoldable pub string_greater_equal_operator : Operator
string_greater_equal_operator = on_strings greater_equal_string

unfoldable pub string_equal_operator : Operator
string_equal_operator = on_strings equal_string

unfoldable pub string_less_equal_operator : Operator
string_less_equal_operator = on_strings less_equal_string

unfoldable pub string_less_operator : Operator
string_less_operator = on_strings less_string

-- `charType.c` compares the first byte behind `pData`.
abbrev pub on_chars : (Ordering → Bool) → Operator
on_chars f = on_strings (λ a b. f (strncmp a b 1))

unfoldable pub char_greater_operator : Operator
char_greater_operator = on_chars is_gt

unfoldable pub char_greater_equal_operator : Operator
char_greater_equal_operator = on_chars (λ o. not (is_lt o))

unfoldable pub char_equal_operator : Operator
char_equal_operator = on_chars is_eq

unfoldable pub char_less_equal_operator : Operator
char_less_equal_operator = on_chars (λ o. not (is_gt o))

unfoldable pub bool_equal_operator : Operator
bool_equal_operator = test_ints eqz

unfoldable pub bool_not_equal_operator : Operator
bool_not_equal_operator = test_ints (λ a b. not (eqz a b))

-- The tables; `none` is a NULL entry.
unfoldable pub integer_opf : Op → Option Operator
integer_opf Op.less = some int32_less_equal_operator
integer_opf Op.less_equal = some int32_less_equal_operator
integer_opf Op.equal = some int32_equal_operator
integer_opf Op.greater_equal = some int32_greater_equal_operator
integer_opf Op.greater = some int32_greater_operator
integer_opf Op.not_equal = some int32_not_equal_operator
integer_opf Op.positive = some int32_positive_operator
integer_opf Op.negative = some int32_negative_operator
integer_opf Op.plus = some int32_plus_operator
integer_opf Op.minus = some int32_minus_operator
integer_opf Op.multiple = some int32_multi_operator
integer_opf Op.division = some int32_division_operator
integer_opf Op.modulo = some int32_mod_operator
integer_opf Op.bool_value = none

unfoldable pub string_opf : Op → Option Operator
string_opf Op.less = some string_less_equal_operator
string_opf Op.less_equal = some string_less_equal_operator
string_opf Op.equal = some string_equal_operator
string_opf Op.greater_equal = some string_greater_equal_operator
string_opf Op.greater = some string_greater_operator
string_opf op = none

unfoldable pub char_opf : Op → Option Operator
char_opf Op.less = some char_less_equal_operator
char_opf Op.less_equal = some char_less_equal_operator
char_opf Op.equal = some char_equal_operator
char_opf Op.greater_equal = some char_greater_equal_operator
char_opf Op.greater = some char_greater_operator
char_opf op = none

unfoldable pub bool_opf : Op → Option Operator
bool_opf Op.equal = some bool_equal_operator
bool_opf Op.not_equal = some bool_not_equal_operator
bool_opf op = none

-- The outer `none` is behaviour that C does not define, the inner one NULL. The table of the
-- floating-point types, floatType.c, is a parameter.
module _ (float_opf : Op → Option Operator) where
  unfoldable pub get_data_type_procs : ValueType → Option (Op → Option Operator)
  get_data_type_procs ValueType.vt_unknown = none
  get_data_type_procs ValueType.vt_pointer = none
  get_data_type_procs ValueType.vt_int = some integer_opf
  get_data_type_procs ValueType.vt_integer = some integer_opf
  get_data_type_procs ValueType.vt_varchar = some string_opf
  get_data_type_procs ValueType.vt_string = some string_opf
  get_data_type_procs ValueType.vt_char = some char_opf
  get_data_type_procs ValueType.vt_double = some float_opf
  get_data_type_procs ValueType.vt_float = some float_opf
  get_data_type_procs ValueType.vt_bool = some bool_opf
  get_data_type_procs ValueType.vt_max = none

  abbrev pub run_operator :
      Option Operator → ExprDataInfo → ExprDataInfo → Option (Option ExprDataInfo)
  run_operator none left right = some none
  run_operator (some f) left right = do result ← f left right; some (some result)

  unfoldable pub compute_expr :
      Option ExprDataInfo → Option ExprDataInfo → Op → Option (Option ExprDataInfo)
  compute_expr (some left) (some right) op = elim (get_data_type_procs left.value_type) [
    | none ↦ some none
    | some opf ↦ run_operator (opf op) left right
  ]
  compute_expr left right op = some none
