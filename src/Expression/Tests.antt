-- ===== src/Expression/Tests.antt =====
-- The theorems on operators at concrete operands.
use toadb.Base.{
  ℕ, List, ◌≡◌, ◌<◌, ◌⊎◌, refl, true, false, not, [], ◌∷◌, Option, none, some, leb, ltb, ◌==◌, ℤ,
  abs, ◌+ℤ◌, ◌*ℤ◌,
}
use toadb.Expression.Operators.{
  Op, Operator, compute_expr, string_greater_operator, string_greater_equal_operator,
  string_equal_operator, string_less_equal_operator, string_less_operator, less_equal_string,
  strncmp,
}
use toadb.Expression.Operators.Ints.{
  int_value, answer, rank, on_int_values, int_comparisons, int_division, less_is_less_equal,
}
use toadb.Expression.Operators.Strings.{
  string_value, reply, less_equal_string-order, string_operators,
}

-- A table of the floating-point types without an operator.
abbrev no_floats : Op → Option Operator
no_floats op = none

int_comparisons_example :
    (on_int_values no_floats (ℤ.negsuc 4) (ℤ.pos 3) Op.less_equal
      ≡ answer (leb (rank (ℤ.negsuc 4)) (rank (ℤ.pos 3))))
    × (on_int_values no_floats (ℤ.negsuc 4) (ℤ.pos 3) Op.greater_equal
        ≡ answer (leb (rank (ℤ.pos 3)) (rank (ℤ.negsuc 4))))
    × (on_int_values no_floats (ℤ.negsuc 4) (ℤ.pos 3) Op.greater
        ≡ answer (ltb (rank (ℤ.pos 3)) (rank (ℤ.negsuc 4))))
    × (on_int_values no_floats (ℤ.negsuc 4) (ℤ.pos 3) Op.equal
        ≡ answer (rank (ℤ.negsuc 4) == rank (ℤ.pos 3)))
    × (on_int_values no_floats (ℤ.negsuc 4) (ℤ.pos 3) Op.not_equal
        ≡ answer (not (rank (ℤ.negsuc 4) == rank (ℤ.pos 3))))
int_comparisons_example = int_comparisons no_floats (ℤ.negsuc 4) (ℤ.pos 3) refl refl

int_division_example :
    (q : ℤ) × (r : ℤ) × (on_int_values no_floats (ℤ.negsuc 6) (ℤ.pos 2) Op.division
      ≡ some (some (int_value q)))
    × (on_int_values no_floats (ℤ.negsuc 6) (ℤ.pos 2) Op.modulo ≡ some (some (int_value r)))
    × (q *ℤ ℤ.pos 2 +ℤ r ≡ ℤ.negsuc 6)
    × (abs r < 2)
int_division_example = int_division no_floats (ℤ.negsuc 6) (ℤ.pos 2) refl refl

less_is_less_equal_example :
    compute_expr no_floats (some (int_value (ℤ.pos 3))) (some (int_value (ℤ.pos 3))) Op.less
    ≡ compute_expr no_floats (some (int_value (ℤ.pos 3))) (some (int_value (ℤ.pos 3))) Op.less_equal
less_is_less_equal_example =
    less_is_less_equal no_floats (int_value (ℤ.pos 3)) (int_value (ℤ.pos 3)) refl

abbrev b_string : List ℕ
b_string = 98 ∷ []

less_equal_string-order_example :
    ((less_equal_string (98 ∷ []) (97 ∷ 97 ∷ []) ≡ true)
      ⊎ (less_equal_string (97 ∷ 97 ∷ []) (98 ∷ []) ≡ true))
    × (less_equal_string (98 ∷ []) (97 ∷ 97 ∷ []) ≡ true
        → less_equal_string (97 ∷ 97 ∷ []) (98 ∷ []) ≡ true
        → b_string ≡ 97 ∷ 97 ∷ [])
    × (less_equal_string (98 ∷ []) (97 ∷ 97 ∷ []) ≡ true
        → less_equal_string (97 ∷ 97 ∷ []) (97 ∷ 98 ∷ []) ≡ true
        → less_equal_string (98 ∷ []) (97 ∷ 98 ∷ []) ≡ true)
less_equal_string-order_example = less_equal_string-order (98 ∷ []) (97 ∷ 97 ∷ []) (97 ∷ 98 ∷ [])

string_operators_example :
    (string_less_equal_operator (string_value (97 ∷ [])) (string_value (98 ∷ [])) ≡ reply true)
    × (string_greater_operator (string_value (97 ∷ [])) (string_value (98 ∷ [])) ≡ reply false)
    × (string_greater_equal_operator (string_value (97 ∷ [])) (string_value (98 ∷ []))
        ≡ reply false)
    × (string_less_operator (string_value (97 ∷ [])) (string_value (98 ∷ [])) ≡ reply true)
    × (string_equal_operator (string_value (97 ∷ [])) (string_value (98 ∷ [])) ≡ reply false)
unfolding strncmp
string_operators_example = string_operators (97 ∷ []) (98 ∷ [])
