-- ===== src/Expression/Operators/Ints.antt =====
-- The operators on ints, and the tables' entry for `<`.
use toadb.Base.{
  ℕ, zero, suc, ◌+◌, ◌-◌, ◌<◌, ◌≡◌, ◌≢◌, refl, ap, ◌∙◌, ◌⊎◌, inl, inr, Bool, true, false, not,
  Option, none, some, ltb, leb, ◌==◌, arith, ℤ, lez, ltz, eqz, abs, of_sign, ◌+ℤ◌, ◌*ℤ◌, quot, rem,
  quot-rem, abs-rem,
}
use toadb.Expression.DataTypes.{ValueType, Data, ExprDataInfo, get_data_info, size_of_int, zero_int}
use toadb.Expression.Operators.{
  Op, Operator, compute_expr, get_data_type_procs, integer_opf, string_opf, char_opf, bool_opf,
  hat_bool, fits, int_max, int32_less_equal_operator, int32_equal_operator,
  int32_greater_equal_operator, int32_greater_operator, int32_not_equal_operator,
  int32_division_operator, int32_mod_operator, int32_negative_operator,
}

abbrev pub int_value : ℤ → ExprDataInfo
int_value i = record { value_type = ValueType.vt_int; size = size_of_int; data_of = Data.i_data i }

abbrev pub answer : Bool → Option (Option ExprDataInfo)
answer b = some (some (int_value (hat_bool b)))

-- An int's place among the ints.
abbrev pub rank : ℤ → ℕ
rank (ℤ.pos n) = suc int_max + n
rank (ℤ.negsuc n) = int_max - n

lez-rank : (a b : ℤ) → fits a ≡ true → fits b ≡ true → lez a b ≡ leb (rank a) (rank b)
lez-rank (ℤ.pos n) (ℤ.pos m) f g = ground arith
lez-rank (ℤ.pos n) (ℤ.negsuc m) f g = ground arith
lez-rank (ℤ.negsuc n) (ℤ.pos m) f g = ground arith
lez-rank (ℤ.negsuc n) (ℤ.negsuc m) f g = ground arith

eqz-rank : (a b : ℤ) → fits a ≡ true → fits b ≡ true → eqz a b ≡ (rank a == rank b)
eqz-rank (ℤ.pos n) (ℤ.pos m) f g = ground arith
eqz-rank (ℤ.pos n) (ℤ.negsuc m) f g = ground arith
eqz-rank (ℤ.negsuc n) (ℤ.pos m) f g = ground arith
eqz-rank (ℤ.negsuc n) (ℤ.negsuc m) f g = ground arith

not-leb : (a b : ℕ) → not (leb a b) ≡ ltb b a
not-leb a b = ground arith

abbrev pub floating : ValueType → Bool
floating ValueType.vt_double = true
floating ValueType.vt_float = true
floating t = false

abs-nonzero : (b : ℤ) → eqz b zero_int ≡ false → abs b ≢ 0
abs-nonzero (ℤ.pos n) h = ground arith
abs-nonzero (ℤ.negsuc n) h = omega arith

module _ (float_opf : Op → Option Operator) where
  abbrev pub on_int_values : ℤ → ℤ → Op → Option (Option ExprDataInfo)
  on_int_values a b op = compute_expr float_opf (some (int_value a)) (some (int_value b)) op

  -- On two ints in range ComputeExpr answers <=, >=, >, = and <> by the order of the numbers.
  pub int_comparisons :
      (a b : ℤ)
      → fits a ≡ true
      → fits b ≡ true
      → (on_int_values a b Op.less_equal ≡ answer (leb (rank a) (rank b)))
        × (on_int_values a b Op.greater_equal ≡ answer (leb (rank b) (rank a)))
        × (on_int_values a b Op.greater ≡ answer (ltb (rank b) (rank a)))
        × (on_int_values a b Op.equal ≡ answer (rank a == rank b))
        × (on_int_values a b Op.not_equal ≡ answer (not (rank a == rank b)))
  unfolding compute_expr get_data_type_procs integer_opf int32_less_equal_operator
      int32_equal_operator int32_greater_equal_operator int32_greater_operator
      int32_not_equal_operator get_data_info
  int_comparisons a b f g =
      let le = lez-rank a b f g in
      let ge = lez-rank b a g f in
      let eq = eqz-rank a b f g in
      (
        ap answer le,
        ap answer ge,
        ap answer (ap not le ∙ not-leb (rank a) (rank b)),
        ap answer eq,
        ap (λ x. answer (not x)) eq,
      )

  -- For a nonzero divisor and a quotient that is an int, ComputeExpr defines / and %,
  -- quotient times divisor plus remainder is the dividend, and the remainder is smaller than
  -- the divisor in absolute value.
  pub int_division :
      (a b : ℤ)
      → eqz b zero_int ≡ false
      → fits (quot a b) ≡ true
      → (q : ℤ) × (r : ℤ) × (on_int_values a b Op.division ≡ some (some (int_value q)))
        × (on_int_values a b Op.modulo ≡ some (some (int_value r)))
        × (q *ℤ b +ℤ r ≡ a)
        × (abs r < abs b)
  unfolding compute_expr get_data_type_procs integer_opf int32_division_operator int32_mod_operator
      get_data_info
  int_division a b nz fit = (
    quot a b,
    rem a b,
    rw (nz, fit) refl,
    rw (nz, fit) refl,
    quot-rem a b,
    abs-rem a b (abs-nonzero b nz),
  )

  -- Unary minus in ComputeExpr answers for every int minus its absolute value, so that a
  -- negative number stays as it is.
  negative_is_minus_abs :
      (a b : ℤ)
      → fits a ≡ true
      → on_int_values a b Op.negative ≡ some (some (int_value (of_sign true (abs a))))
  unfolding compute_expr get_data_type_procs integer_opf int32_negative_operator get_data_info
  negative_is_minus_abs (ℤ.pos zero) b f = refl
  negative_is_minus_abs (ℤ.pos (suc n)) b f =
      let moved : ltz zero_int (ℤ.pos (suc n)) ≡ true = ground arith in
      let fit : ltb n (suc int_max) ≡ true = ground arith in rw (moved, fit) refl
  negative_is_minus_abs (ℤ.negsuc n) b f = refl

  less_entry :
      (t : ValueType)
      → floating t ≡ false
      → (get_data_type_procs float_opf t ≡ none)
        ⊎ ((opf : Op → Option Operator) × (get_data_type_procs float_opf t ≡ some opf)
            × (opf Op.less ≡ opf Op.less_equal))
  unfolding get_data_type_procs integer_opf string_opf char_opf bool_opf
  less_entry ValueType.vt_unknown e = inl refl
  less_entry ValueType.vt_pointer e = inl refl
  less_entry ValueType.vt_int e = inr (_, refl, refl)
  less_entry ValueType.vt_integer e = inr (_, refl, refl)
  less_entry ValueType.vt_varchar e = inr (_, refl, refl)
  less_entry ValueType.vt_string e = inr (_, refl, refl)
  less_entry ValueType.vt_char e = inr (_, refl, refl)
  less_entry ValueType.vt_double e = absurd (cc)
  less_entry ValueType.vt_float e = absurd (cc)
  less_entry ValueType.vt_bool e = inr (_, refl, refl)
  less_entry ValueType.vt_max e = inl refl

  -- For every type of the left operand but the floating-point ones, whose table is not
  -- modelled, ComputeExpr answers < exactly as <=.
  pub less_is_less_equal :
      (l r : ExprDataInfo)
      → floating l.value_type ≡ false
      → compute_expr float_opf (some l) (some r) Op.less
        ≡ compute_expr float_opf (some l) (some r) Op.less_equal
  unfolding compute_expr
  less_is_less_equal l r e = elim (less_entry l.value_type e) [
    | inl no_table ↦ rw (compute_expr, no_table) refl
    | inr (opf, table, same) ↦ rw (compute_expr, table, same) refl
  ]
