-- ===== src/Expression/Operators/Strings.antt =====
-- The order that the string operators compute.
use toadb.Base.{
  ℤ, ℕ_discrete, ℕ, ◌≡◌, ◌⊎◌, inl, refl, ap, Bool, true, not, ◌&&◌, List, [], ◌∷◌, Option, some,
  length, arith,
}
use toadb.Expression.DataTypes.{ValueType, Data, ExprDataInfo}
use toadb.Expression.Operators.{
  strncmp, greater_string, greater_equal_string, equal_string, less_equal_string, less_string,
  is_gt, is_lt, is_eq, hat_bool, int_result, string_greater_operator, string_greater_equal_operator,
  string_equal_operator, string_less_equal_operator, string_less_operator,
}

abbrev pub string_value : List ℕ → ExprDataInfo
string_value s = record {
  value_type = ValueType.vt_string;
  size = ℤ.pos (length s);
  data_of = Data.p_data (some s);
}

-- Lists of one length, by their bytes.
abbrev pub le_bytes : List ℕ → List ℕ → Bool
le_bytes a b = not (is_gt (strncmp a b (length a)))

le_bytes-total :
    (a b : List ℕ) → length a ≡ length b → (le_bytes a b ≡ true) ⊎ (le_bytes b a ≡ true)
unfolding strncmp
le_bytes-total [] b e = inl refl
le_bytes-total (x ∷ a) [] e = absurd (omega arith)
le_bytes-total (x ∷ a) (y ∷ b) e = let ih = le_bytes-total a b (omega arith) in ground (arith, ih)

le_bytes-antisym :
    (a b : List ℕ) → length a ≡ length b → le_bytes a b ≡ true → le_bytes b a ≡ true → a ≡ b
unfolding strncmp
le_bytes-antisym [] [] e h g = refl
le_bytes-antisym [] (y ∷ b) e h g = absurd (omega arith)
le_bytes-antisym (x ∷ a) [] e h g = absurd (omega arith)
le_bytes-antisym (x ∷ a) (y ∷ b) e h g =
    let ih = le_bytes-antisym a b (omega arith) in ground (arith, ih)

le_bytes_trans :
    (a b c : List ℕ)
    → length a ≡ length b
    → length b ≡ length c
    → le_bytes a b ≡ true
    → le_bytes b c ≡ true
    → le_bytes a c ≡ true
unfolding strncmp
le_bytes_trans [] b c e f h g = refl
le_bytes_trans (x ∷ a) [] c e f h g = absurd (omega arith)
le_bytes_trans (x ∷ a) (y ∷ b) [] e f h g = absurd (omega arith)
le_bytes_trans (x ∷ a) (y ∷ b) (z ∷ c) e f h g =
    let ih = le_bytes_trans a b c (omega arith) (omega arith) in ground (arith, ih)

strncmp-flip :
    (a b : List ℕ)
    → length a ≡ length b
    → is_lt (strncmp a b (length a)) ≡ is_gt (strncmp b a (length b))
unfolding strncmp
strncmp-flip [] [] e = refl
strncmp-flip [] (y ∷ b) e = absurd (omega arith)
strncmp-flip (x ∷ a) [] e = absurd (omega arith)
strncmp-flip (x ∷ a) (y ∷ b) e = let ih = strncmp-flip a b (omega arith) in ground (arith, ih)

strncmp-eq :
    (a b : List ℕ)
    → length a ≡ length b
    → is_eq (strncmp a b (length a)) ≡ (le_bytes a b && le_bytes b a)
unfolding strncmp
strncmp-eq [] [] e = refl
strncmp-eq [] (y ∷ b) e = absurd (omega arith)
strncmp-eq (x ∷ a) [] e = absurd (omega arith)
strncmp-eq (x ∷ a) (y ∷ b) e = let ih = strncmp-eq a b (omega arith) in ground (arith, ih)

greater_le : (a b : List ℕ) → greater_string a b ≡ not (less_equal_string a b)
greater_le a b = ground arith

less_le : (a b : List ℕ) → less_string a b ≡ not (less_equal_string b a)
less_le a b = elim (ℕ_discrete (length a) (length b)) [
  | yes e ↦ ground (arith, strncmp-flip a b e)
  | no ne ↦ ground arith
]

greater_equal_le : (a b : List ℕ) → greater_equal_string a b ≡ less_equal_string b a
greater_equal_le a b = elim (ℕ_discrete (length a) (length b)) [
  | yes e ↦ ground (arith, strncmp-flip a b e)
  | no ne ↦ ground arith
]

equal_le : (a b : List ℕ) → equal_string a b ≡ (less_equal_string a b && less_equal_string b a)
equal_le a b = elim (ℕ_discrete (length a) (length b)) [
  | yes e ↦ ground (arith, strncmp-eq a b e)
  | no ne ↦ ground arith
]

less_equal_string-total :
    (a b : List ℕ) → (less_equal_string a b ≡ true) ⊎ (less_equal_string b a ≡ true)
less_equal_string-total a b = elim (ℕ_discrete (length a) (length b)) [
  | yes e ↦ ground (arith, le_bytes-total a b e)
  | no ne ↦ ground arith
]

less_equal_string-antisym :
    (a b : List ℕ) → less_equal_string a b ≡ true → less_equal_string b a ≡ true → a ≡ b
less_equal_string-antisym a b h g = elim (ℕ_discrete (length a) (length b)) [
  | yes e ↦ le_bytes-antisym a b e (ground arith) (ground arith)
  | no ne ↦ absurd (ground arith)
]

less_equal_string_trans :
    (a b c : List ℕ)
    → less_equal_string a b ≡ true
    → less_equal_string b c ≡ true
    → less_equal_string a c ≡ true
less_equal_string_trans a b c h g = elim (ℕ_discrete (length a) (length b)) [
  | no ne ↦ ground arith
  | yes e ↦ elim (ℕ_discrete (length b) (length c)) [
    | no ne ↦ ground arith
    | yes f ↦
        let ab : le_bytes a b ≡ true = ground arith in
        let bc : le_bytes b c ≡ true = ground arith in
        ground (arith, le_bytes_trans a b c e f ab bc)
  ]
]

-- What the string operator <= answers is a total order: of any two strings one is below the
-- other, two strings below each other are the same, and the order is transitive.
pub less_equal_string-order :
    (a b c : List ℕ)
    → ((less_equal_string a b ≡ true) ⊎ (less_equal_string b a ≡ true))
      × (less_equal_string a b ≡ true → less_equal_string b a ≡ true → a ≡ b)
      × (less_equal_string a b ≡ true → less_equal_string b c ≡ true → less_equal_string a c ≡ true)
less_equal_string-order a b c =
    (less_equal_string-total a b, less_equal_string-antisym a b, less_equal_string_trans a b c)

abbrev pub reply : Bool → Option ExprDataInfo
reply b = int_result (hat_bool b)

-- On two strings the operators of stringType.c answer by <=: > is its negation, >= and < are
-- these with the operands swapped, and = holds when each is below the other.
pub string_operators :
    (a b : List ℕ)
    → (string_less_equal_operator (string_value a) (string_value b) ≡ reply (less_equal_string a b))
      × (string_greater_operator (string_value a) (string_value b)
          ≡ reply (not (less_equal_string a b)))
      × (string_greater_equal_operator (string_value a) (string_value b)
          ≡ reply (less_equal_string b a))
      × (string_less_operator (string_value a) (string_value b)
          ≡ reply (not (less_equal_string b a)))
      × (string_equal_operator (string_value a) (string_value b)
          ≡ reply (less_equal_string a b && less_equal_string b a))
unfolding string_less_equal_operator string_greater_operator string_greater_equal_operator
    string_less_operator string_equal_operator
string_operators a b = (
  refl,
  ap reply (greater_le a b),
  ap reply (greater_equal_le a b),
  ap reply (less_le a b),
  ap reply (equal_le a b),
)
