-- ===== src/Expression/Qual/Conditions.antt =====
-- ExecSelect on conditions that combine atoms by AND, OR and NOT.
use toadb.Base.{
  ℕ, ◌≡◌, refl, ap, ◌∙◌, Bool, true, false, not, ◌&&◌, ◌||◌, List, [], ◌∷◌, Option, none, some,
  if◌then◌else◌, ℤ, Bool-cases, inl, inr, arith,
}
use toadb.Expression.DataTypes.{ValueType, Data, ExprDataInfo, get_data_info, get_data_bool}
use toadb.Expression.Operators.{Op, Operator, hat_bool}
use toadb.Expression.Qual.{
  BoolExprType, ColumnRef, Node, RowColumnData, merge_bool, qual_loop, exec_select,
}
use toadb.Expression.Qual.Evaluation.{eval, eval-not_null, process_qual_expr_node-eval}

-- A combination of atoms, which has the entries of the range table that its nodes carry.
pub data Cond : Type 0 where
  atom : ℕ → Cond
  both : ℕ → ℕ → Cond → Cond → Cond
  either : ℕ → ℕ → Cond → Cond → Cond
  negated : ℕ → ℕ → Cond → Cond

-- The tree for a combination, and its truth.
unfoldable pub node_of : (ℕ → Node) → Cond → Node
node_of atoms (Cond.atom i) = atoms i
node_of atoms (Cond.both li ri c d) =
    Node.merger_entry li ri BoolExprType.and_expr (node_of atoms c) (node_of atoms d)
node_of atoms (Cond.either li ri c d) =
    Node.merger_entry li ri BoolExprType.or_expr (node_of atoms c) (node_of atoms d)
node_of atoms (Cond.negated li ri c) =
    Node.merger_entry li ri BoolExprType.not_expr (node_of atoms c) Node.null

unfoldable pub is_true : (ℕ → Bool) → Cond → Bool
is_true vals (Cond.atom i) = vals i
is_true vals (Cond.both li ri c d) = is_true vals c && is_true vals d
is_true vals (Cond.either li ri c d) = is_true vals c || is_true vals d
is_true vals (Cond.negated li ri c) = not (is_true vals c)

-- The first row that is kept and the rows after it.
unfoldable pub first_kept : {Row : Type 0} → (Row → Bool) → List Row → Option Row × List Row
first_kept keep [] = (none, [])
first_kept keep (row ∷ rows) =
    let rest = first_kept keep rows in if keep row then (some row, rows) else rest

module _ (float_bool : ExprDataInfo → Option Bool) (float_opf : Op → Option Operator) where
  module _ (get_col_row_data : ℕ → ColumnRef → Option RowColumnData) where
    -- A tree that has a value, of this truth.
    pub record HasTruth (rindex : ℕ) (node : Node) (b : Bool) : Type 0 where
      pub value : ExprDataInfo
      pub evaluated : eval float_bool float_opf get_col_row_data rindex node ≡ some value
      pub truth : get_data_bool float_bool (some value) ≡ some b

    abbrev int_bool : Bool → ExprDataInfo
    int_bool b = record {
      value_type = ValueType.vt_int;
      size = ℤ.pos 4;
      data_of = Data.i_data (hat_bool b);
    }

    int_bool-truth : (b : Bool) → get_data_bool float_bool (some (int_bool b)) ≡ some b
    unfolding get_data_bool
    int_bool-truth true = refl
    int_bool-truth false = refl

    merger-HasTruth :
        (rindex li ri : ℕ) (t : BoolExprType) (l r : Node) (a b c : Bool)
        → HasTruth li l a
        → HasTruth ri r b
        → ((v w : ExprDataInfo)
            → get_data_bool float_bool (some v) ≡ some a
            → get_data_bool float_bool (some w) ≡ some b
            → merge_bool float_bool t v w ≡ some c)
        → HasTruth rindex (Node.merger_entry li ri t l r) c
    unfolding eval get_data_info
    merger-HasTruth rindex li ri t l r a b c h g m = record {
      value = int_bool c;
      evaluated =
          rw
            (
              eval-not_null float_bool float_opf get_col_row_data li l h.value h.evaluated,
              eval-not_null float_bool float_opf get_col_row_data ri r g.value g.evaluated,
              h.evaluated,
              g.evaluated,
              m h.value g.value h.truth g.truth,
            )
            refl;
      truth = int_bool-truth c;
    }

    node_of-HasTruth :
        (atoms : ℕ → Node) (vals : ℕ → Bool)
        → ((rindex i : ℕ) → HasTruth rindex (atoms i) (vals i))
        → (c : Cond) (rindex : ℕ) → HasTruth rindex (node_of atoms c) (is_true vals c)
    unfolding node_of is_true merge_bool eval get_data_info
    node_of-HasTruth atoms vals h (Cond.atom i) rindex = h rindex i
    node_of-HasTruth atoms vals h (Cond.both li ri c d) rindex =
        merger-HasTruth rindex li ri BoolExprType.and_expr (node_of atoms c) (node_of atoms d)
          (is_true vals c) (is_true vals d) (is_true vals c && is_true vals d)
          (node_of-HasTruth atoms vals h c li) (node_of-HasTruth atoms vals h d ri)
          (λ v w e f. ground arith)
    node_of-HasTruth atoms vals h (Cond.either li ri c d) rindex =
        merger-HasTruth rindex li ri BoolExprType.or_expr (node_of atoms c) (node_of atoms d)
          (is_true vals c) (is_true vals d) (is_true vals c || is_true vals d)
          (node_of-HasTruth atoms vals h c li) (node_of-HasTruth atoms vals h d ri)
          (λ v w e f. ground arith)
    node_of-HasTruth atoms vals h (Cond.negated li ri c) rindex =
        let g = node_of-HasTruth atoms vals h c li in
        record {
          value = int_bool (not (is_true vals c));
          evaluated =
              rw
                (
                  eval-not_null float_bool float_opf get_col_row_data li (node_of atoms c) g.value
                      g.evaluated,
                  g.evaluated,
                  g.truth,
                )
                refl;
          truth = int_bool-truth (not (is_true vals c));
        }

  module _ {Row : Type 0} (get_col_row_data : Row → ℕ → ColumnRef → Option RowColumnData) where
    -- For a condition that combines atoms by AND, OR and NOT, each of which has a truth
    -- value in every row, ExecSelect returns the first row for which the combination of
    -- these truth values is true, or no row if there is none, and leaves the rows after it.
    pub exec_select-first :
        (rindex : ℕ) (atoms : ℕ → Node) (vals : Row → ℕ → Bool) (c : Cond) (rows : List Row)
        (slot : ExprDataInfo)
        → ((row : Row) (index i : ℕ) → HasTruth (get_col_row_data row) index (atoms i) (vals row i))
        → let kept = first_kept (λ row. is_true (vals row) c) rows in
          (slot' : ExprDataInfo) × (exec_select float_bool float_opf get_col_row_data rindex
              (some (node_of atoms c ∷ []))
              rows
              slot
            ≡ some (kept.0, kept.1, slot'))
    unfolding exec_select qual_loop first_kept
    exec_select-first rindex atoms vals c [] slot h = (slot, refl)
    exec_select-first rindex atoms vals c (row ∷ rows) slot h =
        let t = node_of-HasTruth (get_col_row_data row) atoms (vals row) (h row) c rindex in
        let p =
          process_qual_expr_node-eval float_bool float_opf (get_col_row_data row) rindex
            (node_of atoms c) slot t.value t.evaluated in
        let ih = exec_select-first rindex atoms vals c rows t.value h in
        elim (Bool-cases (is_true (vals row) c)) [
          | inl e ↦ let truth = t.truth ∙ ap some e in (t.value, rw (p, truth, e) refl)
          | inr e ↦
              let truth = t.truth ∙ ap some e in
              (ih.0, rw (exec_select, qual_loop, p, truth, e, ih.1) refl)
        ]
