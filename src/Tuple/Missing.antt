-- ===== src/Tuple/Missing.antt =====
-- Rows of a statement with fewer values than names.
use toadb.Base.{
  ℕ, zero, suc, ◌+◌, ◌≡◌, refl, ap, ◌∙◌, Bool, true, false, List, [], ◌∷◌, ◌++◌, Option, none, some,
  if◌then◌else◌, inl, inr, get_elem?, length, drop, arith, replicate, ◌⊎◌,
}
use toadb.Expression.DataTypes.{Pval}
use toadb.Expression.Qual.{ConstValue}
use toadb.Tuple.{
  ColumnDefInfo, zeroed_memory, TableRowData, RawColumn, Fresh, any, add_column, columns_loop,
  values_form_row_data,
}
use toadb.Tuple.Lookup.{IsFirst, get_column_ref_index_by_name-first, get_data_by_index-position}
use toadb.Tuple.Row.{IsSupplied, AllSupplied, columns_loop-step, values_form_row_data-round_trip}

-- NULL, or undefined where a pointer that was never set is not NULL and freed.
abbrev give_up {ℓ} : {A : Type ℓ} → Bool → Option (Option A)
give_up stale = if stale then none else some none

add_column-give_up :
    (col : RawColumn) (stale : Bool) → add_column col (give_up stale) ≡ give_up stale
add_column-give_up col true = refl
add_column-give_up col false = refl

module _ (float_bytes : ConstValue → Option Pval) (fresh : Fresh) (fields : List (List ℕ))
    (values : List ConstValue) where
  columns_loop-missing :
      (index : ℕ) (made : List ColumnDefInfo) (def : ColumnDefInfo) (defs : List ColumnDefInfo)
      (k : ℕ)
      → AllSupplied fields values made
      → IsFirst fields def.col_name k
      → get_elem? values k ≡ none
      → columns_loop float_bytes fresh (some fields) (some values) index (made ++ def ∷ defs)
        ≡ give_up (any (drop (index + length made) fresh.pointers))
  unfolding columns_loop
  columns_loop-missing index [] def defs k h first gone =
      rw
        (
          get_column_ref_index_by_name-first def.col_name fields k first,
          get_data_by_index-position k values,
          gone,
          columns_loop,
        )
        (ap (λ n. give_up (any (drop n fresh.pointers))) (omega arith))
  columns_loop-missing index (d ∷ made) def defs k (h, hs) first gone =
      let (col, filled, step) =
        columns_loop-step float_bytes fresh fields values index d (made ++ def ∷ defs) h in
      let later = columns_loop-missing (suc index) made def defs k hs first gone in
      step
      ∙ ap (add_column col) later
      ∙ add_column-give_up col (any (drop (suc index + length made) fresh.pointers))
      ∙ ap (λ n. give_up (any (drop n fresh.pointers))) (omega arith)

  made_missing :
      (made : List ColumnDefInfo) (def : ColumnDefInfo) (defs : List ColumnDefInfo) (k : ℕ)
      → AllSupplied fields values made
      → IsFirst fields def.col_name k
      → get_elem? values k ≡ none
      → any (drop (length made) fresh.pointers) ≡ false
      → values_form_row_data float_bytes fresh (some fields) (some values) (made ++ def ∷ defs)
        ≡ some none
  unfolding values_form_row_data
  made_missing made def defs k h first gone clear =
      let e = columns_loop-missing 0 made def defs k h first gone in
      let same : 0 + length made ≡ length made = omega arith in
      let e2 = e ∙ ap (λ n. give_up (any (drop n fresh.pointers))) same in rw (e2, clear) refl

-- No pointer in zeroed memory differs from NULL.
any-drop-replicate : (n m : ℕ) → any (drop n (replicate m false)) ≡ false
any-drop-replicate zero zero = refl
any-drop-replicate zero (suc m) = any-drop-replicate zero m
any-drop-replicate (suc n) zero = refl
any-drop-replicate (suc n) (suc m) = any-drop-replicate n m

-- A column whose name stands at a place that has no value.
abbrev pub IsMissing : List (List ℕ) → List ConstValue → ColumnDefInfo → Type 0
IsMissing fields values def = (k : ℕ) × IsFirst fields def.col_name k × (get_elem? values k ≡ none)

-- Every column is supplied or missing: no value is of a type that does not fit.
abbrev pub AllOffered : List (List ℕ) → List ConstValue → List ColumnDefInfo → Type 0
AllOffered fields values [] = Unit {0}
AllOffered fields values (def ∷ defs) =
    (IsSupplied fields values def ⊎ IsMissing fields values def) × AllOffered fields values defs

-- The first missing column.
abbrev pub HasMissing : List (List ℕ) → List ConstValue → List ColumnDefInfo → Type 0
HasMissing fields values defs =
    (made : List ColumnDefInfo) × (def : ColumnDefInfo) × (rest : List ColumnDefInfo) × (defs
      ≡ made ++ def ∷ rest)
    × AllSupplied fields values made
    × IsMissing fields values def

first_missing :
    (fields : List (List ℕ)) (values : List ConstValue) (defs : List ColumnDefInfo)
    → AllOffered fields values defs
    → AllSupplied fields values defs ⊎ HasMissing fields values defs
first_missing fields values [] h = inl tt
first_missing fields values (def ∷ defs) (inr missing, h) = inr ([], def, defs, refl, tt, missing)
first_missing fields values (def ∷ defs) (inl there, h) =
    elim (first_missing fields values defs h) [
      | inl all ↦ inl (there, all)
      | inr (made, d, rest, same, before, missing) ↦
          inr (def ∷ made, d, rest, ap (◌∷◌ def) same, (there, before), missing)
    ]

-- If every column of the table is not named, or has a value that its type stores, or has no
-- value at the first place of its name, then ValuesFormRowData, in memory as AllocMem hands it
-- out, returns a row if no column is without a value, and otherwise returns NULL.
pub values_form_row_data-missing :
    (float_bytes : ConstValue → Option Pval) (fields : List (List ℕ)) (values : List ConstValue)
    (defs : List ColumnDefInfo)
    → AllOffered fields values defs
    → let result =
        values_form_row_data float_bytes
          (zeroed_memory (length defs))
          (some fields)
          (some values)
          defs in
      (AllSupplied fields values defs × (row : TableRowData) × (result ≡ some (some row)))
      ⊎ (HasMissing fields values defs × (result ≡ some none))
values_form_row_data-missing float_bytes fields values defs h =
    let fresh = zeroed_memory (length defs) in
    elim (first_missing fields values defs h) [
      | inl all ↦
          let (row, made, num, len, size, each) =
            values_form_row_data-round_trip float_bytes fresh fields values defs all in
          inl (all, row, made)
      | inr (made, def, rest, same, before, (k, first, gone)) ↦
          let null =
            made_missing float_bytes fresh fields values made def rest k before first gone
              (any-drop-replicate (length made) (length defs)) in
          inr (
            (made, def, rest, same, before, (k, first, gone)),
            ap (values_form_row_data float_bytes fresh (some fields) (some values)) same ∙ null,
          )
    ]
