-- ===== src/Tuple/Row.antt =====
-- Rows of a statement that gives every column it names a value of the column's type.
use toadb.Base.{
  ℕ, zero, suc, ◌+◌, ◌*◌, ◌≡◌, refl, ap, subst, ◌∙◌, Bool, true, false, not, ◌&&◌, List, [], ◌∷◌,
  Option, none, some, ◌==◌, ltb, if◌then◌else◌, Bool-cases, ◌⊎◌, inl, inr, ℤ, eqz, ◌+ℤ◌, get_elem?,
  length, arith,
}
use toadb.Expression.DataTypes.{ValueType, Data, Pval, zero_int}
use toadb.Expression.Operators.{hat_bool}
use toadb.Expression.Qual.{ConstValue, translate_raw_column_data, char_string}
use toadb.Tuple.{
  ColumnDefInfo, RawColumn, TableRowData, Fresh, size_of_row_column_data, size_of_pointer,
  size_of_table_row_data, signed_char, truth_char, column, add_column,
  transform_const_value_row_data, columns_loop, values_form_row_data,
}
use toadb.Tuple.Lookup.{
  IsAbsent, IsFirst, get_column_ref_index_by_name-absent, get_column_ref_index_by_name-first,
  get_data_by_index-position,
}

-- What a column of a type stores of a value, as it is read back.
unfoldable pub stored : ValueType → Data → Option Data
stored ValueType.vt_int (Data.i_data i) = some (Data.i_data i)
stored ValueType.vt_integer (Data.i_data i) = some (Data.i_data i)
stored ValueType.vt_varchar (Data.p_data (some s)) = some (Data.p_data (some s))
stored ValueType.vt_string (Data.p_data (some s)) = some (Data.p_data (some s))
stored ValueType.vt_char (Data.p_data (some (c ∷ s))) =
    if not (c == 0) && ltb c 256 then some (Data.p_data (some (c ∷ []))) else none
stored ValueType.vt_bool (Data.i_data i) = some (Data.i_data (hat_bool (not (eqz i zero_int))))
stored t d = none

-- The bytes that the data of a column takes.
unfoldable pub data_size : ValueType → Data → ℕ
data_size ValueType.vt_varchar (Data.p_data (some s)) = length s + 1
data_size ValueType.vt_string (Data.p_data (some s)) = length s + 1
data_size ValueType.vt_char d = 1
data_size ValueType.vt_bool d = 1
data_size t d = 4

-- A column that reads back as the data that was stored, whatever was in its place before.
pub record Holds (index : ℕ) (t : ValueType) (d stored_data : Data) (col : RawColumn) : Type 0 where
  pub position : col.attrindex ≡ index
  pub bytes : col.size ≡ size_of_row_column_data + data_size t d
  pub value :
      (p : Pval) × (col.contents ≡ some p)
      × ((old : Data) → translate_raw_column_data p t old ≡ some stored_data)

char_string-signed_char :
    (c : ℕ) → (not (c == 0) && ltb c 256) ≡ true → char_string (signed_char c) ≡ c ∷ []
char_string-signed_char zero h = absurd (cc)
char_string-signed_char (suc c) h = elim (Bool-cases (ltb (suc c) 128)) [
  | inl small ↦ rw small refl
  | inr large ↦ rw large (ap (λ n. n ∷ []) (ground arith))
]

eqz-truth_char : (b : Bool) → eqz (truth_char b) (ℤ.pos b'T') ≡ b
eqz-truth_char true = refl
eqz-truth_char false = refl

module _ (float_bytes : ConstValue → Option Pval) where
  transform-Holds :
      (value : ConstValue) (def : ColumnDefInfo) (index : ℕ) (t : ValueType) (d : Data)
      {kept : Data}
      → def.def_type ≡ t
      → value.val ≡ d
      → stored t d ≡ some kept
      → (col : RawColumn) × (transform_const_value_row_data float_bytes value def index
          ≡ some (some col))
        × Holds index t d kept col
  unfolding transform_const_value_row_data stored data_size translate_raw_column_data
  transform-Holds value def index ValueType.vt_int (Data.i_data i) et ev e = (
    column index 4 (some (Pval.to_int i)),
    rw (et, ev) refl,
    record { position = refl; bytes = refl; value = (Pval.to_int i, refl, λ old. e) },
  )
  transform-Holds value def index ValueType.vt_integer (Data.i_data i) et ev e = (
    column index 4 (some (Pval.to_int i)),
    rw (et, ev) refl,
    record { position = refl; bytes = refl; value = (Pval.to_int i, refl, λ old. e) },
  )
  transform-Holds value def index ValueType.vt_varchar (Data.p_data (some s)) et ev e = (
    column index (length s + 1) (some (Pval.to_string s)),
    rw (et, ev) refl,
    record { position = refl; bytes = refl; value = (Pval.to_string s, refl, λ old. e) },
  )
  transform-Holds value def index ValueType.vt_string (Data.p_data (some s)) et ev e = (
    column index (length s + 1) (some (Pval.to_string s)),
    rw (et, ev) refl,
    record { position = refl; bytes = refl; value = (Pval.to_string s, refl, λ old. e) },
  )
  transform-Holds value def index ValueType.vt_char (Data.p_data (some (c ∷ s))) et ev e =
      elim (Bool-cases (not (c == 0) && ltb c 256)) [
        | inl valid ↦ (
          column index 1 (some (Pval.to_char (signed_char c))),
          rw (et, ev) (ground arith),
          record {
            position = refl;
            bytes = refl;
            value = (
              Pval.to_char (signed_char c),
              refl,
              λ old.
                  ap (λ x. some (Data.p_data (some x))) (char_string-signed_char c valid)
                  ∙ ground arith,
            );
          },
        )
        | inr wrong ↦ absurd (ground arith)
      ]
  transform-Holds value def index ValueType.vt_bool (Data.i_data i) et ev e =
      let b = not (eqz i zero_int) in
      (
        column index 1 (some (Pval.to_char (truth_char b))),
        rw (et, ev) refl,
        record {
          position = refl;
          bytes = refl;
          value = (
            Pval.to_char (truth_char b),
            refl,
            λ old. ap (λ x. some (Data.i_data (hat_bool x))) (eqz-truth_char b) ∙ e,
          );
        },
      )
  transform-Holds value def index t d et ev e = absurd (cc)

-- A statement that does not name a column, or gives it a value that its type stores.
abbrev pub IsSupplied : List (List ℕ) → List ConstValue → ColumnDefInfo → Type 0
IsSupplied fields values def =
    IsAbsent fields def.col_name
    ⊎ ((k : ℕ) × (v : ConstValue) × (kept : Data) × IsFirst fields def.col_name k
        × (get_elem? values k ≡ some v)
        × (stored def.def_type v.val ≡ some kept))

abbrev pub AllSupplied : List (List ℕ) → List ConstValue → List ColumnDefInfo → Type 0
AllSupplied fields values [] = Unit {0}
AllSupplied fields values (def ∷ defs) =
    IsSupplied fields values def × AllSupplied fields values defs

-- The column that a statement leaves for a definition: without data, or with the value.
abbrev pub IsFilled : List (List ℕ) → List ConstValue → ℕ → ColumnDefInfo → RawColumn → Type 0
IsFilled fields values index def col =
    (IsAbsent fields def.col_name × (col ≡ column index 0 none))
    ⊎ ((k : ℕ) × (v : ConstValue) × (kept : Data) × IsFirst fields def.col_name k
        × (get_elem? values k ≡ some v)
        × (stored def.def_type v.val ≡ some kept)
        × Holds index def.def_type v.val kept col)

abbrev pub sum_sizes : List RawColumn → ℕ
sum_sizes [] = 0
sum_sizes (col ∷ cols) = col.size + sum_sizes cols

module _ (float_bytes : ConstValue → Option Pval) (fresh : Fresh) (fields : List (List ℕ))
    (values : List ConstValue) where
  pub columns_loop-step :
      (index : ℕ) (def : ColumnDefInfo) (defs : List ColumnDefInfo)
      → IsSupplied fields values def
      → (col : RawColumn) × IsFilled fields values index def col
        × (columns_loop float_bytes fresh (some fields) (some values) index (def ∷ defs)
            ≡ add_column col
                (columns_loop float_bytes fresh (some fields) (some values) (suc index) defs))
  unfolding columns_loop
  columns_loop-step index def defs (inl absent) = (
    column index 0 none,
    inl (absent, refl),
    rw (get_column_ref_index_by_name-absent def.col_name fields absent, columns_loop) refl,
  )
  columns_loop-step index def defs (inr (k, v, kept, first, found, fits)) =
      let (col, made, holds) =
        transform-Holds float_bytes v def index def.def_type v.val refl refl fits in
      (
        col,
        inr (k, v, kept, first, found, fits, holds),
        rw
            (
              get_column_ref_index_by_name-first def.col_name fields k first,
              get_data_by_index-position k values,
              found,
              made,
              columns_loop,
            )
            refl,
      )

  columns_loop-IsFilled :
      (index : ℕ) (defs : List ColumnDefInfo)
      → AllSupplied fields values defs
      → (cols : List RawColumn) × (columns_loop float_bytes fresh
            (some fields)
            (some values)
            index
            defs
          ≡ some (some (sum_sizes cols, cols)))
        × (length cols ≡ length defs)
        × ((i : ℕ) (def : ColumnDefInfo)
            → get_elem? defs i ≡ some def
            → (col : RawColumn) × (get_elem? cols i ≡ some col)
              × IsFilled fields values (index + i) def col)
  unfolding columns_loop
  columns_loop-IsFilled index [] h = ([], refl, refl, λ i def e. absurd (cc))
  columns_loop-IsFilled index (d ∷ defs) (h, hs) =
      let (col, filled, step) = columns_loop-step index d defs h in
      let (cols, made, len, each) = columns_loop-IsFilled (suc index) defs hs in
      (
        col ∷ cols,
        step ∙ ap (add_column col) made,
        ap suc len,
        λ i.
            elim i
              as (λ j.
                (def : ColumnDefInfo)
                → get_elem? (d ∷ defs) j ≡ some def
                → (c : RawColumn) × (get_elem? (col ∷ cols) j ≡ some c)
                  × IsFilled fields values (index + j) def c) [
                    | zero ↦ λ def e. (
                      col,
                      refl,
                      subst (λ x. IsFilled fields values (index + 0) x col) (cc)
                          (subst (λ n. IsFilled fields values n d col) (omega arith) filled),
                    )
                    | suc j ↦ λ def e.
                        let (c, there, right) = each j def e in
                        (c, there, subst (λ n. IsFilled fields values n def c) (omega arith) right)
                  ],
      )

  -- If the statement gives every column it names a value that the column's type stores, then
  -- ValuesFormRowData returns a row with a column for each definition, in their order:
  -- without data where the statement does not name the column, and else with the value at the
  -- first place of the column's name, at its index and of the size of the data, and
  -- TranslateRawColumnData reads the value back; the size that the fresh memory held grows by
  -- the header and the sizes of the columns.
  pub values_form_row_data-round_trip :
      (defs : List ColumnDefInfo)
      → AllSupplied fields values defs
      → (row : TableRowData) × (values_form_row_data float_bytes fresh
            (some fields)
            (some values)
            defs
          ≡ some (some row))
        × (row.num ≡ length defs)
        × (length row.column_data ≡ row.num)
        × (row.size
            ≡ fresh.size
              +ℤ ℤ.pos
                  (row.num * size_of_pointer + size_of_table_row_data + sum_sizes row.column_data))
        × ((i : ℕ) (def : ColumnDefInfo)
            → get_elem? defs i ≡ some def
            → (col : RawColumn) × (get_elem? row.column_data i ≡ some col)
              × IsFilled fields values i def col)
  unfolding values_form_row_data
  values_form_row_data-round_trip defs h =
      let (cols, made, len, each) = columns_loop-IsFilled 0 defs h in
      (
        record {
          size =
              fresh.size
              +ℤ ℤ.pos (length defs * size_of_pointer + size_of_table_row_data + sum_sizes cols);
          num = length defs;
          column_data = cols;
        },
        rw made refl,
        refl,
        len,
        refl,
        λ i def e.
            let (col, there, filled) = each i def e in
            (col, there, subst (λ n. IsFilled fields values n def col) (omega arith) filled),
      )
