-- ===== src/Tuple/Lookup.antt =====
-- Columns and values found by name and by position.
use toadb.Base.{
  ℕ, zero, suc, ◌+◌, ◌<◌, ◌≡◌, ◌≢◌, refl, ap, sym, ◌∙◌, subst, true, false, List, [], ◌∷◌, some,
  ◌==◌, ==_iff, ==_refl, Bool-cases, inl, inr, ℤ, get_elem?, arith,
}
use toadb.Expression.Qual.{ConstValue}
use toadb.Tuple.{same_bytes, index_loop, get_column_ref_index_by_name, data_loop, get_data_by_index}

same_bytes_self : (s : List ℕ) → same_bytes s s ≡ true
same_bytes_self [] = refl
same_bytes_self (c ∷ s) = rw (==_refl c) (same_bytes_self s)

same_bytes→≡ : (s t : List ℕ) → same_bytes s t ≡ true → s ≡ t
same_bytes→≡ [] [] e = refl
same_bytes→≡ [] (c ∷ t) e = absurd (cc)
same_bytes→≡ (b ∷ s) [] e = absurd (cc)
same_bytes→≡ (b ∷ s) (c ∷ t) e = elim (Bool-cases (b == c)) [
  | inl same ↦
      let ih = same_bytes→≡ s t (ground arith) in
      let head : b ≡ c = ground (arith, ==_iff b c) in cc
  | inr differ ↦ absurd (ground arith)
]

-- A name that is nowhere in a list, and one whose first position is `k`.
abbrev pub IsAbsent : List (List ℕ) → List ℕ → Type 0
IsAbsent fields name = (j : ℕ) → get_elem? fields j ≢ some name

abbrev pub IsFirst : List (List ℕ) → List ℕ → ℕ → Type 0
IsFirst fields name k =
    (get_elem? fields k ≡ some name) × ((j : ℕ) → j < k → get_elem? fields j ≢ some name)

same_bytes_ne : (s t : List ℕ) → some t ≢ some s → same_bytes s t ≡ false
same_bytes_ne s t h = elim (Bool-cases (same_bytes s t)) [
  | inl e ↦ absurd (h (ap some (sym (same_bytes→≡ s t e))))
  | inr e ↦ e
]

index_loop-absent :
    (name : List ℕ) (index : ℕ) (fields : List (List ℕ))
    → IsAbsent fields name
    → index_loop name index fields ≡ ℤ.negsuc 0
unfolding index_loop
index_loop-absent name index [] h = refl
index_loop-absent name index (f ∷ fields) h =
    rw (same_bytes_ne name f (h 0)) (index_loop-absent name (suc index) fields (λ j. h (suc j)))

index_loop-first :
    (name : List ℕ) (index : ℕ) (fields : List (List ℕ)) (k : ℕ)
    → IsFirst fields name k
    → index_loop name index fields ≡ ℤ.pos (index + k)
unfolding index_loop
index_loop-first name index [] k h = absurd (cc)
index_loop-first name index (f ∷ fields) zero h =
    let e : same_bytes name f ≡ true =
      subst (λ t. same_bytes name t ≡ true) (sym (ground arith)) (same_bytes_self name) in
    rw e (ap ℤ.pos (omega arith))
index_loop-first name index (f ∷ fields) (suc k) h =
    let later =
      index_loop-first name (suc index) fields k (h.0, λ j lt. h.1 (suc j) (omega arith)) in
    rw (same_bytes_ne name f (h.1 0 (omega arith))) (later ∙ ap ℤ.pos (omega arith))

data_loop-position :
    (count k : ℕ) (cells : List ConstValue)
    → data_loop (ℤ.pos (suc (count + k))) count cells ≡ get_elem? cells k
unfolding data_loop
data_loop-position count k [] = refl
data_loop-position count zero (c ∷ cells) = ground arith
data_loop-position count (suc k) (c ∷ cells) =
    let ih = data_loop-position (suc count) k cells in
    let same : suc (suc count + k) ≡ suc (count + suc k) = omega arith in
    let differ : (suc count == suc (count + suc k)) ≡ false = ground arith in
    let ih2 = subst (λ t. data_loop (ℤ.pos t) (suc count) cells ≡ get_elem? cells k) same ih in
    rw differ ih2

pub get_column_ref_index_by_name-absent :
    (name : List ℕ) (fields : List (List ℕ))
    → IsAbsent fields name
    → get_column_ref_index_by_name name (some fields) ≡ ℤ.negsuc 0
unfolding get_column_ref_index_by_name
get_column_ref_index_by_name-absent name fields h = index_loop-absent name 1 fields h

pub get_column_ref_index_by_name-first :
    (name : List ℕ) (fields : List (List ℕ)) (k : ℕ)
    → IsFirst fields name k
    → get_column_ref_index_by_name name (some fields) ≡ ℤ.pos (suc k)
unfolding get_column_ref_index_by_name
get_column_ref_index_by_name-first name fields k h =
    index_loop-first name 1 fields k h ∙ ap ℤ.pos (omega arith)

pub get_data_by_index-position :
    (k : ℕ) (cells : List ConstValue)
    → get_data_by_index (ℤ.pos (suc k)) (some cells) ≡ get_elem? cells k
unfolding get_data_by_index
get_data_by_index-position k cells =
    subst (λ t. data_loop (ℤ.pos t) 0 cells ≡ get_elem? cells k) (omega arith)
      (data_loop-position 0 k cells)
