-- ===== src/Buffer/Hash/Insert.antt =====
-- `HashGetFreeEntry`: an entry is found, or taken from the free list and put at the head of its bucket.
use toadb.Base.{
  mem, ℕ, ◌+◌, ◌<◌, ◌≡◌, ◌≢◌, ◌⊎◌, refl, ap, subst, ◌∙◌, true, false, ◌&&◌, List, [], ◌∷◌, Option,
  none, some, ltb, ◌==◌, if◌then◌else◌, get_elem?, set, take, length, arith, Bool-cases,
  Option-cases, inl, inr, get_elem?-set_self, get_elem?-set_ne, lt-length, set-set,
}
use toadb.Buffer.Hash.{
  HashElement, HashTableInfo, HashOp, get_free_entry_in, hash_get_free_entry, get_partition_index,
  get_bucket_index, pop_from_free_list, insert_entry,
}
use toadb.Buffer.Hash.Chains.{
  Links, IsTable, Links-frame, first_match, get_hash_entry_from_bucket-first_match,
}

-- One chain replaced.
abbrev pub at_chain : ℕ → ℕ → List ℕ → (ℕ → ℕ → List ℕ) → ℕ → ℕ → List ℕ
at_chain p b ids chains q c = if q == p && c == b then ids else chains q c

-- The element as it is after the insertion.
abbrev pub new_entry : HashTableInfo → ℕ → ℕ → HashElement → ℕ → List ℕ → HashElement
new_entry t p b e key value = record e {
  link = t.seg_buckets p b;
  hash_key = key;
  value = take t.value_size value;
}

abbrev pub inserted : HashTableInfo → ℕ → ℕ → ℕ → HashElement → ℕ → List ℕ → HashTableInfo
inserted t p b i e key value =
    insert_entry (pop_from_free_list i e t) p b i (record e { link = none }) key value

pub other_bucket :
    (t : HashTableInfo) (chains : ℕ → ℕ → List ℕ) (i : ℕ) (free : List ℕ)
    → IsTable t chains (i ∷ free)
    → (q c : ℕ) → mem i (chains q c) ≡ false
other_bucket t chains i free v q c = elim (Bool-cases (mem i (chains q c))) [
  | inr out ↦ out
  | inl m ↦ let a = v.apart q c i m in absurd (ground arith)
]

-- What is in a chain after the insertion.
mem-at_chain :
    (chains : ℕ → ℕ → List ℕ) (p b i q c j : ℕ)
    → mem j (at_chain p b (i ∷ chains p b) chains q c) ≡ true
    → ((i ≡ j) × ((q == p && c == b) ≡ true)) ⊎ (mem j (chains q c) ≡ true)
mem-at_chain chains p b i q c j m = elim (Bool-cases (q == p && c == b)) [
  | inr miss ↦ inr (subst (λ x. mem j (if x then i ∷ chains p b else chains q c) ≡ true) miss m)
  | inl hit ↦
      let qp : q ≡ p = ground arith in
      let cb : c ≡ b = ground arith in
      let same : chains q c ≡ chains p b = ap (λ x. chains x c) qp ∙ ap (chains p) cb in
      let m' : mem j (i ∷ chains p b) ≡ true =
        subst (λ x. mem j (if x then i ∷ chains p b else chains q c) ≡ true) hit m in
      ground (arith, same, m', hit)
]

pub inserted-IsTable :
    (t : HashTableInfo) (chains : ℕ → ℕ → List ℕ) (p b i : ℕ) (free : List ℕ) (key : ℕ)
    (value : List ℕ)
    → (v : IsTable t chains (i ∷ free))
    → IsTable (inserted t p b i v.at_free.1.0 key value) (at_chain p b (i ∷ chains p b) chains) free
inserted-IsTable t chains p b i free key value v =
    let e = v.at_free.1.0 in
    let els = t.elements in
    let e1 : HashElement = record e { link = none } in
    let e2 = new_entry t p b e key value in
    let els' = set (set els i e1) i e2 in
    let to : els' ≡ set els i e2 = set-set els i e1 e2 in
    let inside = lt-length els i v.at_free.1.1 in
    let here : get_elem? els' i ≡ some e2 =
      ap (λ x. get_elem? x i) to ∙ get_elem?-set_self els i e2 inside in
    let away : (j : ℕ) → i ≢ j → get_elem? els' j ≡ get_elem? els j =
      λ j ne. ap (λ x. get_elem? x j) to ∙ get_elem?-set_ne els i j e2 ne in
    let out = other_bucket t chains i free v in
    let old : (q c : ℕ) → Links els' (t.seg_buckets q c) (chains q c) = λ q c.
      Links-frame els els' (t.seg_buckets q c) (chains q c)
        (λ j m. away j (λ same. absurd (ground (arith, out q c)))) (v.at_bucket q c) in
    record {
      at_bucket = λ q c. elim (Bool-cases (q == p && c == b)) [
        | inl hit ↦ rw hit (refl, (e2, here, old p b))
        | inr miss ↦ rw miss (old q c)
      ];
      at_free =
          Links-frame els els' e.link free
            (λ j m. away j (λ same. let f = v.fresh_free.0 in absurd (ground arith))) v.at_free.1.2;
      fresh_bucket = λ q c. elim (Bool-cases (q == p && c == b)) [
        | inl hit ↦ rw hit (out p b, v.fresh_bucket p b)
        | inr miss ↦ rw miss (v.fresh_bucket q c)
      ];
      fresh_free = v.fresh_free.1;
      apart = λ q c j m. elim (mem-at_chain chains p b i q c j m) [
        | inl (same, hit) ↦ subst (λ x. mem x free ≡ false) same v.fresh_free.0
        | inr old_m ↦ let a = v.apart q c j old_m in ground (arith, a)
      ];
      apart_buckets = λ q c q' c' j m m'. elim (mem-at_chain chains p b i q c j m) [
        | inl (same, hit) ↦ elim (mem-at_chain chains p b i q' c' j m') [
          | inl (same', hit') ↦ ground (arith, hit, hit')
          | inr old_m ↦ absurd (ground (arith, old_m, same, out q' c'))
        ]
        | inr old_m ↦ elim (mem-at_chain chains p b i q' c' j m') [
          | inl (same', hit') ↦ absurd (ground (arith, old_m, same', out q c))
          | inr old_m' ↦ v.apart_buckets q c q' c' j old_m old_m'
        ]
      ];
      counted = let n = v.counted in omega (arith, n);
    }

pub get_elem?-new_entry :
    (t : HashTableInfo) (p b i : ℕ) (e : HashElement) (key : ℕ) (value : List ℕ)
    → get_elem? t.elements i ≡ some e
    → get_elem? (inserted t p b i e key value).elements i ≡ some (new_entry t p b e key value)
get_elem?-new_entry t p b i e key value at =
    let e2 = new_entry t p b e key value in
    ap (λ x. get_elem? x i) (set-set t.elements i (record e { link = none }) e2)
    ∙ get_elem?-set_self t.elements i e2 (lt-length t.elements i at)

-- The flag, the entry and the table that `HashGetFreeEntry` gives.
abbrev pub Gets :
    HashTableInfo
    → (ℕ → ℕ → List ℕ)
    → ℕ
    → ℕ
    → ℕ
    → List ℕ
    → Option ℕ
    → List ℕ
    → Option (HashOp × Option ℕ × HashTableInfo)
    → Type 0
Gets t chains p b key value (some i) free r = r ≡ some (HashOp.hash_find, some i, t)
Gets t chains p b key value none [] r = r ≡ some (HashOp.hash_null, none, t)
Gets t chains p b key value none (i ∷ free) r =
    (after : HashTableInfo) × (r ≡ some (HashOp.hash_insert, some i, after))
    × IsTable after (at_chain p b (i ∷ chains p b) chains) free
    × ((e : HashElement) × (get_elem? after.elements i ≡ some e)
        × (e.hash_key ≡ key)
        × (e.value ≡ take t.value_size value))
    × (after.used_num ≡ t.used_num + 1)

pub get_free_entry_in-Gets :
    (fuel : ℕ) (t : HashTableInfo) (chains : ℕ → ℕ → List ℕ) (p b : ℕ) (free : List ℕ) (key : ℕ)
    (value : List ℕ)
    → IsTable t chains free
    → p < t.partition_num
    → b < t.hash_segment_size
    → length (chains p b) < fuel
    → Gets t chains p b key value
        (first_match t key value (chains p b))
        free
        (get_free_entry_in fuel t p b key value)
unfolding get_free_entry_in
get_free_entry_in-Gets fuel t chains p b [] key value v hp hb h =
    let in_range : (ltb p t.partition_num && ltb b t.hash_segment_size) ≡ true = ground arith in
    let found =
      get_hash_entry_from_bucket-first_match fuel t (t.seg_buckets p b) (chains p b) key value
        (v.at_bucket p b) h in
    elim (Option-cases (first_match t key value (chains p b))) [
      | inr (i, e) ↦ rw (get_free_entry_in, in_range, found, e) refl
      | inl e ↦ rw (get_free_entry_in, in_range, found, e) (simp (v.at_free) refl)
    ]
get_free_entry_in-Gets fuel t chains p b (i ∷ free) key value v hp hb h =
    let in_range : (ltb p t.partition_num && ltb b t.hash_segment_size) ≡ true = ground arith in
    let found =
      get_hash_entry_from_bucket-first_match fuel t (t.seg_buckets p b) (chains p b) key value
        (v.at_bucket p b) h in
    elim (Option-cases (first_match t key value (chains p b))) [
      | inr (j, e) ↦ rw (get_free_entry_in, in_range, found, e) refl
      | inl e ↦
          rw (get_free_entry_in, in_range, found, e)
            (simp (v.at_free.0, v.at_free.1.1)
              (
                inserted t p b i v.at_free.1.0 key value,
                refl,
                inserted-IsTable t chains p b i free key value v,
                (
                  new_entry t p b v.at_free.1.0 key value,
                  get_elem?-new_entry t p b i v.at_free.1.0 key value v.at_free.1.1,
                  refl,
                  refl,
                ),
                refl,
              ))
    ]

-- For a well-formed table, indices in range and more rounds than the bucket has entries,
-- HashGetFreeEntry finds the first entry of the bucket with the key and value, or reports that
-- the free list is empty, in both cases leaving the table alone, or moves the first free
-- element to the head of the bucket with the key and the copied value, and the table stays well
-- formed and counts one used entry more.
pub hash_get_free_entry-Gets :
    (fuel : ℕ) (t : HashTableInfo) (chains : ℕ → ℕ → List ℕ) (free : List ℕ) (key : ℕ)
    (value : List ℕ)
    → IsTable t chains free
    → get_partition_index key t < t.partition_num
    → get_bucket_index key t < t.hash_segment_size
    → length (chains (get_partition_index key t) (get_bucket_index key t)) < fuel
    → Gets t chains
        (get_partition_index key t)
        (get_bucket_index key t)
        key
        value
        (first_match t key value (chains (get_partition_index key t) (get_bucket_index key t)))
        free
        (hash_get_free_entry fuel t key value)
unfolding hash_get_free_entry
hash_get_free_entry-Gets fuel t chains free key value v hp hb h =
    get_free_entry_in-Gets fuel t chains (get_partition_index key t) (get_bucket_index key t) free
      key value v hp hb h
