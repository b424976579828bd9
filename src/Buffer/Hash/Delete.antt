-- ===== src/Buffer/Hash/Delete.antt =====
-- `HashDeleteEntry`: an entry is unlinked from its bucket and put back into the free list.
use toadb.Base.{
  mem, IsFresh, ℕ, zero, suc, ◌+◌, ◌-◌, ◌<◌, ◌≡◌, refl, sym, ap, subst, ◌∙◌, Bool, true, false,
  ◌&&◌, List, [], ◌∷◌, Option, none, some, ltb, ◌==◌, if◌then◌else◌, ◌>>=◌, get_elem?, set, length,
  arith, Bool-cases, Option-cases, inl, inr, get_elem?-set_self, get_elem?-set_ne, lt-length,
  ℕ_discrete,
}
use toadb.Buffer.Hash.{
  HashElement, HashTableInfo, matches, delete_in, hash_delete_entry, get_partition_index,
  get_bucket_index, put_free_list, put_element,
}
use toadb.Buffer.Hash.Chains.{
  Links, IsTable, Links-frame, first_match, first_match-hit, first_match-miss,
}
use toadb.Buffer.Hash.Insert.{at_chain}
use toadb.Buffer.Hash.Unlink.{remove, mem-remove, remove-IsFresh, mem-remove_self, first_match-mem}
use toadb.Buffer.Hash.Bucket.{Without, BucketResult, bucket-BucketResult}

mem-at_chain :
    (chains : ℕ → ℕ → List ℕ) (p b i q c j : ℕ)
    → mem j (at_chain p b (remove i (chains p b)) chains q c) ≡ true
    → mem j (chains q c) ≡ true
mem-at_chain chains p b i q c j m = elim (Bool-cases (q == p && c == b)) [
  | inr miss ↦ subst (λ x. mem j (if x then remove i (chains p b) else chains q c) ≡ true) miss m
  | inl hit ↦
      let qp : q ≡ p = ground arith in
      let cb : c ≡ b = ground arith in
      let same : chains q c ≡ chains p b = ap (λ x. chains x c) qp ∙ ap (chains p) cb in
      let m' : mem j (remove i (chains p b)) ≡ true =
        subst (λ x. mem j (if x then remove i (chains p b) else chains q c) ≡ true) hit m in
      subst (λ x. mem j x ≡ true) (sym same) (mem-remove i j (chains p b) m')
]

mem-at_chain_self :
    (chains : ℕ → ℕ → List ℕ) (p b i q c : ℕ)
    → IsFresh (chains p b)
    → ((q c : ℕ) → mem i (chains q c) ≡ true → (p == q && b == c) ≡ true)
    → mem i (at_chain p b (remove i (chains p b)) chains q c) ≡ false
mem-at_chain_self chains p b i q c f only = elim (Bool-cases (q == p && c == b)) [
  | inl hit ↦ rw hit (mem-remove_self i (chains p b) f)
  | inr miss ↦ elim (Bool-cases (mem i (chains q c))) [
    | inl there ↦ let o = only q c there in absurd (ground (arith, o, miss))
    | inr out ↦ rw miss out
  ]
]

abbrev pub freed : HashTableInfo → ℕ → HashElement → HashTableInfo
freed t i e = record (put_element i (record e { link = t.free_list }) t) {
  free_list = some i;
  free_num = t.free_num + 1;
}

freed-IsTable :
    (t t' : HashTableInfo) (chains : ℕ → ℕ → List ℕ) (free : List ℕ) (p b i : ℕ) (e : HashElement)
    → (v : IsTable t chains free) → mem i (chains p b) ≡ true
    → (w : Without t p b (chains p b) i t') → get_elem? t'.elements i ≡ some e
    → IsTable (freed t' i e) (at_chain p b (remove i (chains p b)) chains) (i ∷ free)
freed-IsTable t t' chains free p b i e v there w at =
    let els = t'.elements in
    let e' : HashElement = record e { link = t'.free_list } in
    let els' = set els i e' in
    let away : (j : ℕ) → (i ≡ j → (true ≡ false)) → get_elem? els' j ≡ get_elem? els j =
      λ j ne. get_elem?-set_ne els i j e' (λ same. absurd (ground (arith, ne same))) in
    let out_free = v.apart p b i there in
    let only : (q c : ℕ) → mem i (chains q c) ≡ true → (p == q && b == c) ≡ true =
      λ q c m. v.apart_buckets p b q c i there m in
    let self = mem-remove_self i (chains p b) (v.fresh_bucket p b) in
    let elsewhere : (q c j : ℕ)
        → (q == p && c == b) ≡ false
        → mem j (chains q c) ≡ true
        → mem j (chains p b) ≡ false =
      λ q c j miss m. elim (Bool-cases (mem j (chains p b))) [
        | inr out ↦ out
        | inl x ↦ let o = v.apart_buckets p b q c j x m in absurd (ground (arith, o, miss))
      ] in
    let not_in_free : (j : ℕ) → mem j free ≡ true → mem j (chains p b) ≡ false = λ j m.
      elim (Bool-cases (mem j (chains p b))) [
        | inr out ↦ out
        | inl x ↦ let o = v.apart p b j x in absurd (ground (arith, o, m))
      ] in
    record {
      at_bucket = λ q c. elim (Bool-cases (q == p && c == b)) [
        | inl hit ↦
            rw (w.heads q c, hit)
              (Links-frame els els' w.head (remove i (chains p b))
                (λ j m. away j (λ same. ground (arith, m, self, same))) w.links)
        | inr miss ↦
            rw (w.heads q c, miss)
              (Links-frame t.elements els' (t.seg_buckets q c) (chains q c)
                (λ j m.
                  away j (λ same. ground (arith, only q c, m, same, miss))
                  ∙ w.frame j (elsewhere q c j miss m))
                (v.at_bucket q c))
      ];
      at_free = (
        refl,
        (
          e',
          get_elem?-set_self els i e' (lt-length els i at),
          subst (λ x. Links els' x free) (sym w.free_list_same)
              (Links-frame t.elements els' t.free_list free
                (λ j m.
                  away j (λ same. ground (arith, m, out_free, same)) ∙ w.frame j (not_in_free j m))
                v.at_free),
        ),
      );
      fresh_bucket = λ q c. elim (Bool-cases (q == p && c == b)) [
        | inl hit ↦ rw hit (remove-IsFresh i (chains p b) (v.fresh_bucket p b))
        | inr miss ↦ rw miss (v.fresh_bucket q c)
      ];
      fresh_free = (out_free, v.fresh_free);
      apart = λ q c j m.
          let old = v.apart q c j (mem-at_chain chains p b i q c j m) in
          let not_i = mem-at_chain_self chains p b i q c (v.fresh_bucket p b) only in
          elim (ℕ_discrete i j) [
            | yes is ↦
                let not_j =
                  subst (λ x. mem x (at_chain p b (remove i (chains p b)) chains q c) ≡ false) is
                    not_i in
                absurd (ground (arith, m, not_j))
            | no ne ↦ ground (arith, old)
          ];
      apart_buckets = λ q c q' c' j m m'.
          v.apart_buckets q c q' c' j (mem-at_chain chains p b i q c j m)
            (mem-at_chain chains p b i q' c' j m');
      counted = let n = v.counted in omega (arith, n, w.free_num_same);
    }

-- The results for a bucket without a matching entry, and with `i` as its first one.
abbrev pub Deletes :
    HashTableInfo
    → (ℕ → ℕ → List ℕ)
    → List ℕ
    → ℕ
    → ℕ
    → Option ℕ
    → Option (Bool × HashTableInfo)
    → Type 0
Deletes t chains free p b none r = r ≡ some (false, t)
Deletes t chains free p b (some i) r =
    (after : HashTableInfo) × (r ≡ some (true, after))
    × IsTable after (at_chain p b (remove i (chains p b)) chains) (i ∷ free)
    × (after.used_num ≡ t.used_num - 1)

free_entry :
    (t t' : HashTableInfo) (chains : ℕ → ℕ → List ℕ) (free : List ℕ) (p b i : ℕ) (d : HashElement)
    → IsTable t chains free
    → mem i (chains p b) ≡ true
    → Without t p b (chains p b) i t'
    → get_elem? t.elements i ≡ some d
    → Deletes t chains free p b (some i) (do after ← put_free_list t' i; some (true, after))
unfolding put_free_list
free_entry t t' chains free p b i d v there w at =
    let o = w.same i d at in
    (
      freed t' i o.0,
      rw (put_free_list, o.1) refl,
      freed-IsTable t t' chains free p b i o.0 v there w o.1,
      w.used,
    )

first_match-at :
    (t : HashTableInfo) (key : ℕ) (value : List ℕ) (ids : List ℕ) (i : ℕ)
    → first_match t key value ids ≡ some i
    → (d : HashElement) × (get_elem? t.elements i ≡ some d)
first_match-at t key value [] i e = absurd (cc)
first_match-at t key value (x ∷ xs) i e =
    let ih = first_match-at t key value xs i in
    elim (Option-cases (get_elem? t.elements x)) [
      | inl out ↦ absurd (ground (arith, out, e))
      | inr (d, at) ↦ elim (Bool-cases (matches t key value d)) [
        | inl hit ↦
            let is : x ≡ i = ground (arith, first_match-hit t key value x xs d at hit, e) in
            (d, subst (λ k. get_elem? t.elements k ≡ some d) is at)
        | inr miss ↦ ih (sym (first_match-miss t key value x xs d at miss) ∙ e)
      ]
    ]

from_bucket :
    (t : HashTableInfo) (chains : ℕ → ℕ → List ℕ) (free : List ℕ) (p b : ℕ) (key : ℕ)
    (value : List ℕ) (m : Option ℕ) (r : Option (Option ℕ × HashTableInfo))
    → IsTable t chains free
    → first_match t key value (chains p b) ≡ m
    → BucketResult t p b (chains p b) m r
    → Deletes t chains free p b m (do
      (entry, t') ← r
      elim entry [
        | none ↦ some (false, t')
        | some i ↦ do after ← put_free_list t' i; some (true, after)
      ])
from_bucket t chains free p b key value none r v e x = rw x refl
from_bucket t chains free p b key value (some i) r v e x =
    let o = first_match-at t key value (chains p b) i e in
    let there = first_match-mem t key value (chains p b) i e in
    rw (x.1) (free_entry t x.0 chains free p b i o.0 v there x.2 o.1)

pub delete_in-Deletes :
    (fuel : ℕ) (t : HashTableInfo) (chains : ℕ → ℕ → List ℕ) (free : List ℕ) (p b : ℕ) (key : ℕ)
    (value : List ℕ)
    → IsTable t chains free
    → p < t.partition_num
    → b < t.hash_segment_size
    → length (chains p b) < fuel
    → Deletes t chains free p b
        (first_match t key value (chains p b))
        (delete_in fuel t p b key value)
unfolding delete_in
delete_in-Deletes zero t chains free p b key value v hp hb h = elim h [ ]
delete_in-Deletes (suc fuel) t chains free p b key value v hp hb h =
    let in_range : (ltb p t.partition_num && ltb b t.hash_segment_size) ≡ true = ground arith in
    let x =
      bucket-BucketResult fuel t p b (chains p b) key value (v.at_bucket p b) (v.fresh_bucket p b)
        h in
    rw (delete_in, in_range)
      (from_bucket t chains free p b key value (first_match t key value (chains p b)) _ v refl x)

-- For a well-formed table, indices in range and more rounds than the bucket has entries,
-- HashDeleteEntry answers -1 and leaves the table alone if the bucket has no entry with the key
-- and value, and otherwise moves the first such entry from its bucket to the head of the free
-- list, and the table stays well formed and counts one used entry less.
pub hash_delete_entry-Deletes :
    (fuel : ℕ) (t : HashTableInfo) (chains : ℕ → ℕ → List ℕ) (free : List ℕ) (key : ℕ)
    (value : List ℕ)
    → IsTable t chains free
    → get_partition_index key t < t.partition_num
    → get_bucket_index key t < t.hash_segment_size
    → length (chains (get_partition_index key t) (get_bucket_index key t)) < fuel
    → Deletes t chains free
        (get_partition_index key t)
        (get_bucket_index key t)
        (first_match t key value (chains (get_partition_index key t) (get_bucket_index key t)))
        (hash_delete_entry fuel t key value)
unfolding hash_delete_entry
hash_delete_entry-Deletes fuel t chains free key value v hp hb h =
    delete_in-Deletes fuel t chains free (get_partition_index key t) (get_bucket_index key t) key
      value v hp hb h
