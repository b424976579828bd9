-- ===== src/Buffer/Hash/RoundTrip.antt =====
-- `HashGetFreeEntry` and then `HashFindEntry` for the same key and value.
use toadb.Base.{
  ℕ, zero, suc, ◌<◌, ◌≤◌, ◌≡◌, refl, true, ◌&&◌, List, [], ◌∷◌, none, some, ltb, ◌==◌, ◌>>=◌,
  get_elem?, take, length, arith,
}
use toadb.Buffer.Hash.{
  HashElement, HashTableInfo, HashOp, compare_hash_element, get_hash_entry_from_bucket, bucket_head,
  get_free_entry_in, hash_get_free_entry, hash_find_entry, get_partition_index, get_bucket_index,
}
use toadb.Buffer.Hash.Chains.{IsTable, first_match, get_hash_entry_from_bucket-first_match}
use toadb.Buffer.Hash.Insert.{inserted, get_elem?-new_entry}

pub compare-take :
    (n m : ℕ) (value : List ℕ) → n ≤ m → compare_hash_element n (take m value) value ≡ true
unfolding compare_hash_element
compare-take zero m value h = refl
compare-take (suc n) zero value h = absurd (omega arith)
compare-take (suc n) (suc m) [] h = refl
compare-take (suc n) (suc m) (x ∷ value) h =
    let ih = compare-take n m value (omega arith) in ground (arith, ih)

pub get_free_entry_in-insert :
    (fuel : ℕ) (t : HashTableInfo) (chains : ℕ → ℕ → List ℕ) (p b i : ℕ) (free : List ℕ) (key : ℕ)
    (value : List ℕ)
    → (v : IsTable t chains (i ∷ free)) → p < t.partition_num
    → b < t.hash_segment_size
    → length (chains p b) < fuel
    → first_match t key value (chains p b) ≡ none
    → get_free_entry_in fuel t p b key value
      ≡ some (HashOp.hash_insert, some i, inserted t p b i v.at_free.1.0 key value)
unfolding get_free_entry_in
get_free_entry_in-insert fuel t chains p b i free key value v hp hb h new =
    let in_range : (ltb p t.partition_num && ltb b t.hash_segment_size) ≡ true = ground arith in
    let found =
      get_hash_entry_from_bucket-first_match fuel t (t.seg_buckets p b) (chains p b) key value
        (v.at_bucket p b) h in
    rw (get_free_entry_in, in_range, found, new) (simp (v.at_free.0, v.at_free.1.1) refl)

pub find-inserted :
    (k : ℕ) (t : HashTableInfo) (p b i : ℕ) (e : HashElement) (key : ℕ) (value : List ℕ)
    → get_elem? t.elements i ≡ some e
    → p < t.partition_num
    → b < t.hash_segment_size
    → t.key_value_size ≤ t.value_size
    → (do
      head ← bucket_head (inserted t p b i e key value) p b
      get_hash_entry_from_bucket (suc k) (inserted t p b i e key value) head key value)
      ≡ some (some i)
unfolding get_hash_entry_from_bucket
find-inserted k t p b i e key value at hp hb small =
    let in_range : (ltb p t.partition_num && ltb b t.hash_segment_size) ≡ true = ground arith in
    let here : (p == p && b == b) ≡ true = ground arith in
    let there = get_elem?-new_entry t p b i e key value at in
    let alike : (key == key
          && compare_hash_element t.key_value_size (take t.value_size value) value)
        ≡ true =
      ground (arith, compare-take t.key_value_size t.value_size value small) in
    rw (in_range, here, get_hash_entry_from_bucket, there, alike) refl

-- For a well-formed table with a free element, indices in range, enough rounds, no entry with
-- the key and value in the bucket, and no more bytes compared than copied, HashGetFreeEntry
-- inserts an entry, and HashFindEntry then finds it.
pub insert-find :
    (fuel k : ℕ) (t : HashTableInfo) (chains : ℕ → ℕ → List ℕ) (i : ℕ) (free : List ℕ) (key : ℕ)
    (value : List ℕ)
    → IsTable t chains (i ∷ free)
    → get_partition_index key t < t.partition_num
    → get_bucket_index key t < t.hash_segment_size
    → length (chains (get_partition_index key t) (get_bucket_index key t)) < fuel
    → first_match t key value (chains (get_partition_index key t) (get_bucket_index key t)) ≡ none
    → t.key_value_size ≤ t.value_size
    → (after : HashTableInfo) × (hash_get_free_entry fuel t key value
        ≡ some (HashOp.hash_insert, some i, after))
      × (hash_find_entry (suc k) after key value (get_partition_index key after) ≡ some (some i))
unfolding hash_get_free_entry hash_find_entry get_partition_index
insert-find fuel k t chains i free key value v hp hb h new small =
    let p = get_partition_index key t in
    let b = get_bucket_index key t in
    let e = v.at_free.1.0 in
    (
      inserted t p b i e key value,
      get_free_entry_in-insert fuel t chains p b i free key value v hp hb h new,
      find-inserted k t p b i e key value v.at_free.1.1 hp hb small,
    )
