-- ===== src/Buffer/Hash/Tests.antt =====
-- The theorems on the hash table at a small table.
use toadb.Base.{
  mem, replicate, ℕ, ◌-◌, ◌^◌, ◌≡◌, refl, true, ◌&&◌, List, [], ◌∷◌, none, some, ◌==◌,
  if◌then◌else◌, arith, Bool-cases, inl, inr,
}
use toadb.Buffer.Hash.{
  HashTableInfo, HashOp, get_partition_index, get_bucket_index, hash_get_free_entry,
  hash_find_entry, hash_table_create, hash_delete_entry, compare_hash_element,
}
use toadb.Buffer.Pool.Initial.{count_from}
use toadb.Buffer.Hash.Create.{hash_table_create-IsTable}
use toadb.Buffer.Hash.Chains.{IsTable}
use toadb.Buffer.Hash.Insert.{Gets, hash_get_free_entry-Gets}
use toadb.Buffer.Hash.RoundTrip.{insert-find}
use toadb.Buffer.Hash.Delete.{Deletes, hash_delete_entry-Deletes}

abbrev chains : ℕ → ℕ → List ℕ
chains q c = if q == 1 && c == 1 then 0 ∷ [] else []

abbrev table : HashTableInfo
table = record {
  max_num = 3;
  partition_num = 4;
  value_size = 2;
  key_value_size = 1;
  elements =
      record { link = none; hash_key = 1; value = 7 ∷ 8 ∷ [] }
      ∷ record { link = some 2; hash_key = 0; value = 0 ∷ 0 ∷ [] }
      ∷ record { link = none; hash_key = 0; value = 0 ∷ 0 ∷ [] }
      ∷ [];
  free_list = some 1;
  free_num = 2;
  partition_mask = 2 ^ 64 - 2 ^ 62;
  partition_shift = 62;
  hash_segment_size = 32;
  seg_buckets = λ q c. if q == 1 && c == 1 then some 0 else none;
  used_num = 1;
}

mem-chains : (q c i : ℕ) → mem i (chains q c) ≡ true → (i ≡ 0) × ((q == 1 && c == 1) ≡ true)
mem-chains q c i m = elim (Bool-cases (q == 1 && c == 1)) [
  | inl hit ↦ (ground arith, hit)
  | inr miss ↦ absurd (ground arith)
]

table-IsTable : IsTable table chains (1 ∷ 2 ∷ [])
table-IsTable = record {
  at_bucket = λ q c. elim (Bool-cases (q == 1 && c == 1)) [
    | inl hit ↦ rw hit (refl, (_, refl, refl))
    | inr miss ↦ rw miss refl
  ];
  at_free = (refl, (_, refl, (refl, (_, refl, refl))));
  fresh_bucket = λ q c. elim (Bool-cases (q == 1 && c == 1)) [
    | inl hit ↦ rw hit (refl, tt)
    | inr miss ↦ rw miss tt
  ];
  fresh_free = (refl, (refl, tt));
  apart = λ q c i m. let z = mem-chains q c i m in ground (arith, z.0);
  apart_buckets = λ q c q' c' i m m'.
      let z = mem-chains q c i m in let z' = mem-chains q' c' i m' in ground (arith, z.1, z'.1);
  counted = refl;
}

hash_get_free_entry-Gets_example :
    Gets table chains 1 1 33
      (5 ∷ 6 ∷ [])
      none
      (1 ∷ 2 ∷ [])
      (hash_get_free_entry 4 table 33 (5 ∷ 6 ∷ []))
unfolding get_partition_index get_bucket_index compare_hash_element
hash_get_free_entry-Gets_example =
    hash_get_free_entry-Gets 4 table chains (1 ∷ 2 ∷ []) 33 (5 ∷ 6 ∷ []) table-IsTable (omega arith)
      (omega arith) (omega arith)

insert-find_example :
    (after : HashTableInfo) × (hash_get_free_entry 4 table 33 (5 ∷ 6 ∷ [])
      ≡ some (HashOp.hash_insert, some 1, after))
    × (hash_find_entry 1 after 33 (5 ∷ 6 ∷ []) (get_partition_index 33 after) ≡ some (some 1))
unfolding get_partition_index get_bucket_index compare_hash_element
insert-find_example =
    insert-find 4 0 table chains 1 (2 ∷ []) 33 (5 ∷ 6 ∷ []) table-IsTable (omega arith)
      (omega arith) (omega arith) refl (omega arith)

hash_delete_entry-Deletes_example :
    Deletes table chains (1 ∷ 2 ∷ []) 1 1 (some 0) (hash_delete_entry 2 table 1 (7 ∷ 9 ∷ []))
unfolding get_partition_index get_bucket_index compare_hash_element
hash_delete_entry-Deletes_example =
    hash_delete_entry-Deletes 2 table chains (1 ∷ 2 ∷ []) 1 (7 ∷ 9 ∷ []) table-IsTable (omega arith)
      (omega arith) (omega arith)

hash_table_create-IsTable_example :
    (t : HashTableInfo) × (hash_table_create 4
        (replicate 8 (record { link = none; hash_key = 0; value = [] }))
        24
        20
      ≡ some t)
    × IsTable t (λ p b. []) (count_from 0 8)
    × (t.partition_mask ≡ 2 ^ 64 - 2 ^ 62)
    × (t.partition_shift ≡ 62)
    × (t.hash_segment_size ≡ 32)
hash_table_create-IsTable_example =
    hash_table_create-IsTable (replicate 8 (record { link = none; hash_key = 0; value = [] })) 24 20
      (omega arith)
