-- ===== src/Buffer/Hash.antt =====
-- util/hashtable/hashtab.c: the table that finds a page's buffer. The elements' memory is a list whose
-- indices stand for the pointers; `none` is NULL. Values are lists of bytes with at least the bytes that
-- are compared and copied. The locks of a partition and of the free list make each step on them one.
pub mod Index
pub mod Chains
pub mod Create
pub mod Insert
pub mod Unlink
pub mod Bucket
pub mod RoundTrip
pub mod Delete
pub mod Tests
use toadb.Base.{
  ℕ, zero, suc, ◌+◌, ◌-◌, ◌*◌, ◌/◌, ◌%◌, ◌^◌, Bool, true, false, ◌&&◌, ◌||◌, List, [], ◌∷◌, Option,
  none, some, ltb, ◌==◌, if◌then◌else◌, ◌>>=◌, get_elem?, set, take, length,
}

pub record HashElement : Type 0 where
  pub link : Option ℕ
  pub hash_key : ℕ
  pub value : List ℕ

-- `seg_buckets p b` is the head of bucket `b` in segment `p`.
pub record HashTableInfo : Type 0 where
  pub max_num : ℕ
  pub partition_num : ℕ
  pub value_size : ℕ
  pub key_value_size : ℕ
  pub elements : List HashElement
  pub free_list : Option ℕ
  pub free_num : ℕ
  pub partition_mask : ℕ
  pub partition_shift : ℕ
  pub hash_segment_size : ℕ
  pub seg_buckets : ℕ → ℕ → Option ℕ
  pub used_num : ℕ

abbrev pub hash_bits : ℕ
hash_bits = 64

-- `a & b` on numbers of `w` bits.
unfoldable pub bit_and : ℕ → ℕ → ℕ → ℕ
bit_and zero a b = 0
bit_and (suc w) a b = a % 2 * (b % 2) + 2 * bit_and w (a / 2) (b / 2)

-- `a | b` likewise.
unfoldable pub bit_or : ℕ → ℕ → ℕ → ℕ
bit_or zero a b = 0
bit_or (suc w) a b = (if a % 2 + b % 2 == 0 then 0 else 1) + 2 * bit_or w (a / 2) (b / 2)

-- `mask |= mask >> k`.
abbrev pub smear : ℕ → ℕ → ℕ
smear k mask = bit_or hash_bits mask (mask / 2 ^ k)

-- `num` is an unsigned int, the result a HASHKEY.
unfoldable pub get_align_num : ℕ → ℕ
unfolding bit_or
get_align_num num =
    let mask = (num + 2 ^ 32 - 1) % 2 ^ 32 in
    (smear 16 (smear 8 (smear 4 (smear 2 (smear 1 mask)))) + 1) % 2 ^ 64

-- The key has 64 bits, so it is 0 after 64 shifts.
unfoldable pub shift_loop : ℕ → ℕ → ℕ
shift_loop zero key = 0
shift_loop (suc fuel) key =
    let rest = shift_loop fuel (key / 2) in if key / 2 == 0 then 0 else suc rest

unfoldable pub get_shift_num : ℕ → ℕ
unfolding shift_loop
get_shift_num key = shift_loop hash_bits key

-- The elements of the memory linked in their order, from `index` on.
unfoldable pub link_elements : ℕ → List HashElement → List HashElement
link_elements index [] = []
link_elements index (e ∷ []) = record e { link = none } ∷ []
link_elements index (e ∷ d ∷ es) =
    let rest = link_elements (index + 1) (d ∷ es) in record e { link = some (index + 1) } ∷ rest

-- `HashTableCreate` with `InitHashTable`, on memory whose bucket pointers are zero; `memory` is what
-- stands in that of the elements. `none`: with one partition the shift of 1 is by 64 bits, which C does
-- not define.
unfoldable pub hash_table_create : ℕ → List HashElement → ℕ → ℕ → Option HashTableInfo
unfolding get_align_num get_shift_num link_elements
hash_table_create part_num memory value_size key_value_size =
    let shift = hash_bits - get_shift_num (get_align_num part_num) in
    if shift == 64
    then none
    else some record {
      max_num = length memory;
      partition_num = part_num;
      value_size = value_size;
      key_value_size = key_value_size;
      elements = link_elements 0 memory;
      free_list = some 0;
      free_num = length memory;
      partition_mask = 2 ^ 64 - 1 - (2 ^ shift - 1);
      partition_shift = shift;
      hash_segment_size = 32;
      seg_buckets = λ q c. none;
      used_num = 0;
    }

-- In C, `>>` and `%` bind more tightly than `&`.
unfoldable pub get_partition_index : ℕ → HashTableInfo → ℕ
unfolding bit_and
get_partition_index key t = bit_and hash_bits key (t.partition_mask / 2 ^ t.partition_shift)

unfoldable pub get_bucket_index : ℕ → HashTableInfo → ℕ
unfolding bit_and
get_bucket_index key t =
    bit_and hash_bits key ((2 ^ 64 - 1 - t.partition_mask) % t.hash_segment_size)

-- `memcmp` of the first bytes is 0.
unfoldable pub compare_hash_element : ℕ → List ℕ → List ℕ → Bool
compare_hash_element zero a b = true
compare_hash_element (suc n) [] [] = true
compare_hash_element (suc n) [] (y ∷ b) = false
compare_hash_element (suc n) (x ∷ a) [] = false
compare_hash_element (suc n) (x ∷ a) (y ∷ b) =
    let rest = compare_hash_element n a b in x == y && rest

abbrev pub matches : HashTableInfo → ℕ → List ℕ → HashElement → Bool
matches t key value e = e.hash_key == key && compare_hash_element t.key_value_size e.value value

-- The loop over a bucket from an element on: `none` is an access outside the memory, or no end within
-- the rounds.
unfoldable pub get_hash_entry_from_bucket :
    ℕ → HashTableInfo → Option ℕ → ℕ → List ℕ → Option (Option ℕ)
get_hash_entry_from_bucket zero t element key value = none
get_hash_entry_from_bucket (suc fuel) t none key value = some none
get_hash_entry_from_bucket (suc fuel) t (some i) key value = do
  e ← get_elem? t.elements i
  let next = get_hash_entry_from_bucket fuel t e.link key value
  if matches t key value e then some (some i) else next

abbrev pub bucket_head : HashTableInfo → ℕ → ℕ → Option (Option ℕ)
bucket_head t p b =
    if ltb p t.partition_num && ltb b t.hash_segment_size then some (t.seg_buckets p b) else none

abbrev pub set_bucket : ℕ → ℕ → Option ℕ → HashTableInfo → HashTableInfo
set_bucket p b v t = record t {
  seg_buckets = λ q c. if q == p && c == b then v else t.seg_buckets q c;
}

abbrev pub put_element : ℕ → HashElement → HashTableInfo → HashTableInfo
put_element i e t = record t { elements = set t.elements i e }

unfoldable pub hash_find_entry : ℕ → HashTableInfo → ℕ → List ℕ → ℕ → Option (Option ℕ)
unfolding get_bucket_index get_hash_entry_from_bucket
hash_find_entry fuel t key value partition = do
  head ← bucket_head t partition (get_bucket_index key t)
  get_hash_entry_from_bucket fuel t head key value

-- `GetFromFreeList` on a free list that is not empty.
abbrev pub pop_from_free_list : ℕ → HashElement → HashTableInfo → HashTableInfo
pop_from_free_list i e t = record (put_element i (record e { link = none }) t) {
  free_list = e.link;
  free_num = t.free_num - 1;
}

unfoldable pub put_free_list : HashTableInfo → ℕ → Option HashTableInfo
put_free_list t i = do
  e ← get_elem? t.elements i
  some (record (put_element i (record e { link = t.free_list }) t) {
    free_list = some i;
    free_num = t.free_num + 1;
  })

pub data HashOp : Type 0 where
  hash_find hash_insert hash_delete hash_null : HashOp

-- The lines "insert to segment", with the copy of the value.
abbrev pub insert_entry : HashTableInfo → ℕ → ℕ → ℕ → HashElement → ℕ → List ℕ → HashTableInfo
insert_entry t p b i e key value =
    record (set_bucket p b (some i) (
      put_element i
        (record e { link = t.seg_buckets p b; hash_key = key; value = take t.value_size value })
        t)) { used_num = t.used_num + 1 }

-- In the bucket that the key chooses: the flag, the entry and the table.
unfoldable pub get_free_entry_in :
    ℕ → HashTableInfo → ℕ → ℕ → ℕ → List ℕ → Option (HashOp × Option ℕ × HashTableInfo)
get_free_entry_in fuel t p b key value = do
  head ← bucket_head t p b
  found ← get_hash_entry_from_bucket fuel t head key value
  elim found [
    | some i ↦ some (HashOp.hash_find, some i, t)
    | none ↦ elim t.free_list [
      | none ↦ some (HashOp.hash_null, none, t)
      | some i ↦ do
        e ← get_elem? t.elements i
        some (
          HashOp.hash_insert,
          some i,
          insert_entry (pop_from_free_list i e t) p b i (record e { link = none }) key value,
        )
    ]
  ]

unfoldable pub hash_get_free_entry :
    ℕ → HashTableInfo → ℕ → List ℕ → Option (HashOp × Option ℕ × HashTableInfo)
unfolding get_free_entry_in
hash_get_free_entry fuel t key value =
    get_free_entry_in fuel t (get_partition_index key t) (get_bucket_index key t) key value

-- The loop of `DeleteHashEntryFromBucket` with its element `i` and the one before it; at the first
-- element the two are the same. `preelement->link` is written in both cases. The number of used
-- elements is at least 1 where an element is deleted.
unfoldable pub delete_loop :
    ℕ → HashTableInfo → ℕ → ℕ → ℕ → Option ℕ → ℕ → List ℕ → Option (Option ℕ × HashTableInfo)
delete_loop zero t p b pre element key value = none
delete_loop (suc fuel) t p b pre none key value = some (none, t)
delete_loop (suc fuel) t p b pre (some i) key value = do
  e ← get_elem? t.elements i
  let next = delete_loop fuel t p b i e.link key value
  if matches t key value e
      then (do
        let t' = if pre == i then set_bucket p b e.link t else t
        d ← get_elem? t'.elements pre
        some (
          some i,
          record (put_element pre (record d { link = e.link }) t') { used_num = t.used_num - 1 },
        ))
      else next

unfoldable pub delete_in : ℕ → HashTableInfo → ℕ → ℕ → ℕ → List ℕ → Option (Bool × HashTableInfo)
unfolding delete_loop put_free_list
delete_in fuel t p b key value = do
  head ← bucket_head t p b
  (entry, t') ← elim head [
    | none ↦ some (none, t)
    | some i ↦ delete_loop fuel t p b i (some i) key value
  ]
  elim entry [ none ↦ some (false, t') | some i ↦ do t'' ← put_free_list t' i; some (true, t'') ]

-- `true` stands for the return value 0, `false` for -1.
unfoldable pub hash_delete_entry : ℕ → HashTableInfo → ℕ → List ℕ → Option (Bool × HashTableInfo)
unfolding delete_in
hash_delete_entry fuel t key value =
    delete_in fuel t (get_partition_index key t) (get_bucket_index key t) key value
