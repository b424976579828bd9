-- ===== src/Buffer/Cache/Hit.antt =====
-- A page that AllocBuffer has put in the cache, asked for again.
use mathlib.Core.Path.{fun_ext}
use toadb.Base.{
  ℕ, zero, suc, ◌+◌, ◌^◌, ◌<◌, ◌≤◌, ◌≡◌, ◌≢◌, refl, sym, ◌∙◌, ap, subst, true, false, List, ◌∷◌,
  Option, none, some, ◌==◌, if◌then◌else◌, ◌>>=◌, get_elem?, drop, take, length, arith,
}
use toadb.Buffer.Pool.{
  BufferTag, BufferDesc, BufferPoolContext, Outcome, bvf_invalid, compare_buffer_tag, put_desc,
  get_free_buffer_id, set_buffer_valid,
}
use toadb.Buffer.Hash.{
  HashElement, bucket_head, HashTableInfo, HashOp, hash_find_entry, hash_get_free_entry,
  get_partition_index, get_bucket_index,
}
use toadb.Buffer.Hash.Chains.{IsTable}
use toadb.Buffer.Hash.Insert.{inserted, get_elem?-new_entry}
use toadb.Buffer.Hash.RoundTrip.{get_free_entry_in-insert, find-inserted}
use toadb.Buffer.Cache.{
  Cache, Meanwhile, Alloc, bvf_tag, buffer_found, buffer_empty, tag_bytes, int_bytes, hash_value,
  entry_buffer_id, size_of_tag, take_tag, put_pool, put_table, search_buffer, find_free, recheck,
  alloc_from, alloc_loop, alloc_buffer,
}
use toadb.Buffer.Cache.Stages.{
  bucket-tag_bytes, read_int_bytes-int_bytes, compare_buffer_tag_self, search_buffer-entry,
  search_buffer-none, pinned, pin_buffer-at, unpin_buffer-total, put_desc-at, init_tag-inserts,
}

pub tag_fits : (k n : ℕ) → k ≡ size_of_tag → n ≡ size_of_tag + 4 → k ≤ n
tag_fits k n ks vs = omega arith

pub pos_of_lt : {k n : ℕ} → k < n → 0 < n
pos_of_lt h = omega arith

pub drop-hash_value :
    (tag : BufferTag) (id : ℕ)
    → drop size_of_tag (take (size_of_tag + 4) (hash_value tag id)) ≡ int_bytes id
unfolding tag_bytes int_bytes
drop-hash_value tag id = refl

-- The bytes of a new entry give its buffer.
pub new_entry-id :
    (t : HashTableInfo) (p b i : ℕ) (e : HashElement) (key : ℕ) (tag : BufferTag) (id : ℕ)
    → get_elem? t.elements i ≡ some e
    → t.value_size ≡ size_of_tag + 4
    → id < 2 ^ 32
    → entry_buffer_id (inserted t p b i e key (hash_value tag id)) i ≡ some id
new_entry-id t p b i e key tag id at vs small =
    let value = hash_value tag id in
    let there = get_elem?-new_entry t p b i e key value at in
    let bytes : drop size_of_tag (take t.value_size value) ≡ int_bytes id =
      subst (λ n. drop size_of_tag (take n value) ≡ int_bytes id) (sym vs)
        (drop-hash_value tag id) in
    rw (there, bytes) (read_int_bytes-int_bytes id small)

-- The search for a tag that has just been put in the table.
pub hash_find_entry-inserted :
    (rounds : ℕ) (t : HashTableInfo) (i : ℕ) (e : HashElement) (key : ℕ) (tag : BufferTag) (id : ℕ)
    → 0 < rounds
    → get_elem? t.elements i ≡ some e
    → let p = get_partition_index key t in
      let b = get_bucket_index key t in
      let after = inserted t p b i e key (hash_value tag id) in
      p < t.partition_num
      → b < t.hash_segment_size
      → t.key_value_size ≡ size_of_tag
      → t.value_size ≡ size_of_tag + 4
      → hash_find_entry rounds after key (tag_bytes tag) (get_partition_index key after)
        ≡ some (some i)
unfolding hash_find_entry get_partition_index get_bucket_index
hash_find_entry-inserted zero t i e key tag id more at hp hb ks vs = elim more [ ]
hash_find_entry-inserted (suc k) t i e key tag id more at hp hb ks vs =
    let p = get_partition_index key t in
    let b = get_bucket_index key t in
    let after = inserted t p b i e key (hash_value tag id) in
    let f =
      find-inserted k t p b i e key (hash_value tag id) at hp hb
        (tag_fits t.key_value_size t.value_size ks vs) in
    let same = λ (head : Option ℕ). sym (bucket-tag_bytes (suc k) after head key tag id ks) in
    ap (λ walk. bucket_head after p b >>= walk) (fun_ext same) ∙ f

module _ (rounds : ℕ) (get_hash_key : BufferTag → ℕ) where
  -- A search that finds a buffer with the tag in it.
  pub alloc_buffer-found :
      (m : Meanwhile) (ms : List Meanwhile) (tag : BufferTag) (id : ℕ) (c : Cache) (d : BufferDesc)
      → search_buffer rounds get_hash_key c tag ≡ some (some id)
      → m.before_lock c ≡ c
      → get_elem? c.pool.buffer_desc id ≡ some d
      → d.buffer_tag ≡ tag
      → (d.is_valid == bvf_invalid) ≡ false
      → alloc_buffer rounds get_hash_key (m ∷ ms) tag c
        ≡ Alloc.got
            (if d.is_valid == bvf_tag then buffer_empty else buffer_found)
            id
            (put_pool (put_desc id (pinned d) c.pool) c)
  unfolding alloc_buffer alloc_loop alloc_from recheck
  alloc_buffer-found m ms tag id c d s quiet at e valid =
      let p = pin_buffer-at c.pool id d at in
      let there = put_desc-at c.pool id d (pinned d) at in
      let (u, eu, eu2) = unpin_buffer-total (put_desc id (pinned d) c.pool) id (pinned d) there in
      let same : compare_buffer_tag tag d.buffer_tag ≡ true =
        subst (λ t. compare_buffer_tag tag t ≡ true) (sym e) (compare_buffer_tag_self tag) in
      rw (alloc_buffer, alloc_loop, alloc_from, s, quiet, recheck, p, eu, there, same, valid) refl

  -- A search that finds nothing, with a free buffer.
  pub alloc_buffer-new :
      (m : Meanwhile) (ms : List Meanwhile) (tag : BufferTag) (id entry : ℕ) (c : Cache)
      (pool : BufferPoolContext) (d : BufferDesc) (after : HashTableInfo)
      → search_buffer rounds get_hash_key c tag ≡ some none
      → get_free_buffer_id rounds c.pool ≡ Outcome.done (some id) pool
      → get_elem? pool.buffer_desc id ≡ some d
      → d.is_valid ≡ bvf_invalid
      → hash_get_free_entry rounds (m.before_insert c.table) (get_hash_key tag) (hash_value tag id)
        ≡ some (HashOp.hash_insert, some entry, after)
      → let pinned_pool = put_desc id (pinned d) pool in
        alloc_buffer rounds get_hash_key (m ∷ ms) tag c
        ≡ Alloc.got buffer_empty id
            (put_table after (put_pool (put_desc id (take_tag tag (pinned d)) pinned_pool) c))
  unfolding alloc_buffer alloc_loop alloc_from find_free
  alloc_buffer-new m ms tag id entry c pool d after s free at invalid ins =
      let p = pin_buffer-at pool id d at in
      let there = put_desc-at pool id d (pinned d) at in
      let o =
        init_tag-inserts rounds get_hash_key m tag id (put_pool (put_desc id (pinned d) pool) c)
          (pinned d) there invalid after entry ins in
      rw (alloc_buffer, alloc_loop, alloc_from, s, find_free, free, p, o) refl

  -- For a well-formed table with a free element, sizes of a tag and an entry as in the code,
  -- indices in range and enough rounds, and a tag that is not in the table, AllocBuffer takes
  -- an invalid buffer from the free list and returns it as empty; after the buffer is marked
  -- valid, AllocBuffer for the same tag returns the same buffer as found, if nobody else
  -- changes the table or the pool meanwhile.
  pub alloc_buffer-again :
      (m m2 : Meanwhile) (ms ms2 : List Meanwhile) (tag : BufferTag) (id i flag : ℕ) (c : Cache)
      (pool : BufferPoolContext) (d : BufferDesc) (chains : ℕ → ℕ → List ℕ) (free : List ℕ)
      → IsTable c.table chains (i ∷ free)
      → let key = get_hash_key tag in
        let p = get_partition_index key c.table in
        let b = get_bucket_index key c.table in
        p < c.table.partition_num
        → b < c.table.hash_segment_size
        → length (chains p b) < rounds
        → c.table.key_value_size ≡ size_of_tag
        → c.table.value_size ≡ size_of_tag + 4
        → search_buffer rounds get_hash_key c tag ≡ some none
        → get_free_buffer_id rounds c.pool ≡ Outcome.done (some id) pool
        → get_elem? pool.buffer_desc id ≡ some d
        → d.is_valid ≡ bvf_invalid
        → id < 2 ^ 32
        → m.before_insert c.table ≡ c.table
        → ((c' : Cache) → m2.before_lock c' ≡ c')
        → flag ≢ bvf_invalid
        → (c' : Cache) × (alloc_buffer rounds get_hash_key (m ∷ ms) tag c
            ≡ Alloc.got buffer_empty id c')
          × (loaded : BufferPoolContext) × (set_buffer_valid c'.pool id flag ≡ some loaded)
          × (c'' : Cache) × (alloc_buffer rounds get_hash_key (m2 ∷ ms2) tag (put_pool loaded c')
              ≡ Alloc.got (if flag == bvf_tag then buffer_empty else buffer_found) id c'')
  unfolding hash_get_free_entry set_buffer_valid hash_find_entry
  alloc_buffer-again m m2 ms ms2 tag id i flag c pool d chains free v hp hb h ks vs s fr at invalid
        small quiet quiet2 flagged =
      let t = c.table in
      let key = get_hash_key tag in
      let p = get_partition_index key t in
      let b = get_bucket_index key t in
      let value = hash_value tag id in
      let e = v.at_free.1.0 in
      let after = inserted t p b i e key value in
      let miss = search_buffer-none rounds get_hash_key c chains (i ∷ free) tag id v hp hb h ks s in
      let ins = get_free_entry_in-insert rounds t chains p b i free key value v hp hb h miss in
      let ins' : hash_get_free_entry rounds (m.before_insert t) key value
          ≡ some (HashOp.hash_insert, some i, after) =
        subst
          (λ x. hash_get_free_entry rounds x key value ≡ some (HashOp.hash_insert, some i, after))
          (sym quiet) ins in
      let e1 = pinned d in
      let pool1 = put_desc id e1 pool in
      let at1 = put_desc-at pool id d e1 at in
      let e2 = take_tag tag e1 in
      let pool2 = put_desc id e2 pool1 in
      let at2 = put_desc-at pool1 id e1 e2 at1 in
      let c' : Cache = put_table after (put_pool pool2 c) in
      let e3 : BufferDesc = record e2 { is_valid = flag } in
      let pool3 = put_desc id e3 pool2 in
      let at3 = put_desc-at pool2 id e2 e3 at2 in
      let found : search_buffer rounds get_hash_key (put_pool pool3 c') tag ≡ some (some id) =
        search_buffer-entry rounds get_hash_key (put_pool pool3 c') tag i
          (hash_find_entry-inserted rounds t i e key tag id (pos_of_lt h) v.at_free.1.1 hp hb ks vs)
        ∙ rw (new_entry-id t p b i e key tag id v.at_free.1.1 vs small) refl in
      (
        c',
        alloc_buffer-new m ms tag id i c pool d after s fr at invalid ins',
        pool3,
        rw at2 refl,
        _,
        alloc_buffer-found m2 ms2 tag id (put_pool pool3 c') e3 found (quiet2 (put_pool pool3 c'))
            at3 refl (ground arith),
      )
