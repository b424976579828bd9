-- ===== src/Buffer/Cache/Stages.antt =====
-- The parts of AllocBuffer, and what its search and insertion find in the table.
use toadb.Base.{
  ℕ, zero, suc, ◌+◌, ◌-◌, ◌%◌, ◌^◌, ◌<◌, ◌≡◌, ◌≢◌, refl, sym, ◌∙◌, ap, true, ◌&&◌, List, [], ◌∷◌,
  ◌++◌, Option, none, some, ◌==◌, ltb, ◌>>=◌, get_elem?, length, arith, Bool-cases, Option-cases,
  inl, inr, lt-length, get_elem?-set_self, get_elem?-set_ne,
}
use toadb.Buffer.Pool.{
  BufferTag, BufferDesc, BufferPoolContext, buffer_clean, bvf_invalid, use_count_max,
  compare_buffer_tag, put_desc, pin_buffer, unpin_buffer,
}
use toadb.Buffer.Hash.{
  HashTableInfo, HashOp, compare_hash_element, get_hash_entry_from_bucket, hash_find_entry,
  hash_get_free_entry, get_partition_index, get_bucket_index,
}
use toadb.Buffer.Hash.Chains.{IsTable, first_match, get_hash_entry_from_bucket-first_match}
use toadb.Buffer.Cache.{
  Cache, Meanwhile, Goto, Alloc, buffer_empty, bvf_tag, tag_bytes, int_bytes, hash_value,
  read_int_bytes, entry_buffer_id, size_of_tag, take_tag, put_pool, put_table, search_buffer,
  init_tag,
}

pub compare-append :
    (n : ℕ) (a b c : List ℕ)
    → length b ≡ n
    → compare_hash_element n a (b ++ c) ≡ compare_hash_element n a b
unfolding compare_hash_element
compare-append zero a b c e = refl
compare-append (suc n) a [] c e = absurd (omega arith)
compare-append (suc n) [] (y ∷ b) c e = refl
compare-append (suc n) (x ∷ a) (y ∷ b) c e =
    let ih = compare-append n a b c (omega arith) in ground arith

pub length-tag_bytes : (tag : BufferTag) → length (tag_bytes tag) ≡ size_of_tag
unfolding tag_bytes int_bytes
length-tag_bytes tag = refl

-- The bytes after the tag do not count.
pub bucket-tag_bytes :
    (fuel : ℕ) (t : HashTableInfo) (head : Option ℕ) (key : ℕ) (tag : BufferTag) (id : ℕ)
    → t.key_value_size ≡ size_of_tag
    → get_hash_entry_from_bucket fuel t head key (hash_value tag id)
      ≡ get_hash_entry_from_bucket fuel t head key (tag_bytes tag)
unfolding get_hash_entry_from_bucket
bucket-tag_bytes zero t head key tag id e = refl
bucket-tag_bytes (suc fuel) t none key tag id e = refl
bucket-tag_bytes (suc fuel) t (some i) key tag id e = elim (Option-cases (get_elem? t.elements i)) [
  | inl out ↦ rw (get_hash_entry_from_bucket, out) refl
  | inr (el, at) ↦
      let ih = bucket-tag_bytes fuel t el.link key tag id e in
      let same =
        compare-append t.key_value_size el.value (tag_bytes tag) (int_bytes id)
          (length-tag_bytes tag ∙ sym e) in
      rw (get_hash_entry_from_bucket, at, same, ih) refl
]

pub read_int_bytes-int_bytes : (n : ℕ) → n < 2 ^ 32 → read_int_bytes (int_bytes n) ≡ some n
unfolding read_int_bytes int_bytes
read_int_bytes-int_bytes n h = ap some (omega arith)

pub compare_buffer_tag_self : (tag : BufferTag) → compare_buffer_tag tag tag ≡ true
unfolding compare_buffer_tag
compare_buffer_tag_self tag = ground arith

module _ (rounds : ℕ) (get_hash_key : BufferTag → ℕ) where
  pub search_buffer-entry :
      (c : Cache) (tag : BufferTag) (i : ℕ)
      → hash_find_entry rounds c.table
          (get_hash_key tag)
          (tag_bytes tag)
          (get_partition_index (get_hash_key tag) c.table)
        ≡ some (some i)
      → search_buffer rounds get_hash_key c tag
        ≡ (do id ← entry_buffer_id c.table i; some (some id))
  unfolding search_buffer
  search_buffer-entry c tag i e = rw (search_buffer, e) refl

  not_none : (o : Option ℕ) → (o >>= λ id. some (some id)) ≢ some none
  not_none none e = cc
  not_none (some id) e = cc

  -- A tag that is not in the table matches no entry of its bucket.
  pub search_buffer-none :
      (c : Cache) (chains : ℕ → ℕ → List ℕ) (free : List ℕ) (tag : BufferTag) (id : ℕ)
      → IsTable c.table chains free
      → let key = get_hash_key tag in
        let p = get_partition_index key c.table in
        let b = get_bucket_index key c.table in
        p < c.table.partition_num
        → b < c.table.hash_segment_size
        → length (chains p b) < rounds
        → c.table.key_value_size ≡ size_of_tag
        → search_buffer rounds get_hash_key c tag ≡ some none
        → first_match c.table key (hash_value tag id) (chains p b) ≡ none
  unfolding hash_find_entry
  search_buffer-none c chains free tag id v hp hb h size s =
      let t = c.table in
      let key = get_hash_key tag in
      let p = get_partition_index key t in
      let b = get_bucket_index key t in
      let in_range : (ltb p t.partition_num && ltb b t.hash_segment_size) ≡ true = ground arith in
      let walk = λ (value : List ℕ).
        get_hash_entry_from_bucket-first_match rounds t (t.seg_buckets p b) (chains p b) key value
          (v.at_bucket p b) h in
      let same = bucket-tag_bytes rounds t (t.seg_buckets p b) key tag id size in
      let equal = sym (walk (hash_value tag id)) ∙ same ∙ walk (tag_bytes tag) in
      elim (Option-cases (first_match t key (tag_bytes tag) (chains p b))) [
        | inl miss ↦ ground (arith, equal, miss)
        | inr (i, hit) ↦
            let found : hash_find_entry rounds t key (tag_bytes tag) p ≡ some (some i) =
              rw (in_range, walk (tag_bytes tag), hit) refl in
            absurd (not_none (entry_buffer_id t i) (sym (search_buffer-entry c tag i found) ∙ s))
      ]

abbrev pub pinned : BufferDesc → BufferDesc
pinned d = record d { used_cnt = use_count_max; ref_cnt = (d.ref_cnt + 1) % 2 ^ 32 }

pub pin_buffer-at :
    (pool : BufferPoolContext) (id : ℕ) (d : BufferDesc)
    → get_elem? pool.buffer_desc id ≡ some d
    → pin_buffer pool id ≡ some (put_desc id (pinned d) pool)
unfolding pin_buffer
pin_buffer-at pool id d at = rw at refl

pub put_desc-at :
    (pool : BufferPoolContext) (id : ℕ) (d e : BufferDesc)
    → get_elem? pool.buffer_desc id ≡ some d
    → get_elem? (put_desc id e pool).buffer_desc id ≡ some e
put_desc-at pool id d e at =
    get_elem?-set_self pool.buffer_desc id e (lt-length pool.buffer_desc id at)

-- The other descriptors stay as they are.
unpin_buffer-frame :
    (pool after : BufferPoolContext) (id j : ℕ)
    → unpin_buffer pool id ≡ some after
    → id ≢ j
    → get_elem? after.buffer_desc j ≡ get_elem? pool.buffer_desc j
unfolding unpin_buffer
unpin_buffer-frame pool after id j e differ = elim (Option-cases (get_elem? pool.buffer_desc id)) [
  | inl out ↦ absurd (ground arith)
  | inr (d, at) ↦
      let frame =
        get_elem?-set_ne pool.buffer_desc id j (record d { ref_cnt = d.ref_cnt - 1 }) differ in
      ground arith
]

pub unpin_buffer-total :
    (pool : BufferPoolContext) (id : ℕ) (d : BufferDesc)
    → get_elem? pool.buffer_desc id ≡ some d
    → (after : BufferPoolContext) × (unpin_buffer pool id ≡ some after)
      × ((n : ℕ) × (get_elem? after.buffer_desc id ≡ some (record d { ref_cnt = n })))
unfolding unpin_buffer
unpin_buffer-total pool id d at = elim (Bool-cases (ltb 0 d.ref_cnt)) [
  | inl some_left ↦
      let e : BufferDesc = record d { ref_cnt = d.ref_cnt - 1 } in
      (put_desc id e pool, rw (at, some_left) refl, (d.ref_cnt - 1, put_desc-at pool id d e at))
  | inr none_left ↦ (pool, rw (at, none_left) refl, (d.ref_cnt, at))
]

module _ (rounds : ℕ) (get_hash_key : BufferTag → ℕ) where
  module _ (m : Meanwhile) (tag : BufferTag) (id : ℕ) (c : Cache) (d : BufferDesc)
      (at : get_elem? c.pool.buffer_desc id ≡ some d) (invalid : d.is_valid ≡ bvf_invalid) where
    -- The tag goes into the descriptor and the table.
    pub init_tag-inserts :
        (after : HashTableInfo) (entry : ℕ)
        → hash_get_free_entry rounds
            (m.before_insert c.table)
            (get_hash_key tag)
            (hash_value tag id)
          ≡ some (HashOp.hash_insert, some entry, after)
        → init_tag rounds get_hash_key m tag id c
          ≡ Alloc.got buffer_empty id
              (put_table after (put_pool (put_desc id (take_tag tag d) c.pool) c))
    unfolding init_tag
    init_tag-inserts after entry e =
        let (u, eu, eu2) = unpin_buffer-total c.pool id d at in
        let (w, ew, ew2) =
          unpin_buffer-total (put_desc id (take_tag tag d) c.pool) id (take_tag tag d)
            (put_desc-at c.pool id d (take_tag tag d) at) in
        let test : (d.is_valid == bvf_invalid) ≡ true = ground arith in
        rw (at, eu, test, ew, e) refl

    -- Another worker's entry for the tag sends this one to that entry's buffer.
    pub init_tag-finds :
        (after : HashTableInfo) (entry other : ℕ)
        → hash_get_free_entry rounds
            (m.before_insert c.table)
            (get_hash_key tag)
            (hash_value tag id)
          ≡ some (HashOp.hash_find, some entry, after)
        → entry_buffer_id after entry ≡ some other
        → (left : BufferPoolContext) × ((n : ℕ) × (get_elem? left.buffer_desc id
              ≡ some (record d {
                is_valid = bvf_tag;
                buffer_tag = tag;
                is_dirty = buffer_clean;
                ref_cnt = n;
              })))
          × ((j : ℕ) → id ≢ j → get_elem? left.buffer_desc j ≡ get_elem? c.pool.buffer_desc j)
          × (init_tag rounds get_hash_key m tag id c
              ≡ Alloc.goto (Goto.find_recheck other) (put_table after (put_pool left c)))
    unfolding init_tag
    init_tag-finds after entry other e eo =
        let (u, eu, eu2) = unpin_buffer-total c.pool id d at in
        let (w, ew, ew2) =
          unpin_buffer-total (put_desc id (take_tag tag d) c.pool) id (take_tag tag d)
            (put_desc-at c.pool id d (take_tag tag d) at) in
        let test : (d.is_valid == bvf_invalid) ≡ true = ground arith in
        (
          w,
          ew2,
          λ j differ.
              unpin_buffer-frame (put_desc id (take_tag tag d) c.pool) w id j ew differ
              ∙ get_elem?-set_ne c.pool.buffer_desc id j (take_tag tag d) differ,
          rw (at, eu, test, ew, e, eo) refl,
        )
