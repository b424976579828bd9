-- ===== src/Buffer/Cache/Leak.antt =====
-- Two workers that miss the same page: the second to insert the tag leaves a buffer behind whose
-- replacement takes the other's entry out of the table.
use toadb.Base.{
  ℕ, suc, ◌+◌, ◌-◌, ◌^◌, ◌<◌, ◌≡◌, ◌≢◌, refl, sym, ◌∙◌, ap, subst, true, ◌&&◌, List, [], ◌∷◌,
  Option, none, some, ◌==◌, ltb, ◌>>=◌, get_elem?, set, set-get_elem?, get_elem?-set_ne, take,
  length, mem, arith, ==_refl, Option-cases, inl, inr,
}
use toadb.Buffer.Pool.{BufferTag, BufferDesc, bvf_invalid, buffer_clean, put_desc}
use toadb.Buffer.Hash.{
  HashElement, bucket_head, set_bucket, matches, compare_hash_element, HashTableInfo, HashOp,
  get_hash_entry_from_bucket, hash_find_entry, hash_get_free_entry, hash_delete_entry, delete_in,
  delete_loop, put_free_list, get_free_entry_in, get_partition_index, get_bucket_index,
}
use toadb.Buffer.Hash.Chains.{
  IsTable, Links-frame, first_match, get_hash_entry_from_bucket-first_match,
}
use toadb.Buffer.Hash.RoundTrip.{compare-take, get_free_entry_in-insert}
use toadb.Buffer.Cache.{
  bvf_tag, Cache, Meanwhile, Goto, Alloc, tag_bytes, int_bytes, hash_value, size_of_tag, put_pool,
  put_table, search_buffer, clean_page_buffer, init_tag,
}
use toadb.Buffer.Cache.Stages.{
  compare-append, length-tag_bytes, bucket-tag_bytes, search_buffer-entry, search_buffer-none,
  init_tag-finds,
}
use toadb.Buffer.Cache.Hit.{tag_fits, pos_of_lt, new_entry-id, hash_find_entry-inserted}
use toadb.Buffer.Hash.Delete.{freed}
use toadb.Buffer.Hash.Insert.{inserted, new_entry, get_elem?-new_entry}

-- The first entry of a bucket is deleted, if it matches.
abbrev without_first : HashTableInfo → ℕ → ℕ → ℕ → HashElement → HashTableInfo
without_first t p b i e = freed (record (set_bucket p b e.link t) { used_num = t.used_num - 1 }) i e

delete_in-first :
    (k : ℕ) (t : HashTableInfo) (p b i : ℕ) (e : HashElement) (key : ℕ) (value : List ℕ)
    → (ltb p t.partition_num && ltb b t.hash_segment_size) ≡ true
    → t.seg_buckets p b ≡ some i
    → get_elem? t.elements i ≡ some e
    → matches t key value e ≡ true
    → delete_in (suc k) t p b key value ≡ some (true, without_first t p b i e)
unfolding delete_in delete_loop put_free_list
delete_in-first k t p b i e key value in_range head at hit =
    let still : set t.elements i (record e { link = e.link }) ≡ t.elements =
      set-get_elem? t.elements i at in
    rw (delete_in, in_range, head, delete_loop, at, hit, ==_refl i)
      (rw at (rw (put_free_list, still, at) refl))

-- Matches among entries other than one that is written.
first_match-set :
    (t t' : HashTableInfo) (key : ℕ) (value : List ℕ) (ids : List ℕ)
    → t'.key_value_size ≡ t.key_value_size
    → ((j : ℕ) → mem j ids ≡ true → get_elem? t'.elements j ≡ get_elem? t.elements j)
    → first_match t' key value ids ≡ first_match t key value ids
first_match-set t t' key value [] size same = refl
first_match-set t t' key value (x ∷ xs) size same =
    let ih = first_match-set t t' key value xs size (λ j m. same j (ground arith)) in
    let here = same x (ground arith) in
    elim (Option-cases (get_elem? t.elements x)) [
      | inl out ↦ rw (first_match, here, out) refl
      | inr (e, at) ↦
          let alike : matches t' key value e ≡ matches t key value e =
            ap (λ n. e.hash_key == key && compare_hash_element n e.value value) size in
          rw (first_match, here, at, alike, ih) refl
    ]

-- The entry for a tag matches whatever buffer id stands behind the tag.
new_entry-matches :
    (t : HashTableInfo) (p b : ℕ) (e : HashElement) (key : ℕ) (tag : BufferTag) (other id : ℕ)
    → t.key_value_size ≡ size_of_tag
    → t.value_size ≡ size_of_tag + 4
    → matches t key (hash_value tag id) (new_entry t p b e key (hash_value tag other)) ≡ true
new_entry-matches t p b e key tag other id ks vs =
    let n = t.key_value_size in
    let stored = take t.value_size (hash_value tag other) in
    let long = length-tag_bytes tag ∙ sym ks in
    let c1 = compare-append n stored (tag_bytes tag) (int_bytes other) long in
    let c2 = compare-append n stored (tag_bytes tag) (int_bytes id) long in
    let c3 = compare-take n t.value_size (hash_value tag other) (tag_fits n t.value_size ks vs) in
    rw (==_refl key) (c2 ∙ sym c1 ∙ c3)

module _ (t : HashTableInfo) (chains : ℕ → ℕ → List ℕ) (i : ℕ) (free : List ℕ) (key other id : ℕ)
    (tag : BufferTag) (v : IsTable t chains (i ∷ free)) where
  abbrev part : ℕ
  part = get_partition_index key t

  abbrev bucket : ℕ
  bucket = get_bucket_index key t

  abbrev theirs : HashTableInfo
  theirs = inserted t part bucket i v.at_free.1.0 key (hash_value tag other)

  abbrev entry : HashElement
  entry = new_entry t part bucket v.at_free.1.0 key (hash_value tag other)

  abbrev lost : HashTableInfo
  lost = without_first theirs part bucket i entry

  theirs-head : theirs.seg_buckets part bucket ≡ some i
  theirs-head = rw (==_refl part, ==_refl bucket) refl

  module _ (k : ℕ) (hp : part < t.partition_num) (hb : bucket < t.hash_segment_size)
      (ks : t.key_value_size ≡ size_of_tag) (vs : t.value_size ≡ size_of_tag + 4) where
    in_range : (ltb part t.partition_num && ltb bucket t.hash_segment_size) ≡ true
    in_range = ground arith

    there : get_elem? theirs.elements i ≡ some entry
    there =
        get_elem?-new_entry t part bucket i v.at_free.1.0 key (hash_value tag other) v.at_free.1.1

    -- The second worker finds the entry of the first.
    second_finds :
        hash_get_free_entry (suc k) theirs key (hash_value tag id)
        ≡ some (HashOp.hash_find, some i, theirs)
    unfolding hash_get_free_entry get_free_entry_in get_hash_entry_from_bucket get_partition_index
        get_bucket_index
    second_finds =
        let hit = new_entry-matches t part bucket v.at_free.1.0 key tag other id ks vs in
        rw (in_range, theirs-head, there, hit) refl

    -- The replacement of the second worker's buffer deletes it.
    second_deletes : hash_delete_entry (suc k) theirs key (hash_value tag id) ≡ some (true, lost)
    unfolding hash_delete_entry get_partition_index get_bucket_index
    second_deletes =
        let hit = new_entry-matches t part bucket v.at_free.1.0 key tag other id ks vs in
        delete_in-first k theirs part bucket i entry key (hash_value tag id) in_range theirs-head
          there hit

    elsewhere :
        (j : ℕ)
        → mem j (chains part bucket) ≡ true
        → get_elem? lost.elements j ≡ get_elem? t.elements j
    elsewhere j m =
        let apart = v.apart part bucket j m in
        let ne : i ≢ j = ground arith in
        let e0 : HashElement = record v.at_free.1.0 { link = none } in
        let e2 : HashElement = record entry { link = theirs.free_list } in
        get_elem?-set_ne (set (set t.elements i e0) i entry) i j e2 ne
        ∙ get_elem?-set_ne (set t.elements i e0) i j entry ne
        ∙ get_elem?-set_ne t.elements i j e0 ne

    -- No entry for the tag is left.
    lost_walk :
        length (chains part bucket) < suc k
        → first_match t key (hash_value tag id) (chains part bucket) ≡ none
        → (do
          head ← bucket_head lost part bucket
          get_hash_entry_from_bucket (suc k) lost head key (tag_bytes tag))
          ≡ some none
    lost_walk h miss =
        let ids = chains part bucket in
        let links =
          Links-frame t.elements lost.elements (t.seg_buckets part bucket) ids elsewhere
            (v.at_bucket part bucket) in
        let walk =
          get_hash_entry_from_bucket-first_match (suc k) lost (t.seg_buckets part bucket) ids key
            (hash_value tag id) links h in
        let same = bucket-tag_bytes (suc k) lost (t.seg_buckets part bucket) key tag id ks in
        let still = first_match-set t lost key (hash_value tag id) ids refl elsewhere in
        rw (in_range, ==_refl part, ==_refl bucket) (sym same ∙ walk ∙ ap some (still ∙ miss))

    lost_finds :
        length (chains part bucket) < suc k
        → first_match t key (hash_value tag id) (chains part bucket) ≡ none
        → hash_find_entry (suc k) lost key (tag_bytes tag) (get_partition_index key lost)
          ≡ some none
    unfolding hash_find_entry get_partition_index get_bucket_index
    lost_finds h miss = lost_walk h miss

-- The table in what HashGetFreeEntry gives.
abbrev table_in : HashTableInfo → Option (HashOp × Option ℕ × HashTableInfo) → HashTableInfo
table_in t none = t
table_in t (some o) = o.2

module _ (k : ℕ) (get_hash_key : BufferTag → ℕ) where
  search_buffer-missing :
      (c : Cache) (tag : BufferTag)
      → hash_find_entry
          (suc k)
          c.table
          (get_hash_key tag)
          (tag_bytes tag)
          (get_partition_index (get_hash_key tag) c.table)
        ≡ some none
      → search_buffer (suc k) get_hash_key c tag ≡ some none
  unfolding search_buffer
  search_buffer-missing c tag e = rw (search_buffer, e) refl

  clean_page_buffer-deletes :
      (id : ℕ) (c : Cache) (d : BufferDesc) (t : HashTableInfo)
      → get_elem? c.pool.buffer_desc id ≡ some d
      → hash_delete_entry (suc k) c.table (get_hash_key d.buffer_tag) (hash_value d.buffer_tag id)
        ≡ some (true, t)
      → clean_page_buffer (suc k) get_hash_key id c
        ≡ some record {
          pool = put_desc id (record d { is_valid = bvf_invalid }) c.pool;
          start = c.start;
          table = t;
        }
  unfolding clean_page_buffer
  clean_page_buffer-deletes id c d t at e = rw (at, e) refl

  -- If two workers miss the same page and the other puts a different buffer into the table
  -- first, AllocBuffer goes on with the other's buffer, which the table names, and leaves its
  -- own descriptor with the tag and BVF_TAG; when that own buffer is cleaned for reuse, the
  -- table has no entry for the page any more, while the other's descriptor is the same as
  -- before.
  pub init_tag_race_loses :
      (m : Meanwhile) (tag : BufferTag) (id other i : ℕ) (c : Cache) (d o : BufferDesc)
      (chains : ℕ → ℕ → List ℕ) (free : List ℕ)
      → IsTable c.table chains (i ∷ free)
      → let key = get_hash_key tag in
        let p = get_partition_index key c.table in
        let b = get_bucket_index key c.table in
        p < c.table.partition_num
        → b < c.table.hash_segment_size
        → length (chains p b) < suc k
        → c.table.key_value_size ≡ size_of_tag
        → c.table.value_size ≡ size_of_tag + 4
        → search_buffer (suc k) get_hash_key c tag ≡ some none
        → get_elem? c.pool.buffer_desc id ≡ some d
        → d.is_valid ≡ bvf_invalid
        → other < 2 ^ 32
        → id ≢ other
        → get_elem? c.pool.buffer_desc other ≡ some o
        → hash_get_free_entry (suc k) c.table key (hash_value tag other)
          ≡ some (HashOp.hash_insert, some i, m.before_insert c.table)
        → (c1 : Cache) × (init_tag (suc k) get_hash_key m tag id c
            ≡ Alloc.goto (Goto.find_recheck other) c1)
          × (search_buffer (suc k) get_hash_key c1 tag ≡ some (some other))
          × (own : BufferDesc) × (get_elem? c1.pool.buffer_desc id ≡ some own)
          × (own.buffer_tag ≡ tag)
          × (own.is_valid ≡ bvf_tag)
          × (get_elem? c1.pool.buffer_desc other ≡ some o)
          × (c2 : Cache) × (clean_page_buffer (suc k) get_hash_key id c1 ≡ some c2)
          × (search_buffer (suc k) get_hash_key c2 tag ≡ some none)
          × (get_elem? c2.pool.buffer_desc other ≡ some o)
  unfolding hash_get_free_entry
  init_tag_race_loses m tag id other i c d o chains free v hp hb h ks vs s at invalid small differ
        at_other theirs_first =
      let key = get_hash_key tag in
      let t = c.table in
      let p = get_partition_index key t in
      let b = get_bucket_index key t in
      let e = v.at_free.1.0 in
      let t' = inserted t p b i e key (hash_value tag other) in
      let gone = lost t chains i free key other id tag v in
      let miss = λ (x : ℕ).
        search_buffer-none (suc k) get_hash_key c chains (i ∷ free) tag x v hp hb h ks s in
      let ins =
        get_free_entry_in-insert (suc k) t chains p b i free key (hash_value tag other) v hp hb h
          (miss other) in
      let same : m.before_insert t ≡ t' = ap (table_in t) (sym theirs_first ∙ ins) in
      let finds : hash_get_free_entry (suc k) (m.before_insert t) key (hash_value tag id)
          ≡ some (HashOp.hash_find, some i, t') =
        subst
          (λ x.
            hash_get_free_entry (suc k) x key (hash_value tag id)
            ≡ some (HashOp.hash_find, some i, t'))
          (sym same) (second_finds t chains i free key other id tag v k hp hb ks vs) in
      let named = new_entry-id t p b i e key tag other v.at_free.1.1 vs small in
      let (left, (n, at1), frame, jump) =
        init_tag-finds (suc k) get_hash_key m tag id c d at invalid t' i other finds named in
      let c1 : Cache = put_table t' (put_pool left c) in
      let d1 : BufferDesc = record d {
        is_valid = bvf_tag;
        buffer_tag = tag;
        is_dirty = buffer_clean;
        ref_cnt = n;
      } in
      let c2 : Cache = record {
        pool = put_desc id (record d1 { is_valid = bvf_invalid }) left;
        start = c.start;
        table = gone;
      } in
      (
        c1,
        jump,
        search_buffer-entry (suc k) get_hash_key c1 tag i (
              hash_find_entry-inserted (suc k) t i e key tag other (pos_of_lt h) v.at_free.1.1 hp hb
                ks vs)
            ∙ rw named refl,
        d1,
        at1,
        refl,
        refl,
        frame other differ ∙ at_other,
        c2,
        clean_page_buffer-deletes id c1 d1 gone at1
            (second_deletes t chains i free key other id tag v k hp hb ks vs),
        search_buffer-missing c2 tag
            (lost_finds t chains i free key other id tag v k hp hb ks vs h (miss id)),
        get_elem?-set_ne left.buffer_desc id other (record d1 { is_valid = bvf_invalid }) differ
            ∙ frame other differ
            ∙ at_other,
      )
