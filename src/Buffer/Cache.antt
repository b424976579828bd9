-- ===== src/Buffer/Cache.antt =====
-- AllocBuffer, SearchBuffer and CleanPageBuffer of sqlcore/storage/buffer/buffer.c: the pages in the
-- buffer pool, found by the hash table. The hash of a tag is a parameter, and what other workers do
-- while this one does not hold a lock is an argument. The write-back of a dirty page is left out.
mod Stages
mod Hit
mod Leak
mod Tests
use toadb.Base.{
  ℕ, zero, suc, ◌+◌, ◌*◌, ◌/◌, ◌%◌, Bool, true, false, ◌&&◌, not, List, [], ◌∷◌, ◌++◌, Option, none,
  some, ◌==◌, if◌then◌else◌, ◌>>=◌, get_elem?, drop,
}
use toadb.Buffer.Pool.{
  BufferTag, BufferDesc, BufferPoolContext, Outcome, Round, Sweep, bvf_invalid, buffer_clean,
  compare_buffer_tag, put_desc, pin_buffer, unpin_buffer, get_free_buffer_id, clock_sweep,
  get_buffer_tag,
}
use toadb.Buffer.Hash.{
  HashElement, HashTableInfo, HashOp, hash_find_entry, hash_get_free_entry, hash_delete_entry,
  get_partition_index,
}

abbrev pub bvf_valid : ℕ
bvf_valid = 1

abbrev pub bvf_tag : ℕ
bvf_tag = 2

-- The value of `found`.
abbrev pub buffer_found : ℕ
buffer_found = 0

abbrev pub buffer_empty : ℕ
buffer_empty = 1

-- The pool with the hand of the sweep, and the table.
pub record Cache : Type 0 where
  pub pool : BufferPoolContext
  pub start : ℕ
  pub table : HashTableInfo

-- The four bytes of an int, the lowest first, and the bytes of a tag and of an entry's value.
unfoldable pub int_bytes : ℕ → List ℕ
int_bytes n = n % 256 ∷ n / 256 % 256 ∷ n / 65536 % 256 ∷ n / 16777216 % 256 ∷ []

unfoldable pub tag_bytes : BufferTag → List ℕ
tag_bytes tag =
    int_bytes tag.database_id
    ++ int_bytes tag.table_id
    ++ int_bytes tag.segno
    ++ int_bytes tag.pageno
    ++ int_bytes tag.fork_num

abbrev pub hash_value : BufferTag → ℕ → List ℕ
hash_value tag id = tag_bytes tag ++ int_bytes id

abbrev pub size_of_tag : ℕ
size_of_tag = 20

-- The int in the first four bytes, and `entryValue->bufferId`.
unfoldable pub read_int_bytes : List ℕ → Option ℕ
read_int_bytes (a ∷ b ∷ c ∷ d ∷ rest) = some (a + b * 256 + c * 65536 + d * 16777216)
read_int_bytes bytes = none

abbrev pub entry_buffer_id : HashTableInfo → ℕ → Option ℕ
entry_buffer_id t entry = do
  e ← get_elem? t.elements entry
  read_int_bytes (drop size_of_tag e.value)

-- What others do before a descriptor is locked and before the tag goes into the table, and the rounds
-- of the sweep.
pub record Meanwhile : Type 0 where
  pub before_lock : Cache → Cache
  pub before_insert : HashTableInfo → HashTableInfo
  pub rounds : List Round

-- The label to go on from.
pub data Goto : Type 0 where
  refind : Goto
  find_recheck : ℕ → Goto

-- How a part of AllocBuffer ends: with a buffer and `found`, with a jump, with an access outside an
-- array, or not within the rounds given.
pub data Alloc : Type 0 where
  got : ℕ → ℕ → Cache → Alloc
  goto : Goto → Cache → Alloc
  fault : Alloc
  running : Alloc

abbrev pub or_fault : {A : Type 0} → Option A → (A → Alloc) → Alloc
or_fault none f = Alloc.fault
or_fault (some a) f = f a

abbrev pub put_pool : BufferPoolContext → Cache → Cache
put_pool pool c = record c { pool = pool }

abbrev pub put_table : HashTableInfo → Cache → Cache
put_table t c = record c { table = t }

-- A tag that is written into a descriptor.
abbrev pub take_tag : BufferTag → BufferDesc → BufferDesc
take_tag tag d = record d { is_valid = bvf_tag; buffer_tag = tag; is_dirty = buffer_clean }

-- `rounds` bounds the walk along a bucket and the loop of GetFreeBufferId.
module _ (rounds : ℕ) (get_hash_key : BufferTag → ℕ) where
  unfoldable pub search_buffer : Cache → BufferTag → Option (Option ℕ)
  search_buffer c tag = do
    let key = get_hash_key tag
    entry ← hash_find_entry rounds c.table key (tag_bytes tag) (get_partition_index key c.table)
    elim entry [ none ↦ some none | some i ↦ do id ← entry_buffer_id c.table i; some (some id) ]

  -- With the page written back if it is dirty.
  unfoldable pub clean_page_buffer : ℕ → Cache → Option Cache
  clean_page_buffer id c = do
    d ← get_elem? c.pool.buffer_desc id
    deleted ←
        hash_delete_entry rounds c.table (get_hash_key d.buffer_tag) (hash_value d.buffer_tag id)
    some record {
      pool = put_desc id (record d { is_valid = bvf_invalid }) c.pool;
      start = c.start;
      table = deleted.1;
    }

  -- From the label INIT_TAG on, with the buffer locked and pinned.
  unfoldable pub init_tag : Meanwhile → BufferTag → ℕ → Cache → Alloc
  init_tag m tag id c = or_fault (get_elem? c.pool.buffer_desc id) λ d.
      or_fault (unpin_buffer c.pool id) λ unpinned.
        if d.is_valid == bvf_invalid
        then (let pool = put_desc id (take_tag tag d) c.pool in
            or_fault (unpin_buffer pool id) λ left.
              or_fault
                (hash_get_free_entry rounds (m.before_insert c.table) (get_hash_key tag)
                  (hash_value tag id))
                λ o. elim o.1 [
                  | none ↦ Alloc.goto Goto.refind (put_table o.2 (put_pool left c))
                  | some entry ↦ elim o.0 [
                    | HashOp.hash_find ↦ or_fault (entry_buffer_id o.2 entry) λ other.
                        Alloc.goto (Goto.find_recheck other) (put_table o.2 (put_pool left c))
                    | _ ↦ Alloc.got buffer_empty id (put_table o.2 (put_pool pool c))
                  ]
                ])
        else Alloc.goto Goto.refind (put_pool unpinned c)

  -- A buffer from the free list, or the victim of the sweep; a buffer from the free list is pinned before
  -- others touch it, although the code locks its descriptor only then.
  unfoldable pub find_free : Meanwhile → BufferTag → Cache → Alloc
  find_free m tag c = elim (get_free_buffer_id rounds c.pool) [
    | Outcome.done (some id) pool ↦
        or_fault (pin_buffer pool id) λ pinned. init_tag m tag id (put_pool pinned c)
    | Outcome.done none pool ↦ elim (clock_sweep m.rounds pool c.start) [
      | Sweep.victim id start swept ↦ or_fault (pin_buffer swept id) λ pinned.
          or_fault (clean_page_buffer id (record c { pool = pinned; start = start }))
            λ cleaned. init_tag m tag id cleaned
      | Sweep.outside ↦ Alloc.fault
      | Sweep.sweeping pool ↦ Alloc.running
    ]
    | Outcome.fault ↦ Alloc.fault
    | Outcome.running ↦ Alloc.running
  ]

  -- From FIND_RECHECK on, for a buffer that the table named.
  unfoldable pub recheck : Meanwhile → BufferTag → ℕ → Cache → Alloc
  recheck m tag id c = or_fault (pin_buffer c.pool id) λ pinned.
      or_fault (unpin_buffer pinned id) λ unpinned. or_fault (get_elem? pinned.buffer_desc id) λ d.
        if compare_buffer_tag tag d.buffer_tag && not (d.is_valid == bvf_invalid)
        then Alloc.got (if d.is_valid == bvf_tag then buffer_empty else buffer_found) id
            (put_pool pinned c)
        else find_free m tag (put_pool unpinned c)

  unfoldable pub alloc_from : Meanwhile → BufferTag → Goto → Cache → Alloc
  alloc_from m tag (Goto.find_recheck id) c = recheck m tag id (m.before_lock c)
  alloc_from m tag Goto.refind c =
      or_fault (search_buffer c tag)
        λ o. elim o [ none ↦ find_free m tag c | some id ↦ recheck m tag id (m.before_lock c) ]

  unfoldable pub alloc_loop : List Meanwhile → BufferTag → Goto → Cache → Alloc
  alloc_loop [] tag label c = Alloc.running
  alloc_loop (m ∷ ms) tag label c = elim (alloc_from m tag label c) [
    | Alloc.goto label' c' ↦ alloc_loop ms tag label' c'
    | Alloc.got found id c' ↦ Alloc.got found id c'
    | Alloc.fault ↦ Alloc.fault
    | Alloc.running ↦ Alloc.running
  ]

  unfoldable pub alloc_buffer : List Meanwhile → BufferTag → Cache → Alloc
  alloc_buffer ms tag c = alloc_loop ms tag Goto.refind c
