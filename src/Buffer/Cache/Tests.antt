-- ===== src/Buffer/Cache/Tests.antt =====
-- AllocBuffer on a pool of three buffers and an empty table.
use toadb.Base.{
  ℕ, ◌+◌, ◌-◌, ◌^◌, ◌≡◌, refl, List, [], ◌∷◌, none, some, if◌then◌else◌, ◌==◌, get_elem?, arith,
}
use toadb.Buffer.Pool.{
  BufferTag, BufferDesc, BufferPoolContext, Outcome, get_free_buffer_id, free_loop, pop_free,
  set_buffer_valid,
}
use toadb.Buffer.Hash.{
  HashElement, HashTableInfo, HashOp, hash_get_free_entry, hash_find_entry, get_partition_index,
  get_bucket_index, get_hash_entry_from_bucket,
}
use toadb.Buffer.Hash.Chains.{IsTable}
use toadb.Buffer.Cache.{
  Cache, Meanwhile, Goto, Alloc, hash_value, search_buffer, clean_page_buffer, init_tag,
  alloc_buffer, put_pool, buffer_found, buffer_empty, bvf_tag,
}
use toadb.Buffer.Cache.Hit.{alloc_buffer-again}
use toadb.Buffer.Cache.Leak.{init_tag_race_loses}

abbrev page : BufferTag
page = record { database_id = 1; table_id = 700; segno = 0; pageno = 3; fork_num = 0 }

-- The hash of a tag in this model: its page number, plus 30.
abbrev hash : BufferTag → ℕ
hash tag = tag.pageno + 30

abbrev empty_element : HashElement
empty_element = record { link = none; hash_key = 0; value = [] }

abbrev no_chains : ℕ → ℕ → List ℕ
no_chains p b = []

abbrev table : HashTableInfo
table = record {
  max_num = 3;
  partition_num = 4;
  value_size = 24;
  key_value_size = 20;
  elements =
      record empty_element { link = some 1 }
      ∷ record empty_element { link = some 2 }
      ∷ empty_element
      ∷ [];
  free_list = some 0;
  free_num = 3;
  partition_mask = 2 ^ 64 - 2 ^ 62;
  partition_shift = 62;
  hash_segment_size = 32;
  seg_buckets = λ q c. none;
  used_num = 0;
}

table-IsTable : IsTable table no_chains (0 ∷ 1 ∷ 2 ∷ [])
table-IsTable = record {
  at_bucket = λ q c. refl;
  at_free = (refl, (_, refl, (refl, (_, refl, (refl, (_, refl, refl))))));
  fresh_bucket = λ q c. tt;
  fresh_free = (refl, (refl, (refl, tt)));
  apart = λ q c i m. absurd (cc);
  apart_buckets = λ q c q' c' i m m'. absurd (cc);
  counted = refl;
}

abbrev blank : BufferDesc
blank = record {
  buffer_tag = page;
  is_valid = 0;
  is_dirty = 0;
  ref_cnt = 0;
  used_cnt = 0;
  is_in_free_list = 0;
}

-- Buffers 1 and 2 are free.
abbrev cache : Cache
cache = record {
  pool = record {
    buffer_num = 3;
    free_list = some 1 ∷ some 2 ∷ none ∷ [];
    buffer_desc =
        blank ∷ record blank { is_in_free_list = 1 } ∷ record blank { is_in_free_list = 1 } ∷ [];
  };
  start = 0;
  table = table;
}

abbrev alone : Meanwhile
alone = record { before_lock = λ c. c; before_insert = λ t. t; rounds = [] }

missing : search_buffer 4 hash cache page ≡ some none
unfolding search_buffer hash_find_entry get_partition_index get_bucket_index
    get_hash_entry_from_bucket
missing = refl

abbrev pool_after : BufferPoolContext
pool_after = record cache.pool {
  free_list = some 2 ∷ some 2 ∷ none ∷ [];
  buffer_desc = blank ∷ blank ∷ record blank { is_in_free_list = 1 } ∷ [];
}

first_free : get_free_buffer_id 4 cache.pool ≡ Outcome.done (some 1) pool_after
unfolding get_free_buffer_id free_loop pop_free
first_free = refl

-- The page is loaded and marked valid before it is asked for again.
alloc_buffer-again_example :
    (c' : Cache) × (alloc_buffer 4 hash (alone ∷ []) page cache ≡ Alloc.got buffer_empty 1 c')
    × (loaded : BufferPoolContext) × (set_buffer_valid c'.pool 1 1 ≡ some loaded)
    × (c'' : Cache) × (alloc_buffer 4 hash (alone ∷ []) page (put_pool loaded c')
        ≡ Alloc.got (if 1 == bvf_tag then buffer_empty else buffer_found) 1 c'')
unfolding get_partition_index get_bucket_index
alloc_buffer-again_example =
    alloc_buffer-again 4 hash alone alone [] [] page 1 0 1 cache pool_after blank no_chains
      (1 ∷ 2 ∷ []) table-IsTable (omega arith) (omega arith) (omega arith) refl refl missing
      first_free refl refl (omega arith) refl (λ c. refl) (omega arith)

-- Another worker puts the page into buffer 2 first.
abbrev other_first : HashTableInfo → HashTableInfo
other_first t = elim (hash_get_free_entry 4 t (hash page) (hash_value page 2)) [
  | none ↦ t
  | some o ↦ o.2
]

abbrev raced : Meanwhile
raced = record { before_lock = λ c. c; before_insert = other_first; rounds = [] }

other_inserts :
    hash_get_free_entry 4 table (hash page) (hash_value page 2)
    ≡ some (HashOp.hash_insert, some 0, other_first table)
unfolding hash_get_free_entry get_partition_index get_bucket_index get_hash_entry_from_bucket
other_inserts = refl

-- Buffer 2 is the other worker's, with the page's tag in it.
abbrev theirs : BufferDesc
theirs = record blank { is_valid = bvf_tag; ref_cnt = 1 }

abbrev contended : Cache
contended = record cache {
  pool = record cache.pool {
    free_list = some 1 ∷ none ∷ none ∷ [];
    buffer_desc = blank ∷ record blank { is_in_free_list = 1 } ∷ theirs ∷ [];
  };
}

missing_too : search_buffer 4 hash contended page ≡ some none
unfolding search_buffer hash_find_entry get_partition_index get_bucket_index
    get_hash_entry_from_bucket
missing_too = refl

init_tag_race_loses_example :
    (c1 : Cache) × (init_tag 4 hash raced page 1 contended ≡ Alloc.goto (Goto.find_recheck 2) c1)
    × (search_buffer 4 hash c1 page ≡ some (some 2))
    × (own : BufferDesc) × (get_elem? c1.pool.buffer_desc 1 ≡ some own)
    × (own.buffer_tag ≡ page)
    × (own.is_valid ≡ bvf_tag)
    × (get_elem? c1.pool.buffer_desc 2 ≡ some theirs)
    × (c2 : Cache) × (clean_page_buffer 4 hash 1 c1 ≡ some c2)
    × (search_buffer 4 hash c2 page ≡ some none)
    × (get_elem? c2.pool.buffer_desc 2 ≡ some theirs)
unfolding get_partition_index get_bucket_index
init_tag_race_loses_example =
    init_tag_race_loses 3 hash raced page 1 2 0 contended (record blank { is_in_free_list = 1 })
      theirs no_chains (1 ∷ 2 ∷ []) table-IsTable (omega arith) (omega arith) (omega arith) refl
      refl missing_too refl refl (omega arith) (omega arith) refl other_inserts
