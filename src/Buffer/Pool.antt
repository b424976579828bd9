-- ===== src/Buffer/Pool.antt =====
-- util/bufferPool/bufferPool.c: the descriptors of the page buffers, the list of free buffers, and the
-- clock sweep that chooses a buffer to reuse. `none` among buffer ids is `Free_List_End`, which is -1.
-- The lock of the free list makes each of its operations one step.
pub mod FreeList
pub mod Clock
pub mod Pins
pub mod Initial
use toadb.Base.{
  ℕ, zero, suc, ◌+◌, ◌-◌, ◌%◌, ◌^◌, Bool, true, false, ◌&&◌, ◌||◌, List, [], ◌∷◌, map, Option, none,
  some, ltb, ◌==◌, if◌then◌else◌, ◌>>=◌, get_elem?, set,
}

pub record BufferTag : Type 0 where
  pub database_id : ℕ
  pub table_id : ℕ
  pub segno : ℕ
  pub pageno : ℕ
  pub fork_num : ℕ

pub record BufferDesc : Type 0 where
  pub buffer_tag : BufferTag
  pub is_valid : ℕ
  pub is_dirty : ℕ
  pub ref_cnt : ℕ
  pub used_cnt : ℕ
  pub is_in_free_list : ℕ

-- The first position of the free list is its head.
pub record BufferPoolContext : Type 0 where
  pub buffer_num : ℕ
  pub free_list : List (Option ℕ)
  pub buffer_desc : List BufferDesc

abbrev pub bvf_invalid : ℕ
bvf_invalid = 0

abbrev pub buffer_clean : ℕ
buffer_clean = 0

abbrev pub buffer_dirty : ℕ
buffer_dirty = 1

abbrev pub use_count_max : ℕ
use_count_max = 5

abbrev pub buffer_min_num : ℕ
buffer_min_num = 8

unfoldable pub compare_buffer_tag : BufferTag → BufferTag → Bool
compare_buffer_tag a b =
    (a.database_id == b.database_id)
    && (a.table_id == b.table_id)
    && (a.segno == b.segno)
    && (a.pageno == b.pageno)
    && (a.fork_num == b.fork_num)

-- The positions from `index` on, of which there are `left`, before the last one is overwritten.
abbrev pub link_next : ℕ → ℕ → List (Option ℕ)
link_next zero index = []
link_next (suc left) index = some (index + 1) ∷ link_next left (index + 1)

abbrev pub init_desc : BufferDesc → BufferDesc
init_desc d = record d { is_valid = bvf_invalid; is_dirty = buffer_clean }

-- `memory` is what stands in the descriptors' memory; `none` is the return value -1.
unfoldable pub init_buffer_pool : List BufferDesc → ℕ → Option BufferPoolContext
init_buffer_pool memory page_num =
    if ltb page_num buffer_min_num
    then none
    else some record {
      buffer_num = page_num;
      free_list = set (link_next page_num 0) (page_num - 1) none;
      buffer_desc = map init_desc memory;
    }

abbrev pub put_desc : ℕ → BufferDesc → BufferPoolContext → BufferPoolContext
put_desc id d pool = record pool { buffer_desc = set pool.buffer_desc id d }

unfoldable pub insert_free_list : BufferPoolContext → ℕ → Option BufferPoolContext
insert_free_list pool id = do
  d ← get_elem? pool.buffer_desc id
  if ltb 0 id && d.is_in_free_list == 0
      then (do
        head ← get_elem? pool.free_list 0
        some (
            put_desc id (record d { is_in_free_list = 1 })
              (record pool { free_list = set (set pool.free_list id head) 0 (some id) })))
      else some pool

-- A descriptor in the array is known by its index.
unfoldable pub invalidate_buffer : BufferPoolContext → ℕ → Option BufferPoolContext
unfolding insert_free_list
invalidate_buffer pool id = do
  d ← get_elem? pool.buffer_desc id
  insert_free_list (put_desc id (record d { is_valid = bvf_invalid }) pool) id

unfoldable pub set_buffer_dirty : BufferPoolContext → ℕ → Option BufferPoolContext
set_buffer_dirty pool id = do
  d ← get_elem? pool.buffer_desc id
  some (put_desc id (record d { is_dirty = buffer_dirty }) pool)

unfoldable pub clear_buffer_dirty : BufferPoolContext → ℕ → Option BufferPoolContext
clear_buffer_dirty pool id = do
  d ← get_elem? pool.buffer_desc id
  some (put_desc id (record d { is_dirty = buffer_clean }) pool)

unfoldable pub set_buffer_valid : BufferPoolContext → ℕ → ℕ → Option BufferPoolContext
set_buffer_valid pool id flag = do
  d ← get_elem? pool.buffer_desc id
  some (put_desc id (record d { is_valid = flag }) pool)

unfoldable pub get_buffer_tag : BufferPoolContext → ℕ → Option BufferTag
get_buffer_tag pool id = do d ← get_elem? pool.buffer_desc id; some d.buffer_tag

unfoldable pub pin_buffer : BufferPoolContext → ℕ → Option BufferPoolContext
pin_buffer pool id = do
  d ← get_elem? pool.buffer_desc id
  let pinned : BufferDesc = record d {
    used_cnt = use_count_max;
    ref_cnt = (d.ref_cnt + 1) % 2 ^ 32;
  }
  some (put_desc id pinned pool)

unfoldable pub unpin_buffer : BufferPoolContext → ℕ → Option BufferPoolContext
unpin_buffer pool id = do
  d ← get_elem? pool.buffer_desc id
  if ltb 0 d.ref_cnt
      then some (put_desc id (record d { ref_cnt = d.ref_cnt - 1 }) pool)
      else some pool

unfoldable pub release_buffer : BufferPoolContext → ℕ → Option BufferPoolContext
unfolding unpin_buffer
release_buffer pool id = unpin_buffer pool id

-- How a loop ends: with a result, with an access outside an array, or not within the rounds given.
pub data Outcome : Type 0 where
  done : Option ℕ → BufferPoolContext → Outcome
  fault : Outcome
  running : Outcome

-- The body of the loop of `GetFreeBufferId` for the id at the head: the id's place in the list, and
-- the pool without it.
unfoldable pub pop_free : BufferPoolContext → Option (ℕ × ℕ × BufferPoolContext)
pop_free pool = do
  head ← get_elem? pool.free_list 0
  id ← head
  next ← get_elem? pool.free_list id
  d ← get_elem? pool.buffer_desc id
  some (
    id,
    d.ref_cnt,
    put_desc id (record d { is_in_free_list = 0 })
        (record pool { free_list = set pool.free_list 0 next }),
  )

-- With the head at the end of the list, `freeList[id]` is `freeList[-1]`.
unfoldable pub free_loop : ℕ → BufferPoolContext → Option ℕ → Outcome
unfolding pop_free
free_loop zero pool id = Outcome.running
free_loop (suc fuel) pool none = Outcome.done none pool
free_loop (suc fuel) pool (some last) = elim (pop_free pool) [
  | none ↦ Outcome.fault
  | some (id, ref_cnt, popped) ↦
      let rest = free_loop fuel popped (some id) in
      if ref_cnt == 0 then Outcome.done (some id) popped else rest
]

unfoldable pub get_free_buffer_id : ℕ → BufferPoolContext → Outcome
unfolding free_loop
get_free_buffer_id fuel pool = elim (get_elem? pool.free_list 0) [
  | none ↦ Outcome.fault
  | some head ↦ free_loop fuel pool head
]

-- One round of the clock sweep: whether the read lock is free, and what other workers do to the
-- descriptors between the release of the read lock and the grant of the write lock.
pub record Round : Type 0 where
  pub try_lock : Bool
  pub meanwhile : List BufferDesc → List BufferDesc

unfoldable pub reusable : BufferDesc → Bool
reusable d = (d.is_valid == bvf_invalid) || (d.ref_cnt == 0 && d.used_cnt == 0)

unfoldable pub cool : BufferDesc → BufferDesc
cool d = if d.is_valid == bvf_invalid then d else record d { used_cnt = d.used_cnt - 1 }

abbrev pub next_id : BufferPoolContext → ℕ → ℕ
next_id pool id = (id + 1) % pool.buffer_num

-- A round at `id`: the pool after it, and whether the sweep stops there with the write lock. A retry
-- begins at the same id again.
unfoldable pub sweep_round : Round → BufferPoolContext → ℕ → Option (Bool × ℕ × BufferPoolContext)
sweep_round r pool id =
    if r.try_lock
    then (do
      d ← get_elem? pool.buffer_desc id
      let read = put_desc id (cool d) pool
      if reusable (cool d)
          then (do
            let written : BufferPoolContext = record read {
              buffer_desc = r.meanwhile read.buffer_desc;
            }
            now ← get_elem? written.buffer_desc id
            some (reusable now, id, written))
          else some (false, next_id pool id, read))
    else some (false, next_id pool id, pool)

-- `ClockSweep` from `id` on; the result has the victim and the new `start`.
pub data Sweep : Type 0 where
  victim : ℕ → ℕ → BufferPoolContext → Sweep
  outside : Sweep
  sweeping : BufferPoolContext → Sweep

unfoldable pub clock_sweep : List Round → BufferPoolContext → ℕ → Sweep
clock_sweep [] pool id = Sweep.sweeping pool
clock_sweep (r ∷ rounds) pool id = elim (sweep_round r pool id) [
  | none ↦ Sweep.outside
  | some (stop, next, after) ↦
      let rest = clock_sweep rounds after next in
      if stop then Sweep.victim next (next_id after next) after else rest
]
