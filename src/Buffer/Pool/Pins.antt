-- ===== src/Buffer/Pool/Pins.antt =====
-- Pins of a buffer.
use toadb.Base.{
  ℕ, ◌+◌, ◌-◌, ◌%◌, ◌^◌, ◌<◌, ◌≡◌, refl, some, ltb, ◌==◌, ◌>>=◌, get_elem?, set, arith,
  get_elem?-set_self, get_elem?-set_ne, lt-length, ◌&&◌, subst, sym, ◌∙◌, set-set, set-get_elem?,
  true, false, ap, length-set, length, suc, zero,
}
use toadb.Buffer.Pool.{
  BufferDesc, BufferPoolContext, Outcome, put_desc, pin_buffer, release_buffer, unpin_buffer,
  use_count_max, invalidate_buffer, insert_free_list, get_free_buffer_id, free_loop, pop_free,
  bvf_invalid,
}

-- If the pin count does not overflow, PinBuffer and then ReleaseBuffer leave the pool as it
-- was, but for the buffer's use count, which is the maximum.
pin-release :
    (pool : BufferPoolContext) (id : ℕ) (d : BufferDesc)
    → get_elem? pool.buffer_desc id ≡ some d
    → d.ref_cnt + 1 < 2 ^ 32
    → (do pinned ← pin_buffer pool id; release_buffer pinned id)
      ≡ some (put_desc id (record d { used_cnt = use_count_max }) pool)
unfolding pin_buffer release_buffer unpin_buffer
pin-release pool id d at small =
    let wrap : (d.ref_cnt + 1) % 2 ^ 32 ≡ d.ref_cnt + 1 = omega arith in
    let d' : BufferDesc = record d {
      used_cnt = use_count_max;
      ref_cnt = (d.ref_cnt + 1) % 2 ^ 32;
    } in
    let now = get_elem?-set_self pool.buffer_desc id d' (lt-length pool.buffer_desc id at) in
    let counted : ltb 0 ((d.ref_cnt + 1) % 2 ^ 32) ≡ true = ground arith in
    let back : (d.ref_cnt + 1) % 2 ^ 32 - 1 ≡ d.ref_cnt = omega arith in
    let last = set-set pool.buffer_desc id d' (record d' { ref_cnt = d'.ref_cnt - 1 }) in
    rw (at, now, counted, last)
      (ap (λ r. some (put_desc id (record d { used_cnt = use_count_max; ref_cnt = r }) pool)) back)

-- A pool in which id's link leads to itself.
record Stuck (id : ℕ) (pool : BufferPoolContext) : Type 0 where
  at_head : get_elem? pool.free_list 0 ≡ some (some id)
  loop : get_elem? pool.free_list id ≡ some (some id)
  pinned : (d : BufferDesc) × (get_elem? pool.buffer_desc id ≡ some d) × ((d.ref_cnt == 0) ≡ false)

free_loop-Stuck :
    (fuel id last : ℕ) (pool : BufferPoolContext)
    → Stuck id pool
    → free_loop fuel pool (some last) ≡ Outcome.running
unfolding free_loop pop_free
free_loop-Stuck zero id last pool s = refl
free_loop-Stuck (suc fuel) id last pool s =
    let desc = pool.buffer_desc in
    let d = s.pinned.0 in
    let d' : BufferDesc = record d { is_in_free_list = 0 } in
    let popped = put_desc id d' pool in
    let ih = free_loop-Stuck fuel id id popped record {
      at_head = s.at_head;
      loop = s.loop;
      pinned = (d', get_elem?-set_self desc id d' (lt-length desc id s.pinned.1), s.pinned.2);
    } in
    let same = set-get_elem? pool.free_list 0 s.at_head in
    rw (free_loop, pop_free, s.at_head, s.loop, s.pinned.1, s.pinned.2, same) ih

-- If the buffer at the head of the free list is not flagged as listed, as after InitBufferPool,
-- then after it is invalidated and pinned GetFreeBufferId loops through every number of rounds.
pub invalidate_listed_hangs :
    (fuel : ℕ) (pool : BufferPoolContext) (id : ℕ) (d : BufferDesc)
    → 0 < id
    → length pool.free_list ≡ length pool.buffer_desc
    → get_elem? pool.free_list 0 ≡ some (some id)
    → get_elem? pool.buffer_desc id ≡ some d
    → d.is_in_free_list ≡ 0
    → d.ref_cnt + 1 < 2 ^ 32
    → (after : BufferPoolContext) × ((do looped ← invalidate_buffer pool id; pin_buffer looped id)
        ≡ some after)
      × (get_free_buffer_id fuel after ≡ Outcome.running)
unfolding invalidate_buffer insert_free_list pin_buffer get_free_buffer_id
invalidate_listed_hangs fuel pool id d pos size head at clear small =
    let desc = pool.buffer_desc in
    let d1 : BufferDesc = record d { is_valid = bvf_invalid } in
    let d2 : BufferDesc = record d1 { is_in_free_list = 1 } in
    let d3 : BufferDesc = record d2 {
      used_cnt = use_count_max;
      ref_cnt = (d.ref_cnt + 1) % 2 ^ 32;
    } in
    let inside = lt-length desc id at in
    let inside1 = subst (λ n. id < n) (sym (length-set desc id d1)) inside in
    let at1 = get_elem?-set_self desc id d1 inside in
    let at2 = get_elem?-set_self (set desc id d1) id d2 inside1 in
    let to3 = set-set (set desc id d1) id d2 d3 ∙ set-set desc id d1 d3 in
    let slots = set pool.free_list id (some id) in
    let here =
      get_elem?-set_self pool.free_list id (some id) (subst (λ n. id < n) (sym size) inside) in
    let zero_in : 0 < length slots =
      omega (arith, length-set pool.free_list id (some id), lt-length pool.free_list 0 head) in
    let after : BufferPoolContext = record pool {
      free_list = set slots 0 (some id);
      buffer_desc = set desc id d3;
    } in
    let push : (ltb 0 id && d.is_in_free_list == 0) ≡ true = ground arith in
    let stuck : Stuck id after = record {
      at_head = get_elem?-set_self slots 0 (some id) zero_in;
      loop = get_elem?-set_ne slots 0 id (some id) (omega (arith, pos)) ∙ here;
      pinned = (d3, get_elem?-set_self desc id d3 inside, ground arith);
    } in
    (
      after,
      rw (at, at1, push, head, at2, to3) refl,
      rw (get_free_buffer_id, stuck.at_head) (free_loop-Stuck fuel id id after stuck),
    )
