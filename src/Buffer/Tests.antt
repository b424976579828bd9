-- ===== src/Buffer/Tests.antt =====
-- The theorems on the buffer pool at concrete pools.
use toadb.Base.{
  mem, ◌&&◌, ℕ, zero, suc, ◌≡◌, refl, true, false, [], ◌∷◌, none, some, ◌>>=◌, get_elem?, replicate,
  arith,
}
use toadb.Buffer.Pool.{
  BufferTag, BufferDesc, BufferPoolContext, Outcome, Sweep, init_buffer_pool, insert_free_list,
  get_free_buffer_id, clock_sweep, pin_buffer, invalidate_buffer, reusable, next_id, buffer_clean,
  bvf_invalid,
}
use toadb.Buffer.Pool.FreeList.{
  flag_of, IsFree, Takes, insert_free_list-IsFree, get_free_buffer_id-Takes,
}
use toadb.Buffer.Pool.Clock.{Victim, quiet, clock_sweep-Victim, clock_sweep_finds}
use toadb.Buffer.Pool.Pins.{invalidate_listed_hangs}
use toadb.Buffer.Pool.Initial.{init_buffer_pool-IsFree, count_from}

abbrev no_tag : BufferTag
no_tag = record { database_id = 0; table_id = 0; segno = 0; pageno = 0; fork_num = 0 }

abbrev blank : BufferDesc
blank = record {
  buffer_tag = no_tag;
  is_valid = 0;
  is_dirty = 0;
  ref_cnt = 0;
  used_cnt = 0;
  is_in_free_list = 0;
}

abbrev listed : BufferDesc
listed = record blank { is_in_free_list = 1 }

-- Buffers 2 and 1 are free; 2 is pinned, and 3 is in use.
abbrev pool : BufferPoolContext
pool = record {
  buffer_num = 4;
  free_list = some 2 ∷ none ∷ some 1 ∷ none ∷ [];
  buffer_desc =
      blank
      ∷ listed
      ∷ record listed { ref_cnt = 1 }
      ∷ record blank { is_valid = 1; used_cnt = 3 }
      ∷ [];
}

pool_flags :
    (i : ℕ) (d : BufferDesc)
    → get_elem? pool.buffer_desc i ≡ some d
    → d.is_in_free_list ≡ flag_of (mem i (2 ∷ 1 ∷ []) && true)
pool_flags zero d h = ground arith
pool_flags (suc zero) d h = ground arith
pool_flags (suc (suc zero)) d h = ground arith
pool_flags (suc (suc (suc zero))) d h = ground arith
pool_flags (suc (suc (suc (suc i)))) d h = absurd (cc)

pool-IsFree : IsFree (λ i. true) pool (2 ∷ 1 ∷ [])
pool-IsFree = record {
  size = refl;
  head = some 2;
  at_head = refl;
  links = (refl, omega arith, (some 1, refl, (refl, omega arith, (none, refl, refl))));
  fresh = (refl, (refl, tt));
  flags = pool_flags;
}

insert_free_list-IsFree_example :
    (after : BufferPoolContext) × (insert_free_list pool 3 ≡ some after)
    × IsFree (λ i. true) after (3 ∷ 2 ∷ 1 ∷ [])
insert_free_list-IsFree_example =
    insert_free_list-IsFree (λ i. true) pool (2 ∷ 1 ∷ []) 3 pool-IsFree (omega arith) refl

get_free_buffer_id-Takes_example : Takes (λ i. true) pool (2 ∷ 1 ∷ []) (get_free_buffer_id 3 pool)
get_free_buffer_id-Takes_example =
    get_free_buffer_id-Takes (λ i. true) 3 pool (2 ∷ 1 ∷ []) pool-IsFree (omega arith)

clock_sweep-Victim_example : Victim (clock_sweep (replicate 3 quiet) pool 3)
clock_sweep-Victim_example = clock_sweep-Victim (replicate 3 quiet) pool 3

clock_sweep_finds_example :
    (v : ℕ) × (start : ℕ) × (after : BufferPoolContext) × (clock_sweep (replicate 20 quiet) pool 2
      ≡ Sweep.victim v start after)
    × (start ≡ next_id after v)
    × ((e : BufferDesc) × (get_elem? after.buffer_desc v ≡ some e) × (reusable e ≡ true))
clock_sweep_finds_example =
    clock_sweep_finds pool 2 3 (record blank { is_valid = 1; used_cnt = 3 }) refl (omega arith) refl
      refl (omega arith)

abbrev fresh_pool : BufferPoolContext
fresh_pool = record {
  buffer_num = 3;
  free_list = some 1 ∷ some 2 ∷ none ∷ [];
  buffer_desc = replicate 3 blank;
}

invalidate_listed_hangs_example :
    (after : BufferPoolContext) × ((do looped ← invalidate_buffer fresh_pool 1; pin_buffer looped 1)
      ≡ some after)
    × (get_free_buffer_id 100 after ≡ Outcome.running)
invalidate_listed_hangs_example =
    invalidate_listed_hangs 100 fresh_pool 1 blank (omega arith) refl refl refl refl (omega arith)

blank_flags :
    (n i : ℕ) (d : BufferDesc) → get_elem? (replicate n blank) i ≡ some d → d.is_in_free_list ≡ 0
blank_flags zero i d h = absurd (cc)
blank_flags (suc n) zero d h = ground arith
blank_flags (suc n) (suc i) d h = blank_flags n i d h

init_buffer_pool-IsFree_example :
    (after : BufferPoolContext) × (init_buffer_pool (replicate 8 blank) 8 ≡ some after)
    × IsFree (λ i. false) after (count_from 1 7)
    × ((i : ℕ) (d : BufferDesc)
        → get_elem? after.buffer_desc i ≡ some d
        → (d.is_valid ≡ bvf_invalid) × (d.is_dirty ≡ buffer_clean))
init_buffer_pool-IsFree_example =
    init_buffer_pool-IsFree (replicate 8 blank) 8 (omega arith) refl (blank_flags 8)
