-- ===== src/Buffer/Pool/Clock.antt =====
-- The clock sweep: what it may return, and that it returns.
use toadb.Base.{
  ℕ, zero, suc, ◌+◌, ◌-◌, ◌*◌, ◌%◌, ◌<◌, ◌≤◌, ◌≡◌, inl, inr, refl, Bool, true, false, List, [], ◌∷◌,
  Option, none, some, leb, ◌==◌, if◌then◌else◌, get_elem?, set, length, replicate, arith,
  Bool-cases, Option-cases, get_elem?-set_self, get_elem?-set_ne, length-set, get_elem?-total,
  lt-length, ℕ_discrete, mod-lt, mod_self, mod-eq_of_lt, ap, ◌≢◌, ◌∙◌, subst,
}
use toadb.Buffer.Pool.{
  BufferDesc, BufferPoolContext, Round, Sweep, use_count_max, put_desc, reusable, cool, next_id,
  sweep_round, clock_sweep,
}

-- A result whose buffer may be reused and is followed by the new start.
abbrev pub Victim : Sweep → Type 0
Victim (Sweep.victim id start after) =
    (start ≡ next_id after id)
    × ((d : BufferDesc) × (get_elem? after.buffer_desc id ≡ some d) × (reusable d ≡ true))
Victim Sweep.outside = Unit {0}
Victim (Sweep.sweeping pool) = Unit {0}

abbrev RoundVictim : Option (Bool × ℕ × BufferPoolContext) → Type 0
RoundVictim none = Unit {0}
RoundVictim (some (false, id, after)) = Unit {0}
RoundVictim (some (true, id, after)) =
    (d : BufferDesc) × (get_elem? after.buffer_desc id ≡ some d) × (reusable d ≡ true)

sweep_round-RoundVictim :
    (r : Round) (pool : BufferPoolContext) (id : ℕ) → RoundVictim (sweep_round r pool id)
unfolding sweep_round
sweep_round-RoundVictim r pool id = elim (Bool-cases r.try_lock) [
  | inr busy ↦ rw (sweep_round, busy) tt
  | inl locked ↦ elim (Option-cases (get_elem? pool.buffer_desc id)) [
    | inl out ↦ rw (sweep_round, locked, out) tt
    | inr (d, at) ↦ elim (Bool-cases (reusable (cool d))) [
      | inr go ↦ rw (sweep_round, locked, at, go) tt
      | inl stop ↦
          let written = r.meanwhile (set pool.buffer_desc id (cool d)) in
          elim (Option-cases (get_elem? written id)) [
            | inl out ↦ rw (sweep_round, locked, at, stop, out) tt
            | inr (now, at') ↦ elim (Bool-cases (reusable now)) [
              | inl free ↦ rw (sweep_round, locked, at, stop, at', free) (now, at', free)
              | inr taken ↦ rw (sweep_round, locked, at, stop, at', taken) tt
            ]
          ]
    ]
  ]
]

-- Whatever read locks are busy and whatever others do to the descriptors before the write lock
-- is granted, the buffer that ClockSweep returns is then in the pool and invalid, or unpinned
-- with use count 0, and start is the next buffer.
pub clock_sweep-Victim :
    (rounds : List Round) (pool : BufferPoolContext) (id : ℕ) → Victim (clock_sweep rounds pool id)
unfolding clock_sweep
clock_sweep-Victim [] pool id = tt
clock_sweep-Victim (r ∷ rounds) pool id =
    let v = sweep_round-RoundVictim r pool id in
    elim (Option-cases (sweep_round r pool id)) [
      | inl out ↦ rw (clock_sweep, out) tt
      | inr ((stop, next, after), e) ↦
          let ih = clock_sweep-Victim rounds after next in
          elim (Bool-cases stop) [
            | inl halt ↦
                rw (clock_sweep, e, halt)
                  (refl, subst RoundVictim (e ∙ ap (λ b. some (b, next, after)) halt) v)
            | inr go ↦ rw (clock_sweep, e, go) ih
          ]
    ]

abbrev pub quiet : Round
quiet = record { try_lock = true; meanwhile = λ ds. ds }

sweep_round-quiet :
    (pool : BufferPoolContext) (id : ℕ) (e : BufferDesc)
    → get_elem? pool.buffer_desc id ≡ some e
    → sweep_round quiet pool id
      ≡ some (
        reusable (cool e),
        if reusable (cool e) then id else next_id pool id,
        put_desc id (cool e) pool,
      )
unfolding sweep_round
sweep_round-quiet pool id e at = elim (Bool-cases (reusable (cool e))) [
  | inl stop ↦
      let now =
        get_elem?-set_self pool.buffer_desc id (cool e) (lt-length pool.buffer_desc id at) in
      rw (sweep_round, at, stop, now, stop) refl
  | inr go ↦ rw (sweep_round, at, go) refl
]

next_id-step :
    (pool : BufferPoolContext) (id : ℕ)
    → id < pool.buffer_num
    → next_id pool id ≡ (if id + 1 == pool.buffer_num then 0 else id + 1)
next_id-step pool id h = elim (ℕ_discrete (id + 1) pool.buffer_num) [
  | yes e ↦ let z = mod_self (id + 1) in ground arith
  | no ne ↦ let z : (id + 1) % pool.buffer_num ≡ id + 1 = mod-eq_of_lt (omega arith) in ground arith
]

-- The rounds before the hand comes to `k`, and those before the use count of `k` is spent.
abbrev pub dist : ℕ → ℕ → ℕ → ℕ
dist n id k = if leb id k then k - id else n + k - id

abbrev pub spend : ℕ → ℕ → ℕ
spend n zero = 0
spend n (suc zero) = 0
spend n (suc (suc u)) = n + spend n (suc u)

dist-next :
    (pool : BufferPoolContext) (id k : ℕ)
    → id < pool.buffer_num
    → k < pool.buffer_num
    → id ≢ k
    → dist pool.buffer_num (next_id pool id) k + 1 ≡ dist pool.buffer_num id k
dist-next pool id k h g ne = rw (next_id-step pool id h) (ground arith)

dist-next_self :
    (pool : BufferPoolContext) (id : ℕ)
    → id < pool.buffer_num
    → dist pool.buffer_num (next_id pool id) id + 1 ≡ pool.buffer_num
dist-next_self pool id h = rw (next_id-step pool id h) (ground arith)

next_id-lt :
    (pool : BufferPoolContext) (id : ℕ) → id < pool.buffer_num → next_id pool id < pool.buffer_num
next_id-lt pool id h = mod-lt (id + 1) (omega arith)

spend_step : (n u : ℕ) → u - 1 ≢ 0 → spend n u ≡ n + spend n (u - 1)
spend_step n zero h = absurd (h refl)
spend_step n (suc zero) h = absurd (h refl)
spend_step n (suc (suc u)) h =
    let e : suc u ≡ suc (suc u) - 1 = omega arith in ap (λ v. n + spend n v) e

spend-cool :
    (n : ℕ) (d : BufferDesc)
    → d.ref_cnt ≡ 0
    → reusable (cool d) ≡ false
    → spend n d.used_cnt ≡ n + spend n (cool d).used_cnt
unfolding reusable cool
spend-cool n d free go = ground (arith, spend_step n d.used_cnt)

cool-ref_cnt : (d : BufferDesc) → (cool d).ref_cnt ≡ d.ref_cnt
unfolding cool
cool-ref_cnt d = ground arith

abbrev pub Returns : Sweep → Type 0
Returns s = (id : ℕ) × (start : ℕ) × (after : BufferPoolContext) × (s ≡ Sweep.victim id start after)

pub clock_sweep-Returns :
    (fuel : ℕ) (pool : BufferPoolContext) (id k : ℕ) (d : BufferDesc)
    → length pool.buffer_desc ≡ pool.buffer_num
    → id < pool.buffer_num
    → get_elem? pool.buffer_desc k ≡ some d
    → d.ref_cnt ≡ 0
    → spend pool.buffer_num d.used_cnt + dist pool.buffer_num id k < fuel
    → Returns (clock_sweep (replicate fuel quiet) pool id)
unfolding clock_sweep
clock_sweep-Returns zero pool id k d len at_id at free h = elim h [ ]
clock_sweep-Returns (suc fuel) pool id k d len at_id at free h =
    let o = get_elem?-total pool.buffer_desc id (omega arith) in
    let q = sweep_round-quiet pool id o.0 o.1 in
    let after = put_desc id (cool o.0) pool in
    let inside = lt-length pool.buffer_desc k at in
    let len' = length-set pool.buffer_desc id (cool o.0) ∙ len in
    elim (Bool-cases (reusable (cool o.0))) [
      | inl halt ↦ rw (clock_sweep, q, halt) (id, next_id after id, after, refl)
      | inr go ↦
          rw (clock_sweep, q, go)
            (elim (ℕ_discrete id k) [
              | yes same ↦
                  let here : o.0 ≡ d = ground (arith, o.1) in
                  let go' = subst (λ x. reusable (cool x) ≡ false) here go in
                  let spent = spend-cool pool.buffer_num d free go' in
                  let far =
                    subst (λ j. dist pool.buffer_num (next_id pool id) j + 1 ≡ pool.buffer_num) same
                      (dist-next_self pool id at_id) in
                  clock_sweep-Returns fuel after (next_id pool id) k (cool d) len'
                    (next_id-lt pool id at_id)
                    (subst (λ i. get_elem? (set pool.buffer_desc id (cool o.0)) i ≡ some (cool d))
                      same
                      (get_elem?-set_self pool.buffer_desc id (cool o.0)
                          (lt-length pool.buffer_desc id o.1)
                        ∙ ap (λ x. some (cool x)) here))
                    (cool-ref_cnt d ∙ free) (omega (arith, h, spent, far))
              | no differ ↦
                  let near = dist-next pool id k at_id (omega (arith, inside, len)) differ in
                  clock_sweep-Returns fuel after (next_id pool id) k d len'
                    (next_id-lt pool id at_id)
                    (get_elem?-set_ne pool.buffer_desc id k (cool o.0) differ ∙ at) free
                    (omega (arith, h, near))
            ])
    ]

spend-le : (n u : ℕ) → u ≤ use_count_max → spend n u ≤ 4 * n
spend-le n zero h = omega arith
spend-le n (suc zero) h = omega arith
spend-le n (suc (suc zero)) h = omega arith
spend-le n (suc (suc (suc zero))) h = omega arith
spend-le n (suc (suc (suc (suc zero)))) h = omega arith
spend-le n (suc (suc (suc (suc (suc zero))))) h = omega arith
spend-le n (suc (suc (suc (suc (suc (suc u)))))) h = absurd (omega arith)

-- If the pool is as long as it says, the hand is in it, and some buffer is unpinned with a use
-- count of at most 5, then five times round the pool suffice for ClockSweep, while nobody else
-- is about, to return a buffer that is invalid or unpinned with use count 0, and start becomes
-- the next buffer.
pub clock_sweep_finds :
    (pool : BufferPoolContext) (id k : ℕ) (d : BufferDesc)
    → length pool.buffer_desc ≡ pool.buffer_num
    → id < pool.buffer_num
    → get_elem? pool.buffer_desc k ≡ some d
    → d.ref_cnt ≡ 0
    → d.used_cnt ≤ use_count_max
    → (v : ℕ) × (start : ℕ) × (after : BufferPoolContext) × (clock_sweep
          (replicate (5 * pool.buffer_num) quiet)
          pool
          id
        ≡ Sweep.victim v start after)
      × (start ≡ next_id after v)
      × ((e : BufferDesc) × (get_elem? after.buffer_desc v ≡ some e) × (reusable e ≡ true))
clock_sweep_finds pool id k d len at_id at free used =
    let n = pool.buffer_num in
    let near : dist n id k < n = ground (arith, lt-length pool.buffer_desc k at) in
    let enough : spend n d.used_cnt + dist n id k < 5 * n =
      omega (arith, near, spend-le n d.used_cnt used) in
    let r = clock_sweep-Returns (5 * n) pool id k d len at_id at free enough in
    let v = subst Victim r.3 (clock_sweep-Victim (replicate (5 * n) quiet) pool id) in
    (r.0, r.1, r.2, r.3, v.0, v.1)
