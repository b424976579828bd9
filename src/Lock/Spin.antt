-- ===== src/Lock/Spin.antt =====
-- util/ipc/lock/spinlock/spinlock.c: a lock that gives up after many tries. What the other threads do
-- to the lock word is the argument `tries`: for each try the word that the test reads and the word
-- that the swap replaces if the test lets it happen.
use toadb.Base.{
  ℕ, zero, suc, ◌+◌, ◌*◌, ◌/◌, ◌≤◌, ◌≡◌, ap, Bool, true, false, Option, none, some, ltb, ◌==◌,
  if◌then◌else◌, arith, Bool-cases, inl, inr,
}

abbrev pub spin_delay_max : ℕ
spin_delay_max = 10000

-- The lock word is 0 for a free lock. SpinLockInit, and spin_clear, which is SpinLockRelease and SpinLockFree.
pub record Spinlock : Type 0 where
  pub stom : ℕ

abbrev pub spin_lock_init : Spinlock → Spinlock
spin_lock_init lock = record lock { stom = 0 }

abbrev pub spin_clear : Spinlock → Spinlock
spin_clear lock = record lock { stom = 0 }

-- spin_tas: the word that was there, and the lock taken.
abbrev pub spin_tas : Spinlock → ℕ × Spinlock
spin_tas lock = (lock.stom, record lock { stom = 1 })

-- What TAS_SPIN returns when the lock is first read and then swapped with these words in it.
abbrev pub tas_spin : ℕ × ℕ → ℕ
tas_spin word = if word.0 == 0 then (spin_tas record { stom = word.1 }).0 else 1

-- The loop of SpinLockAquire from try `n` on: its result, and whether the lock was taken.
unfoldable pub spin_loop : ℕ → (ℕ → ℕ × ℕ) → ℕ → ℕ → ℕ → Option (ℕ × Bool)
spin_loop zero tries n cur_delays delays = none
spin_loop (suc fuel) tries n cur_delays delays =
    let again = spin_loop fuel tries (n + 1) (cur_delays + 1) delays in
    let delayed = spin_loop fuel tries (n + 1) 0 (delays + 1) in
    if tas_spin (tries n) == 0
    then some (delays, true)
    else if ltb spin_delay_max (cur_delays + 1)
    then (if ltb spin_delay_max (delays + 1) then some (delays + 1, false) else delayed)
    else again

unfoldable pub spin_lock_aquire : ℕ → (ℕ → ℕ × ℕ) → Option (ℕ × Bool)
spin_lock_aquire fuel tries = spin_loop fuel tries 0 0 0

-- The first try from `n` on, of the given number, that finds the lock free.
unfoldable pub first_free : (ℕ → ℕ × ℕ) → ℕ → ℕ → Option ℕ
first_free tries n zero = none
first_free tries n (suc left) =
    let rest = first_free tries (n + 1) left in if tas_spin (tries n) == 0 then some n else rest

-- What SpinLockAquire answers for the first free try.
abbrev pub outcome : Option ℕ → ℕ × Bool
outcome none = (spin_delay_max + 1, false)
outcome (some n) = (n / (spin_delay_max + 1), true)

spin_loop-outcome :
    (fuel left : ℕ) (tries : ℕ → ℕ × ℕ) (n cur_delays delays : ℕ)
    → n ≡ delays * 10001 + cur_delays
    → n + left ≡ 100020001
    → cur_delays ≤ spin_delay_max
    → delays ≤ spin_delay_max
    → left ≤ fuel
    → spin_loop fuel tries n cur_delays delays ≡ some (outcome (first_free tries n left))
unfolding spin_loop first_free
spin_loop-outcome fuel zero tries n cur_delays delays e total c d h = absurd (omega arith)
spin_loop-outcome zero (suc left) tries n cur_delays delays e total c d h = absurd (omega arith)
spin_loop-outcome (suc fuel) (suc left) tries n cur_delays delays e total c d h =
    elim (Bool-cases (tas_spin (tries n) == 0)) [
      | inl is_free ↦
          let round : delays ≡ n / 10001 = omega arith in
          rw (spin_loop, first_free, is_free) (ap (λ t. some (t, true)) round)
      | inr taken ↦ elim (Bool-cases (ltb spin_delay_max (cur_delays + 1))) [
        | inl delay ↦ elim (Bool-cases (ltb spin_delay_max (delays + 1))) [
          | inl over ↦
              let end : left ≡ 0 = ground arith in
              let last : delays ≡ spin_delay_max = ground arith in
              rw (spin_loop, first_free, taken, delay, over, end)
                (ap (λ t. some (t + 1, false)) last)
          | inr more ↦
              let ih =
                spin_loop-outcome fuel left tries (n + 1) 0 (delays + 1) (ground arith)
                  (omega arith) (omega arith) (ground arith) (omega arith) in
              rw (spin_loop, first_free, taken, delay, more) ih
        ]
        | inr again ↦
            let ih =
              spin_loop-outcome fuel left tries (n + 1) (cur_delays + 1) delays (omega arith)
                (omega arith) (ground arith) d (omega arith) in
            rw (spin_loop, first_free, taken, again) ih
      ]
    ]

-- With at least 10001 times 10001 rounds, SpinLockAquire returns whatever the others do: if one
-- of the first 10001 * 10001 tries finds the lock free, it takes the lock at the first such try
-- and returns the number of that try divided by 10001, and otherwise it returns 10001 without
-- the lock.
pub spin_lock_aquire-outcome :
    (fuel : ℕ) (tries : ℕ → ℕ × ℕ)
    → (spin_delay_max + 1) * (spin_delay_max + 1) ≤ fuel
    → spin_lock_aquire fuel tries
      ≡ some (outcome (first_free tries 0 ((spin_delay_max + 1) * (spin_delay_max + 1))))
unfolding spin_lock_aquire
spin_lock_aquire-outcome fuel tries h =
    spin_loop-outcome fuel 100020001 tries 0 0 0 (omega arith) (omega arith) (omega arith)
      (omega arith) (omega arith)
