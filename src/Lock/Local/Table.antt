-- ===== src/Lock/Local/Table.antt =====
-- The local lock table as a count of holds for each lock.
use toadb.Base.{
  ℕ, suc, ◌≤◌, ◌≡◌, ◌≢◌, ◌⊎◌, inl, inr, refl, ap, true, false, List, [], ◌∷◌, ◌++◌, Option, none,
  some, ◌==◌, if◌then◌else◌, get_elem?, set, arith, Bool-cases,
}
use toadb.Lock.Rwlock.{LockMode}
use toadb.Lock.Local.{LocalLockInfo, is_lock, search_local_lock_table, remove_local_lock}

-- How often the thread holds the lock.
abbrev pub held : List LocalLockInfo → ℕ → ℕ
held [] p = 0
held (e ∷ t) p = if is_lock e.lock p then e.lock_cnt else held t p

-- The mode that the thread holds the lock in, as the table has it.
abbrev pub held_mode : List LocalLockInfo → ℕ → LockMode
held_mode [] p = LockMode.null
held_mode (e ∷ t) p = if is_lock e.lock p then e.lock_mode else held_mode t p

-- No entry is empty, and no lock stands in the table twice.
abbrev pub IsTable : List LocalLockInfo → Type 0
IsTable [] = Unit {0}
IsTable (e ∷ t) = ((p : ℕ) × (e.lock ≡ some p) × (held t p ≡ 0)) × (1 ≤ e.lock_cnt) × IsTable t

-- The count of one lock changed.
abbrev pub adjust : (ℕ → ℕ) → ℕ → List LocalLockInfo → List LocalLockInfo
adjust f p [] = []
adjust f p (e ∷ t) =
    if is_lock e.lock p then record e { lock_cnt = f e.lock_cnt } ∷ t else e ∷ adjust f p t

abbrev pub erase : ℕ → List LocalLockInfo → List LocalLockInfo
erase p [] = []
erase p (e ∷ t) = if is_lock e.lock p then t else e ∷ erase p t

-- What `SearchLocalLockTable` finds, and what the writes at the index that it returns do.
pub record Found (t : List LocalLockInfo) (p i : ℕ) (e : LocalLockInfo) : Type 0 where
  pub at_i : get_elem? t i ≡ some e
  pub count : held t p ≡ e.lock_cnt
  pub mode : held_mode t p ≡ e.lock_mode
  pub adjusted : (f : ℕ → ℕ) → set t i (record e { lock_cnt = f e.lock_cnt }) ≡ adjust f p t
  pub erased : remove_local_lock t i ≡ erase p t

pub search_cases :
    (t : List LocalLockInfo) (p : ℕ)
    → ((search_local_lock_table t p ≡ none) × (held t p ≡ 0))
      ⊎ ((i : ℕ) × (e : LocalLockInfo) × (search_local_lock_table t p ≡ some i) × Found t p i e)
unfolding search_local_lock_table remove_local_lock
search_cases [] p = inl (refl, refl)
search_cases (e ∷ t) p = elim (Bool-cases (is_lock e.lock p)) [
  | inl hit ↦ inr (
    0,
    e,
    rw hit,
    record { at_i = refl; count = rw hit; mode = rw hit; adjusted = λ f. rw hit; erased = rw hit },
  )
  | inr miss ↦ elim (search_cases t p) [
    | inl (gone, zero_held) ↦ inl (rw (miss, gone), rw miss zero_held)
    | inr (i, d, at, found) ↦ inr (
      suc i,
      d,
      rw (miss, at),
      record {
        at_i = found.at_i;
        count = rw miss found.count;
        mode = rw miss found.mode;
        adjusted = λ f. rw miss (ap (◌∷◌ e) (found.adjusted f));
        erased = rw miss (ap (◌∷◌ e) found.erased);
      },
    )
  ]
]

-- Two entries for one lock name the same address.
is_lock_same : (o : Option ℕ) (p q : ℕ) → is_lock o p ≡ true → is_lock o q ≡ (p == q)
is_lock_same none p q h = cc
is_lock_same (some r) p q h = ground arith

is_lock_other :
    (o : Option ℕ) (p q : ℕ) → is_lock o p ≡ false → (p == q) ≡ true → is_lock o q ≡ false
is_lock_other none p q h e = refl
is_lock_other (some r) p q h e = ground arith

pub held-adjust :
    (f : ℕ → ℕ) (p q : ℕ) (t : List LocalLockInfo)
    → held t p ≢ 0
    → held (adjust f p t) q ≡ (if p == q then f (held t p) else held t q)
held-adjust f p q [] h = absurd (h refl)
held-adjust f p q (e ∷ t) h = elim (Bool-cases (is_lock e.lock p)) [
  | inl hit ↦ ground (arith, is_lock_same e.lock p q hit)
  | inr miss ↦
      let ih = held-adjust f p q t (ground arith) in
      ground (arith, ih, is_lock_other e.lock p q miss)
]

pub held-erase :
    (p q : ℕ) (t : List LocalLockInfo)
    → IsTable t
    → held (erase p t) q ≡ (if p == q then 0 else held t q)
held-erase p q [] v = ground arith
held-erase p q (e ∷ t) v =
    let ih = held-erase p q t v.2 in
    elim (Bool-cases (is_lock e.lock p)) [
      | inl hit ↦ ground (arith, is_lock_same e.lock p q hit, v.0)
      | inr miss ↦ ground (arith, ih, is_lock_other e.lock p q miss)
    ]

pub held-append :
    (p q : ℕ) (mode : LockMode) (t : List LocalLockInfo)
    → held t p ≡ 0
    → IsTable t
    → held (t ++ record { lock = some p; lock_mode = mode; lock_cnt = 1 } ∷ []) q
      ≡ (if p == q then 1 else held t q)
held-append p q mode [] h v = ground arith
held-append p q mode (e ∷ t) h v =
    let miss : is_lock e.lock p ≡ false = ground (arith, v.1) in
    let ih = held-append p q mode t (ground arith) v.2 in
    ground (arith, ih, is_lock_other e.lock p q miss)

held-adjust_ne :
    (f : ℕ → ℕ) (p q : ℕ) (t : List LocalLockInfo)
    → (p == q) ≡ false
    → held (adjust f p t) q ≡ held t q
held-adjust_ne f p q [] h = refl
held-adjust_ne f p q (e ∷ t) h = elim (Bool-cases (is_lock e.lock p)) [
  | inl hit ↦ ground (arith, is_lock_same e.lock p q hit)
  | inr miss ↦ let ih = held-adjust_ne f p q t h in rw miss (ground (arith, ih))
]

pub adjust-IsTable :
    (f : ℕ → ℕ) (p : ℕ) (t : List LocalLockInfo)
    → IsTable t
    → 1 ≤ f (held t p)
    → IsTable (adjust f p t)
adjust-IsTable f p [] v h = tt
adjust-IsTable f p (e ∷ t) v h = elim (Bool-cases (is_lock e.lock p)) [
  | inl hit ↦ ground arith
  | inr miss ↦
      let other : (p == v.0.0) ≡ false = ground (arith, v.0.1) in
      let still = held-adjust_ne f p v.0.0 t other in
      let ih = adjust-IsTable f p t v.2 (ground arith) in
      rw miss ((v.0.0, v.0.1, ground (arith, still, v.0.2)), v.1, ih)
]

pub erase-IsTable : (p : ℕ) (t : List LocalLockInfo) → IsTable t → IsTable (erase p t)
erase-IsTable p [] v = tt
erase-IsTable p (e ∷ t) v = elim (Bool-cases (is_lock e.lock p)) [
  | inl hit ↦ rw hit v.2
  | inr miss ↦
      let other : (p == v.0.0) ≡ false = ground (arith, v.0.1) in
      rw miss (
        (v.0.0, v.0.1, ground (arith, held-erase p v.0.0 t v.2, v.0.2)),
        v.1,
        erase-IsTable p t v.2,
      )
]

pub append-IsTable :
    (p : ℕ) (mode : LockMode) (t : List LocalLockInfo)
    → held t p ≡ 0
    → IsTable t
    → IsTable (t ++ record { lock = some p; lock_mode = mode; lock_cnt = 1 } ∷ [])
append-IsTable p mode [] h v = ((p, refl, refl), omega arith, tt)
append-IsTable p mode (e ∷ t) h v =
    let miss : is_lock e.lock p ≡ false = ground (arith, v.1) in
    let other : (p == v.0.0) ≡ false = ground (arith, v.0.1) in
    (
      (v.0.0, v.0.1, ground (arith, held-append p v.0.0 mode t (ground arith) v.2, v.0.2)),
      v.1,
      append-IsTable p mode t (ground arith) v.2,
    )
