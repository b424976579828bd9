-- ===== src/Transaction/Snapshot/Active.antt =====
-- What the loop of `GetActiveXtids` collects, and what it misses.
use toadb.Base.{
  ℕ, ◌+◌, ◌%◌, ◌≤◌, ◌<◌, ◌≡◌, refl, ap, ◌∙◌, true, false, List, [], ◌∷◌, ◌++◌, Option, some, ltb,
  leb, if◌then◌else◌, get_elem?, set, take, drop, length, length-append, arith, Bool-cases, inl,
  inr,
}
use mathlib.Core.List.{append-nil, append_assoc}
use toadb.Transaction.Control.{TransactionContext, State}
use toadb.Transaction.Xtid.{xtid_mod}
use toadb.Transaction.Snapshot.{
  Scan, skips, active_loop, record_xtid, my_id, start_min, get_active_xtids,
}

module _ {ℓ} {A : Type ℓ} where
  pub get_elem?-append : (xs ys : List A) (y : A) → get_elem? (xs ++ y ∷ ys) (length xs) ≡ some y
  get_elem?-append [] ys y = refl
  get_elem?-append (x ∷ xs) ys y = get_elem?-append xs ys y

  pub set-append : (xs ys : List A) (y v : A) → set (xs ++ y ∷ ys) (length xs) v ≡ xs ++ v ∷ ys
  set-append [] ys y v = refl
  set-append (x ∷ xs) ys y v = ap (◌∷◌ x) (set-append xs ys y v)

  pub take-append : (xs ys : List A) → take (length xs) (xs ++ ys) ≡ xs
  take-append [] ys = refl
  take-append (x ∷ xs) ys = ap (◌∷◌ x) (take-append xs ys)

  pub nil_of_length : (xs : List A) → length xs ≤ 0 → xs ≡ []
  nil_of_length [] h = refl
  nil_of_length (x ∷ xs) h = absurd (omega arith)

-- The ids of the transactions that run besides the caller's, in the order of the array.
abbrev pub others : Option ℕ → List TransactionContext → List ℕ
others my [] = []
others my (c ∷ cs) = if skips my c then others my cs else c.transaction_id ∷ others my cs

abbrev pub least : ℕ → List ℕ → ℕ
least m [] = m
least m (x ∷ xs) = least (if ltb x m then x else m) xs

-- No slot holds an id above `max`.
abbrev pub IsClean : ℕ → List ℕ → Type 0
IsClean max [] = Unit {0}
IsClean max (x ∷ xs) = (x ≤ max) × IsClean max xs

-- The scan after the ids `found` are written to an array that held `found'` and then `rest`.
abbrev pub scanned : ℕ → List ℕ → List ℕ → Scan
scanned min found rest = record { count = length found; min = min; xtids = found ++ rest }

record_xtid-scanned :
    (x min : ℕ) (found rest : List ℕ) (r : ℕ)
    → record_xtid x (scanned min found (r ∷ rest))
      ≡ scanned (if ltb x min then x else min) (found ++ x ∷ []) rest
record_xtid-scanned x min found rest r =
    rw (set-append found rest r x, append_assoc found (x ∷ []) rest, length-append found (x ∷ []))

module _ (my : Option ℕ) (max max_num : ℕ) where
  -- One round of the loop at a context that is not skipped, with a slot that is not stale.
  active_loop-take :
      (c : TransactionContext) (cs : List TransactionContext) (found rest : List ℕ) (min r : ℕ)
      → skips my c ≡ false
      → r ≤ max
      → active_loop my max_num max (c ∷ cs) (scanned min found (r ∷ rest)) ≡ (
          let s' =
            scanned
              (if ltb c.transaction_id min then c.transaction_id else min)
              (found ++ c.transaction_id ∷ [])
              rest in
          if leb max_num (length found + 1) then some s' else active_loop my max_num max cs s')
  unfolding active_loop
  active_loop-take c cs found rest min r take_it fresh =
      rw
        (
          take_it,
          get_elem?-append found rest r,
          ← record_xtid-scanned c.transaction_id min found rest r,
        )
        (ground arith)

  ended :
      (found rest : List ℕ) (min : ℕ)
      → active_loop my max_num max [] (scanned min found rest)
        ≡ some (scanned min (found ++ []) rest)
  unfolding active_loop
  ended found rest min = rw (append-nil found)

  active_loop-skip :
      (c : TransactionContext) (cs : List TransactionContext) (s : Scan)
      → skips my c ≡ true
      → active_loop my max_num max (c ∷ cs) s ≡ active_loop my max_num max cs s
  unfolding active_loop
  active_loop-skip c cs s skip = rw skip

  -- A slot with a stale id above `max` hides a running transaction.
  active_loop-stale :
      (c : TransactionContext) (cs : List TransactionContext) (found rest : List ℕ) (min r : ℕ)
      → skips my c ≡ false
      → max < r
      → active_loop my max_num max (c ∷ cs) (scanned min found (r ∷ rest))
        ≡ active_loop my max_num max cs (scanned min found (r ∷ rest))
  unfolding active_loop
  active_loop-stale c cs found rest min r take_it stale =
      rw (take_it, get_elem?-append found rest r) (ground arith)

  -- With no stale id in the slots the loop collects all of them.
  pub active_loop_clean :
      (cs : List TransactionContext) (found rest : List ℕ) (min : ℕ)
      → IsClean max rest
      → length found + length rest ≡ max_num
      → length (others my cs) ≤ length rest
      → active_loop my max_num max cs (scanned min found rest)
        ≡ some (
            scanned
              (least min (others my cs))
              (found ++ others my cs)
              (drop (length (others my cs)) rest))
  active_loop_clean [] found rest min clean size room = ended found rest min
  active_loop_clean (c ∷ cs) found [] min clean size room = elim (Bool-cases (skips my c)) [
    | inl skip ↦
        rw (active_loop-skip c cs _ skip, skip)
          (active_loop_clean cs found [] min clean size (ground arith))
    | inr take_it ↦ absurd (ground arith)
  ]
  active_loop_clean (c ∷ cs) found (r ∷ rest) min clean size room = elim (Bool-cases (skips my c)) [
    | inl skip ↦
        rw (active_loop-skip c cs _ skip, skip)
          (active_loop_clean cs found (r ∷ rest) min clean size (ground arith))
    | inr take_it ↦
        let x = c.transaction_id in
        let ih =
          active_loop_clean cs (found ++ x ∷ []) rest (if ltb x min then x else min) clean.1
            (omega (arith, length-append found (x ∷ []))) (ground arith) in
        rw (active_loop-take c cs found rest min r take_it clean.0, take_it)
          (elim (Bool-cases (leb max_num (length found + 1))) [
            | inl full ↦
                let none_left = nil_of_length (others my cs) (ground arith) in rw (full, none_left)
            | inr more ↦
                rw (more, ih)
                  (ap
                    (λ l. some (
                      scanned (least (if ltb x min then x else min) (others my cs)) l
                        (drop (length (others my cs)) rest)))
                    (append_assoc found (x ∷ []) (others my cs)))
          ])
  ]

  -- With a stale id in the first slot the loop collects nothing.
  active_loop_stale :
      (cs : List TransactionContext) (rest : List ℕ) (min r : ℕ)
      → max < r
      → active_loop my max_num max cs (scanned min [] (r ∷ rest)) ≡ some (scanned min [] (r ∷ rest))
  active_loop_stale [] rest min r stale = ended [] (r ∷ rest) min
  active_loop_stale (c ∷ cs) rest min r stale = elim (Bool-cases (skips my c)) [
    | inl skip ↦ active_loop-skip c cs _ skip ∙ active_loop_stale cs rest min r stale
    | inr take_it ↦
        active_loop-stale c cs [] rest min r take_it stale ∙ active_loop_stale cs rest min r stale
  ]

-- The level up to which transactions have finished, as a snapshot has it.
abbrev pub top_level : State → ℕ
top_level s = (s.ids.high_level_xtid + 1) % xtid_mod

-- The ids that the caller's snapshot should hold.
abbrev pub running_besides : State → List ℕ
running_besides s = others (my_id s) (take s.max_transaction_num s.contexts)

-- Into an array that has room for them and no slot above the top level, GetActiveXtids writes
-- exactly the ids of the other running transactions in worker order, and returns their number,
-- the top level, and the least of these ids, the caller's own id and the top level.
pub get_active_xtids_clean :
    (s : State) (xtids : List ℕ)
    → IsClean (top_level s) xtids
    → length (running_besides s) ≤ length xtids
    → get_active_xtids s xtids (length xtids)
      ≡ some (
        top_level s,
        scanned
            (least (start_min (my_id s) (top_level s)) (running_besides s))
            (running_besides s)
            (drop (length (running_besides s)) xtids),
      )
unfolding get_active_xtids
get_active_xtids_clean s xtids clean room = rw (
    active_loop_clean (my_id s) (top_level s) (length xtids) (take s.max_transaction_num s.contexts)
      [] xtids (start_min (my_id s) (top_level s)) clean (omega arith) room)

-- When the first slot still holds an id above the top level, from an earlier snapshot,
-- `GetActiveXtids` reports no running transaction at all, whatever runs.
pub get_active_xtids_stale :
    (s : State) (r : ℕ) (rest : List ℕ) (max_num : ℕ)
    → top_level s < r
    → get_active_xtids s (r ∷ rest) max_num
      ≡ some (top_level s, scanned (start_min (my_id s) (top_level s)) [] (r ∷ rest))
unfolding get_active_xtids
get_active_xtids_stale s r rest max_num stale = rw (
    active_loop_stale (my_id s) (top_level s) max_num (take s.max_transaction_num s.contexts) rest
      (start_min (my_id s) (top_level s)) r stale)
