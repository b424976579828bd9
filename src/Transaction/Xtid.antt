-- ===== src/Transaction/Xtid.antt =====
-- sqlcore/transaction/xtid.c over util/ipc/lock/atom/atom.c: the transaction id counter and the
-- levels that bound running and finished transactions. A 64-bit cell is a number below 2 ^ 64.
pub mod Levels
use toadb.Base.{
  ℕ, zero, suc, ◌+◌, ◌-◌, ◌%◌, ◌^◌, Bool, true, false, List, [], ◌∷◌, Option, none, some, leb, ◌==◌,
  if◌then◌else◌, ◌>>=◌,
}

abbrev pub xtid_mod : ℕ
xtid_mod = 2 ^ 64

-- `INVALID_XTID`, -1 as a UINT64, and `CLEAN_XTID`.
abbrev pub invalid_xtid : ℕ
invalid_xtid = 2 ^ 64 - 1

abbrev pub clean_xtid : ℕ
clean_xtid = 0

abbrev pub xtid_is_invalid : ℕ → Bool
xtid_is_invalid xid = xid == invalid_xtid

pub record TransactionIdInfo : Type 0 where
  pub next_transaction_id : ℕ
  pub low_level_xtid : ℕ
  pub high_level_xtid : ℕ

abbrev pub transaction_info : TransactionIdInfo
transaction_info = record { next_transaction_id = 1; low_level_xtid = 0; high_level_xtid = 0 }

-- `__sync_val_compare_and_swap` on a cell: the success flag, the cell, and `*expected` afterwards.
unfoldable pub atomic_compare_exchange64 : ℕ → ℕ → ℕ → Bool × ℕ × ℕ
atomic_compare_exchange64 cell expected newval =
    (cell == expected, (if cell == expected then newval else cell), cell)

-- The value before the addition, and the cell afterwards.
unfoldable pub atomic_fetch_add64 : ℕ → ℕ → ℕ × ℕ
atomic_fetch_add64 cell add = (cell, (cell + add) % xtid_mod)

unfoldable pub get_new_transaction_id : TransactionIdInfo → ℕ × TransactionIdInfo
unfolding atomic_fetch_add64
get_new_transaction_id t =
    let (old, next) = atomic_fetch_add64 t.next_transaction_id 1 in
    (old, record t { next_transaction_id = next })

-- What other workers have put in the cell by the time of the next access.
abbrev pub observe : List ℕ → ℕ → ℕ
observe [] cell = cell
observe (c ∷ seen) cell = c

abbrev pub rest : List ℕ → List ℕ
rest [] = []
rest (c ∷ seen) = seen

-- A compare-and-swap loop that stops when `stop expected` holds or when the swap succeeds. `seen`
-- lists what other workers put in the cell before each swap; `none` means that the fuel ran out.
unfoldable pub swap_loop : (ℕ → Bool) → ℕ → List ℕ → ℕ → ℕ → ℕ → Option (ℕ × ℕ)
unfolding atomic_compare_exchange64
swap_loop stop zero seen xid expected cell = none
swap_loop stop (suc fuel) seen xid expected cell =
    let now = observe seen cell in
    let (swapped, cell', expected') = atomic_compare_exchange64 now expected xid in
    let again = swap_loop stop fuel (rest seen) xid expected' cell' in
    if stop expected
    then some (expected, cell)
    else if swapped
    then some (expected', cell')
    else again

abbrev pub swap_fuel : List ℕ → ℕ
swap_fuel [] = 2
swap_fuel (c ∷ seen) = suc (swap_fuel seen)

-- The returned level, and the info afterwards.
unfoldable pub set_high_level_transaction :
    List ℕ → TransactionIdInfo → ℕ → Option (ℕ × TransactionIdInfo)
unfolding swap_loop
set_high_level_transaction seen t xid =
    if xtid_is_invalid xid then some (t.high_level_xtid, t) else (do
      (level, cell) ←
          swap_loop (λ level. leb xid level) (swap_fuel seen) seen xid t.high_level_xtid
            t.high_level_xtid
      some (level, record t { high_level_xtid = cell }))

unfoldable pub set_low_level_transaction :
    List ℕ → TransactionIdInfo → ℕ → Option (ℕ × TransactionIdInfo)
unfolding swap_loop
set_low_level_transaction seen t xid =
    if xtid_is_invalid xid then some (t.low_level_xtid, t) else (do
      (level, cell) ←
          swap_loop (λ level. leb level xid) (swap_fuel seen) seen xid t.low_level_xtid
            t.low_level_xtid
      some (level, record t { low_level_xtid = cell }))

pub data TransactionState : Type 0 where
  running commited abort unknown : TransactionState

-- The code answers `TRANS_COMMITED` for every id.
unfoldable pub get_transaction_state : ℕ → TransactionState
get_transaction_state xtid = TransactionState.commited
