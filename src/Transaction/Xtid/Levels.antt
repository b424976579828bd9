-- ===== src/Transaction/Xtid/Levels.antt =====
-- The compare-and-swap loops of xtid.c against what other workers do to the cell meanwhile.
use toadb.Base.{
  ℕ, ◌≤◌, ◌<◌, ◌≡◌, refl, List, [], ◌∷◌, Option, none, some, leb, ◌==◌, arith, Bool-cases, inl, inr,
  ◌⊎◌,
}
use toadb.Transaction.Xtid.{
  TransactionIdInfo, swap_loop, swap_fuel, set_high_level_transaction, invalid_xtid,
}

-- Other workers only raise the level.
abbrev pub Rising : ℕ → List ℕ → Type 0
Rising cell [] = Unit {0}
Rising cell (c ∷ seen) = (cell ≤ c) × Rising c seen

-- The last value that other workers have put in the cell.
abbrev pub last_seen : ℕ → List ℕ → ℕ
last_seen cell [] = cell
last_seen cell (c ∷ seen) = last_seen c seen

-- What the loop that raises a level to `xid` has done when it stops.
abbrev Raised : ℕ → ℕ → Option (ℕ × ℕ) → Type 0
Raised xid cell none = ⊥
Raised xid cell (some (level, cell')) =
    (xid ≤ cell') × (cell ≤ cell') × (level ≤ cell') × ((cell' ≡ xid) ⊎ (xid ≤ level))

raise_quiet :
    (xid expected cell : ℕ)
    → expected ≤ cell
    → Raised xid cell (swap_loop (λ level. leb xid level) 2 [] xid expected cell)
unfolding swap_loop
raise_quiet xid expected cell h = ground arith

Raised-mono : (xid a b : ℕ) (o : Option (ℕ × ℕ)) → a ≤ b → Raised xid b o → Raised xid a o
Raised-mono xid a b none h r = r
Raised-mono xid a b (some (level, cell')) h r = (r.0, omega arith, r.2, r.3)

raise_loop :
    (seen : List ℕ) (xid expected cell : ℕ)
    → expected ≤ cell
    → Rising cell seen
    → Raised xid cell (swap_loop (λ level. leb xid level) (swap_fuel seen) seen xid expected cell)
unfolding swap_loop
raise_loop [] xid expected cell h r = raise_quiet xid expected cell h
raise_loop (c ∷ seen) xid expected cell h r = elim (Bool-cases (leb xid expected)) [
  | inl stop ↦ rw stop (ground arith)
  | inr go ↦ rw go (elim (Bool-cases (c == expected)) [
    | inl same ↦ rw same (ground arith)
    | inr differ ↦
        rw differ (Raised-mono xid cell c _ r.0 (raise_loop seen xid c c (omega arith) r.1))
  ])
]

-- For a valid id, and while other workers only raise the level, SetHighLevelTransaction
-- returns, changes only the high level, leaves it at least the id and at least what it was, and
-- either has written the id itself or returns a level that is at least the id.
pub set_high_level_raises :
    (seen : List ℕ) (t : TransactionIdInfo) (xid : ℕ)
    → xid < invalid_xtid
    → Rising t.high_level_xtid seen
    → (level : ℕ) × (high : ℕ) × (set_high_level_transaction seen t xid
        ≡ some (level, record t { high_level_xtid = high }))
      × (xid ≤ high)
      × (t.high_level_xtid ≤ high)
      × ((high ≡ xid) ⊎ (xid ≤ level))
unfolding set_high_level_transaction
set_high_level_raises seen t xid h r =
    go _ refl (raise_loop seen xid t.high_level_xtid t.high_level_xtid (omega arith) r)
  where
    go :
        (o : Option (ℕ × ℕ))
        → swap_loop
            (λ level. leb xid level)
            (swap_fuel seen)
            seen
            xid
            t.high_level_xtid
            t.high_level_xtid
          ≡ o
        → Raised xid t.high_level_xtid o
        → (level : ℕ) × (high : ℕ) × (set_high_level_transaction seen t xid
            ≡ some (level, record t { high_level_xtid = high }))
          × (xid ≤ high)
          × (t.high_level_xtid ≤ high)
          × ((high ≡ xid) ⊎ (xid ≤ level))
    go none e p = absurd p
    go (some (level, high)) e p = (level, high, ground arith, p.0, p.1, p.3)
