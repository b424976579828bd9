-- ===== src/Transaction/Snapshot/Visibility.antt =====
-- Tuple visibility against what a snapshot means.
use toadb.Base.{
  ℕ, ◌≤◌, ◌<◌, ◌≡◌, ◌≢◌, ◌↔◌, ◌⊎◌, inl, inr, refl, true, false, List, [], ◌∷◌, some, ltb, take,
  arith, sym, ℕ_discrete, Bool-cases,
}
use toadb.Transaction.Xtid.{invalid_xtid}
use toadb.Transaction.Snapshot.{
  SnapShotInfo, found_in, tuple_visibility_snapshot, is_in, TupleHeader, TupleVisibility,
  tuple_visibility_satisfy, compute_xmax,
}

abbrev pub Among : ℕ → List ℕ → Type 0
Among x [] = ⊥
Among x (y ∷ ys) = (x ≡ y) ⊎ Among x ys

abbrev pub running : SnapShotInfo → List ℕ
running s = take s.xid_num s.running_xid_arr

-- The transaction had not finished when the snapshot was taken, or had not even begun.
abbrev pub InProgress : SnapShotInfo → ℕ → Type 0
InProgress s x = (s.high_level ≤ x) ⊎ Among x (running s)

abbrev pub Ended : SnapShotInfo → ℕ → Type 0
Ended s x = (x < s.high_level) × ¬ Among x (running s)

abbrev pub AllAbove : ℕ → List ℕ → Type 0
AllAbove low [] = Unit {0}
AllAbove low (x ∷ xs) = (low ≤ x) × AllAbove low xs

-- The low level is a lower bound of the ids in the snapshot and of its high level.
pub record IsSnapshot (s : SnapShotInfo) : Type 0 where
  pub below_running : AllAbove s.low_level (running s)
  pub below_high : s.low_level ≤ s.high_level

found_in-Among : (x : ℕ) (xs : List ℕ) → (found_in x xs ≡ true) ↔ Among x xs
found_in-Among x [] = (λ e. cc, λ a. absurd a)
found_in-Among x (y ∷ ys) =
    (λ e. ground (arith, found_in-Among x ys), λ a. ground (arith, found_in-Among x ys))

le_of_Among : (low x : ℕ) (xs : List ℕ) → AllAbove low xs → Among x xs → low ≤ x
le_of_Among low x [] h a = absurd a
le_of_Among low x (y ∷ ys) h (inl e) = omega arith
le_of_Among low x (y ∷ ys) h (inr a) = le_of_Among low x ys h.1 a

pub snapshot_cases :
    (s : SnapShotInfo) (x : ℕ)
    → IsSnapshot s
    → ((is_in (tuple_visibility_snapshot x s) ≡ true) × InProgress s x)
      ⊎ ((is_in (tuple_visibility_snapshot x s) ≡ false) × Ended s x)
unfolding tuple_visibility_snapshot
snapshot_cases s x v = elim (Bool-cases (found_in x (running s))) [
  | inl found ↦
      let a = (found_in-Among x (running s)).0 found in
      inl (ground (arith, le_of_Among s.low_level x (running s) v.below_running a), inr a)
  | inr missing ↦
      let out : ¬ Among x (running s) = λ a. cc ((found_in-Among x (running s)).1 a) in
      elim (Bool-cases (ltb x s.high_level)) [
        | inl below ↦ inr (ground arith, (ground arith, out))
        | inr above ↦ inl (ground arith, inl (ground arith))
      ]
]

-- The insertion is the reader's own, or was finished when the snapshot was taken.
abbrev pub Inserted : ℕ → SnapShotInfo → TupleHeader → Type 0
Inserted curr s t = (t.tmin ≢ invalid_xtid) × ((t.tmin ≡ curr) ⊎ Ended s t.tmin)

-- Nobody has deleted the tuple, or somebody else has who was not finished then.
abbrev pub Kept : ℕ → SnapShotInfo → TupleHeader → Type 0
Kept curr s t = (t.tmax ≡ invalid_xtid) ⊎ ((t.tmax ≢ curr) × InProgress s t.tmax)

pub excluded : (s : SnapShotInfo) (x : ℕ) → InProgress s x → Ended s x → ⊥
excluded s x (inl h) e = omega arith
excluded s x (inr a) e = e.1 a

-- In a well-formed snapshot TupleVisibilitySatisfy answers visible exactly when the inserting
-- id is valid and is the reader's own or had ended, and the deleting id is invalid or is
-- another transaction's that was in progress.
pub tuple_visibility_iff :
    (curr : ℕ) (t : TupleHeader) (s : SnapShotInfo)
    → IsSnapshot s
    → (tuple_visibility_satisfy curr t (some s) ≡ TupleVisibility.visible)
      ↔ (Inserted curr s t × Kept curr s t)
unfolding tuple_visibility_satisfy
tuple_visibility_iff curr t s v =
    let ex = excluded s t.tmin in
    let ex' = excluded s t.tmax in
    elim (snapshot_cases s t.tmin v) [
      | inl (i, p) ↦ elim (snapshot_cases s t.tmax v) [
        | inl (i', p') ↦ (λ e. ground arith, λ k. ground (arith, ex))
        | inr (i', p') ↦ (λ e. ground arith, λ k. ground (arith, ex, ex'))
      ]
      | inr (i, p) ↦ elim (snapshot_cases s t.tmax v) [
        | inl (i', p') ↦ (λ e. ground (arith, ex, ex'), λ k. ground (arith, ex, ex'))
        | inr (i', p') ↦ (λ e. ground arith, λ k. ground (arith, ex, ex'))
      ]
    ]

-- Every answer for a snapshot is visible or invisible.
pub tuple_visibility_decides :
    (curr : ℕ) (t : TupleHeader) (s : SnapShotInfo)
    → (tuple_visibility_satisfy curr t (some s) ≡ TupleVisibility.visible)
      ⊎ (tuple_visibility_satisfy curr t (some s) ≡ TupleVisibility.invisible)
unfolding tuple_visibility_satisfy
tuple_visibility_decides curr t s = ground arith

pub invisible_of :
    (curr : ℕ) (t : TupleHeader) (s : SnapShotInfo)
    → IsSnapshot s
    → ¬ (Inserted curr s t × Kept curr s t)
    → tuple_visibility_satisfy curr t (some s) ≡ TupleVisibility.invisible
invisible_of curr t s v not_both = elim (tuple_visibility_decides curr t s) [
  | inl seen ↦ absurd (not_both ((tuple_visibility_iff curr t s v).0 seen))
  | inr hidden ↦ hidden
]

-- What a reader sees of a tuple's two versions.
abbrev pub ShowsOld : ℕ → TupleHeader → TupleHeader → SnapShotInfo → Type 0
ShowsOld reader old new s =
    (tuple_visibility_satisfy reader old (some s) ≡ TupleVisibility.visible)
    × (tuple_visibility_satisfy reader new (some s) ≡ TupleVisibility.invisible)

-- The two headers of an update by `curr` of a tuple that `reader` sees.
module _ (curr reader : ℕ) (old : TupleHeader) (s : SnapShotInfo) (v : IsSnapshot s)
    (valid : curr ≢ invalid_xtid) (before : Inserted reader s old) where
  shows_old :
      curr ≢ reader
      → InProgress s curr
      → ShowsOld reader (compute_xmax curr old).1 (compute_xmax curr old).0 s
  unfolding compute_xmax
  shows_old differ p = (
    (tuple_visibility_iff reader _ s v).1 (before, inr (differ, p)),
    invisible_of reader _ s v
        (λ k. elim (k.0.1) [ inl e ↦ differ e | inr ended ↦ excluded s curr p ended ]),
  )

  shows_new :
      (curr ≡ reader) ⊎ Ended s curr
      → ShowsOld reader (compute_xmax curr old).0 (compute_xmax curr old).1 s
  unfolding compute_xmax
  shows_new done = (
    (tuple_visibility_iff reader _ s v).1 ((valid, done), inl refl),
    invisible_of reader _ s v (λ k. elim (k.1) [
      | inl e ↦ valid e
      | inr (differ, p) ↦ elim done [ inl e ↦ differ e | inr ended ↦ excluded s curr p ended ]
    ]),
  )

-- For a well-formed snapshot and a valid updating id, a reader that sees a tuple sees, after an
-- update of it, exactly one of the two versions: the old one if the updater is another
-- transaction that was in progress at the snapshot, and the new one otherwise.
pub update_shows_one :
    (curr reader : ℕ) (old : TupleHeader) (s : SnapShotInfo)
    → IsSnapshot s
    → curr ≢ invalid_xtid
    → tuple_visibility_satisfy reader old (some s) ≡ TupleVisibility.visible
    → let (new, old') = compute_xmax curr old in
      ((reader ≢ curr) × InProgress s curr × ShowsOld reader old' new s)
      ⊎ (((reader ≡ curr) ⊎ Ended s curr) × ShowsOld reader new old' s)
update_shows_one curr reader old s v valid seen =
    let before = ((tuple_visibility_iff reader old s v).0 seen).0 in
    elim (ℕ_discrete curr reader) [
      | yes same ↦ inr (inl (sym same), shows_new curr reader old s v valid before (inl same))
      | no differ ↦ elim (snapshot_cases s curr v) [
        | inl (i, p) ↦
            inl (λ e. differ (sym e), p, shows_old curr reader old s v valid before differ p)
        | inr (i, p) ↦ inr (inr p, shows_new curr reader old s v valid before (inr p))
      ]
    ]
