-- ===== src/Buffer/Hash/Chains.antt =====
-- The buckets and the free list as the lists of the elements that they link.
use toadb.Base.{
  mem, IsFresh, ℕ, zero, suc, ◌<◌, ◌≡◌, refl, sym, ap, ◌∙◌, true, false, ◌&&◌, List, [], ◌∷◌,
  Option, none, some, ◌==◌, if◌then◌else◌, get_elem?, length, arith, Bool-cases, inl, inr,
}
use toadb.Buffer.Hash.{HashElement, HashTableInfo, matches, get_hash_entry_from_bucket}

abbrev pub Links : List HashElement → Option ℕ → List ℕ → Type 0
Links els head [] = head ≡ none
Links els head (i ∷ is) =
    (head ≡ some i) × ((e : HashElement) × (get_elem? els i ≡ some e) × Links els e.link is)

-- Each bucket links its chain, the free list links `free`, and no element is in two of them.
pub record IsTable (t : HashTableInfo) (chains : ℕ → ℕ → List ℕ) (free : List ℕ) : Type 0 where
  pub at_bucket : (p b : ℕ) → Links t.elements (t.seg_buckets p b) (chains p b)
  pub at_free : Links t.elements t.free_list free
  pub fresh_bucket : (p b : ℕ) → IsFresh (chains p b)
  pub fresh_free : IsFresh free
  pub apart : (p b i : ℕ) → mem i (chains p b) ≡ true → mem i free ≡ false
  pub apart_buckets :
      (p b q c i : ℕ)
      → mem i (chains p b) ≡ true
      → mem i (chains q c) ≡ true
      → (p == q && b == c) ≡ true
  pub counted : t.free_num ≡ length free

-- A chain does not see what changes elsewhere.
pub Links-frame :
    (els els' : List HashElement) (head : Option ℕ) (ids : List ℕ)
    → ((i : ℕ) → mem i ids ≡ true → get_elem? els' i ≡ get_elem? els i)
    → Links els head ids
    → Links els' head ids
Links-frame els els' head [] same l = l
Links-frame els els' head (i ∷ is) same l =
    let ih = Links-frame els els' l.1.0.link is (λ j m. same j (ground arith)) l.1.2 in
    (l.0, (l.1.0, same i (ground arith) ∙ l.1.1, ih))

-- The first element of a chain that has the key and the value.
abbrev pub first_match : HashTableInfo → ℕ → List ℕ → List ℕ → Option ℕ
first_match t key value [] = none
first_match t key value (i ∷ is) =
    let rest = first_match t key value is in
    elim (get_elem? t.elements i) [
      | none ↦ none
      | some e ↦ if matches t key value e then some i else rest
    ]

pub first_match-hit :
    (t : HashTableInfo) (key : ℕ) (value : List ℕ) (i : ℕ) (ids : List ℕ) (e : HashElement)
    → get_elem? t.elements i ≡ some e
    → matches t key value e ≡ true
    → first_match t key value (i ∷ ids) ≡ some i
first_match-hit t key value i ids e at hit = rw (first_match, at, hit) refl

pub first_match-miss :
    (t : HashTableInfo) (key : ℕ) (value : List ℕ) (i : ℕ) (ids : List ℕ) (e : HashElement)
    → get_elem? t.elements i ≡ some e
    → matches t key value e ≡ false
    → first_match t key value (i ∷ ids) ≡ first_match t key value ids
first_match-miss t key value i ids e at miss = rw (first_match, at, miss) refl

pub get_hash_entry_from_bucket-first_match :
    (fuel : ℕ) (t : HashTableInfo) (head : Option ℕ) (ids : List ℕ) (key : ℕ) (value : List ℕ)
    → Links t.elements head ids
    → length ids < fuel
    → get_hash_entry_from_bucket fuel t head key value ≡ some (first_match t key value ids)
unfolding get_hash_entry_from_bucket
get_hash_entry_from_bucket-first_match zero t head ids key value l h = elim h [ ]
get_hash_entry_from_bucket-first_match (suc fuel) t head [] key value l h = rw l refl
get_hash_entry_from_bucket-first_match (suc fuel) t head (i ∷ is) key value l h =
    let ih =
      get_hash_entry_from_bucket-first_match fuel t l.1.0.link is key value l.1.2 (omega arith) in
    elim (Bool-cases (matches t key value l.1.0)) [
      | inl hit ↦
          rw (l.0, l.1.1, hit) (ap some (sym (first_match-hit t key value i is l.1.0 l.1.1 hit)))
      | inr miss ↦
          rw (l.0, l.1.1, miss)
            (ih ∙ ap some (sym (first_match-miss t key value i is l.1.0 l.1.1 miss)))
    ]
