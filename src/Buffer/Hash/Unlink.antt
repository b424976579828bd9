-- ===== src/Buffer/Hash/Unlink.antt =====
-- The loop of `DeleteHashEntryFromBucket`, which unlinks an entry from its chain.
use toadb.Base.{
  mem, IsFresh, ℕ, zero, suc, ◌-◌, ◌<◌, ◌≡◌, refl, sym, ap, subst, ◌∙◌, true, false, List, [], ◌∷◌,
  Option, none, some, ◌==◌, if◌then◌else◌, get_elem?, set, length, arith, Bool-cases, inl, inr,
  get_elem?-set_self, get_elem?-set_ne, lt-length, ℕ_discrete, ==_refl,
}
use toadb.Buffer.Hash.{HashElement, HashTableInfo, matches, delete_loop}
use toadb.Buffer.Hash.Chains.{Links, Links-frame, first_match, first_match-hit, first_match-miss}

abbrev pub remove : ℕ → List ℕ → List ℕ
remove i [] = []
remove i (x ∷ xs) = if x == i then xs else x ∷ remove i xs

pub mem-remove : (i j : ℕ) (xs : List ℕ) → mem j (remove i xs) ≡ true → mem j xs ≡ true
mem-remove i j [] m = m
mem-remove i j (x ∷ xs) m = let ih = mem-remove i j xs in ground (arith, ih)

pub remove-IsFresh : (i : ℕ) (xs : List ℕ) → IsFresh xs → IsFresh (remove i xs)
remove-IsFresh i [] f = f
remove-IsFresh i (x ∷ xs) f = elim (Bool-cases (x == i)) [
  | inl hit ↦ rw hit f.1
  | inr miss ↦
      let out : mem x (remove i xs) ≡ false = let m = mem-remove i x xs in ground (arith, m, f.0) in
      rw miss (out, remove-IsFresh i xs f.1)
]

pub mem-remove_self : (i : ℕ) (xs : List ℕ) → IsFresh xs → mem i (remove i xs) ≡ false
mem-remove_self i [] f = refl
mem-remove_self i (x ∷ xs) f = let ih = mem-remove_self i xs f.1 in ground (arith, ih, f.0)

pub first_match-mem :
    (t : HashTableInfo) (key : ℕ) (value : List ℕ) (ids : List ℕ) (i : ℕ)
    → first_match t key value ids ≡ some i
    → mem i ids ≡ true
first_match-mem t key value [] i e = absurd (cc)
first_match-mem t key value (x ∷ xs) i e =
    let ih = first_match-mem t key value xs i in ground (arith, ih)

-- Nothing but links differs.
abbrev pub SameEntries : List HashElement → List HashElement → Type 0
SameEntries els els' =
    (j : ℕ) (e : HashElement)
    → get_elem? els j ≡ some e
    → (e' : HashElement) × (get_elem? els' j ≡ some e')
      × (e'.hash_key ≡ e.hash_key)
      × (e'.value ≡ e.value)

pub set-SameEntries :
    (els : List HashElement) (i : ℕ) (d : HashElement) (link : Option ℕ)
    → get_elem? els i ≡ some d
    → SameEntries els (set els i (record d { link = link }))
set-SameEntries els i d link at j e h = elim (ℕ_discrete i j) [
  | yes same ↦
      let self = get_elem?-set_self els i (record d { link = link }) (lt-length els i at) in
      let is : e ≡ d = ground (arith, at, h, same) in
      (
        record d { link = link },
        subst
            (λ k.
              get_elem? (set els i (record d { link = link })) k ≡ some (record d { link = link }))
            same self,
        ap (λ x. x.hash_key) (sym is),
        ap (λ x. x.value) (sym is),
      )
  | no ne ↦ (e, get_elem?-set_ne els i j (record d { link = link }) ne ∙ h, refl, refl)
]

-- The loop behind its first element: `pre` is linked to the rest `ids` of the chain.
pub record Unlinked (t : HashTableInfo) (pre : ℕ) (ids : List ℕ) (i : ℕ) (els : List HashElement)
    : Type 0 where
  pub links : Links els (some pre) (pre ∷ remove i ids)
  pub frame : (j : ℕ) → mem j (pre ∷ ids) ≡ false → get_elem? els j ≡ get_elem? t.elements j
  pub same : SameEntries t.elements els

abbrev pub unlinked_table : HashTableInfo → List HashElement → HashTableInfo
unlinked_table t els = record t { elements = els; used_num = t.used_num - 1 }

abbrev pub LoopResult :
    HashTableInfo → ℕ → List ℕ → Option ℕ → Option (Option ℕ × HashTableInfo) → Type 0
LoopResult t pre ids none r = r ≡ some (none, t)
LoopResult t pre ids (some i) r =
    (els : List HashElement) × (r ≡ some (some i, unlinked_table t els)) × Unlinked t pre ids i els

delete_loop-hit :
    (fuel : ℕ) (t : HashTableInfo) (p b pre j : ℕ) (d e : HashElement) (key : ℕ) (value : List ℕ)
    → get_elem? t.elements pre ≡ some d
    → get_elem? t.elements j ≡ some e
    → matches t key value e ≡ true
    → (pre == j) ≡ false
    → delete_loop (suc fuel) t p b pre (some j) key value
      ≡ some (some j, unlinked_table t (set t.elements pre (record d { link = e.link })))
unfolding delete_loop
delete_loop-hit fuel t p b pre j d e key value at at' hit ne =
    rw (delete_loop, at', hit, ne, at) refl

pub delete_loop-miss :
    (fuel : ℕ) (t : HashTableInfo) (p b pre j : ℕ) (e : HashElement) (key : ℕ) (value : List ℕ)
    → get_elem? t.elements j ≡ some e
    → matches t key value e ≡ false
    → delete_loop (suc fuel) t p b pre (some j) key value
      ≡ delete_loop fuel t p b j e.link key value
unfolding delete_loop
delete_loop-miss fuel t p b pre j e key value at miss = rw (delete_loop, at, miss) refl

LoopResult-extend :
    (t : HashTableInfo) (pre j : ℕ) (d : HashElement) (js : List ℕ) (m : Option ℕ)
    (r : Option (Option ℕ × HashTableInfo))
    → get_elem? t.elements pre ≡ some d
    → d.link ≡ some j
    → IsFresh (pre ∷ j ∷ js)
    → ((i : ℕ) → m ≡ some i → mem i js ≡ true)
    → LoopResult t j js m r
    → LoopResult t pre (j ∷ js) m r
LoopResult-extend t pre j d js none r at to f found x = x
LoopResult-extend t pre j d js (some i) r at to f found (els, eq, u) =
    let there = found i refl in
    let ne : (j == i) ≡ false = let out = f.1.0 in ground (arith, out, there) in
    (
      els,
      eq,
      record {
        links = rw ne (
          refl,
          (d, u.frame pre f.0 ∙ at, subst (λ h. Links els h (j ∷ remove i js)) (sym to) u.links),
        );
        frame = λ k m. u.frame k (ground arith);
        same = u.same;
      },
    )

unlink_first :
    (t : HashTableInfo) (pre j : ℕ) (d e : HashElement) (js : List ℕ)
    → get_elem? t.elements pre ≡ some d
    → Links t.elements e.link js
    → IsFresh (pre ∷ j ∷ js)
    → Unlinked t pre (j ∷ js) j (set t.elements pre (record d { link = e.link }))
unlink_first t pre j d e js at l f =
    let els = t.elements in
    let d' : HashElement = record d { link = e.link } in
    let els' = set els pre d' in
    let self = get_elem?-set_self els pre d' (lt-length els pre at) in
    let rest =
      Links-frame els els' e.link js
        (λ k m. get_elem?-set_ne els pre k d' (λ same. let out = f.0 in absurd (ground arith))) l in
    record {
      links = rw (==_refl j) (refl, (d', self, rest));
      frame = λ k m. get_elem?-set_ne els pre k d' (λ same. absurd (ground arith));
      same = set-SameEntries els pre d e.link at;
    }

pub delete_loop-LoopResult :
    (fuel : ℕ) (t : HashTableInfo) (p b pre : ℕ) (d : HashElement) (ids : List ℕ) (key : ℕ)
    (value : List ℕ)
    → get_elem? t.elements pre ≡ some d
    → Links t.elements d.link ids
    → IsFresh (pre ∷ ids)
    → length ids < fuel
    → LoopResult t pre ids
        (first_match t key value ids)
        (delete_loop fuel t p b pre d.link key value)
unfolding delete_loop
delete_loop-LoopResult zero t p b pre d ids key value at l f h = elim h [ ]
delete_loop-LoopResult (suc fuel) t p b pre d [] key value at l f h = rw (delete_loop, l) refl
delete_loop-LoopResult (suc fuel) t p b pre d (j ∷ js) key value at l f h =
    let e = l.1.0 in
    let ih = delete_loop-LoopResult fuel t p b j e js key value l.1.1 l.1.2 f.1 (omega arith) in
    elim (Bool-cases (matches t key value e)) [
      | inl hit ↦
          let ne : (pre == j) ≡ false = let out = f.0 in ground (arith, out) in
          let run =
            ap (λ x. delete_loop (suc fuel) t p b pre x key value) l.0
            ∙ delete_loop-hit fuel t p b pre j d e key value at l.1.1 hit ne in
          rw (first_match-hit t key value j js e l.1.1 hit)
            (_, run, unlink_first t pre j d e js at l.1.2 f)
      | inr miss ↦
          let run =
            ap (λ x. delete_loop (suc fuel) t p b pre x key value) l.0
            ∙ delete_loop-miss fuel t p b pre j e key value l.1.1 miss in
          let extended =
            LoopResult-extend t pre j d js (first_match t key value js)
              (delete_loop fuel t p b j e.link key value) at l.0 f (first_match-mem t key value js)
              ih in
          rw (first_match-miss t key value j js e l.1.1 miss) (
            subst (λ r. LoopResult t pre (j ∷ js) (first_match t key value js) r) (sym run)
              extended)
    ]
