-- ===== src/Buffer/Hash/Bucket.antt =====
-- `DeleteHashEntryFromBucket` on a whole bucket.
use toadb.Base.{
  mem, IsFresh, ℕ, suc, ◌-◌, ◌<◌, ◌≡◌, refl, sym, ap, subst, ◌∙◌, true, false, ◌&&◌, List, [], ◌∷◌,
  Option, none, some, ◌==◌, if◌then◌else◌, get_elem?, set, length, arith, Bool-cases, inl, inr,
  set-get_elem?, ==_refl,
}
use toadb.Buffer.Hash.{HashTableInfo, matches, delete_loop, set_bucket}
use toadb.Buffer.Hash.Chains.{Links, first_match, first_match-hit, first_match-miss}
use toadb.Buffer.Hash.Unlink.{
  remove, SameEntries, LoopResult, delete_loop-LoopResult, delete_loop-miss, first_match-mem,
  set-SameEntries,
}

-- The table `t'` is `t` with `i` unlinked from the bucket's chain.
pub record Without (t : HashTableInfo) (p b : ℕ) (chain : List ℕ) (i : ℕ) (t' : HashTableInfo)
    : Type 0 where
  pub head : Option ℕ
  pub heads :
      (q c : ℕ) → t'.seg_buckets q c ≡ (if q == p && c == b then head else t.seg_buckets q c)
  pub links : Links t'.elements head (remove i chain)
  pub frame : (j : ℕ) → mem j chain ≡ false → get_elem? t'.elements j ≡ get_elem? t.elements j
  pub same : SameEntries t.elements t'.elements
  pub free_list_same : t'.free_list ≡ t.free_list
  pub free_num_same : t'.free_num ≡ t.free_num
  pub used : t'.used_num ≡ t.used_num - 1

abbrev pub BucketResult :
    HashTableInfo → ℕ → ℕ → List ℕ → Option ℕ → Option (Option ℕ × HashTableInfo) → Type 0
BucketResult t p b chain none r = r ≡ some (none, t)
BucketResult t p b chain (some i) r =
    (t' : HashTableInfo) × (r ≡ some (some i, t')) × Without t p b chain i t'

heads_same :
    (t : HashTableInfo) (p b i : ℕ)
    → t.seg_buckets p b ≡ some i
    → (q c : ℕ) → t.seg_buckets q c ≡ (if q == p && c == b then some i else t.seg_buckets q c)
heads_same t p b i at q c = elim (Bool-cases (q == p && c == b)) [
  | inr miss ↦ rw miss refl
  | inl hit ↦
      let qp : q ≡ p = ground arith in
      let cb : c ≡ b = ground arith in
      rw hit (ap (λ x. t.seg_buckets x c) qp ∙ ap (t.seg_buckets p) cb ∙ at)
]

from_loop :
    (t : HashTableInfo) (p b i : ℕ) (ids : List ℕ) (m : Option ℕ)
    (r : Option (Option ℕ × HashTableInfo))
    → t.seg_buckets p b ≡ some i
    → IsFresh (i ∷ ids)
    → ((j : ℕ) → m ≡ some j → mem j ids ≡ true)
    → LoopResult t i ids m r
    → BucketResult t p b (i ∷ ids) m r
from_loop t p b i ids none r at f found x = x
from_loop t p b i ids (some j) r at f found (els, eq, u) =
    let there = found j refl in
    let ne : (i == j) ≡ false = let out = f.0 in ground (arith, out, there) in
    (
      record t { elements = els; used_num = t.used_num - 1 },
      eq,
      record {
        head = some i;
        heads = heads_same t p b i at;
        links = rw ne u.links;
        frame = u.frame;
        same = u.same;
        free_list_same = refl;
        free_num_same = refl;
        used = refl;
      },
    )

delete_loop-BucketResult :
    (fuel : ℕ) (t : HashTableInfo) (p b i : ℕ) (ids : List ℕ) (key : ℕ) (value : List ℕ)
    → (l : Links t.elements (t.seg_buckets p b) (i ∷ ids)) → IsFresh (i ∷ ids)
    → length ids < fuel
    → BucketResult t p b
        (i ∷ ids)
        (first_match t key value (i ∷ ids))
        (delete_loop (suc fuel) t p b i (some i) key value)
unfolding delete_loop
delete_loop-BucketResult fuel t p b i ids key value l f h =
    let e = l.1.0 in
    elim (Bool-cases (matches t key value e)) [
      | inr miss ↦
          let run = delete_loop-miss fuel t p b i i e key value l.1.1 miss in
          let x =
            from_loop t p b i ids (first_match t key value ids)
              (delete_loop fuel t p b i e.link key value) l.0 f (first_match-mem t key value ids)
              (delete_loop-LoopResult fuel t p b i e ids key value l.1.1 l.1.2 f h) in
          rw (first_match-miss t key value i ids e l.1.1 miss)
            (subst (λ r. BucketResult t p b (i ∷ ids) (first_match t key value ids) r) (sym run) x)
      | inl hit ↦
          let els' = set t.elements i (record e { link = e.link }) in
          let still : els' ≡ t.elements = set-get_elem? t.elements i l.1.1 in
          rw (first_match-hit t key value i ids e l.1.1 hit) (
            record (set_bucket p b e.link t) { elements = els'; used_num = t.used_num - 1 },
            rw (delete_loop, l.1.1, hit, ==_refl i) (rw (l.1.1) refl),
            record {
              head = e.link;
              heads = λ q c. refl;
              links = rw (==_refl i) (subst (λ x. Links x e.link ids) (sym still) l.1.2);
              frame = λ j m. ap (λ x. get_elem? x j) still;
              same = set-SameEntries t.elements i e e.link l.1.1;
              free_list_same = refl;
              free_num_same = refl;
              used = refl;
            },
          )
    ]

pub bucket-BucketResult :
    (fuel : ℕ) (t : HashTableInfo) (p b : ℕ) (chain : List ℕ) (key : ℕ) (value : List ℕ)
    → Links t.elements (t.seg_buckets p b) chain
    → IsFresh chain
    → length chain < suc fuel
    → BucketResult t p b chain
        (first_match t key value chain)
        (elim (t.seg_buckets p b) as (λ k. Option (Option ℕ × HashTableInfo)) [
          | none ↦ some (none, t)
          | some i ↦ delete_loop (suc fuel) t p b i (some i) key value
        ])
bucket-BucketResult fuel t p b [] key value l f h = simp (l) refl
bucket-BucketResult fuel t p b (i ∷ ids) key value l f h =
    let x = delete_loop-BucketResult fuel t p b i ids key value l f (omega arith) in simp (l.0) x
