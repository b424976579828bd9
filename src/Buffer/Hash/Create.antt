-- ===== src/Buffer/Hash/Create.antt =====
-- A new hash table.
use toadb.Base.{
  ℕ, zero, suc, ◌+◌, ◌-◌, ◌<◌, ◌^◌, ◌≡◌, refl, sym, subst, ap, ◌∙◌, List, [], ◌∷◌, none, some,
  get_elem?, length, arith, ◌==◌, if◌then◌else◌,
}
use toadb.Buffer.Pool.Initial.{count_from, count_from-IsFresh, first, first-suc}
use toadb.Buffer.Hash.{
  HashElement, HashTableInfo, link_elements, hash_table_create, get_align_num, get_shift_num,
  bit_or, shift_loop,
}
use toadb.Buffer.Hash.Chains.{Links, IsTable}

link-link_elements :
    (memory : List HashElement) (index i : ℕ)
    → i < length memory
    → (e : HashElement) × (get_elem? (link_elements index memory) i ≡ some e)
      × (e.link ≡ (if i + 1 == length memory then none else some (index + i + 1)))
unfolding link_elements
link-link_elements [] index i h = elim h [ ]
link-link_elements (e ∷ []) index zero h = (_, refl, refl)
link-link_elements (e ∷ []) index (suc i) h = absurd (omega arith)
link-link_elements (e ∷ d ∷ es) index zero h = (_, refl, ground arith)
link-link_elements (e ∷ d ∷ es) index (suc i) h =
    let o = link-link_elements (d ∷ es) (index + 1) i (omega arith) in
    (o.0, o.1, ground (arith, o.2))

first-next :
    (a k n : ℕ) → a + suc k ≡ n → (if a + 1 == n then none else some (0 + a + 1)) ≡ first (a + 1) k
first-next a zero n e = ground arith
first-next a (suc k) n e = ground arith

link_elements-Links :
    (memory : List HashElement) (a k : ℕ)
    → a + k ≡ length memory
    → Links (link_elements 0 memory) (first a k) (count_from a k)
link_elements-Links memory a zero e = refl
link_elements-Links memory a (suc k) e =
    let o = link-link_elements memory 0 a (omega (arith, e)) in
    let ih = link_elements-Links memory (a + 1) k (omega (arith, e)) in
    let next : o.0.link ≡ first (a + 1) k = o.2 ∙ first-next a k (length memory) e in
    (
      refl,
      (
        o.0,
        o.1,
        subst (λ h. Links (link_elements 0 memory) h (count_from (a + 1) k)) (sym next) ih,
      ),
    )

length-count_from : (a n : ℕ) → length (count_from a n) ≡ n
length-count_from a zero = refl
length-count_from a (suc n) = ap suc (length-count_from (a + 1) n)

-- For 4 partitions and at least one element, HashTableCreate gives a well-formed table with
-- empty buckets and all elements in the free list in their order, the partition mask with the
-- two highest bits, and the shift 62.
pub hash_table_create-IsTable :
    (memory : List HashElement) (value_size key_value_size : ℕ)
    → 0 < length memory
    → (t : HashTableInfo) × (hash_table_create 4 memory value_size key_value_size ≡ some t)
      × IsTable t (λ p b. []) (count_from 0 (length memory))
      × (t.partition_mask ≡ 2 ^ 64 - 2 ^ 62)
      × (t.partition_shift ≡ 62)
      × (t.hash_segment_size ≡ 32)
unfolding hash_table_create get_align_num get_shift_num bit_or shift_loop
hash_table_create-IsTable memory value_size key_value_size h =
    let n = length memory in
    let links = link_elements-Links memory 0 n (omega arith) in
    (
      _,
      refl,
      record {
        at_bucket = λ p b. refl;
        at_free =
            subst (λ x. Links (link_elements 0 memory) x (count_from 0 n)) (first-suc 0 n h) links;
        fresh_bucket = λ p b. tt;
        fresh_free = count_from-IsFresh 0 n;
        apart = λ p b i m. absurd (cc);
        apart_buckets = λ p b q c i m m'. absurd (cc);
        counted = sym (length-count_from 0 n);
      },
      refl,
      refl,
      refl,
    )
