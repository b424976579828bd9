-- ===== src/Buffer/Pool/Initial.antt =====
-- The pool that `InitBufferPool` leaves.
use toadb.Base.{
  IsFresh, mem, ℕ, zero, suc, ◌+◌, ◌-◌, ◌<◌, ◌≤◌, ◌≡◌, ◌≢◌, refl, sym, ◌∙◌, Bool, true, false, List,
  [], ◌∷◌, map, Option, none, some, ltb, get_elem?, set, length, arith, get_elem?-set_self,
  get_elem?-set_ne, length-set, ap, subst, ◌&&◌,
}
use toadb.Buffer.Pool.{
  BufferDesc, BufferPoolContext, init_buffer_pool, link_next, init_desc, buffer_min_num,
  bvf_invalid, buffer_clean,
}
use toadb.Buffer.Pool.FreeList.{IsFree, Links, flag_of}

-- The numbers from `a` on.
abbrev pub count_from : ℕ → ℕ → List ℕ
count_from a zero = []
count_from a (suc n) = a ∷ count_from (a + 1) n

length-link_next : (left index : ℕ) → length (link_next left index) ≡ left
length-link_next zero index = refl
length-link_next (suc left) index = ap suc (length-link_next left (index + 1))

get_elem?-link_next :
    (left index i : ℕ) → i < left → get_elem? (link_next left index) i ≡ some (some (index + i + 1))
get_elem?-link_next zero index i h = elim h [ ]
get_elem?-link_next (suc left) index zero h = ground arith
get_elem?-link_next (suc left) index (suc i) h =
    get_elem?-link_next left (index + 1) i (omega arith) ∙ ap (λ n. some (some n)) (omega arith)

mem-count_from : (i a n : ℕ) → i < a → mem i (count_from a n) ≡ false
mem-count_from i a zero h = refl
mem-count_from i a (suc n) h = let ih = mem-count_from i (a + 1) n (omega arith) in ground arith

pub count_from-IsFresh : (a n : ℕ) → IsFresh (count_from a n)
count_from-IsFresh a zero = tt
count_from-IsFresh a (suc n) =
    (mem-count_from a (a + 1) n (omega arith), count_from-IsFresh (a + 1) n)

abbrev slots : ℕ → List (Option ℕ)
slots n = set (link_next n 0) (n - 1) none

abbrev pub first : ℕ → ℕ → Option ℕ
first a zero = none
first a (suc k) = some a

slots-Links : (n a k : ℕ) → 0 < a → a + k ≡ n → Links (slots n) (first a k) (count_from a k)
slots-Links n a zero pos e = refl
slots-Links n a (suc zero) pos e =
    let inside : n - 1 < length (link_next n 0) = omega (arith, length-link_next n 0, e) in
    let at : n - 1 ≡ a = omega (arith, e) in
    (
      refl,
      pos,
      (
        none,
        subst (λ i. get_elem? (slots n) i ≡ some none) at
            (get_elem?-set_self (link_next n 0) (n - 1) none inside),
        refl,
      ),
    )
slots-Links n a (suc (suc k)) pos e =
    let ih = slots-Links n (a + 1) (suc k) (omega arith) (omega (arith, e)) in
    let other : n - 1 ≢ a = omega (arith, e) in
    let next =
      get_elem?-set_ne (link_next n 0) (n - 1) a none other
      ∙ get_elem?-link_next n 0 a (omega (arith, e)) in
    (refl, pos, (some (a + 1), ground (arith, next), ih))

pub first-suc : (a k : ℕ) → 0 < k → first a k ≡ some a
first-suc a zero h = elim h [ ]
first-suc a (suc k) h = refl

and_false : (b : Bool) → b && false ≡ false
and_false true = refl
and_false false = refl

length-map : (xs : List BufferDesc) → length (map init_desc xs) ≡ length xs
length-map [] = refl
length-map (x ∷ xs) = ap suc (length-map xs)

get_elem?-map :
    (xs : List BufferDesc) (i : ℕ) (d : BufferDesc)
    → get_elem? (map init_desc xs) i ≡ some d
    → (e : BufferDesc) × (get_elem? xs i ≡ some e) × (d ≡ init_desc e)
get_elem?-map [] i d h = absurd (cc)
get_elem?-map (x ∷ xs) zero d h = (x, refl, ground arith)
get_elem?-map (x ∷ xs) (suc i) d h = get_elem?-map xs i d h

-- For at least 8 buffers whose memory has the list flags cleared, InitBufferPool succeeds with
-- the free list 1, 2, and so on to the last buffer, none of which has its flag set, and with
-- all buffers invalid and clean.
pub init_buffer_pool-IsFree :
    (memory : List BufferDesc) (n : ℕ)
    → buffer_min_num ≤ n
    → length memory ≡ n
    → ((i : ℕ) (d : BufferDesc) → get_elem? memory i ≡ some d → d.is_in_free_list ≡ 0)
    → (pool : BufferPoolContext) × (init_buffer_pool memory n ≡ some pool)
      × IsFree (λ i. false) pool (count_from 1 (n - 1))
      × ((i : ℕ) (d : BufferDesc)
          → get_elem? pool.buffer_desc i ≡ some d
          → (d.is_valid ≡ bvf_invalid) × (d.is_dirty ≡ buffer_clean))
unfolding init_buffer_pool
init_buffer_pool-IsFree memory n enough size clear =
    let large : ltb n buffer_min_num ≡ false = ground arith in
    let desc = map init_desc memory in
    let pool : BufferPoolContext = record {
      buffer_num = n;
      free_list = slots n;
      buffer_desc = desc;
    } in
    let zero_at =
      get_elem?-set_ne (link_next n 0) (n - 1) 0 none (omega arith)
      ∙ get_elem?-link_next n 0 0 (omega arith) in
    let links = slots-Links n 1 (n - 1) (omega arith) (omega arith) in
    let link_len = length-set (link_next n 0) (n - 1) none ∙ length-link_next n 0 in
    let head : first 1 (n - 1) ≡ some 1 = first-suc 1 (n - 1) (omega arith) in
    (
      pool,
      rw large refl,
      record {
        size = link_len ∙ sym (length-map memory ∙ size);
        head = first 1 (n - 1);
        at_head = zero_at ∙ ap some (sym head);
        links = links;
        fresh = count_from-IsFresh 1 (n - 1);
        flags = λ i d h.
            let o = get_elem?-map memory i d h in
            let c = clear i o.0 o.1 in
            let z : d.is_in_free_list ≡ 0 = ap (λ x. x.is_in_free_list) o.2 ∙ c in
            z ∙ ap flag_of (sym (and_false (mem i (count_from 1 (n - 1)))));
      },
      λ i d h.
          let o = get_elem?-map memory i d h in
          (ap (λ x. x.is_valid) o.2, ap (λ x. x.is_dirty) o.2),
    )
