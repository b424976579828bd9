-- ===== src/Buffer/Pool/FreeList.antt =====
-- The list of free buffers as the list of the ids that it links.
use toadb.Base.{
  mem, IsFresh, ℕ, zero, suc, ◌<◌, ◌≡◌, inl, inr, refl, sym, ◌∙◌, Bool, true, false, List, [], ◌∷◌,
  Option, none, some, ltb, ◌==◌, if◌then◌else◌, get_elem?, set, length, arith, Bool-cases,
  get_elem?-set_self, get_elem?-set_ne, get_elem?-set_cases, lt-length, length-set, get_elem?-total,
  ◌&&◌, subst, map, ap, get_or,
}
use toadb.Buffer.Pool.{
  BufferDesc, BufferPoolContext, Outcome, put_desc, insert_free_list, pop_free, free_loop,
  get_free_buffer_id,
}

-- The positions of `slots` link the ids from `head` to the end of the list.
abbrev pub Links : List (Option ℕ) → Option ℕ → List ℕ → Type 0
Links slots head [] = head ≡ none
Links slots head (id ∷ ids) =
    (head ≡ some id)
    × (0 < id)
    × ((next : Option ℕ) × (get_elem? slots id ≡ some next) × Links slots next ids)

abbrev pub flag_of : Bool → ℕ
flag_of b = if b then 1 else 0

-- The pool's free list is `ids`, with no id twice, and the descriptors with their flag set are those in
-- it that are `marked`.
pub record IsFree (marked : ℕ → Bool) (pool : BufferPoolContext) (ids : List ℕ) : Type 0 where
  pub size : length pool.free_list ≡ length pool.buffer_desc
  pub head : Option ℕ
  pub at_head : get_elem? pool.free_list 0 ≡ some head
  pub links : Links pool.free_list head ids
  pub fresh : IsFresh ids
  pub flags :
      (i : ℕ) (d : BufferDesc)
      → get_elem? pool.buffer_desc i ≡ some d
      → d.is_in_free_list ≡ flag_of (mem i ids && marked i)

Links-set :
    (slots : List (Option ℕ)) (i : ℕ) (v head : Option ℕ) (ids : List ℕ)
    → mem i ids ≡ false
    → Links slots head ids
    → Links (set slots i v) head ids
Links-set slots i v head [] m l = l
Links-set slots i v head (id ∷ ids) m l =
    let ih = Links-set slots i v l.2.0 ids (ground arith) l.2.2 in
    let other = get_elem?-set_ne slots i id v (ground arith) in
    (l.0, l.1, (l.2.0, other ∙ l.2.1, ih))

mem-zero :
    (slots : List (Option ℕ)) (head : Option ℕ) (ids : List ℕ)
    → Links slots head ids
    → mem 0 ids ≡ false
mem-zero slots head [] l = refl
mem-zero slots head (id ∷ ids) l =
    let ih = mem-zero slots l.2.0 ids l.2.2 in ground (arith, ih, l.1)

-- A list with an id at its head, unless the id is in it or 0.
abbrev pub inserted : ℕ → List ℕ → List ℕ
inserted id ids = if id == 0 then ids else if mem id ids then ids else id ∷ ids

module _ (marked : ℕ → Bool) where
  -- The head and its link, after an id that was not in the list is put there.
  put_head-IsFree :
      (pool : BufferPoolContext) (ids : List ℕ) (id : ℕ) (d : BufferDesc)
      → (free : IsFree marked pool ids) → get_elem? pool.buffer_desc id ≡ some d
      → 0 < id
      → mem id ids ≡ false
      → marked id ≡ true
      → IsFree marked
          (put_desc id
            (record d { is_in_free_list = 1 })
            (record pool { free_list = set (set pool.free_list id free.head) 0 (some id) }))
          (id ∷ ids)
  put_head-IsFree pool ids id d free at pos out m =
      let desc = pool.buffer_desc in
      let slots = pool.free_list in
      let d' : BufferDesc = record d { is_in_free_list = 1 } in
      let inside = lt-length desc id at in
      let slots' = set slots id free.head in
      let here = get_elem?-set_self slots id free.head (omega (arith, inside, free.size)) in
      let zero_in = lt-length slots 0 free.at_head in
      record {
        size =
            length-set slots' 0 (some id)
            ∙ length-set slots id free.head
            ∙ free.size
            ∙ sym (length-set desc id d');
        head = some id;
        at_head =
            get_elem?-set_self slots' 0 (some id)
              (omega (arith, zero_in, length-set slots id free.head));
        links = (
          refl,
          pos,
          (
            free.head,
            get_elem?-set_ne slots' 0 id (some id) (ground arith) ∙ here,
            Links-set slots' 0 (some id) free.head ids (mem-zero slots free.head ids free.links)
                (Links-set slots id free.head free.head ids out free.links),
          ),
        );
        fresh = (out, free.fresh);
        flags = λ i e h. elim (get_elem?-set_cases desc id i d' e h) [
          | inl (same, is) ↦ ground arith
          | inr (differ, old) ↦ let f = free.flags i e old in ground arith
        ];
      }

  -- For a free list and an id in the pool whose flag tells whether it is listed,
  -- InsertFreeList succeeds with a free list to whose front the id is put if it is not 0 and
  -- not yet listed, and that is unchanged otherwise.
  pub insert_free_list-IsFree :
      (pool : BufferPoolContext) (ids : List ℕ) (id : ℕ)
      → IsFree marked pool ids
      → id < length pool.buffer_desc
      → marked id ≡ true
      → (after : BufferPoolContext) × (insert_free_list pool id ≡ some after)
        × IsFree marked after (inserted id ids)
  unfolding insert_free_list
  insert_free_list-IsFree pool ids id free inside m =
      let o = get_elem?-total pool.buffer_desc id inside in
      let f = free.flags id o.0 o.1 in
      elim (Bool-cases (ltb 0 id && o.0.is_in_free_list == 0)) [
        | inl put ↦
            let out : mem id ids ≡ false = ground arith in
            let to : inserted id ids ≡ (id ∷ ids) = ground arith in
            (
              _,
              rw (o.1, put, free.at_head) refl,
              subst (IsFree marked _) (sym to)
                  (put_head-IsFree pool ids id o.0 free o.1 (ground arith) out m),
            )
        | inr keep ↦
            let to : inserted id ids ≡ ids = ground arith in
            (pool, rw (o.1, keep) refl, subst (IsFree marked pool) (sym to) free)
      ]

  abbrev pub refs : BufferPoolContext → List ℕ
  refs pool = map (λ d. d.ref_cnt) pool.buffer_desc

  -- The ids from the first one that nobody has pinned.
  abbrev pub drop_pinned : List ℕ → List ℕ → List ℕ
  drop_pinned counts [] = []
  drop_pinned counts (id ∷ ids) =
      if get_or counts id 0 == 0 then id ∷ ids else drop_pinned counts ids

  -- The result of the search in a list of which `ids` is left after the pinned ids.
  abbrev pub TakesFirst : BufferPoolContext → List ℕ → Outcome → Type 0
  TakesFirst pool [] r = r ≡ Outcome.fault
  TakesFirst pool (id ∷ ids) r =
      (after : BufferPoolContext) × (r ≡ Outcome.done (some id) after)
      × IsFree marked after ids
      × (refs after ≡ refs pool)

  abbrev pub Takes : BufferPoolContext → List ℕ → Outcome → Type 0
  Takes pool [] r = r ≡ Outcome.done none pool
  Takes pool (id ∷ ids) r = TakesFirst pool (drop_pinned (refs pool) (id ∷ ids)) r

  refs-set :
      (descs : List BufferDesc) (i flag : ℕ) (d : BufferDesc)
      → get_elem? descs i ≡ some d
      → map (λ (x : BufferDesc). x.ref_cnt) (set descs i (record d { is_in_free_list = flag }))
        ≡ map (λ (x : BufferDesc). x.ref_cnt) descs
  refs-set [] i flag d at = refl
  refs-set (x ∷ xs) zero flag d at = ground arith
  refs-set (x ∷ xs) (suc i) flag d at = ap (◌∷◌ x.ref_cnt) (refs-set xs i flag d at)

  get_or-refs :
      (descs : List BufferDesc) (i : ℕ) (d : BufferDesc)
      → get_elem? descs i ≡ some d
      → get_or (map (λ (x : BufferDesc). x.ref_cnt) descs) i 0 ≡ d.ref_cnt
  get_or-refs [] i d at = ground arith
  get_or-refs (x ∷ xs) zero d at = ground arith
  get_or-refs (x ∷ xs) (suc i) d at = get_or-refs xs i d at

  pop_free-IsFree :
      (pool : BufferPoolContext) (id : ℕ) (ids : List ℕ)
      → IsFree marked pool (id ∷ ids)
      → (popped : BufferPoolContext) × (pop_free pool ≡ some (id, get_or (refs pool) id 0, popped))
        × IsFree marked popped ids
        × (refs popped ≡ refs pool)
  unfolding pop_free
  pop_free-IsFree pool id ids free =
      let desc = pool.buffer_desc in
      let slots = pool.free_list in
      let next = free.links.2.0 in
      let inside = lt-length slots id free.links.2.1 in
      let o = get_elem?-total desc id (omega (arith, inside, free.size)) in
      let d' : BufferDesc = record o.0 { is_in_free_list = 0 } in
      let popped : BufferPoolContext =
        put_desc id d' (record pool { free_list = set slots 0 next }) in
      let at : get_elem? slots 0 ≡ some (some id) = free.at_head ∙ ap some free.links.0 in
      (
        popped,
        rw (at, free.links.2.1, o.1, get_or-refs desc id o.0 o.1) refl,
        record {
          size = length-set slots 0 next ∙ free.size ∙ sym (length-set desc id d');
          head = next;
          at_head = get_elem?-set_self slots 0 next (lt-length slots 0 free.at_head);
          links =
              Links-set slots 0 next next ids (mem-zero slots next ids free.links.2.2)
                free.links.2.2;
          fresh = free.fresh.1;
          flags = λ i e h. elim (get_elem?-set_cases desc id i d' e h) [
            | inl (same, is) ↦ let out = free.fresh.0 in ground arith
            | inr (differ, old) ↦ let f = free.flags i e old in ground arith
          ];
        },
        refs-set desc id 0 o.0 o.1,
      )

  pop_free-end : (pool : BufferPoolContext) → IsFree marked pool [] → pop_free pool ≡ none
  unfolding pop_free
  pop_free-end pool free = rw (free.at_head, free.links) refl

  TakesFirst-refs :
      (pool popped : BufferPoolContext) (ids : List ℕ) (r : Outcome)
      → refs popped ≡ refs pool
      → TakesFirst popped ids r
      → TakesFirst pool ids r
  TakesFirst-refs pool popped [] r e t = t
  TakesFirst-refs pool popped (id ∷ ids) r e t = (t.0, t.1, t.2, t.3 ∙ e)

  free_loop-TakesFirst :
      (fuel : ℕ) (pool : BufferPoolContext) (last : ℕ) (ids : List ℕ)
      → IsFree marked pool ids
      → length ids < fuel
      → TakesFirst pool (drop_pinned (refs pool) ids) (free_loop fuel pool (some last))
  unfolding free_loop
  free_loop-TakesFirst zero pool last ids free h = elim h [ ]
  free_loop-TakesFirst (suc fuel) pool last [] free h = rw (free_loop, pop_free-end pool free) refl
  free_loop-TakesFirst (suc fuel) pool last (id ∷ ids) free h =
      let o = pop_free-IsFree pool id ids free in
      let ih = free_loop-TakesFirst fuel o.0 id ids o.2 (omega arith) in
      elim (Bool-cases (get_or (refs pool) id 0 == 0)) [
        | inl found ↦ rw (free_loop, o.1, found) (o.0, refl, o.2, o.3)
        | inr pinned ↦
            rw (free_loop, o.1, pinned)
              (TakesFirst-refs pool o.0 (drop_pinned (refs pool) ids) (free_loop fuel o.0 (some id))
                o.3
                (subst (λ c. TakesFirst o.0 (drop_pinned c ids) (free_loop fuel o.0 (some id))) o.3
                  ih))
      ]

  -- For a free list with fewer ids than the rounds given, GetFreeBufferId returns -1 and
  -- changes nothing if the list is empty, takes the first id that nobody has pinned, with the
  -- pinned ones before it, out of the list and leaves the pin counts alone, and reads outside
  -- the array if all ids of a nonempty list are pinned.
  pub get_free_buffer_id-Takes :
      (fuel : ℕ) (pool : BufferPoolContext) (ids : List ℕ)
      → IsFree marked pool ids
      → length ids < fuel
      → Takes pool ids (get_free_buffer_id fuel pool)
  unfolding get_free_buffer_id free_loop
  get_free_buffer_id-Takes zero pool ids free h = elim h [ ]
  get_free_buffer_id-Takes (suc fuel) pool [] free h =
      rw (get_free_buffer_id, free.at_head, free.links) refl
  get_free_buffer_id-Takes (suc fuel) pool (id ∷ ids) free h =
      let t = free_loop-TakesFirst (suc fuel) pool id (id ∷ ids) free h in
      rw (get_free_buffer_id, free.at_head, free.links.0) t
