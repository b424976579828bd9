-- ===== src/Dlist/Ring.antt =====
-- Nodes of util/dlist/list.c that are linked both ways, as the list of their addresses.
use toadb.Base.{
  ℕ, ◌≡◌, refl, ◌≢◌, ◌∙◌, sym, ap, subst, true, false, ◌||◌, List, [], ◌∷◌, ◌++◌, Option, none,
  some, mem, IsFresh, arith,
}
use toadb.Dlist.{Heap}

-- From `a` over `ys` to `z` each node points to the following one and that one back.
abbrev pub Chain : Heap → ℕ → List ℕ → ℕ → Type 0
Chain h a [] z = (h.next a ≡ z) × (h.prev z ≡ a)
Chain h a (y ∷ ys) z = (h.next a ≡ y) × (h.prev y ≡ a) × Chain h y ys z

-- A list holds the nodes `ids`, which are different and close a ring from its first node.
abbrev pub IsRing : Heap → Option ℕ → List ℕ → Type 0
IsRing h list [] = list ≡ none
IsRing h list (x ∷ xs) = (list ≡ some x) × Chain h x xs x × IsFresh (x ∷ xs)

pub mem-append : (i : ℕ) (xs ys : List ℕ) → mem i (xs ++ ys) ≡ (mem i xs || mem i ys)
mem-append i [] ys = refl
mem-append i (x ∷ xs) ys = ground (arith, mem-append i xs ys)

pub mem-cons : (i x : ℕ) (xs : List ℕ) → mem i xs ≡ true → mem i (x ∷ xs) ≡ true
mem-cons i x xs m = ground arith

pub mem-head : (x : ℕ) (xs : List ℕ) → mem x (x ∷ xs) ≡ true
mem-head x xs = ground arith

pub ne_of_mem : (i j : ℕ) (xs : List ℕ) → mem i xs ≡ true → mem j xs ≡ false → i ≢ j
ne_of_mem i j xs m n e = ground (arith, subst (λ t. mem t xs ≡ true) e m)

pub IsFresh-append : (xs : List ℕ) (n : ℕ) → IsFresh xs → mem n xs ≡ false → IsFresh (xs ++ n ∷ [])
IsFresh-append [] n f m = (refl, tt)
IsFresh-append (x ∷ xs) n f m =
    (ground (arith, mem-append x xs (n ∷ [])), IsFresh-append xs n f.1 (ground arith))

-- The two parts of a list around one of its nodes.
pub record AreApart (xs : List ℕ) (n : ℕ) (zs : List ℕ) : Type 0 where
  pub before : IsFresh xs
  pub after : IsFresh zs
  pub not_before : mem n xs ≡ false
  pub not_after : mem n zs ≡ false
  pub disjoint : (i : ℕ) → mem i xs ≡ true → mem i zs ≡ false

pub IsFresh-AreApart :
    (xs : List ℕ) (n : ℕ) (zs : List ℕ) → IsFresh (xs ++ n ∷ zs) → AreApart xs n zs
IsFresh-AreApart [] n zs f = record {
  before = tt;
  after = f.1;
  not_before = refl;
  not_after = f.0;
  disjoint = λ i m. ground arith;
}
IsFresh-AreApart (x ∷ xs) n zs f =
    let ih = IsFresh-AreApart xs n zs f.1 in
    let a = mem-append x xs (n ∷ zs) in
    record {
      before = (ground arith, ih.before);
      after = ih.after;
      not_before = ground (arith, ih.not_before);
      not_after = ih.not_after;
      disjoint = λ i m. let d = ih.disjoint i in ground arith;
    }

pub IsFresh-remove :
    (xs : List ℕ) (n : ℕ) (zs : List ℕ) → IsFresh (xs ++ n ∷ zs) → IsFresh (xs ++ zs)
IsFresh-remove [] n zs f = f.1
IsFresh-remove (x ∷ xs) n zs f =
    let a = mem-append x xs (n ∷ zs) in
    let b = mem-append x xs zs in (ground arith, IsFresh-remove xs n zs f.1)

pub Chain-append :
    (h : Heap) (a : ℕ) (ys : List ℕ) (w : ℕ) (zs : List ℕ) (z : ℕ)
    → Chain h a ys w
    → Chain h w zs z
    → Chain h a (ys ++ w ∷ zs) z
Chain-append h a [] w zs z c d = (c.0, c.1, d)
Chain-append h a (y ∷ ys) w zs z c d = (c.0, c.1, Chain-append h y ys w zs z c.2 d)

pub Chain-split :
    (h : Heap) (a : ℕ) (ys : List ℕ) (w : ℕ) (zs : List ℕ) (z : ℕ)
    → Chain h a (ys ++ w ∷ zs) z
    → Chain h a ys w × Chain h w zs z
Chain-split h a [] w zs z c = ((c.0, c.1), c.2)
Chain-split h a (y ∷ ys) w zs z c =
    let ih = Chain-split h y ys w zs z c.2 in ((c.0, c.1, ih.0), ih.1)

-- What a chain's end points back to is in the chain.
pub Chain-last :
    (h : Heap) (a : ℕ) (ys : List ℕ) (z : ℕ) → Chain h a ys z → mem (h.prev z) (a ∷ ys) ≡ true
Chain-last h a [] z c = ground arith
Chain-last h a (y ∷ ys) z c = mem-cons (h.prev z) a (y ∷ ys) (Chain-last h y ys z c.2)

-- Writes to other nodes leave a chain.
pub Chain-frame :
    (h k : Heap) (a : ℕ) (ys : List ℕ) (z : ℕ)
    → ((i : ℕ) → mem i (a ∷ ys) ≡ true → k.next i ≡ h.next i)
    → ((i : ℕ) → mem i ys ≡ true → k.prev i ≡ h.prev i)
    → k.prev z ≡ h.prev z
    → Chain h a ys z
    → Chain k a ys z
Chain-frame h k a [] z n p e c = (n a (mem-head a []) ∙ c.0, e ∙ c.1)
Chain-frame h k a (y ∷ ys) z n p e c = (
  n a (mem-head a (y ∷ ys)) ∙ c.0,
  p y (mem-head y ys) ∙ c.1,
  Chain-frame h k y ys z (λ i m. n i (mem-cons i a (y ∷ ys) m)) (λ i m. p i (mem-cons i y ys m)) e
      c.2,
)

-- The last node of a chain is linked to a node `w` in place of `z`.
pub Chain-retarget :
    (h k : Heap) (a : ℕ) (ys : List ℕ) (z w : ℕ)
    → ((i : ℕ) → mem i (a ∷ ys) ≡ true → i ≢ h.prev z → k.next i ≡ h.next i)
    → ((i : ℕ) → mem i ys ≡ true → k.prev i ≡ h.prev i)
    → k.next (h.prev z) ≡ w
    → k.prev w ≡ h.prev z
    → IsFresh (a ∷ ys)
    → Chain h a ys z
    → Chain k a ys w
Chain-retarget h k a [] z w n p to back f c = (ap k.next (sym c.1) ∙ to, back ∙ c.1)
Chain-retarget h k a (y ∷ ys) z w n p to back f c =
    let last = Chain-last h y ys z c.2 in
    let other : a ≢ h.prev z = λ e. ne_of_mem (h.prev z) a (y ∷ ys) last f.0 (sym e) in
    (
      n a (mem-head a (y ∷ ys)) other ∙ c.0,
      p y (mem-head y ys) ∙ c.1,
      Chain-retarget h k y ys z w (λ i m. n i (mem-cons i a (y ∷ ys) m))
          (λ i m. p i (mem-cons i y ys m)) to back f.1 c.2,
    )
