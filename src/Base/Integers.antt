-- ===== src/Base/Integers.antt =====
-- Signed numbers over the native naturals, under the library's names, with C's division.
use Prim.Native.Nat.{ℕ, zero, suc, ◌+◌, ◌-◌, ◌*◌, ◌/◌, ◌%◌, ◌<◌}
use mathlib.Core.Path.{◌≡◌, refl, sym, ap, ◌∙◌}
use mathlib.Core.Logic.{◌≢◌}
use mathlib.Core.Bool.{Bool, true, false, not}
use native.Mathlib.Omega.{arith}
use native.Mathlib.Nat.{mod-add-div, mod-lt}
use toadb.Base.Tests.{leb, ◌==◌, if◌then◌else◌}

pub data ℤ : Type 0 where
  pos : ℕ → ℤ
  negsuc : ℕ → ℤ

abbrev pub lez : ℤ → ℤ → Bool
lez (ℤ.pos a) (ℤ.pos b) = leb a b
lez (ℤ.pos a) (ℤ.negsuc b) = false
lez (ℤ.negsuc a) (ℤ.pos b) = true
lez (ℤ.negsuc a) (ℤ.negsuc b) = leb b a

abbrev pub ltz : ℤ → ℤ → Bool
ltz a b = not (lez b a)

abbrev pub eqz : ℤ → ℤ → Bool
eqz (ℤ.pos a) (ℤ.pos b) = a == b
eqz (ℤ.pos a) (ℤ.negsuc b) = false
eqz (ℤ.negsuc a) (ℤ.pos b) = false
eqz (ℤ.negsuc a) (ℤ.negsuc b) = a == b

-- `of_sign true n` is -n.
abbrev pub of_sign : Bool → ℕ → ℤ
of_sign false n = ℤ.pos n
of_sign true zero = ℤ.pos 0
of_sign true (suc n) = ℤ.negsuc n

abbrev pub is_negative : ℤ → Bool
is_negative (ℤ.pos n) = false
is_negative (ℤ.negsuc n) = true

abbrev pub abs : ℤ → ℕ
abs (ℤ.pos n) = n
abs (ℤ.negsuc n) = suc n

abbrev pub xor : Bool → Bool → Bool
xor true b = not b
xor false b = b

abbrev pub negℤ : ℤ → ℤ
negℤ a = of_sign (not (is_negative a)) (abs a)

infixl 60 ◌+ℤ◌
abbrev pub ◌+ℤ◌ : ℤ → ℤ → ℤ
a +ℤ b =
    if not (xor (is_negative a) (is_negative b))
    then of_sign (is_negative a) (abs a + abs b)
    else (if leb (abs b) (abs a)
        then of_sign (is_negative a) (abs a - abs b)
        else of_sign (is_negative b) (abs b - abs a))

infixl 70 ◌*ℤ◌
abbrev pub ◌*ℤ◌ : ℤ → ℤ → ℤ
a *ℤ b = of_sign (xor (is_negative a) (is_negative b)) (abs a * abs b)

-- C's `/` and `%` round toward zero.
abbrev pub quot : ℤ → ℤ → ℤ
quot a b = of_sign (xor (is_negative a) (is_negative b)) (abs a / abs b)

abbrev pub rem : ℤ → ℤ → ℤ
rem a b = of_sign (is_negative a) (abs a % abs b)

abs-of_sign : (s : Bool) (n : ℕ) → abs (of_sign s n) ≡ n
abs-of_sign false n = refl
abs-of_sign true zero = refl
abs-of_sign true (suc n) = refl

of_sign-abs : (a : ℤ) → of_sign (is_negative a) (abs a) ≡ a
of_sign-abs (ℤ.pos n) = refl
of_sign-abs (ℤ.negsuc n) = refl

of_sign-add : (s : Bool) (n m : ℕ) → of_sign s n +ℤ of_sign s m ≡ of_sign s (n + m)
of_sign-add false n m = refl
of_sign-add true zero zero = refl
of_sign-add true zero (suc m) = ground arith
of_sign-add true (suc n) zero = ground arith
of_sign-add true (suc n) (suc m) = refl

of_sign-zero : (s : Bool) (k : ℕ) → k ≡ 0 → of_sign s k ≡ ℤ.pos 0
of_sign-zero false k e = ap ℤ.pos e
of_sign-zero true k e = ap (of_sign true) e

is_negative-of_sign : (s : Bool) (n : ℕ) → is_negative (of_sign s (suc n)) ≡ s
is_negative-of_sign false n = refl
is_negative-of_sign true n = refl

xor-xor : (s t : Bool) → xor (xor s t) t ≡ s
xor-xor true true = refl
xor-xor true false = refl
xor-xor false true = refl
xor-xor false false = refl

of_sign-mul : (s t : Bool) (n m : ℕ) → of_sign s n *ℤ of_sign t m ≡ of_sign (xor s t) (n * m)
of_sign-mul s t zero m =
    of_sign-zero (xor (is_negative (of_sign s 0)) (is_negative (of_sign t m)))
      (abs (of_sign s 0) * abs (of_sign t m)) (rw (abs-of_sign s 0) (omega arith))
    ∙ sym (of_sign-zero (xor s t) (0 * m) (omega arith))
of_sign-mul s t (suc n) zero =
    of_sign-zero (xor (is_negative (of_sign s (suc n))) (is_negative (of_sign t 0)))
      (abs (of_sign s (suc n)) * abs (of_sign t 0)) (rw (abs-of_sign t 0) (omega arith))
    ∙ sym (of_sign-zero (xor s t) (suc n * 0) (omega arith))
of_sign-mul s t (suc n) (suc m) =
    rw
      (
        is_negative-of_sign s n,
        is_negative-of_sign t m,
        abs-of_sign s (suc n),
        abs-of_sign t (suc m),
      )
      refl

pub quot-rem : (a b : ℤ) → quot a b *ℤ b +ℤ rem a b ≡ a
quot-rem a b =
    let s = is_negative a in
    let q = abs a / abs b in
    let r = abs a % abs b in
    let prod : quot a b *ℤ b ≡ of_sign s (q * abs b) =
      ap (λ x. quot a b *ℤ x) (sym (of_sign-abs b))
      ∙ of_sign-mul (xor s (is_negative b)) (is_negative b) q (abs b)
      ∙ ap (λ x. of_sign x (q * abs b)) (xor-xor s (is_negative b)) in
    let whole : q * abs b + r ≡ abs a = omega (arith, mod-add-div (abs a) (abs b)) in
    ap (λ x. x +ℤ rem a b) prod ∙ of_sign-add s (q * abs b) r ∙ ap (of_sign s) whole ∙ of_sign-abs a

pub abs-rem : (a b : ℤ) → abs b ≢ 0 → abs (rem a b) < abs b
abs-rem a b h = rw (abs-of_sign (is_negative a) (abs a % abs b)) (mod-lt (abs a) (omega (arith, h)))
