-- ===== src/Performance/Histogram/Float.antt =====
-- services/api/performance.py, line 60: `math.ceil((p / 100.0) * n)` on doubles. A double is `m / 2 ^ e` with
-- a significand below 2 ^ 53; results are rounded to the nearest one, and to the even one of two.
use mathlib.Core.Path.{subst}
use cine_vault.Prelude.{
  Bool-cases, inl, inr, ltb→lt, ℕ, zero, suc, ◌+◌, ◌-◌, ◌*◌, ◌/◌, ◌%◌, ◌^◌, ◌≤◌, ◌<◌, ◌≡◌, refl,
  sym, Bool, true, false, ◌&&◌, arith, leb, ltb, nat_eq, ◌==◌, if◌then◌else◌, [], ◌∷◌, contains,
}

-- The integer nearest to the fraction `a / b`.
abbrev pub nearest : ℕ → ℕ → ℕ
nearest a b =
    let q = a / b in
    let r = a % b in if ltb (2 * r) b then q else if ltb b (2 * r) then q + 1 else q + q % 2

-- The first exponent from `e` on with which `p / 100` has a significand of 53 bits: 59 where p is 1.
abbrev pub scale : ℕ → ℕ → ℕ → ℕ
scale zero e p = e
scale (suc fuel) e p = elim (leb (2 ^ 52 * 100) (p * 2 ^ e)) [
  | true ↦ e
  | false ↦ scale fuel (suc e) p
]

-- `p / 100.0`
abbrev pub quotient : ℕ → ℕ × ℕ
quotient p = let e = scale 60 0 p in (nearest (p * 2 ^ e) 100, e)

-- How many bits of `x` a double has no room for.
abbrev pub excess : ℕ → ℕ → ℕ → ℕ
excess zero x d = d
excess (suc fuel) x d = elim (ltb x (2 ^ (53 + d))) [ true ↦ d | false ↦ excess fuel x (suc d) ]

-- `math.ceil(f * n)`, for a count below 2 ^ 53
abbrev pub ceil_product : ℕ × ℕ → ℕ → ℕ
ceil_product (m, e) n =
    let x = m * n in let d = excess 53 x 0 in (nearest x (2 ^ d) * 2 ^ d + 2 ^ e - 1) / 2 ^ e

-- `math.ceil((p / 100.0) * n)`
unfoldable pub rank_of_float : ℕ → ℕ → ℕ
rank_of_float p n = ceil_product (quotient p) n

abbrev is_exact : ℕ → ℕ × ℕ → ℕ → Bool
is_exact p f n = ceil_product f n == (p * n + 99) / 100

abbrev span : ℕ → ℕ
span zero = 1
span (suc k) = span k + span k

-- A test of the numbers from `low` on, 2 ^ k of them, by halves.
abbrev all_from : ℕ → ℕ → (ℕ → Bool) → Bool
all_from zero low test = test low
all_from (suc k) low test = all_from k low test && all_from k (low + span k) test

all_from-at :
    (k low : ℕ) (test : ℕ → Bool) (n : ℕ)
    → all_from k low test ≡ true
    → low ≤ n
    → n < low + span k
    → test n ≡ true
all_from-at zero low test n h a b = subst (λ x. test x ≡ true) (omega (arith, a, b)) h
all_from-at (suc k) low test n h a b = elim (Bool-cases (ltb n (low + span k))) [
  | inl e ↦ all_from-at k low test n (ground (arith, h)) a (ltb→lt n (low + span k) e)
  | inr e ↦
      (all_from-at k (low + span k) test n (ground (arith, h)) (ground (arith, e))
        (omega (arith, b)))
]

exact50 : all_from 14 0 (is_exact 50 (quotient 50)) ≡ true
exact50 = refl

exact95 : all_from 14 0 (is_exact 95 (quotient 95)) ≡ true
exact95 = refl

exact99 : all_from 14 0 (is_exact 99 (quotient 99)) ≡ true
exact99 = refl

-- For the percentages that the summary asks for, and no more samples than the histogram keeps, the rounding of
-- the doubles does not show in the ceiling.
pub rank_of_float-exact :
    (p n : ℕ)
    → contains p (50 ∷ 95 ∷ 99 ∷ []) ≡ true
    → n ≤ 10000
    → rank_of_float p n ≡ (p * n + 99) / 100
unfolding rank_of_float
rank_of_float-exact p n h bound =
    let below : n < 0 + span 14 = omega (arith, bound) in
    let at = λ (q : ℕ) (all : all_from 14 0 (is_exact q (quotient q)) ≡ true).
      (nat_eq.same_iff (ceil_product (quotient q) n) ((q * n + 99) / 100)).0
        (all_from-at 14 0 (is_exact q (quotient q)) n all (omega arith) below) in
    let same = λ (q : ℕ) (e : p ≡ q) (exact : rank_of_float q n ≡ (q * n + 99) / 100).
      subst (λ x. rank_of_float x n ≡ (x * n + 99) / 100) (sym e) exact in
    elim (Bool-cases (p == 50)) [
      | inl e ↦ same 50 ((nat_eq.same_iff p 50).0 e) (at 50 exact50)
      | inr e ↦ elim (Bool-cases (p == 95)) [
        | inl e' ↦ same 95 ((nat_eq.same_iff p 95).0 e') (at 95 exact95)
        | inr e' ↦
            same 99
              (ground
                (arith, h, e, e', nat_eq.same_iff p 50, nat_eq.same_iff p 95, nat_eq.same_iff p 99))
              (at 99 exact99)
      ]
    ]
