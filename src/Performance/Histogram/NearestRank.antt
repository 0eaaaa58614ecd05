-- ===== src/Performance/Histogram/NearestRank.antt =====
-- services/api/performance.py: the percentile is the one of the nearest-rank method.
use mathlib.Core.Path.{subst}
use cine_vault.Prelude.{
  ℕ, zero, suc, ◌+◌, ◌-◌, ◌*◌, ◌/◌, ◌≤◌, ◌<◌, String, Bool, true, false, ◌≡◌, refl, List, [], ◌∷◌,
  some, arith, min, ltb, leb, length, filter, All, All-imp, contains, nat_eq, nat_beq_iff,
  if◌then◌else◌, Bool-cases, inl, inr, sym,
}
use native.Mathlib.Nat.{mul-pos, mul-le-mul_right}
use cine_vault.Performance.Histogram.Float.{rank_of_float-exact}
use cine_vault.Performance.Histogram.{
  Samples, samples_of, insert_sorted, sorted, elem_at, index_of, percentile,
}

abbrev pub count : (ℕ → Bool) → List ℕ → ℕ
count p xs = length (filter p xs)

abbrev IsSorted : List ℕ → Type 0
IsSorted [] = Unit
IsSorted (x ∷ xs) = All (λ y. x ≤ y) xs × IsSorted xs

All-insert_sorted :
    (P : ℕ → Type 0) (x : ℕ) (ys : List ℕ) → P x → All P ys → All P (insert_sorted x ys)
All-insert_sorted P x [] px h = (px, tt)
All-insert_sorted P x (y ∷ ys) px (py, h) =
    elim (leb x y) as (λ b. All P (if b then x ∷ y ∷ ys else y ∷ insert_sorted x ys)) [
      | true ↦ (px, (py, h))
      | false ↦ (py, All-insert_sorted P x ys px h)
    ]

insert_sorted-IsSorted : (x : ℕ) (ys : List ℕ) → IsSorted ys → IsSorted (insert_sorted x ys)
insert_sorted-IsSorted x [] h = (tt, tt)
insert_sorted-IsSorted x (y ∷ ys) (a, h) = elim (Bool-cases (leb x y)) [
  | inl e ↦
      rw e ((ground arith, All-imp (λ z. y ≤ z) (λ z. x ≤ z) (λ z k. ground arith) ys a), (a, h))
  | inr e ↦
      rw e (All-insert_sorted (λ z. y ≤ z) x ys (ground arith) a, insert_sorted-IsSorted x ys h)
]

sorted-IsSorted : (xs : List ℕ) → IsSorted (sorted xs)
sorted-IsSorted [] = tt
sorted-IsSorted (x ∷ xs) = insert_sorted-IsSorted x (sorted xs) (sorted-IsSorted xs)

count-insert_sorted :
    (p : ℕ → Bool) (x : ℕ) (ys : List ℕ) → count p (insert_sorted x ys) ≡ count p (x ∷ ys)
count-insert_sorted p x [] = refl
count-insert_sorted p x (y ∷ ys) = ground (arith, count-insert_sorted p x ys)

count-sorted : (p : ℕ → Bool) (xs : List ℕ) → count p (sorted xs) ≡ count p xs
count-sorted p [] = refl
count-sorted p (x ∷ xs) = ground (arith, count-sorted p xs, count-insert_sorted p x (sorted xs))

length-insert_sorted : (x : ℕ) (ys : List ℕ) → length (insert_sorted x ys) ≡ length ys + 1
length-insert_sorted x [] = refl
length-insert_sorted x (y ∷ ys) = ground (arith, length-insert_sorted x ys)

pub length-sorted : (xs : List ℕ) → length (sorted xs) ≡ length xs
length-sorted [] = refl
length-sorted (x ∷ xs) = omega (arith, length-sorted xs, length-insert_sorted x (sorted xs))

contains-insert_sorted :
    (v x : ℕ) (ys : List ℕ) → contains v (insert_sorted x ys) ≡ contains v (x ∷ ys)
contains-insert_sorted v x [] = refl
contains-insert_sorted v x (y ∷ ys) = ground (arith, contains-insert_sorted v x ys)

contains-sorted : (v : ℕ) (xs : List ℕ) → contains v (sorted xs) ≡ contains v xs
contains-sorted v [] = refl
contains-sorted v (x ∷ xs) =
    ground (arith, contains-sorted v xs, contains-insert_sorted v x (sorted xs))

elem_at-some :
    (xs : List ℕ) (i : ℕ)
    → i < length xs
    → (v : ℕ) × (elem_at xs i ≡ some v) × (contains v xs ≡ true)
elem_at-some [] i h = absurd (omega arith)
elem_at-some (x ∷ xs) zero h = (x, refl, ground (arith, nat_beq_iff x x))
elem_at-some (x ∷ xs) (suc i) h =
    let (v, e, m) = elem_at-some xs i (omega arith) in (v, e, ground arith)

elem_at-All : (P : ℕ → Type 0) (xs : List ℕ) (i v : ℕ) → All P xs → elem_at xs i ≡ some v → P v
elem_at-All P [] i v h e = absurd (ground arith)
elem_at-All P (x ∷ xs) zero v h e = let q : x ≡ v = ground arith in rw (sym q) h.0
elem_at-All P (x ∷ xs) (suc i) v h e = elem_at-All P xs i v h.1 e

none_below : (x v : ℕ) (xs : List ℕ) → x ≡ v → All (λ y. x ≤ y) xs → count (λ y. ltb y v) xs ≡ 0
none_below x v [] e h = refl
none_below x v (y ∷ ys) e h = ground (arith, none_below x v ys e h.1)

-- In a sorted list, at most `i` elements are less than the one at index `i`, and more than `i` are no greater.
rank_of :
    (xs : List ℕ) (i v : ℕ)
    → IsSorted xs
    → elem_at xs i ≡ some v
    → (count (λ y. ltb y v) xs ≤ i) × (i < count (λ y. leb y v) xs)
rank_of [] i v h e = absurd (ground arith)
rank_of (x ∷ xs) zero v h e =
    let q : x ≡ v = ground arith in
    let none_less = none_below x v xs q h.0 in (ground arith, ground arith)
rank_of (x ∷ xs) (suc i) v h e =
    let below = elem_at-All (λ y. x ≤ y) xs i v h.0 e in
    let rest = rank_of xs i v h.1 e in (ground (arith, rest), ground (arith, rest, below))

index_bounds :
    (m n : ℕ)
    → 0 < m
    → m ≤ 100 * n
    → let i = min ((m + 99) / 100 - 1) (n - 1) in (i < n) × (100 * i < m) × (m ≤ 100 * (i + 1))
index_bounds m n h k = (omega arith, omega arith, omega arith)

asked_range : (p : ℕ) → contains p (50 ∷ 95 ∷ 99 ∷ []) ≡ true → (0 < p) × (p ≤ 100)
asked_range p h = (
  ground (arith, h, nat_eq.same_iff p 50, nat_eq.same_iff p 95, nat_eq.same_iff p 99),
  ground (arith, h, nat_eq.same_iff p 50, nat_eq.same_iff p 95, nat_eq.same_iff p 99),
)

-- For the percentages that the summary asks for, and from one to 10000 samples, which is as many as are kept:
-- the sample that `percentile` rounds is the one of the nearest-rank method. Less than `p` per cent of the
-- samples lie below it, and at least `p` per cent are no greater.
pub percentile_nearest_rank :
    (round : ℕ → ℕ → ℕ) (operation : String) (p : ℕ) (h : Samples)
    → let samples = samples_of operation h in
      contains p (50 ∷ 95 ∷ 99 ∷ []) ≡ true
      → 0 < length samples
      → length samples ≤ 10000
      → (v : ℕ) × (percentile round operation p h ≡ some (round v 3))
        × (contains v samples ≡ true)
        × (100 * count (λ y. ltb y v) samples < p * length samples)
        × (p * length samples ≤ 100 * count (λ y. leb y v) samples)
unfolding percentile
percentile_nearest_rank round operation p h asked n0 kept =
    let samples = samples_of operation h in
    let n = length samples in
    let i = index_of p n in
    let range = asked_range p asked in
    let bounds =
      subst
        (λ x. let i = min (x - 1) (n - 1) in (i < n) × (100 * i < p * n) × (p * n ≤ 100 * (i + 1)))
        (sym (rank_of_float-exact p n asked kept))
        (index_bounds (p * n) n (mul-pos range.0 n0) (mul-le-mul_right n range.1)) in
    let same : length (sorted samples) ≡ n = length-sorted samples in
    let (v, e, m) = elem_at-some (sorted samples) i (omega (arith, same, bounds.0)) in
    let ranks = rank_of (sorted samples) i v (sorted-IsSorted samples) e in
    (
      v,
      rw (same, e) refl,
      rw (sym (contains-sorted v samples)) m,
      omega (arith, ranks.0, bounds, count-sorted (λ y. ltb y v) samples),
      omega (arith, ranks.1, bounds, count-sorted (λ y. leb y v) samples),
    )
