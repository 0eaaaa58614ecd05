-- ===== src/Quality/Reconciliation/Choice.antt =====
-- services/api/quality/reconciliation.py: `resolve_attribute_conflict` picks the first observation of the
-- greatest weight.
use cine_vault.Prelude.{
  ℕ, ◌≤◌, ◌<◌, String, ◌≡◌, refl, ap, true, List, [], ◌∷◌, ◌++◌, Option, none, some, arith, ltb,
  All, inl, inr, ◌⊎◌, Bool-cases, Option-cases,
}
use cine_vault.Prelude.Json.{Json}
use cine_vault.Quality.Reconciliation.{
  known_value, Observation, Resolution, weight_of, claim_of, consider, best_of, no_observation,
  outweighs, resolve_attribute_conflict,
}

module _ (upper : String → String) (attribute_name domain_type : String) where
  abbrev pub weight : Observation → ℕ
  weight = weight_of upper attribute_name domain_type

  abbrev pub Lighter : ℕ → Observation → Type 0
  Lighter w obs = (v : Json) → known_value obs ≡ some v → weight obs < w

  abbrev pub NotHeavier : ℕ → Observation → Type 0
  NotHeavier w obs = (v : Json) → known_value obs ≡ some v → weight obs ≤ w

  -- The first observation of the greatest weight, among those with a value.
  abbrev pub FirstHeaviest : List Observation → Resolution → Type 0
  FirstHeaviest observations r =
      (before : List Observation) × (obs : Observation) × (v : Json) × (after : List Observation)
      × (observations ≡ before ++ obs ∷ after)
      × (known_value obs ≡ some v)
      × (r ≡ claim_of upper attribute_name domain_type obs v)
      × All (Lighter (weight obs)) before
      × All (NotHeavier (weight obs)) after

  -- An observation in front that weighs less than the winner changes nothing.
  FirstHeaviest-cons :
      (c : ℕ) (obs : Observation) (rest : List Observation) (r : Resolution)
      → NotHeavier c obs
      → c < r.confidence_score
      → FirstHeaviest rest r
      → FirstHeaviest (obs ∷ rest) r
  FirstHeaviest-cons c obs rest r h lt (before, o, v, after, split, e, won, lighter, heavy) =
      let score : r.confidence_score ≡ weight o = ap (λ (x : Resolution). x.confidence_score) won in
      (
        obs ∷ before,
        o,
        v,
        after,
        ap (◌∷◌ obs) split,
        e,
        won,
        ((λ u eq. omega (arith, h u eq)), lighter),
        heavy,
      )

  -- What the loop makes of a best observation so far: it stays, or the first of the heaviest takes over.
  abbrev Outcome : Resolution → List Observation → Option Resolution → Type 0
  Outcome best observations o =
      ((o ≡ some best) × All (NotHeavier best.confidence_score) observations)
      ⊎ ((r : Resolution) × (o ≡ some r)
          × (best.confidence_score < r.confidence_score)
          × FirstHeaviest observations r)

  Outcome-keep :
      (best : Resolution) (obs : Observation) (rest : List Observation) (o : Option Resolution)
      → NotHeavier best.confidence_score obs
      → Outcome best rest o
      → Outcome best (obs ∷ rest) o
  Outcome-keep best obs rest o h (inl (p, q)) = inl (p, (h, q))
  Outcome-keep best obs rest o h (inr (r, p, lt, f)) =
      inr (r, p, lt, FirstHeaviest-cons best.confidence_score obs rest r h lt f)

  abbrev claim : Observation → Json → Resolution
  claim = claim_of upper attribute_name domain_type

  FirstHeaviest-replace :
      (obs : Observation) (v : Json) (rest : List Observation) (o : Option Resolution)
      → known_value obs ≡ some v
      → Outcome (claim obs v) rest o
      → (r : Resolution) × (o ≡ some r)
        × (weight obs ≤ r.confidence_score)
        × FirstHeaviest (obs ∷ rest) r
  FirstHeaviest-replace obs v rest o e (inl (p, q)) =
      (claim obs v, p, omega arith, ([], obs, v, rest, refl, e, refl, tt, q))
  FirstHeaviest-replace obs v rest o e (inr (r, p, lt, f)) =
      (r, p, omega arith, FirstHeaviest-cons (weight obs) obs rest r (λ u eq. omega arith) lt f)

  abbrev turn : Option Resolution → Observation → Option Resolution
  turn = consider upper attribute_name domain_type

  consider_keep :
      (best : Resolution) (obs : Observation)
      → NotHeavier best.confidence_score obs
      → turn (some best) obs ≡ some best
  unfolding consider
  consider_keep best obs h = elim (Option-cases (known_value obs)) [
    | inl e ↦ ground arith
    | inr (v, e) ↦ ground (arith, h v e)
  ]

  consider_replace :
      (best : Option Resolution) (obs : Observation) (v : Json)
      → known_value obs ≡ some v
      → outweighs (weight obs) best ≡ true
      → turn best obs ≡ some (claim obs v)
  unfolding consider
  consider_replace best obs v e h = ground arith

  -- An observation either leaves the best one so far in place, or weighs more and replaces it.
  consider-cases :
      (best : Resolution) (obs : Observation)
      → NotHeavier best.confidence_score obs
        ⊎ ((v : Json) × (known_value obs ≡ some v) × (best.confidence_score < weight obs))
  consider-cases best obs = elim (Option-cases (known_value obs)) [
    | inl e ↦ inl (λ v eq. ground arith)
    | inr (v, e) ↦ elim (Bool-cases (ltb best.confidence_score (weight obs))) [
      | inl heavier ↦ inr (v, e, ground arith)
      | inr lighter ↦ inl (λ u eq. ground arith)
    ]
  ]

  best_of-Outcome :
      (best : Resolution) (observations : List Observation)
      → Outcome best observations
          (best_of upper attribute_name domain_type (some best) observations)
  unfolding best_of
  best_of-Outcome best [] = inl (refl, tt)
  best_of-Outcome best (obs ∷ rest) = elim (consider-cases best obs) [
    | inl h ↦
        rw (consider_keep best obs h) (Outcome-keep best obs rest _ h (best_of-Outcome best rest))
    | inr (v, e, h) ↦ rw (consider_replace (some best) obs v e (ground arith)) (
        let (r, p, q, f) =
          FirstHeaviest-replace obs v rest _ e (best_of-Outcome (claim obs v) rest) in
        inr (r, p, omega arith, f))
  ]

  abbrev pub HasNoValue : Observation → Type 0
  HasNoValue obs = known_value obs ≡ none

  consider_skip :
      (best : Option Resolution) (obs : Observation) → HasNoValue obs → turn best obs ≡ best
  unfolding consider
  consider_skip best obs e = ground arith

  best_of-none :
      (observations : List Observation)
      → (All HasNoValue observations
          × (best_of upper attribute_name domain_type none observations ≡ none))
        ⊎ ((r : Resolution) × (best_of upper attribute_name domain_type none observations ≡ some r)
            × FirstHeaviest observations r)
  unfolding best_of
  best_of-none [] = inl (tt, refl)
  best_of-none (obs ∷ rest) = elim (Option-cases (known_value obs)) [
    | inl e ↦ rw (consider_skip none obs e) (elim (best_of-none rest) [
      | inl (h, p) ↦ inl ((e, h), p)
      | inr (r, p, (before, o, v, after, split, e', won, lighter, heavy)) ↦ inr (
        r,
        p,
        (
          obs ∷ before,
          o,
          v,
          after,
          ap (◌∷◌ obs) split,
          e',
          won,
          ((λ u eq. ground arith), lighter),
          heavy,
        ),
      )
    ])
    | inr (v, e) ↦ rw (consider_replace none obs v e refl) (
        let (r, p, q, f) =
          FirstHeaviest-replace obs v rest _ e (best_of-Outcome (claim obs v) rest) in
        inr (r, p, f))
  ]

  -- The conflict is resolved in favour of the first observation of the greatest weight among those with
  -- a value: every one with a value before it weighs less, every one after it weighs no more. If no
  -- observation has a value, the answer is the empty resolution.
  pub resolve_attribute_conflict-FirstHeaviest :
      (observations : List Observation)
      → (All HasNoValue observations
          × (resolve_attribute_conflict upper attribute_name domain_type observations
              ≡ no_observation upper attribute_name domain_type))
        ⊎ FirstHeaviest observations
            (resolve_attribute_conflict upper attribute_name domain_type observations)
  unfolding resolve_attribute_conflict
  resolve_attribute_conflict-FirstHeaviest observations = elim (best_of-none observations) [
    | inl (h, p) ↦ inl (h, rw (p, resolve_attribute_conflict))
    | inr (r, p, f) ↦ inr (rw (p, resolve_attribute_conflict) f)
  ]
