-- ===== src/Quality/Merge/Safety.antt =====
-- services/api/quality/reconciliation.py: `verify_merge_safety`.
use text.Mathlib.TextEquality.{eq_iff}
use cine_vault.Prelude.{
  ℕ, ◌≤◌, String, ◌≡◌, Bool, true, false, ◌↔◌, Option, none, some, arith, string_eq, ◌⊎◌, not, ◌&&◌,
}
use cine_vault.Quality.Merge.{MergeEntity, same_text, distance, years_disagree, verify_merge_safety}

abbrev pub is_safe : MergeEntity → MergeEntity → Bool → Bool
is_safe source target attached = (verify_merge_safety source target attached).0

-- The two years are at most one year apart, or one of them is missing or 0.
abbrev pub YearsAreClose : Option ℕ → Option ℕ → Type 0
YearsAreClose (some s) (some t) = (s ≡ 0) ⊎ (t ≡ 0) ⊎ (distance s t ≤ 1)
YearsAreClose _ _ = Unit

same_text_iff : (a b : Option String) → (same_text a b ≡ true) ↔ (a ≡ b)
same_text_iff none none = ground arith
same_text_iff none (some b) = ground arith
same_text_iff (some a) none = ground arith
same_text_iff (some a) (some b) = ground (arith, eq_iff a b)

years_disagree_iff : (s t : Option ℕ) → (years_disagree s t ≡ false) ↔ YearsAreClose s t
years_disagree_iff none none = ground arith
years_disagree_iff none (some t) = ground arith
years_disagree_iff (some s) none = ground arith
years_disagree_iff (some s) (some t) = ground arith

is_safe-eq :
    (c d : Option String) (s t : Option ℕ) (attached : Bool)
    → is_safe
        (record { content_type = c; production_year = s })
        (record { content_type = d; production_year = t })
        attached
      ≡ (same_text c d && not (years_disagree s t) && not attached)
unfolding verify_merge_safety
is_safe-eq c d none t attached = ground arith
is_safe-eq c d (some s) none attached = ground arith
is_safe-eq c d (some s) (some t) attached = ground arith

and_true :
    (a b c : Bool) {whole : Bool}
    → whole ≡ (a && not b && not c)
    → a ≡ true
    → b ≡ false
    → c ≡ false
    → whole ≡ true
and_true a b c e p q r = ground arith

safe_parts {ℓ κ} :
    {A : Type ℓ} {B : Type κ} (a b c : Bool) {whole : Bool}
    → (a ≡ true) ↔ A
    → (b ≡ false) ↔ B
    → whole ≡ (a && not b && not c)
    → (whole ≡ true) ↔ (A × B × (c ≡ false))
safe_parts a b c p q e = (
  λ h. (p.0 (ground arith), q.0 (ground arith), ground arith),
  λ parts. and_true a b c e (p.1 parts.0) (q.1 parts.1) parts.2,
)

-- A merge is safe exactly when the content types are the same, the production years are at most one year
-- apart or one of them is missing or 0, and no personal data is attached.
pub verify_merge_safety_iff :
    (source target : MergeEntity) (attached : Bool)
    → (is_safe source target attached ≡ true) ↔ (
        (source.content_type ≡ target.content_type)
        × YearsAreClose source.production_year target.production_year
        × (attached ≡ false))
verify_merge_safety_iff source target attached =
    safe_parts _ _ attached (same_text_iff source.content_type target.content_type)
      (years_disagree_iff source.production_year target.production_year)
      (is_safe-eq source.content_type target.content_type source.production_year
        target.production_year attached)
