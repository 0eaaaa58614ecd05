-- ===== src/Quality/Verification/Title.antt =====
-- services/api/quality/verification.py: which titles pass, and what their status and their risk of a false
-- match mean.
use cine_vault.Prelude.{
  ℕ, ◌+◌, ◌≤◌, String, Bool, true, false, ◌≡◌, refl, sym, ◌↔◌, ◌⊎◌, inl, inr, [], ◌∷◌, ◌++◌, Option,
  none, some, arith, contains, string_eq, ◌==◌, Bool-cases,
}
use mathlib.Core.Path.{subst}
use mathlib.Core.Bool.{false≢true}
use text.Mathlib.TextEquality.{eq_iff}
use cine_vault.Quality.Verification.{
  pos, negsuc, Value, null, int, str, other, Payload, get, is_true, entity_type_of, content_types,
  Errors, invalid_year_type, invalid_runtime_type, type_errors, content_type_errors, year_errors,
  runtime_errors, referential_errors, title_errors, schema_errors, date_errors, season_count_errors,
  season_number_errors, collect, verify_normalized_payload,
}

append-nil_iff : (xs ys : Errors) → (xs ++ ys ≡ []) ↔ ((xs ≡ []) × (ys ≡ []))
append-nil_iff [] ys = (λ h. (refl, h), λ h. h.1)
append-nil_iff (x ∷ xs) ys = ground arith

collect_iff :
    (before : Errors) (dates counts numbers : Option Errors)
    → (collect before dates counts numbers ≡ some (true, []))
      ↔ ((before ≡ []) × (dates ≡ some []) × (counts ≡ some []) × (numbers ≡ some []))
collect_iff before (some a) (some b) (some c) =
    ground
      (arith, append-nil_iff before (a ++ (b ++ c)), append-nil_iff a (b ++ c), append-nil_iff b c)
collect_iff before none b c = ground arith
collect_iff before (some a) none c = ground arith
collect_iff before (some a) (some b) none = ground arith

-- A known year from 1888 to five years ahead, or none.
abbrev pub YearOk : ℕ → Value → Type 0
YearOk current_year v =
    (v ≡ null) ⊎ ((n : ℕ) × (v ≡ int (pos n)) × (1888 ≤ n) × (n ≤ current_year + 5))

year_iff :
    (current_year : ℕ) (v : Value)
    → ((type_errors invalid_year_type v ≡ []) × (year_errors current_year v ≡ []))
      ↔ YearOk current_year v
unfolding year_errors
year_iff cy null = (λ h. inl refl, λ h. (refl, refl))
year_iff cy (int (pos n)) = (
  λ h. inr (n, refl, ground arith, ground arith),
  λ h. elim h [ inl e ↦ absurd (ground arith) | inr (m, e, p, q) ↦ ground arith ],
)
year_iff cy (int (negsuc n)) = (
  λ h. absurd (ground arith),
  λ h. elim h [ inl e ↦ absurd (ground arith) | inr (m, e, p, q) ↦ absurd (ground arith) ],
)
year_iff cy (str s) = (
  λ h. absurd (ground arith),
  λ h. elim h [ inl e ↦ absurd (ground arith) | inr (m, e, p, q) ↦ absurd (ground arith) ],
)
year_iff cy (other b t) = (
  λ h. absurd (ground arith),
  λ h. elim h [ inl e ↦ absurd (ground arith) | inr (m, e, p, q) ↦ absurd (ground arith) ],
)

-- A known runtime of 1 to 900 minutes, or none.
abbrev pub RuntimeOk : Value → Type 0
RuntimeOk v = (v ≡ null) ⊎ ((n : ℕ) × (v ≡ int (pos n)) × (1 ≤ n) × (n ≤ 900))

runtime_iff :
    (v : Value)
    → ((type_errors invalid_runtime_type v ≡ []) × (runtime_errors (str "TITLE") v ≡ []))
      ↔ RuntimeOk v
unfolding runtime_errors
runtime_iff null = (λ h. inl refl, λ h. (refl, refl))
runtime_iff (int (pos n)) = (
  λ h. inr (n, refl, ground arith, ground arith),
  λ h. elim h [ inl e ↦ absurd (ground arith) | inr (m, e, p, q) ↦ ground arith ],
)
runtime_iff (int (negsuc n)) = (
  λ h. absurd (ground arith),
  λ h. elim h [ inl e ↦ absurd (ground arith) | inr (m, e, p, q) ↦ absurd (ground arith) ],
)
runtime_iff (str s) = (
  λ h. absurd (ground arith),
  λ h. elim h [ inl e ↦ absurd (ground arith) | inr (m, e, p, q) ↦ absurd (ground arith) ],
)
runtime_iff (other b t) = (
  λ h. absurd (ground arith),
  λ h. elim h [ inl e ↦ absurd (ground arith) | inr (m, e, p, q) ↦ absurd (ground arith) ],
)

abbrev pub IsContentType : Value → Type 0
IsContentType v = (s : String) × (v ≡ str s) × (contains s content_types ≡ true)

contains_none_empty : (s : String) → contains s content_types ≡ true → (s == "") ≡ false
contains_none_empty s m = elim (Bool-cases (s == "")) [
  | inr e ↦ e
  | inl e ↦ absurd (false≢true (subst (λ x. contains x content_types ≡ true) ((eq_iff s "").0 e) m))
]

IsContentType-iff : (v : Value) → (content_type_errors v ≡ []) ↔ IsContentType v
unfolding content_type_errors
IsContentType-iff null = (λ h. absurd (ground arith), λ (s, e, m). absurd (ground arith))
IsContentType-iff (int n) = (λ h. absurd (ground arith), λ (s, e, m). absurd (ground arith))
IsContentType-iff (str s) = (
  λ h. (s, refl, ground arith),
  λ (t, e, m).
      let q : t ≡ s = ground arith in
      let known : contains s content_types ≡ true = rw (sym q) m in
      ground (arith, known, contains_none_empty s known),
)
IsContentType-iff (other b n) = (λ h. absurd (ground arith), λ (s, e, m). absurd (ground arith))

module _ (order : Value → Value → Option Bool) (is_blank : Value → Bool) where
  abbrev pub IsTitleText : Value → Type 0
  IsTitleText v = (is_true v ≡ true) × (is_blank v ≡ false)

  -- The proposed title is one, or there is no proposal and the canonical title is one.
  abbrev pub HasTitle : Payload → Type 0
  HasTitle d =
      IsTitleText (get "canonical_title_proposal" d)
      ⊎ ((is_true (get "canonical_title_proposal" d) ≡ false)
          × IsTitleText (get "canonical_title" d))

  title_iff : (d : Payload) → (title_errors order is_blank d ≡ []) ↔ HasTitle d
  unfolding title_errors
  title_iff d = ground arith

  -- A payload of the entity type TITLE passes, with no error and no exception, exactly when it has a title
  -- and one of the seven content types, when its year and its runtime are unknown or in range, and when the
  -- comparisons of its dates, its season count and its season number raise nothing and find nothing wrong.
  pub verify_title_iff :
      (current_year : ℕ) (d : Payload)
      → entity_type_of d ≡ str "TITLE"
      → (verify_normalized_payload order is_blank current_year d ≡ some (true, [])) ↔ (
          HasTitle d
          × IsContentType (get "content_type" d)
          × YearOk current_year (get "production_year" d)
          × RuntimeOk (get "runtime_minutes" d)
          × (date_errors order is_blank d ≡ some [])
          × (season_count_errors order is_blank d ≡ some [])
          × (season_number_errors order is_blank d ≡ some []))
  unfolding verify_normalized_payload schema_errors referential_errors
  verify_title_iff cy d e =
      let title = title_errors order is_blank d in
      let content = content_type_errors (get "content_type" d) in
      let year = type_errors invalid_year_type (get "production_year" d) in
      let runtime = type_errors invalid_runtime_type (get "runtime_minutes" d) in
      let years = year_errors cy (get "production_year" d) in
      let runtimes = runtime_errors (str "TITLE") (get "runtime_minutes" d) in
      rw e (
        ground (
          arith,
          collect_iff (((title ++ content) ++ (year ++ runtime)) ++ (years ++ runtimes))
              (date_errors order is_blank d) (season_count_errors order is_blank d)
              (season_number_errors order is_blank d),
          append-nil_iff ((title ++ content) ++ (year ++ runtime)) (years ++ runtimes),
          append-nil_iff (title ++ content) (year ++ runtime),
          append-nil_iff title content,
          append-nil_iff year runtime,
          append-nil_iff years runtimes,
          title_iff d,
          IsContentType-iff (get "content_type" d),
          year_iff cy (get "production_year" d),
          runtime_iff (get "runtime_minutes" d),
        ))
