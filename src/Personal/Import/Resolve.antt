-- ===== src/Personal/Import/Resolve.antt =====
-- services/api/repositories/personal.py, lines 2315 to 2434: which title an imported record means. Python's `UUID`,
-- its changes of letter case and its regular expressions, and the database's `ILIKE`, are parameters.
-- Confidences are hundredths; of a candidate its id is kept, and the reasons are left out.
use text.Mathlib.Text.{starts_with}
use cine_vault.Prelude.{
  ℕ, String, Bool, false, not, ◌&&◌, List, [], ◌∷◌, map, Option, none, some, filter, string_eq,
  nat_eq, ◌==◌, if◌then◌else◌,
}
use cine_vault.Personal.States.{take}

-- A text or a year that is absent is empty or zero, which the code treats alike.
pub record ImportItem : Type 0 where
  pub canonical_title : String
  pub production_year : ℕ
  pub title_id : String
  pub display_id : String
  pub imdb_id : String
  pub watched_at : String
  pub rating_value : Option ℕ
  pub is_favorite : Option Bool
  pub manual_status_override : String
  pub notes : String

pub record Title : Type 0 where
  pub title_id : String
  pub display_id : String
  pub canonical_title : String
  pub production_year : Option ℕ

pub record ExternalId : Type 0 where
  pub external_id : String
  pub title_id : String

pub record Catalog : Type 0 where
  pub titles : List Title
  pub external_ids : List ExternalId

-- `normalize` is the two substitutions and the strip, `is_long` the test for more than two characters,
-- `is_like` whether the title contains the text, and `instant` the time that an ISO text names.
pub record TextRules : Type 0 where
  pub uuid : String → Option String
  pub strip : String → String
  pub upper : String → String
  pub lower : String → String
  pub normalize : String → String
  pub is_long : String → Bool
  pub is_like : String → String → Bool
  pub instant : String → Option ℕ

pub data Verdict : Type 0 where
  exact_match probable_match review_required unmatched : Verdict

pub record Resolution : Type 0 where
  pub matched : Option Title
  pub confidence : ℕ
  pub verdict : Verdict
  pub candidates : List String

abbrev pub found : Title → ℕ → Verdict → Resolution
found t confidence verdict = record {
  matched = some t;
  confidence = confidence;
  verdict = verdict;
  candidates = [];
}

abbrev pub ids_of : List Title → List String
ids_of ts = map (λ t. t.title_id) ts

abbrev pub to_review : ℕ → List Title → Resolution
to_review confidence ts = record {
  matched = none;
  confidence = confidence;
  verdict = review_required;
  candidates = ids_of ts;
}

abbrev pub no_match : Resolution
no_match = record { matched = none; confidence = 0; verdict = unmatched; candidates = [] }

abbrev pub first_title : List Title → Option Title
first_title [] = none
first_title (t ∷ ts) = some t

abbrev pub title_with : String → List Title → Option Title
title_with id ts = first_title (filter (λ t. t.title_id == id) ts)

abbrev pub bind {ℓ κ} : {A : Type ℓ} {B : Type κ} → Option A → (A → Option B) → Option B
bind none f = none
bind (some a) f = f a

-- A text that is not empty.
abbrev pub given : String → Option String
given s = if s == "" then none else some s

abbrev pub by_uuid : TextRules → Catalog → ImportItem → Option Title
by_uuid rules c item =
    bind (given item.title_id) (λ s. bind (rules.uuid s) (λ id. title_with id c.titles))

abbrev pub external_id_of : ImportItem → Option String
external_id_of item =
    if not (item.imdb_id == "")
    then some item.imdb_id
    else if starts_with item.title_id "tt"
    then some item.title_id
    else none

abbrev pub first_external : String → List ExternalId → Option ExternalId
first_external id [] = none
first_external id (x ∷ xs) = if x.external_id == id then some x else first_external id xs

abbrev pub by_external_id : Catalog → ImportItem → Option Title
by_external_id c item =
    bind (external_id_of item)
      (λ id. bind (first_external id c.external_ids) (λ x. title_with x.title_id c.titles))

abbrev pub by_display_id : TextRules → Catalog → ImportItem → Option Title
by_display_id rules c item =
    bind (given item.display_id)
      (λ s. first_title (filter (λ t. t.display_id == rules.upper (rules.strip s)) c.titles))

abbrev pub is_titled : TextRules → String → Title → Bool
is_titled rules clean t = rules.lower t.canonical_title == rules.lower clean

abbrev pub is_of_year : ℕ → Title → Bool
is_of_year year t = elim t.production_year [ none ↦ false | some y ↦ y == year ]

-- The match of a part of the title.
abbrev pub by_part : TextRules → Catalog → String → Resolution
by_part rules c clean =
    let norm = rules.normalize (rules.lower clean) in
    if not (norm == "") && rules.is_long norm
    then (elim (take 5
        (filter (λ t. rules.is_like (rules.lower t.canonical_title) norm) c.titles)) [
          | [] ↦ no_match
          | t ∷ ts ↦ elim ts [ [] ↦ found t 80 probable_match | u ∷ us ↦ to_review 55 (t ∷ u ∷ us) ]
        ])
    else no_match

-- The match of the whole title, whatever its year.
abbrev pub by_title : TextRules → Catalog → ImportItem → String → Resolution
by_title rules c item clean = elim (filter (is_titled rules clean) c.titles) [
  | [] ↦ by_part rules c clean
  | t ∷ ts ↦ elim ts [
    | [] ↦ if item.production_year == 0 then found t 95 exact_match else found t 85 probable_match
    | u ∷ us ↦ to_review 60 (t ∷ u ∷ us)
  ]
]

abbrev pub by_title_and_year : TextRules → Catalog → ImportItem → String → Resolution
by_title_and_year rules c item clean =
    if item.production_year == 0
    then by_title rules c item clean
    else (elim (filter (λ t. is_titled rules clean t && is_of_year item.production_year t)
        c.titles) [
          | [] ↦ by_title rules c item clean
          | t ∷ ts ↦ elim ts [
            | [] ↦ found t 100 exact_match
            | u ∷ us ↦ record {
              matched = some t;
              confidence = 95;
              verdict = exact_match;
              candidates = ids_of (t ∷ u ∷ us);
            }
          ]
        ])

abbrev pub found_or : Option Title → Resolution → Resolution
found_or (some t) rest = found t 100 exact_match
found_or none rest = rest

unfoldable pub resolve_import_candidate_titles : TextRules → Catalog → ImportItem → Resolution
resolve_import_candidate_titles rules c item = found_or (by_uuid rules c item) (
    found_or (by_external_id c item) (
      found_or (by_display_id rules c item) (
        if item.canonical_title == ""
        then no_match
        else by_title_and_year rules c item (rules.strip item.canonical_title))))
