-- ===== src/Personal/Import/Rows.antt =====
-- services/api/repositories/personal.py: the rows that are found after a step of an import.
use cine_vault.Prelude.{
  ℕ, String, Bool, true, ◌≡◌, ◌≢◌, refl, ◌∙◌, List, [], ◌∷◌, ◌++◌, none, some, arith, filter,
  string_eq, pair_eq, Bool-cases, inl, inr,
}
use cine_vault.Prelude.Dict.{Dict, lookup}
use cine_vault.Personal.Events.{WatchEvent}
use cine_vault.Personal.Ratings.{Rating, Note, some_row}
use cine_vault.Personal.Import.Apply.{Tables, Work, pend, count_applied, is_there, joined}

-- What is found in the first tables is found in the second.
pub record Within (t u : Tables) : Type 0 where
  pub events :
      (p : WatchEvent → Bool)
      → some_row (filter p t.events) ≡ true
      → some_row (filter p u.events) ≡ true
  pub ratings :
      (p : Rating → Bool)
      → some_row (filter p t.ratings) ≡ true
      → some_row (filter p u.ratings) ≡ true
  pub notes :
      (p : Note → Bool) → some_row (filter p t.notes) ≡ true → some_row (filter p u.notes) ≡ true
  pub states : (k : String × String) → is_there k t.states ≡ true → is_there k u.states ≡ true
  pub library : (k : String × String) → is_there k t.library ≡ true → is_there k u.library ≡ true

pub same-Within : (t : Tables) → Within t t
same-Within t = record {
  events = λ p h. h;
  ratings = λ p h. h;
  notes = λ p h. h;
  states = λ k h. h;
  library = λ k h. h;
}

pub trans-Within : {t u v : Tables} → Within t u → Within u v → Within t v
trans-Within a b = record {
  events = λ p h. b.events p (a.events p h);
  ratings = λ p h. b.ratings p (a.ratings p h);
  notes = λ p h. b.notes p (a.notes p h);
  states = λ k h. b.states k (a.states k h);
  library = λ k h. b.library k (a.library k h);
}

pub some_row-front :
    {A : Type 0} (p : A → Bool) (xs ys : List A)
    → some_row (filter p xs) ≡ true
    → some_row (filter p (xs ++ ys)) ≡ true
some_row-front p [] ys h = absurd (ground arith)
some_row-front p (x ∷ xs) ys h = elim (Bool-cases (p x)) [
  | inl e ↦ rw e refl
  | inr e ↦ rw e (some_row-front p xs ys (ground arith))
]

pub some_row-back :
    {A : Type 0} (p : A → Bool) (xs ys : List A)
    → some_row (filter p ys) ≡ true
    → some_row (filter p (xs ++ ys)) ≡ true
some_row-back p [] ys h = h
some_row-back p (x ∷ xs) ys h = elim (Bool-cases (p x)) [
  | inl e ↦ rw e refl
  | inr e ↦ rw e (some_row-back p xs ys h)
]

-- A row that is added at the end of the pending ones.
pub some_row-more :
    {A : Type 0} (p : A → Bool) (xs ys zs : List A)
    → some_row (filter p (xs ++ ys)) ≡ true
    → some_row (filter p (xs ++ (ys ++ zs))) ≡ true
some_row-more p [] ys zs h = some_row-front p ys zs h
some_row-more p (x ∷ xs) ys zs h = elim (Bool-cases (p x)) [
  | inl e ↦ rw e refl
  | inr e ↦ rw e (some_row-more p xs ys zs (ground arith))
]

pub is_there-front :
    {V : Type 0} (k : String × String) (d e : Dict (String × String) V)
    → is_there k d ≡ true
    → is_there k (d ++ e) ≡ true
is_there-front k [] e h = absurd (ground arith)
is_there-front k ((j, v) ∷ d) e h = elim (Bool-cases (pair_eq.same j k)) [
  | inl s ↦ rw s refl
  | inr s ↦ rw s (is_there-front k d e (ground arith))
]

pub is_there-back :
    {V : Type 0} (k : String × String) (d e : Dict (String × String) V)
    → is_there k e ≡ true
    → is_there k (d ++ e) ≡ true
is_there-back k [] e h = h
is_there-back k ((j, v) ∷ d) e h = elim (Bool-cases (pair_eq.same j k)) [
  | inl s ↦ rw s refl
  | inr s ↦ rw s (is_there-back k d e h)
]

pub is_there-more :
    {V : Type 0} (k : String × String) (d e f : Dict (String × String) V)
    → is_there k (d ++ e) ≡ true
    → is_there k (d ++ (e ++ f)) ≡ true
is_there-more k [] e f h = is_there-front k e f h
is_there-more k ((j, v) ∷ d) e f h = elim (Bool-cases (pair_eq.same j k)) [
  | inl s ↦ rw s refl
  | inr s ↦ rw s (is_there-more k d e f (ground arith))
]

pub is_there-some :
    {V : Type 0} (k : String × String) (d : Dict (String × String) V) (v : V)
    → lookup k d ≡ some v
    → is_there k d ≡ true
is_there-some k [] v h = absurd (ground arith)
is_there-some k ((j, u) ∷ d) v h = elim (Bool-cases (pair_eq.same j k)) [
  | inl s ↦ rw s refl
  | inr s ↦ rw s (is_there-some k d v (ground arith))
]

pub is_there-none :
    {V : Type 0} (k : String × String) (d : Dict (String × String) V)
    → is_there k d ≡ true
    → lookup k d ≢ none
is_there-none k [] h e = ground arith
is_there-none k ((j, u) ∷ d) h e = elim (Bool-cases (pair_eq.same j k)) [
  | inl s ↦ ground arith
  | inr s ↦ is_there-none k d (ground arith) (ground arith)
]

-- The rows of a work as they are after the commit.
abbrev pub all_rows : Work → Tables
all_rows w = joined w.visible w.pending

-- A step that changes no row that is there.
pub record Moves (w v : Work) : Type 0 where
  pub same : v.visible ≡ w.visible
  pub within : Within (all_rows w) (all_rows v)

pub no_move : (w : Work) → Moves w w
no_move w = record { same = refl; within = same-Within (all_rows w) }

pub trans-Moves : {w v u : Work} → Moves w v → Moves v u → Moves w u
trans-Moves a b = record { same = b.same ∙ a.same; within = trans-Within a.within b.within }

pub pending-Moves :
    (w : Work) (added : Tables) (applied conflicts : ℕ)
    → Moves w (record {
      visible = w.visible;
      pending = joined w.pending added;
      applied_count = applied;
      conflicts_resolved = conflicts;
    })
pending-Moves w added applied conflicts = record {
  same = refl;
  within = record {
    events = λ p h. some_row-more p w.visible.events w.pending.events added.events h;
    ratings = λ p h. some_row-more p w.visible.ratings w.pending.ratings added.ratings h;
    notes = λ p h. some_row-more p w.visible.notes w.pending.notes added.notes h;
    states = λ k h. is_there-more k w.visible.states w.pending.states added.states h;
    library = λ k h. is_there-more k w.visible.library w.pending.library added.library h;
  };
}

pub count-Moves : (w : Work) → Moves w (count_applied w)
count-Moves w = record { same = refl; within = same-Within (all_rows w) }

pub pend-Moves : (added : Tables) (w : Work) → Moves w (pend added w)
pend-Moves added w = pending-Moves w added w.applied_count w.conflicts_resolved
