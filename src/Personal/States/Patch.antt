-- ===== src/Personal/States/Patch.antt =====
-- services/api/repositories/personal.py: an update of a title's state, as it is read afterwards.
use mathlib.Core.Path.{subst}
use cine_vault.Prelude.{
  Bool, Option, none, some, false, ok, err, ◌⊎◌, ℕ, String, ◌&&◌, ◌≡◌, refl, sym, ap, arith,
  string_eq, pair_eq, ◌==◌, if◌then◌else◌, Bool-cases, Option-cases, inl, inr,
}
use cine_vault.Prelude.Dict.{lookup, insert, lookup-insert, lookup-insert_self}
use cine_vault.Personal.States.{
  TitleState, States, UserTitleStateUpdate, response_of, state_or_none, set_or, patched,
  get_user_title_state, update_user_title_state, null_is_favorite, UserTitleStateResponse,
}

null_set :
    (favorite : Option (Option Bool)) (b : Bool)
    → set_or favorite (some b) ≡ none
    → favorite ≡ some none
null_set none b h = absurd (ground arith)
null_set (some o) b h = ap (λ x. Option.some x) h

module _ (user title : String) (body : UserTitleStateUpdate) (now : ℕ) (states : States) where
  abbrev before_update : TitleState
  before_update = state_or_none (lookup (user, title) states) now

  -- What an update that sets no null as favorite stores.
  module _ (fav : Bool)
      (set : set_or body.is_favorite (some before_update.is_favorite) ≡ some fav) where
    abbrev stored : TitleState
    stored = patched body fav now before_update

    updated :
        update_user_title_state user title body now states
        ≡ (ok (response_of title stored), insert (user, title) stored states)
    unfolding update_user_title_state
    updated = rw (update_user_title_state, set) refl

    read_back :
        (later : ℕ)
        → get_user_title_state user title later (insert (user, title) stored states)
          ≡ response_of title stored
    unfolding get_user_title_state
    read_back later = rw (lookup-insert_self (user, title) stored states) refl

    others_unchanged :
        (user' title' : String) (later : ℕ)
        → get_user_title_state user' title' later (insert (user, title) stored states) ≡ (
            if user == user' && title == title'
            then response_of title stored
            else get_user_title_state user' title' later states)
    unfolding get_user_title_state
    others_unchanged user' title' later = elim (Bool-cases (user == user' && title == title')) [
      | inl e ↦
          (let same_title : title ≡ title' = ground (arith, string_eq.same_iff title title') in
            rw (lookup-insert (user, title) (user', title') stored states)
              (rw e (ap (λ t. response_of t stored) (sym same_title))))
      | inr e ↦ rw (lookup-insert (user, title) (user', title') stored states) (rw e refl)
    ]

    absent-or-stored :
        (later : ℕ)
        → let got = response_of title stored in
          let before = get_user_title_state user title later states in
          (got.manual_status_override
            ≡ set_or body.manual_status_override before.manual_status_override)
          × (some got.is_favorite ≡ set_or body.is_favorite (some before.is_favorite))
          × (got.preferred_edition_id
              ≡ set_or body.preferred_edition_id before.preferred_edition_id)
    unfolding get_user_title_state
    absent-or-stored later = elim (Option-cases (lookup (user, title) states)) [
      | inl e ↦
          (let is : set_or body.is_favorite (some false) ≡ some fav =
              subst
                (λ o. set_or body.is_favorite (some (state_or_none o now).is_favorite) ≡ some fav) e
                set in
            rw e (refl, sym is, refl))
      | inr (s, e) ↦
          (let is : set_or body.is_favorite (some s.is_favorite) ≡ some fav =
              subst
                (λ o. set_or body.is_favorite (some (state_or_none o now).is_favorite) ≡ some fav) e
                set in
            rw e (refl, sym is, refl))
    ]

  pub update_user_title_state-ok :
      (user' title' : String) (later : ℕ)
      → let (result, after) = update_user_title_state user title body now states in
        let got = get_user_title_state user title later after in
        let before = get_user_title_state user title later states in
        ((body.is_favorite ≡ some none) × (result ≡ err null_is_favorite) × (after ≡ states))
        ⊎ ((r : UserTitleStateResponse) × (result ≡ ok r)
            × (got.manual_status_override
                ≡ set_or body.manual_status_override before.manual_status_override)
            × (some got.is_favorite ≡ set_or body.is_favorite (some before.is_favorite))
            × (got.preferred_edition_id
                ≡ set_or body.preferred_edition_id before.preferred_edition_id)
            × (get_user_title_state user' title' later after ≡ (
                if user == user' && title == title'
                then got
                else get_user_title_state user' title' later states)))
  unfolding update_user_title_state
  update_user_title_state-ok user' title' later =
      elim (Option-cases (set_or body.is_favorite (some before_update.is_favorite))) [
        | inl e ↦
            rw (update_user_title_state, e)
              (inl (null_set body.is_favorite before_update.is_favorite e, refl, refl))
        | inr (fav, e) ↦
            (let (status, favorite, edition) = absent-or-stored fav e later in
              let others = others_unchanged fav e user' title' later in
              rw (updated fav e, read_back fav e later)
                (inr (response_of title (stored fav e), refl, status, favorite, edition, others)))
      ]
