-- ===== src/Auth/Token/Claims.antt =====
-- services/api/auth/jwt_validator.py: which claims are valid, and what the answer holds.
use cine_vault.Prelude.{
  ℕ, ◌≤◌, ◌<◌, String, true, ◌≡◌, ◌≢◌, refl, ◌⊎◌, inl, inr, [], ◌∷◌, Option, none, some, arith,
  contains, Result, ok, err, string_eq,
}
use mathlib.Core.Path.{subst}
use text.Mathlib.TextEquality.{eq_iff}
use cine_vault.Auth.Rbac.{intersects}
use cine_vault.Auth.Token.{
  Audience, missing, one, several, other, TokenPayload, SecurityTokenClaims, TokenError, Validator,
  valid_issuers, valid_audiences, check_issuer, check_audience, check_expiry, check_not_before,
  check_subject, roles_of, and_then, validate_claims,
}

and_then-ok {ℓ κ} :
    {A : Type ℓ} {B : Type κ} (r : Result TokenError A) (k : A → Result TokenError B) (b : B)
    → and_then r k ≡ ok b
    → (a : A) × (r ≡ ok a) × (k a ≡ ok b)
and_then-ok (ok a) k b h = (a, refl, h)
and_then-ok (err e) k b h = absurd (ground arith)

-- A listed audience, or one that is not looked at: a value that is neither a text nor a list.
abbrev pub AudienceOk : Validator → Audience → Type 0
AudienceOk v missing = ⊥
AudienceOk v (one aud) = contains aud (valid_audiences v) ≡ true
AudienceOk v (several auds) = intersects (valid_audiences v) auds ≡ true
AudienceOk v (other is_true) = is_true ≡ true

issuer-ok :
    (v : Validator) (iss : Option String) (i : String)
    → check_issuer v iss ≡ ok i
    → (iss ≡ some i) × (contains i (valid_issuers v) ≡ true)
unfolding check_issuer
issuer-ok v none i h = absurd (ground arith)
issuer-ok v (some iss) i h = ground arith

audience-ok :
    (v : Validator) (aud a : Audience) → check_audience v aud ≡ ok a → (aud ≡ a) × AudienceOk v aud
unfolding check_audience
audience-ok v missing a h = absurd (ground arith)
audience-ok v (one aud) a h = ground arith
audience-ok v (several []) a h = absurd (ground arith)
audience-ok v (several (aud ∷ auds)) a h = ground arith
audience-ok v (other b) a h = ground arith

expiry-ok :
    (now : ℕ) (exp : Option ℕ) (t : ℕ) → check_expiry now exp ≡ ok t → (exp ≡ some t) × (now < t)
unfolding check_expiry
expiry-ok now none t h = absurd (ground arith)
expiry-ok now (some exp) t h = ground arith

subject-ok :
    (sub : Option String) (s : String) → check_subject sub ≡ ok s → (sub ≡ some s) × (s ≢ "")
unfolding check_subject
subject-ok none s h = absurd (ground arith)
subject-ok (some sub) s h = ground (arith, eq_iff sub "", eq_iff s "")

not_before-ok :
    (now : ℕ) (nbf r : Option ℕ)
    → check_not_before now nbf ≡ ok r
    → (nbf ≡ none) ⊎ ((n : ℕ) × (nbf ≡ some n) × (n ≤ now))
unfolding check_not_before
not_before-ok now none r h = inl refl
not_before-ok now (some n) r h = inr (n, refl, ground arith)

ok_injective :
    {a c : SecurityTokenClaims}
    → ◌≡◌ {A = Result TokenError SecurityTokenClaims} (ok a) (ok c)
    → a ≡ c
ok_injective h = ground arith

-- What the answer says of the token.
abbrev pub Describes : Validator → TokenPayload → ℕ → SecurityTokenClaims → Type 0
Describes v p now c =
    ((p.iss ≡ some c.iss) × (contains c.iss (valid_issuers v) ≡ true))
    × AudienceOk v p.aud
    × ((p.exp ≡ some c.exp) × (now < c.exp))
    × ((p.nbf ≡ none) ⊎ ((n : ℕ) × (p.nbf ≡ some n) × (n ≤ now)))
    × ((p.sub ≡ some c.sub) × (c.sub ≢ ""))
    × (c.roles ≡ roles_of p)

-- Claims that are accepted name a recognised issuer, a recognised audience (or one that is neither a text nor
-- a list, which is not looked at) and a subject. They expire after the present and are valid by now, and
-- the issuer, the subject, the expiry and the roles of the answer are those of the token.
pub validate_claims-Describes :
    (v : Validator) (p : TokenPayload) (now : ℕ) (c : SecurityTokenClaims)
    → validate_claims v p now ≡ ok c
    → Describes v p now c
unfolding validate_claims
validate_claims-Describes v p now c h =
    let (iss, e1, h1) = and_then-ok (check_issuer v p.iss) _ c h in
    let (aud, e2, h2) = and_then-ok (check_audience v p.aud) _ c h1 in
    let (exp, e3, h3) = and_then-ok (check_expiry now p.exp) _ c h2 in
    let (nbf, e4, h4) = and_then-ok (check_not_before now p.nbf) _ c h3 in
    let (sub, e5, h5) = and_then-ok (check_subject p.sub) _ c h4 in
    subst (Describes v p now) (ok_injective h5) (
      issuer-ok v p.iss iss e1,
      (audience-ok v p.aud aud e2).1,
      expiry-ok now p.exp exp e3,
      not_before-ok now p.nbf nbf e4,
      subject-ok p.sub sub e5,
      refl,
    )
