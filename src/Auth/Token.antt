-- ===== src/Auth/Token.antt =====
-- services/api/auth/jwt_validator.py: `JWTValidator.validate_claims`. The claims have the types that their
-- readers expect, but for the audience, which may be any JSON value. Decoding and signatures are left out.
pub mod Claims
use cine_vault.Prelude.{
  ℕ, String, Bool, true, false, ◌||◌, List, [], ◌∷◌, Option, none, some, ltb, leb, or_text,
  contains, Result, ok, err, string_eq, nat_eq, ◌==◌, if◌then◌else◌,
}
use cine_vault.Auth.Rbac.{intersects}

-- `other` is a value that is neither a text nor a list, with its truth value.
pub data Audience : Type 0 where
  missing : Audience
  one : String → Audience
  several : List String → Audience
  other : Bool → Audience

pub record RealmAccess : Type 0 where
  pub roles : Option (List String)

-- `roles` is the claim where it is a list, and `realm_access` the one where it is an object.
pub record TokenPayload : Type 0 where
  pub iss : Option String
  pub aud : Audience
  pub exp : Option ℕ
  pub nbf : Option ℕ
  pub sub : Option String
  pub iat : Option ℕ
  pub preferred_username : Option String
  pub email : Option String
  pub roles : Option (List String)
  pub realm_access : Option RealmAccess
  pub auth_time : Option ℕ
  pub amr : Option (List String)

pub record SecurityTokenClaims : Type 0 where
  pub sub : String
  pub iss : String
  pub aud : Audience
  pub exp : ℕ
  pub iat : ℕ
  pub nbf : Option ℕ
  pub preferred_username : Option String
  pub email : Option String
  pub roles : List String
  pub auth_time : Option ℕ
  pub amr : List String

pub data TokenError : Type 0 where
  invalid_issuer : Option String → TokenError
  missing_audience : TokenError
  invalid_audience : Audience → TokenError
  token_expired : Option ℕ → ℕ → TokenError
  not_yet_valid : ℕ → ℕ → TokenError
  missing_subject : TokenError

-- The validator, with the arguments of its constructor.
pub record Validator : Type 0 where
  pub expected_issuer : Option String
  pub expected_audience : Option String

abbrev pub valid_issuers : Validator → List String
valid_issuers v =
    or_text v.expected_issuer "cinevault-auth"
    ∷ "cinevault-auth"
    ∷ "http://localhost:8080/realms/cinevault-dev"
    ∷ []

abbrev pub valid_audiences : Validator → List String
valid_audiences v =
    or_text v.expected_audience "cinevault-api-gateway"
    ∷ "cinevault-public-client"
    ∷ "cinevault-api-gateway"
    ∷ []

unfoldable pub check_issuer : Validator → Option String → Result TokenError String
check_issuer v none = err (invalid_issuer none)
check_issuer v (some iss) =
    if iss == ""
    then err (invalid_issuer (some iss))
    else if contains iss (valid_issuers v)
    then ok iss
    else err (invalid_issuer (some iss))

unfoldable pub check_audience : Validator → Audience → Result TokenError Audience
check_audience v missing = err missing_audience
check_audience v (one aud) =
    if aud == ""
    then err missing_audience
    else if contains aud (valid_audiences v)
    then ok (one aud)
    else err (invalid_audience (one aud))
check_audience v (several []) = err missing_audience
check_audience v (several (aud ∷ auds)) =
    if intersects (valid_audiences v) (aud ∷ auds)
    then ok (several (aud ∷ auds))
    else err (invalid_audience (several (aud ∷ auds)))
check_audience v (other is_true) = if is_true then ok (other is_true) else err missing_audience

-- A time 0 counts as a missing one.
unfoldable pub check_expiry : ℕ → Option ℕ → Result TokenError ℕ
check_expiry now none = err (token_expired none now)
check_expiry now (some exp) =
    if exp == 0 || leb exp now then err (token_expired (some exp) now) else ok exp

unfoldable pub check_not_before : ℕ → Option ℕ → Result TokenError (Option ℕ)
check_not_before now none = ok none
check_not_before now (some nbf) =
    if nbf == 0
    then ok (some nbf)
    else if ltb now nbf
    then err (not_yet_valid nbf now)
    else ok (some nbf)

unfoldable pub check_subject : Option String → Result TokenError String
check_subject none = err missing_subject
check_subject (some sub) = if sub == "" then err missing_subject else ok sub

unfoldable pub roles_of : TokenPayload → List String
roles_of p = elim p.roles [
  | some roles ↦ roles
  | none ↦ elim p.realm_access [
    | none ↦ []
    | some access ↦ elim access.roles [ none ↦ [] | some roles ↦ roles ]
  ]
]

-- The rest of a method behind a step that may raise.
abbrev pub and_then {ℓ κ} :
    {A : Type ℓ} {B : Type κ}
    → Result TokenError A
    → (A → Result TokenError B)
    → Result TokenError B
and_then (ok a) k = k a
and_then (err e) k = err e

unfoldable pub validate_claims :
    Validator → TokenPayload → ℕ → Result TokenError SecurityTokenClaims
validate_claims v p now = and_then (check_issuer v p.iss) λ iss.
    and_then (check_audience v p.aud) λ aud. and_then (check_expiry now p.exp) λ exp.
      and_then (check_not_before now p.nbf) λ nbf. and_then (check_subject p.sub) λ sub.
        ok (record {
          sub = sub;
          iss = iss;
          aud = aud;
          exp = exp;
          iat = elim p.iat [ none ↦ 0 | some t ↦ t ];
          nbf = nbf;
          preferred_username = p.preferred_username;
          email = p.email;
          roles = roles_of p;
          auth_time = p.auth_time;
          amr = elim p.amr [ none ↦ [] | some names ↦ names ];
        })
