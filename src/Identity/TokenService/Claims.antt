-- ===== src/Identity/TokenService/Claims.antt =====
-- identity/token_service.go: the claims of access tokens, and ValidateAccessToken.
pub mod Merge
use go_idento.Prelude.{
  ℕ, ◌+◌, ◌-◌, ◌/◌, Bool, true, false, not, ◌&&◌, Option, none, some, List, [], ◌∷◌, ◌==◌,
  if◌then◌else◌, Text, text_eq, codes, leb, is_some, map,
}
use go_idento.Dict
use go_idento.Identity.Errors as Errors
use go_idento.Identity.Entities.{User, Claim}
use go_idento.Identity.World.{Env, World, now}
use go_idento.MemStore.Users.{find_by_id}
use go_idento.MemStore.Memberships.{get_roles, get_claims}
use go_idento.Identity.TokenService.{
  second, ClaimValue, text, number, texts, MapClaims, TokenOptions,
}

abbrev pub security_stamp_claim : Text
security_stamp_claim = codes "idn_sstamp"

-- Roles are named only if there are some.
abbrev pub with_roles : List Text → MapClaims → MapClaims
with_roles [] m = m
with_roles (r ∷ rs) m = Dict.put m (codes "roles") (texts (r ∷ rs))

-- A custom claim is merged in unless its name is taken.
unfoldable pub merge : List Claim → MapClaims → MapClaims
merge [] m = m
merge (c ∷ cs) m =
    merge cs (if is_some (Dict.get m c.type) then m else Dict.put m c.type (text c.value))

-- A map literal.
abbrev pub literal : List (Text × ClaimValue) → MapClaims
literal [] = Dict.empty
literal ((k, v) ∷ rest) = Dict.put (literal rest) k v

module _ (o : TokenOptions) where
  abbrev pub base_entries : User → ℕ → List (Text × ClaimValue)
  base_entries u t =
      (codes "sub", text u.id)
      ∷ (codes "uid", text u.id)
      ∷ (codes "name", text u.user_name)
      ∷ (codes "email", text u.email)
      ∷ (security_stamp_claim, text u.security_stamp)
      ∷ (codes "iss", text o.issuer)
      ∷ (codes "aud", text o.audience)
      ∷ (codes "iat", number (t / second))
      ∷ (codes "nbf", number (t / second))
      ∷ (codes "exp", number ((t + o.access_token_ttl) / second))
      ∷ []

  unfoldable pub base_claims : User → ℕ → MapClaims
  base_claims u t = literal (base_entries u t)

  unfoldable pub token_claims : User → List Text → List Claim → ℕ → MapClaims
  token_claims u roles claims t = merge claims (with_roles roles (base_claims u t))

  -- The token and its expiry.
  unfoldable pub sign_access_token : Env → User → World → Option (Text × ℕ) × World
  sign_access_token env u w =
      let (t, w') = now env w in
      let claims = token_claims u (get_roles w.store u) (get_claims w.store u) t in
      (
        elim (o.sign claims) [ none ↦ none | some signed ↦ some (signed, t + o.access_token_ttl) ],
        w',
      )

-- A claim that is no text counts as the empty one.
abbrev pub text_claim : MapClaims → Text → Text
text_claim m k = elim (Dict.get m k) [
  | none ↦ []
  | some v ↦ elim v [ text t ↦ t | number _ ↦ [] | texts _ ↦ [] ]
]

-- strings.ToLower on ASCII.
abbrev lower : ℕ → ℕ
lower c = if leb b'A' c && leb c b'Z' then c + 32 else c

-- strings.EqualFold with an ASCII text that has neither a k nor an s.
unfoldable pub equal_fold : Text → Text → Bool
equal_fold s t = map lower s == map lower t

-- The user and the claims of a valid session token; every failure is the same error.
unfoldable pub validate_access_token : TokenOptions → Env → Text → World → Option (User × MapClaims)
validate_access_token o env token w = elim (o.parse token (env.clock w.reads)) [
  | none ↦ none
  | some (typ, claims) ↦
      if equal_fold typ (codes "at+jwt")
      then none
      else (elim (find_by_id w.store (text_claim claims (codes "sub"))) [
        | Errors.err e ↦ none
        | Errors.ok u ↦
            if text_claim claims security_stamp_claim == u.security_stamp
            then some (u, claims)
            else none
      ])
]
