-- ===== src/Identity/TokenService/Claims/Merge.antt =====
-- identity/token_service.go: which claims an access token has.
use go_idento.Prelude.{
  ◌+◌, ◌/◌, ◌⊎◌, false, true, any, codes, text_beq, Bool-cases, ◌≡◌, refl, ◌∙◌, inl, inr, Option,
  none, some, List, [], ◌∷◌, arith, ◌==◌, if◌then◌else◌, Text, text_eq, text_beq_iff, is_some,
  Option-cases, ℕ,
}
use go_idento.Dict
use go_idento.Dict.{get-put, get-empty}
use go_idento.Identity.Entities.{User, Claim}
use go_idento.Identity.TokenService.{
  ClaimValue, text, number, texts, second, MapClaims, TokenOptions,
}
use go_idento.Identity.TokenService.Claims.{
  merge, literal, token_claims, base_entries, base_claims, with_roles,
}

-- The value of the first custom claim of a name.
abbrev pub first_claim : List Claim → Text → Option ClaimValue
first_claim [] k = none
first_claim (c ∷ cs) k = if c.type == k then some (text c.value) else first_claim cs k

abbrev pub or_else : Option ClaimValue → Option ClaimValue → Option ClaimValue
or_else none o = o
or_else (some v) o = some v

get-merge :
    (cs : List Claim) (m : MapClaims) (k : Text)
    → Dict.get (merge cs m) k ≡ or_else (Dict.get m k) (first_claim cs k)
unfolding merge
get-merge [] m k = elim (Option-cases (Dict.get m k)) [ inl e ↦ rw e refl | inr (v, e) ↦ rw e refl ]
get-merge (c ∷ cs) m k =
    get-merge cs (if is_some (Dict.get m c.type) then m else Dict.put m c.type (text c.value)) k
    ∙ ground (arith, get-put m c.type k (text c.value), text_beq_iff c.type k)

-- What is there before the custom claims stays.
merge-keeps :
    (cs : List Claim) (m : MapClaims) (k : Text) (v : ClaimValue)
    → Dict.get m k ≡ some v
    → Dict.get (merge cs m) k ≡ some v
merge-keeps cs m k v e = get-merge cs m k ∙ rw e refl

-- The names that the service gives a value to, whoever the user is.
abbrev pub service_names : List Text
service_names =
    codes "sub"
    ∷ codes "uid"
    ∷ codes "name"
    ∷ codes "email"
    ∷ codes "idn_sstamp"
    ∷ codes "iss"
    ∷ codes "aud"
    ∷ codes "iat"
    ∷ codes "nbf"
    ∷ codes "exp"
    ∷ []

get-literal-none :
    (l : List (Text × ClaimValue)) (k : Text)
    → any (λ e. e.0 == k) l ≡ false
    → Dict.get (literal l) k ≡ none
unfolding any
get-literal-none [] k h = get-empty k
get-literal-none ((j, v) ∷ rest) k h =
    ground (arith, get-put (literal rest) j k v, get-literal-none rest k)

module _ (o : TokenOptions) (u : User) (t : ℕ) where
  -- The values of the service.
  abbrev pub HasServiceClaims : MapClaims → Type 0
  HasServiceClaims m =
      (Dict.get m (codes "sub") ≡ some (text u.id))
      × (Dict.get m (codes "uid") ≡ some (text u.id))
      × (Dict.get m (codes "name") ≡ some (text u.user_name))
      × (Dict.get m (codes "email") ≡ some (text u.email))
      × (Dict.get m (codes "idn_sstamp") ≡ some (text u.security_stamp))
      × (Dict.get m (codes "iss") ≡ some (text o.issuer))
      × (Dict.get m (codes "aud") ≡ some (text o.audience))
      × (Dict.get m (codes "iat") ≡ some (number (t / second)))
      × (Dict.get m (codes "nbf") ≡ some (number (t / second)))
      × (Dict.get m (codes "exp") ≡ some (number ((t + o.access_token_ttl) / second)))

  before : (roles : List Text) → HasServiceClaims (with_roles roles (base_claims o u t))
  unfolding base_claims Dict.get Dict.put Dict.empty text_beq
  before [] = (refl, refl, refl, refl, refl, refl, refl, refl, refl, refl)
  before (r ∷ rs) = (refl, refl, refl, refl, refl, refl, refl, refl, refl, refl)

  -- The roles of a user who has some, and otherwise what the user's own claims say.
  abbrev pub named_roles : List Text → List Claim → Option ClaimValue
  named_roles [] claims = first_claim claims (codes "roles")
  named_roles (r ∷ rs) claims = some (texts (r ∷ rs))

  roles_before : Dict.get (base_claims o u t) (codes "roles") ≡ none
  unfolding base_claims Dict.get Dict.put Dict.empty text_beq
  roles_before = refl

  roles_after :
      (roles : List Text) (claims : List Claim)
      → Dict.get (token_claims o u roles claims t) (codes "roles") ≡ named_roles roles claims
  unfolding token_claims
  roles_after [] claims =
      get-merge claims (base_claims o u t) (codes "roles") ∙ rw roles_before refl
  roles_after (r ∷ rs) claims = merge-keeps claims _ (codes "roles") (texts (r ∷ rs)) (
      ground (
        arith,
        get-put (base_claims o u t) (codes "roles") (codes "roles") (texts (r ∷ rs)),
        text_beq_iff (codes "roles") (codes "roles"),
      ))

  others_base :
      (k : Text)
      → any (λ n. n == k) (codes "roles" ∷ service_names) ≡ false
      → Dict.get (base_claims o u t) k ≡ none
  unfolding any base_claims
  others_base k h = get-literal-none (base_entries o u t) k (ground arith)

  others_before :
      (roles : List Text) (k : Text)
      → any (λ n. n == k) (codes "roles" ∷ service_names) ≡ false
      → Dict.get (with_roles roles (base_claims o u t)) k ≡ none
  unfolding any
  others_before [] k h = others_base k h
  others_before (r ∷ rs) k h =
      ground
        (arith, get-put (base_claims o u t) (codes "roles") k (texts (r ∷ rs)), others_base k h)

  -- An access token has the user's id as subject and the user's security stamp, names, issuer,
  -- audience and times of the service, whatever the claims of the user are; its roles are those of the
  -- user, if there are some; and any other claim is the first one of the user with this name.
  pub get-token_claims :
      (roles : List Text) (claims : List Claim) (k : Text)
      → let m = token_claims o u roles claims t in
        HasServiceClaims m
        × (Dict.get m (codes "roles") ≡ named_roles roles claims)
        × ((any (λ n. n == k) (codes "roles" ∷ service_names) ≡ true)
            ⊎ (Dict.get m k ≡ first_claim claims k))
  unfolding token_claims
  get-token_claims roles claims k =
      let m0 : MapClaims = with_roles roles (base_claims o u t) in
      let (a, b, c, d, e, f, g, h, i, j) = before roles in
      let still = merge-keeps claims m0 in
      (
        (
          still _ _ a,
          still _ _ b,
          still _ _ c,
          still _ _ d,
          still _ _ e,
          still _ _ f,
          still _ _ g,
          still _ _ h,
          still _ _ i,
          still _ _ j,
        ),
        roles_after roles claims,
        elim (Bool-cases (any (λ n. n == k) (codes "roles" ∷ service_names))) [
          | inl named ↦ inl named
          | inr other ↦ inr (get-merge claims m0 k ∙ rw (others_before roles k other) refl)
        ],
      )
