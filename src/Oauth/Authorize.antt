-- ===== src/Oauth/Authorize.antt =====
-- oauth/authorize.go: the authorization endpoint. What the page shows besides the request, and the
-- text of errors, is not modelled. The tokens against forged forms are in Csrf, the checks of a
-- request in Parse, and the handler in Handler.
pub mod Csrf
pub mod Parse
pub mod Handler
use go_idento.Prelude.{
  ℕ, Bool, true, false, Option, none, some, List, [], ◌∷◌, Text, text_eq, codes,
}
use go_idento.Dict
use go_idento.Dict.{Dict}
pub use go_idento.Oauth.Urls.{Values}
use go_idento.Oauth.Server.{ResolvedClient}
use go_idento.Oauth.Clients.{Error}

abbrev first : Option (List Text) → Text
first none = []
first (some []) = []
first (some (x ∷ xs)) = x

-- Values.Get
abbrev pub value : Values → Text → Text
value v k = first (Dict.get v k)

abbrev pub authz_params : List Text
authz_params =
    codes "response_type"
    ∷ codes "client_id"
    ∷ codes "redirect_uri"
    ∷ codes "state"
    ∷ codes "scope"
    ∷ codes "code_challenge"
    ∷ codes "code_challenge_method"
    ∷ codes "resource"
    ∷ []

-- The parameters that a request is made of, as `parseAuthz` copies them.
abbrev pub copied : Values → List Text → Values
copied v [] = Dict.empty
copied v (k ∷ ks) = elim (Dict.get v k) [
  | none ↦ copied v ks
  | some vals ↦ Dict.put (copied v ks) k (first (some vals) ∷ [])
]

pub record AuthzRequest : Type 0 where
  pub client : ResolvedClient
  pub redirect_uri : Text
  pub state : Text
  pub scopes : List Text
  pub resource : Text
  pub challenge : Text

-- What the consent page shows.
pub record ConsentRequest : Type 0 where
  pub client_id : Text
  pub client_name : Text
  pub client_host : Text
  pub redirect_uri : Text
  pub redirect_host : Text
  pub loopback_only : Bool
  pub scopes : List Text
  pub resource : Text
  pub user_id : Text
  pub csrf_token : Text

-- A redirect has its status and the URL.
pub data Response : Type 0 where
  rendered : Error → Response
  redirect : ℕ → Text → Response
  consent : ConsentRequest → Response
