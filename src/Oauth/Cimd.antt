-- ===== src/Oauth/Cimd.antt =====
-- oauth/cimd.go: clients named by the URL of a metadata document, and the cache of documents. The
-- network, encoding/json and the decoding of keys are parameters.
pub mod Documents
pub mod Cached
use go_idento.Prelude.{
  ℕ, suc, ◌+◌, ◌-◌, ◌*◌, ◌%◌, ◌^◌, Bool, true, false, not, ◌&&◌, ◌||◌, Option, none, some, List, [],
  ◌∷◌, ◌==◌, if◌then◌else◌, Text, text_eq, codes, has_prefix, split, cut, ltb, length, nat_beq,
  parse_int,
}
use go_idento.Dict
use go_idento.Dict.{Dict}
use go_idento.Oauth.Urls.{Url, Web}
use go_idento.Oauth.Server.{ResolvedClient, ClientKey}

pub record CimdDocument : Type 0 where
  pub client_id : Text
  pub client_name : Text
  pub redirect_uris : List Text
  pub auth_method : Text
  pub grant_types : List Text
  pub response_types : List Text
  pub signing_alg : Text
  pub jwks_uri : Text
  pub jwks : Text
  -- Whether client_secret, or client_secret_expires_at, is there.
  pub has_secret : Bool
  pub has_secret_expiry : Bool

-- A response, with its Cache-Control header.
pub record Fetched : Type 0 where
  pub status : ℕ
  pub cache_control : Text
  pub body : Text

pub record CimdEntry : Type 0 where
  pub client : ResolvedClient
  pub expires : ℕ

pub record Fetcher : Type 0 where
  pub web : Web
  pub max_bytes : ℕ
  pub default_ttl : ℕ
  pub min_ttl : ℕ
  pub max_ttl : ℕ
  -- The answer to the n-th request; `none` is an error of the client or of the transport.
  pub fetch : ℕ → Text → Option Fetched
  pub decode : Text → Option CimdDocument
  -- parseJWKS, keys by their encoding.
  pub parse_jwks : Text → Option (List ClientKey)

-- The cache, and how many requests were sent.
pub record Cimd : Type 0 where
  pub cache : Dict Text CimdEntry
  pub requests : ℕ

-- strings.Contains
unfoldable pub contains : Text → Text → Bool
contains [] t = t == []
contains (c ∷ s) t = has_prefix (c ∷ s) t || contains s t

-- strings.CutPrefix
unfoldable pub cut_prefix : Text → Text → Option Text
cut_prefix s [] = some s
cut_prefix [] (d ∷ t) = none
cut_prefix (c ∷ s) (d ∷ t) = if nat_beq c d then cut_prefix s t else none

-- time.Duration(n) * time.Second with 64 bits; `none` is a negative duration.
unfoldable pub seconds : Bool × ℕ → Option ℕ
seconds (negative, n) =
    let v = n * 1000000000 % 2 ^ 64 in
    let wrapped = if negative then (2 ^ 64 - v) % 2 ^ 64 else v in
    if ltb wrapped (2 ^ 63) then some wrapped else none

abbrev max_age : Web → Text → Option ℕ → Option ℕ
max_age web part ttl = elim (cut_prefix (web.trim_space part) (codes "max-age=")) [
  | none ↦ ttl
  | some v ↦ elim (parse_int v) [ none ↦ ttl | some n ↦ seconds n ]
]

-- The last max-age counts.
unfoldable pub last_max_age : Web → List Text → Option ℕ → Option ℕ
last_max_age web [] ttl = ttl
last_max_age web (part ∷ parts) ttl = last_max_age web parts (max_age web part ttl)

abbrev at_least : ℕ → Option ℕ → ℕ
at_least lo none = lo
at_least lo (some ttl) = if ltb ttl lo then lo else ttl

-- `none`: the response is not cached.
abbrev pub clamp_ttl : Fetcher → Option ℕ → Option ℕ
clamp_ttl f ttl =
    let low = at_least f.min_ttl ttl in
    let high = if ltb f.max_ttl low then f.max_ttl else low in
    if ltb 0 high then some high else none

unfoldable pub cache_ttl : Fetcher → Text → Option ℕ
cache_ttl f header =
    let cc = f.web.to_lower header in
    if contains cc (codes "no-store") || contains cc (codes "no-cache")
    then none
    else clamp_ttl f (last_max_age f.web (split b',' cc) (some f.default_ttl))

-- A dot segment, also in its encoding.
abbrev is_dots : Web → Text → Bool
is_dots web seg =
    seg == codes "."
    || (seg == codes ".."
        || (web.equal_fold seg (codes "%2e") || web.equal_fold seg (codes "%2e%2e")))
