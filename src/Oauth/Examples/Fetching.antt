-- ===== src/Oauth/Examples/Fetching.antt =====
-- Runs of oauth/cimd.go, and of the limiter of oauth/server.go.
use go_idento.Prelude.{
  split, ℕ, ◌*◌, ◌≤◌, ◌≡◌, refl, inl, inr, true, false, none, some, List, [], ◌∷◌, arith, ◌==◌,
  text_eq, text_beq, text_beq_iff, Bool-cases, subst, all, any, Text, codes, has_prefix, parse_int,
}
use go_idento.Dict
use go_idento.Dict.{get-put, get-empty}
use go_idento.Oauth.Urls.{validate_redirect_uri}
use go_idento.Oauth.Cimd.{
  CimdDocument, CimdEntry, Fetcher, Cimd, contains, cut_prefix, last_max_age, seconds, cache_ttl,
}
use go_idento.Oauth.Cimd.Cached.{resolve}
use go_idento.Oauth.Cimd.Cached.Sound.{Valid, IsSound, Sound, resolve-Sound}
use go_idento.Oauth.Limiter.{IpLimiter}
use go_idento.Oauth.Limiter.Bound.{passed, Within, passed_bounded}
use go_idento.Oauth.Examples.{web0, client0}

abbrev document0 : CimdDocument
document0 = record {
  client_id = codes "https://h/c";
  client_name = codes "n";
  redirect_uris = codes "cb" ∷ [];
  auth_method = [];
  grant_types = [];
  response_types = [];
  signing_alg = [];
  jwks_uri = [];
  jwks = [];
  has_secret = false;
  has_secret_expiry = false;
}

abbrev fetcher0 : Fetcher
fetcher0 = record {
  web = web0;
  max_bytes = 5120;
  default_ttl = 300000000000;
  min_ttl = 60000000000;
  max_ttl = 86400000000000;
  fetch = λ n url. some (record { status = 200; cache_control = codes "max-age=5"; body = url });
  decode = λ body. some document0;
  parse_jwks = λ _. none;
}

abbrev key0 : Text
key0 = codes "https://h/d"

-- The id of the entry is that of its client.
abbrev entry0 : CimdEntry
entry0 = record {
  client = record client0 { id = key0; redirect_uris = codes "cb" ∷ []; cimd = true };
  expires = 5;
}

abbrev cache0 : Cimd
cache0 = record { cache = Dict.put Dict.empty key0 entry0; requests = 0 }

valid0 : Valid fetcher0 key0 entry0.client
unfolding validate_redirect_uri all any text_beq
valid0 = (refl, omega arith, refl, refl, inl refl)

none0 : (k : Text) → Dict.get (Dict.empty {K = Text} {V = CimdEntry}) k ≡ none
none0 k = get-empty k

sound0 : IsSound fetcher0 cache0.cache
sound0 id e at = elim (Bool-cases (key0 == id)) [
  | inl same ↦
      let here : entry0 ≡ e = ground (arith, rw (get-put Dict.empty key0 id entry0) at at, same) in
      rw (← (text_beq_iff key0 id).0 same) (subst (λ x. Valid fetcher0 key0 x.client) here valid0)
  | inr other ↦
      absurd (ground (arith, rw (get-put Dict.empty key0 id entry0) at at, other, none0 id))
]

resolve-Sound_example :
    Sound fetcher0 (codes "https://h/c") (resolve fetcher0 1 (codes "https://h/c") cache0)
resolve-Sound_example = resolve-Sound fetcher0 1 (codes "https://h/c") cache0 sound0

ttl0 : cache_ttl fetcher0 (codes "max-age=5") ≡ some 60000000000
unfolding cache_ttl contains has_prefix last_max_age split cut_prefix parse_int seconds text_beq
ttl0 = refl

-- One registration of an address is left in a window that began before.
abbrev limiter0 : IpLimiter
limiter0 = record {
  limit = 2;
  window = 60;
  hits = Dict.put Dict.empty (codes "ip") (record { start = 50; n = 1 });
}

abbrev calls0 : List (Text × ℕ)
calls0 = (codes "ip", 100) ∷ (codes "ip", 101) ∷ (codes "ip", 120) ∷ []

within0 : Within 100 60 calls0
within0 who t i = ground arith

passed_bounded_example : passed (codes "ip") limiter0 calls0 ≤ 2 * 2
passed_bounded_example = passed_bounded (codes "ip") 100 calls0 limiter0 (omega arith) within0
