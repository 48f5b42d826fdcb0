-- ===== src/Oauth/Cimd/Cached.antt =====
-- oauth/cimd.go: the resolution of a client from the cache or from the network, at a time.
pub mod Sound
use go_idento.Prelude.{
  ℕ, suc, ◌+◌, Bool, true, false, not, ◌&&◌, Option, none, some, if◌then◌else◌, Text, text_eq, ltb,
  length, nat_beq,
}
use go_idento.Dict
use go_idento.Dict.{Dict}
use go_idento.Oauth.Server.{ResolvedClient}
use go_idento.Oauth.Cimd.{Fetched, CimdEntry, Fetcher, Cimd, cache_ttl}
use go_idento.Oauth.Cimd.Documents.{validate_cimd_url, validate_cimd_document}

-- now.Before(e.expires)
abbrev pub unexpired : ℕ → Option CimdEntry → Option ResolvedClient
unexpired t none = none
unexpired t (some e) = if ltb t e.expires then some e.client else none

-- A large cache loses the expired entries, and then all.
unfoldable pub make_room : ℕ → Dict Text CimdEntry → Dict Text CimdEntry
make_room t cache =
    if ltb 1000 (Dict.size cache)
    then (let kept = Dict.drop_where cache (λ _ e. ltb e.expires t) in
        if ltb 1000 (Dict.size kept) then Dict.empty else kept)
    else cache

abbrev pub remember : Option ℕ → ℕ → Text → ResolvedClient → Cimd → Cimd
remember none t id rc st = st
remember (some ttl) t id rc st = record st {
  cache = Dict.put (make_room t st.cache) id (record { client = rc; expires = t + ttl });
}

module _ (f : Fetcher) where
  -- The document of a response.
  unfoldable pub document_client : Text → Fetched → Option ResolvedClient
  document_client id r =
      if not (nat_beq r.status 200)
      then none
      else if ltb f.max_bytes (length r.body)
      then none
      else (elim (f.decode r.body) [ none ↦ none | some d ↦ validate_cimd_document f id d ])

  abbrev pub keep_client :
      ℕ → Text → Text → Option ResolvedClient → Cimd → Option ResolvedClient × Cimd
  keep_client t id header none st = (none, st)
  keep_client t id header (some rc) st = (some rc, remember (cache_ttl f header) t id rc st)

  abbrev pub receive : ℕ → Text → Option Fetched → Cimd → Option ResolvedClient × Cimd
  receive t id none st = (none, st)
  receive t id (some r) st = keep_client t id r.cache_control (document_client id r) st

  unfoldable pub fetch_client : ℕ → Text → Text → Cimd → Option ResolvedClient × Cimd
  fetch_client t id url st =
      receive t id (f.fetch st.requests url) (record st { requests = suc st.requests })

  abbrev pub cached_or_fetched :
      ℕ → Text → Text → Option ResolvedClient → Cimd → Option ResolvedClient × Cimd
  cached_or_fetched t id url none st = fetch_client t id url st
  cached_or_fetched t id url (some rc) st = (some rc, st)

  unfoldable pub resolve : ℕ → Text → Cimd → Option ResolvedClient × Cimd
  resolve t id st = elim (validate_cimd_url f.web id) [
    | none ↦ (none, st)
    | some u ↦ cached_or_fetched t id (f.web.string u) (unexpired t (Dict.get st.cache id)) st
  ]
