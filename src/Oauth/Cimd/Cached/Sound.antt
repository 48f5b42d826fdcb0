-- ===== src/Oauth/Cimd/Cached/Sound.antt =====
-- oauth/cimd.go: what holds of every client that a metadata document gives.
use go_idento.Prelude.{
  ℕ, suc, ◌<◌, ◌≤◌, ◌≡◌, refl, ◌∙◌, subst, sym, inl, inr, ◌⊎◌, true, Option, none, some, [], arith,
  ◌==◌, Text, text_eq, text_beq_iff, all, length, ltb, Bool-cases, Option-cases,
}
use go_idento.Dict
use go_idento.Dict.{Dict, get-put, get-empty, get-drop_where, unless}
use go_idento.Oauth.Urls.{validate_redirect_uri}
use go_idento.Oauth.Server.{ResolvedClient}
use go_idento.Oauth.Clients.{method_none, method_private_key_jwt}
use go_idento.Oauth.Cimd.{CimdDocument, Fetched, CimdEntry, Fetcher, Cimd, cache_ttl}
use go_idento.Oauth.Cimd.Documents.{
  Method, method_of, key_method, validate_cimd_url, validate_cimd_document,
}
use go_idento.Oauth.Cimd.Cached.{
  unexpired, make_room, remember, document_client, keep_client, receive, fetch_client,
  cached_or_fetched, resolve,
}

-- The client has the id that was asked for, valid redirect URIs and no shared secret: it is public or
-- has a key.
abbrev pub Valid : Fetcher → Text → ResolvedClient → Type 0
Valid f id rc =
    (rc.id ≡ id)
    × (0 < length rc.redirect_uris)
    × (all (validate_redirect_uri f.web) rc.redirect_uris ≡ true)
    × (rc.secret_hash ≡ [])
    × ((rc.auth_method ≡ method_none) ⊎ (rc.auth_method ≡ method_private_key_jwt))

key_method-method :
    (f : Fetcher) (d : CimdDocument) (m : Method)
    → key_method f d ≡ some m
    → m.auth_method ≡ method_private_key_jwt
unfolding key_method
key_method-method f d m h = ground arith

method_of-method :
    (f : Fetcher) (d : CimdDocument) (m : Method)
    → method_of f d ≡ some m
    → (m.auth_method ≡ method_none) ⊎ (m.auth_method ≡ method_private_key_jwt)
unfolding method_of
method_of-method f d m h = ground (arith, key_method-method f d m)

validate_cimd_document-Valid :
    (f : Fetcher) (id : Text) (d : CimdDocument) (rc : ResolvedClient)
    → validate_cimd_document f id d ≡ some rc
    → Valid f id rc
unfolding validate_cimd_document
validate_cimd_document-Valid f id d rc h = elim (Option-cases (method_of f d)) [
  | inl e ↦ absurd (ground (arith, rw (e, validate_cimd_document) at h))
  | inr (m, e) ↦ ground (arith, method_of-method f d m e, rw (e, validate_cimd_document) at h)
]

-- Each cached client is one for its id.
abbrev pub IsSound : Fetcher → Dict Text CimdEntry → Type 0
IsSound f cache = (id : Text) (e : CimdEntry) → Dict.get cache id ≡ some e → Valid f id e.client

document_client-Valid :
    (f : Fetcher) (id : Text) (r : Fetched) (rc : ResolvedClient)
    → document_client f id r ≡ some rc
    → Valid f id rc
unfolding document_client
document_client-Valid f id r rc h = elim (Option-cases (f.decode r.body)) [
  | inl e ↦ absurd (ground (arith, rw (e, document_client) at h))
  | inr (d, e) ↦
      validate_cimd_document-Valid f id d rc (ground (arith, rw (e, document_client) at h))
]

none-Sound : (f : Fetcher) → IsSound f Dict.empty
none-Sound f id e at = absurd (ground (arith, sym (get-empty id) ∙ at))

kept-IsSound :
    (f : Fetcher) (t : ℕ) (cache : Dict Text CimdEntry)
    → IsSound f cache
    → IsSound f (Dict.drop_where cache (λ _ e. ltb e.expires t))
kept-IsSound f t cache h id e at =
    h id e (ground (arith, at, get-drop_where cache (λ _ e. ltb e.expires t) id))

make_room-IsSound :
    (f : Fetcher) (t : ℕ) (cache : Dict Text CimdEntry)
    → IsSound f cache
    → IsSound f (make_room t cache)
unfolding make_room
make_room-IsSound f t cache h = elim (Bool-cases (ltb 1000 (Dict.size cache))) [
  | inr small ↦ rw small h
  | inl large ↦
      elim (Bool-cases (ltb 1000 (Dict.size (Dict.drop_where cache (λ _ e. ltb e.expires t))))) [
        | inl still ↦ rw (large, still) (none-Sound f)
        | inr fits ↦ rw (large, fits) (kept-IsSound f t cache h)
      ]
]

put-IsSound :
    (f : Fetcher) (cache : Dict Text CimdEntry) (id : Text) (new : CimdEntry)
    → Valid f id new.client
    → IsSound f cache
    → IsSound f (Dict.put cache id new)
put-IsSound f cache id new v h j e at = elim (Bool-cases (id == j)) [
  | inl same ↦
      let here : new ≡ e = ground (arith, rw (get-put cache id j new) at at, same) in
      rw (← (text_beq_iff id j).0 same) (subst (λ x. Valid f id x.client) here v)
  | inr other ↦ h j e (ground (arith, rw (get-put cache id j new) at at, other))
]

remember-IsSound :
    (f : Fetcher) (ttl : Option ℕ) (t : ℕ) (id : Text) (rc : ResolvedClient) (st : Cimd)
    → Valid f id rc
    → IsSound f st.cache
    → IsSound f (remember ttl t id rc st).cache
remember-IsSound f none t id rc st v h = h
remember-IsSound f (some ttl) t id rc st v h =
    put-IsSound f (make_room t st.cache) id _ v (make_room-IsSound f t st.cache h)

-- A client that was resolved is valid, and the cache is sound after it.
abbrev pub Sound : Fetcher → Text → Option ResolvedClient × Cimd → Type 0
Sound f id (o, st) = ((rc : ResolvedClient) → o ≡ some rc → Valid f id rc) × IsSound f st.cache

keep_client-Sound :
    (f : Fetcher) (t : ℕ) (id header : Text) (o : Option ResolvedClient) (st : Cimd)
    → ((rc : ResolvedClient) → o ≡ some rc → Valid f id rc)
    → IsSound f st.cache
    → Sound f id (keep_client f t id header o st)
keep_client-Sound f t id header none st v h = (v, h)
keep_client-Sound f t id header (some rc) st v h =
    (v, remember-IsSound f (cache_ttl f header) t id rc st (v rc refl) h)

receive-Sound :
    (f : Fetcher) (t : ℕ) (id : Text) (o : Option Fetched) (st : Cimd)
    → IsSound f st.cache
    → Sound f id (receive f t id o st)
receive-Sound f t id none st h = (λ rc e. absurd (ground arith), h)
receive-Sound f t id (some r) st h =
    keep_client-Sound f t id r.cache_control (document_client f id r) st
      (document_client-Valid f id r) h

fetch_client-Sound :
    (f : Fetcher) (t : ℕ) (id url : Text) (st : Cimd)
    → IsSound f st.cache
    → Sound f id (fetch_client f t id url st)
unfolding fetch_client
fetch_client-Sound f t id url st h =
    receive-Sound f t id (f.fetch st.requests url) (record st { requests = suc st.requests }) h

cached-Sound :
    (f : Fetcher) (t : ℕ) (id url : Text) (o : Option CimdEntry) (st : Cimd)
    → Dict.get st.cache id ≡ o
    → IsSound f st.cache
    → Sound f id (cached_or_fetched f t id url (unexpired t o) st)
cached-Sound f t id url none st at h = fetch_client-Sound f t id url st h
cached-Sound f t id url (some e) st at h = elim (Bool-cases (ltb t e.expires)) [
  | inr old ↦ rw old (fetch_client-Sound f t id url st h)
  | inl live ↦ rw live (
    λ rc same.
        let here : e.client ≡ rc = ground (arith, same) in subst (Valid f id) here (h id e at),
    h,
  )
]

-- Starting from a sound cache, whatever the network answers: a client that is resolved has the id
-- that was asked for, valid redirect URIs, and no shared secret, and the cache stays sound, so that no
-- entry serves another id.
pub resolve-Sound :
    (f : Fetcher) (t : ℕ) (id : Text) (st : Cimd)
    → IsSound f st.cache
    → Sound f id (resolve f t id st)
unfolding resolve
resolve-Sound f t id st h = elim (Option-cases (validate_cimd_url f.web id)) [
  | inl e ↦ rw (e, resolve) (λ rc same. absurd (ground (arith, same)), h)
  | inr (u, e) ↦
      rw (e, resolve) (cached-Sound f t id (f.web.string u) (Dict.get st.cache id) st refl h)
]

-- A document is cached for a time between the bounds that are set.
pub cache_ttl-InBounds :
    (f : Fetcher) (header : Text) (ttl : ℕ)
    → f.min_ttl ≤ f.max_ttl
    → cache_ttl f header ≡ some ttl
    → (0 < ttl) × (f.min_ttl ≤ ttl) × (ttl ≤ f.max_ttl)
unfolding cache_ttl
cache_ttl-InBounds f header ttl fits h = ground arith
