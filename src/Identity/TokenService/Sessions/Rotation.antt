-- ===== src/Identity/TokenService/Sessions/Rotation.antt =====
-- identity/token_service.go: what rotating a refresh session requires, and what it does.
use go_idento.Prelude.{
  ℕ, ◌+◌, ◌≤◌, ◌≡◌, refl, inl, inr, not, ◌||◌, some, [], arith, ◌==◌, if◌then◌else◌, Text, text_eq,
  text_beq_iff, ltb, length, Option-cases,
}
use go_idento.Dict
use go_idento.Dict.{get-put}
use go_idento.Identity.Errors.{ok, invalid_token}
use go_idento.Identity.Entities.{User, RefreshToken}
use go_idento.Identity.World.{Env, World, now, fresh}
use go_idento.Identity.Action.{andthen, require}
use go_idento.Identity.Action.Inversion.{andthen-ok, require-ok}
use go_idento.MemStore.RefreshTokens.{get_refresh_token_by_session, update_refresh_token}
use go_idento.Identity.TokenService.{TokenOptions, TokenPair, refresh_ttl}
use go_idento.Identity.TokenService.Claims.{sign_access_token}
use go_idento.Identity.TokenService.Sessions.{
  opaque, find_session, rotate_session, sign_and_rotate, refresh_session,
}

module _ (o : TokenOptions) (env : Env) (u : User) where
  -- The session after a rotation.
  abbrev pub rotated : RefreshToken → Text → ℕ → RefreshToken
  rotated rt secret t = record rt {
    token_hash = o.hash_refresh secret;
    expires_at = t + refresh_ttl o;
    last_used_at = some t;
  }

  find_session-ok :
      (id : Text) (w w' : World) (rt : RefreshToken)
      → find_session o env u id w ≡ (ok rt, w')
      → (Dict.get w.store.refresh_tokens id ≡ some rt) × (w' ≡ w)
  unfolding find_session get_refresh_token_by_session
  find_session-ok id w w' rt h = ground arith

  sign_store : (w : World) → (sign_access_token o env u w).1.store ≡ w.store
  unfolding sign_access_token now
  sign_store w = refl

  rotate_session-ok :
      (rt : RefreshToken) (t : ℕ) (at : Text × ℕ) (pair : TokenPair) (w w' : World)
      → rotate_session o env u rt t at w ≡ (ok (some pair), w')
      → (secret : Text) × (pair.refresh_token ≡ opaque rt.session_id secret)
        × ((k : Text)
            → Dict.get w'.store.refresh_tokens k ≡ (
                if rt.session_id == k
                then some (rotated rt secret t)
                else Dict.get w.store.refresh_tokens k))
  unfolding rotate_session update_refresh_token fresh
  rotate_session-ok rt t at pair w w' h = (
    env.random w.draws,
    ground (arith, Option-cases (Dict.get w.store.refresh_tokens rt.session_id)),
    λ k.
        ground (
          arith,
          get-put w.store.refresh_tokens rt.session_id k (rotated rt (env.random w.draws) t),
        ),
  )

  sign_and_rotate-ok :
      (rt : RefreshToken) (t : ℕ) (pair : TokenPair) (w w' : World)
      → sign_and_rotate o env u rt t w ≡ (ok (some pair), w')
      → (at : Text × ℕ) × (rotate_session o env u rt t at (sign_access_token o env u w).1
          ≡ (ok (some pair), w'))
  unfolding sign_and_rotate
  sign_and_rotate-ok rt t pair w w' h = elim (Option-cases (sign_access_token o env u w).0) [
    | inl e ↦ ground arith
    | inr (at, e) ↦ (at, ground arith)
  ]

  -- What a rotation requires, and what it leaves.
  abbrev pub Rotated : Text → Text → TokenPair → World → World → Type 0
  Rotated session_id secret pair w w' =
      (rt : RefreshToken) × (next : Text) × (Dict.get w.store.refresh_tokens session_id ≡ some rt)
      × (rt.user_id ≡ u.id)
      × (env.clock w.reads ≤ rt.expires_at)
      × (rt.token_hash ≡ o.hash_refresh secret)
      × (pair.refresh_token ≡ opaque rt.session_id next)
      × ((k : Text)
          → Dict.get w'.store.refresh_tokens k ≡ (
              if rt.session_id == k
              then some (rotated rt next (env.clock w.reads))
              else Dict.get w.store.refresh_tokens k))

  -- A refresh token of a session is exchanged only if the session is stored, is a session of the user, has
  -- not expired and holds the hash of the presented secret. The session then holds the hash of the new secret, that of
  -- the answer, with a new expiry, and every other session is as it was.
  pub refresh_session_only :
      (session_id secret : Text) (pair : TokenPair) (w w' : World)
      → refresh_session o env u session_id secret w ≡ (ok (some pair), w')
      → Rotated session_id secret pair w w'
  unfolding refresh_session now
  refresh_session_only session_id secret pair w w' h =
      let k4 = λ (rt : RefreshToken) (t : ℕ) (_ : Unit {0}). sign_and_rotate o env u rt t in
      let right = λ (rt : RefreshToken). rt.token_hash == o.hash_refresh secret in
      let k3 = λ (rt : RefreshToken) (t : ℕ) (_ : Unit {0}) (v : World).
        andthen (require (right rt) invalid_token v) (k4 rt t) in
      let live =
        λ (rt : RefreshToken) (t : ℕ). not (not (rt.user_id == u.id) || ltb rt.expires_at t) in
      let k2 = λ (rt : RefreshToken) (v : World).
        andthen (require (live rt (now env v).0) invalid_token (now env v).1)
          (k3 rt (now env v).0) in
      let k1 = λ (_ : Unit {0}) (v : World). andthen (find_session o env u session_id v) k2 in
      let (fits, h1) =
        require-ok (not (session_id == [] || ltb 64 (length session_id))) invalid_token k1
          (some pair) w w' h in
      let (rt, a, f, h2) = andthen-ok (find_session o env u session_id w) k2 (some pair) w' h1 in
      let (stored, e) = find_session-ok session_id w a rt f in
      let t = (now env a).0 in
      let (alive, h3) =
        require-ok (live rt t) invalid_token (k3 rt t) (some pair) (now env a).1 w' h2 in
      let (proved, h4) =
        require-ok (right rt) invalid_token (k4 rt t) (some pair) (now env a).1 w' h3 in
      let (at, h5) = sign_and_rotate-ok rt t pair (now env a).1 w' h4 in
      let (next, token, after) =
        rotate_session-ok rt t at pair (sign_access_token o env u (now env a).1).1 w' h5 in
      (
        rt,
        next,
        stored,
        ground (arith, text_beq_iff rt.user_id u.id),
        ground arith,
        ground (arith, text_beq_iff rt.token_hash (o.hash_refresh secret)),
        token,
        λ k. ground (arith, after k, sign_store (now env a).1),
      )
