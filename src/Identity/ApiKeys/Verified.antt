-- ===== src/Identity/ApiKeys/Verified.antt =====
-- identity/apikey.go: which keys are accepted.
use go_idento.Prelude.{
  ℕ, suc, ◌≡◌, ◌≢◌, ◌<◌, ◌∙◌, ap, inl, inr, ◌⊎◌, false, none, some, [], arith, ◌==◌, Text, text_eq,
  text_beq_iff, Bool-cases,
}
use go_idento.Dict
use go_idento.Identity.Errors.{ok, Result-cases}
use go_idento.Identity.Entities.{User, ApiKey}
use go_idento.Identity.World.{Env, World, now}
use go_idento.Identity.Lockout.{is_locked_out}
use go_idento.MemStore.Users.{find_by_id}
use go_idento.MemStore.ApiKeys as Keys
use go_idento.MemStore.ApiKeys.{inactive}
use go_idento.MemStore.KeyLife.{active_key}
use go_idento.Identity.ApiKeys.{ApiKeyManager, admit_owner, recheck, verify_api_key}

module _ (m : ApiKeyManager) (env : Env) where
  -- The key is stored under the hash of the text, is active at two readings of the clock, and its owner
  -- exists and is not locked out.
  abbrev pub Verified : Text → World → User → ApiKey → Type 0
  Verified plaintext w u k =
      (plaintext ≢ [])
      × ((id : Text) × (Dict.get w.store.api_keys id ≡ some k))
      × (k.key_hash ≡ m.hasher plaintext)
      × (k.revoked_at ≡ none)
      × ((k.expires_at ≡ none) ⊎ ((t : ℕ) × (k.expires_at ≡ some t) × (env.clock w.reads < t)))
      × (inactive k (env.clock (suc w.reads)) ≡ false)
      × (find_by_id w.store k.user_id ≡ ok u)
      × ((is_locked_out env u (record w { reads = suc (suc w.reads) })).0 ≡ false)

  admit_owner-ok :
      (k k' : ApiKey) (u u' : User) (w w' : World)
      → admit_owner m env k u w ≡ (ok (u', k'), w')
      → ((is_locked_out env u w).0 ≡ false) × (u ≡ u') × (k ≡ k')
  unfolding admit_owner now
  admit_owner-ok k k' u u' w w' h = elim (Bool-cases (is_locked_out env u w).0) [
    | inl e ↦ absurd (ground (arith, rw (e, admit_owner) at h))
    | inr e ↦ let done = rw (e, admit_owner) at h in (e, ground (arith, done), ground (arith, done))
  ]

  recheck-ok :
      (k k' : ApiKey) (u : User) (w w' : World)
      → recheck m env k w ≡ (ok (u, k'), w')
      → (inactive k (env.clock w.reads) ≡ false)
        × (find_by_id w.store k.user_id ≡ ok u)
        × ((is_locked_out env u (record w { reads = suc w.reads })).0 ≡ false)
        × (k ≡ k')
  unfolding recheck now
  recheck-ok k k' u w w' h = elim (Bool-cases (inactive k (env.clock w.reads))) [
    | inl e ↦ absurd (ground (arith, rw (e, recheck) at h))
    | inr e ↦ elim (Result-cases (find_by_id w.store k.user_id)) [
      | inl (x, missing) ↦ absurd (ground (arith, rw (e, recheck, missing) at h))
      | inr (v, known) ↦
          let (free, same, key) =
            admit_owner-ok k k' v u (record w { reads = suc w.reads }) w'
              (rw (e, recheck, known) at h) in
          (e, known ∙ ap ok same, rw (← same) free, key)
    ]
  ]

  -- A text is accepted as an API key only if a key with its hash is stored, was not revoked and has not
  -- expired, at both readings of the clock, and the owner of the key exists and is not locked out; the
  -- answer is this key and this owner.
  pub verify_api_key_only :
      (plaintext : Text) (u : User) (k : ApiKey) (w w' : World)
      → verify_api_key m env plaintext w ≡ (ok (u, k), w')
      → Verified plaintext w u k
  unfolding verify_api_key now
  verify_api_key_only plaintext u k w w' h = elim (Bool-cases (plaintext == [])) [
    | inl e ↦ absurd (ground (arith, rw (e, verify_api_key) at h))
    | inr e ↦
        elim (Result-cases
          (Keys.get_active_api_key_by_hash w.store (m.hasher plaintext) (env.clock w.reads))) [
            | inl (x, missing) ↦ absurd (ground (arith, rw (e, verify_api_key, missing) at h))
            | inr (y, found) ↦ accepted y found (rw (e, verify_api_key, found) at h) e
          ]
  ]
    where
      accepted :
          (y : ApiKey)
          → Keys.get_active_api_key_by_hash w.store (m.hasher plaintext) (env.clock w.reads) ≡ ok y
          → recheck m env y (record w { reads = suc w.reads }) ≡ (ok (u, k), w')
          → (plaintext == []) ≡ false
          → Verified plaintext w u k
      accepted y found h e =
          let (active, known, free, same) =
            recheck-ok y k u (record w { reads = suc w.reads }) w' h in
          let (at, hashed, live, lasting) =
            active_key w.store (m.hasher plaintext) (env.clock w.reads) k (found ∙ ap ok same) in
          (
            λ p. ground (arith, e, p, text_beq_iff plaintext []),
            at,
            hashed,
            live,
            lasting,
            rw (← same) active,
            rw (← same) known,
            free,
          )
