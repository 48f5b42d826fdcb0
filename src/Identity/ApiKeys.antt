-- ===== src/Identity/ApiKeys.antt =====
-- identity/apikey.go: the manager of API keys, over the in-memory store.
pub mod Verified
mod Examples
use go_idento.Prelude.{
  ℕ, Bool, true, false, ◌||◌, not, Option, none, some, List, [], ◌++◌, ◌==◌, if◌then◌else◌, Text,
  text_eq, ltb, nat_beq, length, take, is_some,
}
use go_idento.Identity.Errors.{Result, ok, err, invalid_api_key}
use go_idento.Identity.Entities.{User, ApiKey}
use go_idento.Identity.World.{Env, World, now, fresh}
use go_idento.Identity.Lockout.{is_locked_out}
use go_idento.MemStore.State.{Store}
use go_idento.MemStore.Users.{find_by_id}
use go_idento.MemStore.ApiKeys as Keys
use go_idento.MemStore.ApiKeys.{inactive}

pub record ApiKeyOptions : Type 0 where
  pub name : Text
  pub expires_at : Option ℕ
  pub scopes : List Text

-- The prefix of generated keys, and the length of the displayed one; a length that is not positive is
-- zero. The hasher is a function of the application.
pub record ApiKeyManager : Type 0 where
  pub hasher : Text → Text
  pub prefix : Text
  pub prefix_len : ℕ

unfoldable pub display_prefix : Text → ℕ → Text
display_prefix secret n =
    let m = if nat_beq n 0 then 8 else n in
    take (if ltb (length secret) m then length secret else m) secret

-- What is answered where the store takes a key.
abbrev pub answered : {A : Type 0} → A → World → Result (Unit {0}) × Store → Result A × World
answered a w (ok _, s) = (ok a, record w { store = s })
answered a w (err e, s) = (err e, record w { store = s })

-- m.Store.CreateAPIKey(ctx, k)
unfoldable pub store_key : {A : Type 0} → A → ApiKey → World → Result A × World
store_key a k w = answered a w (Keys.create_api_key w.store k)

module _ (m : ApiKeyManager) (env : Env) where
  unfoldable pub create_api_key : User → ApiKeyOptions → World → Result (Text × ApiKey) × World
  create_api_key u opts w =
      let (token, w1) = fresh env w in
      let secret = m.prefix ++ token in
      let (id, w2) = fresh env w1 in
      let (t, w3) = now env w2 in
      let k : ApiKey = record {
        id = id;
        user_id = u.id;
        name = opts.name;
        prefix = display_prefix secret m.prefix_len;
        key_hash = m.hasher secret;
        scopes = opts.scopes;
        expires_at = opts.expires_at;
        last_used_at = none;
        revoked_at = none;
        created_at = t;
      } in
      store_key (secret, k) k w3

  unfoldable pub import_api_key :
      Text → Text → Text → Text → Option ℕ → List Text → World → Result ApiKey × World
  import_api_key user_id name prefix key_hash expires_at scopes w =
      let (id, w1) = fresh env w in
      let (t, w2) = now env w1 in
      let k : ApiKey = record {
        id = id;
        user_id = user_id;
        name = name;
        prefix = prefix;
        key_hash = key_hash;
        scopes = scopes;
        expires_at = expires_at;
        last_used_at = none;
        revoked_at = none;
        created_at = t;
      } in
      store_key k k w2

  -- The owner of an active key.
  unfoldable pub admit_owner : ApiKey → User → World → Result (User × ApiKey) × World
  admit_owner k u w =
      let (locked, w1) = is_locked_out env u w in
      if locked
      then (err invalid_api_key, w1)
      else (let (t, w2) = now env w1 in
          (ok (u, k), record w2 { store = Keys.touch_api_key_last_used w2.store k.id t }))

  -- The check of the manager itself, at its own time.
  unfoldable pub recheck : ApiKey → World → Result (User × ApiKey) × World
  recheck k w =
      let (t, w1) = now env w in
      if inactive k t then (err invalid_api_key, w1) else (elim (find_by_id w1.store k.user_id) [
        | err e ↦ (err invalid_api_key, w1)
        | ok u ↦ admit_owner k u w1
      ])

  unfoldable pub verify_api_key : Text → World → Result (User × ApiKey) × World
  verify_api_key plaintext w =
      if plaintext == []
      then (err invalid_api_key, w)
      else (let (t, w1) = now env w in
          elim (Keys.get_active_api_key_by_hash w1.store (m.hasher plaintext) t) [
            | err e ↦ (err invalid_api_key, w1)
            | ok k ↦ recheck k w1
          ])

  unfoldable pub revoke_api_key : Text → World → World
  revoke_api_key id w =
      let (t, w1) = now env w in record w1 { store = Keys.revoke_api_key w1.store id t }

unfoldable pub list_api_keys : User → World → List ApiKey
list_api_keys u w = Keys.list_api_keys_by_user w.store u.id
