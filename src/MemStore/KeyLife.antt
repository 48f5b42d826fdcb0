-- ===== src/MemStore/KeyLife.antt =====
-- stores/memstore/apikey.go: the life of an API key, from its creation to its revocation.
pub mod Unique
pub mod Revocation
use go_idento.Prelude.{
  ℕ, ◌<◌, ◌≡◌, refl, ◌≢◌, inl, inr, Bool, true, false, ◌||◌, Option, none, some, List, [], ◌∷◌,
  arith, ◌==◌, Text, text_eq, text_beq_iff, if◌then◌else◌, Option-cases, Bool-cases, is_some, In,
  ltb, ◌⊎◌, subst, sym, ◌∙◌,
}
use go_idento.Dict
use go_idento.Dict.{get-put, In-select, select-In}
use go_idento.Identity.Errors.{Result, ok, err, not_found, login_already_used}
use go_idento.Identity.Entities.{ApiKey}
use go_idento.MemStore.State.{Store}
use go_idento.MemStore.ApiKeys.{
  with_hash, create_api_key, get_active_api_key_by_hash, revoke_api_key, touch_api_key_last_used,
  inactive, expired, first_key,
}

-- The search by hash finds a stored key, or no stored key has the hash.
abbrev Found : Store → Text → Option ApiKey → Type 0
Found s hash none = (k : Text) (x : ApiKey) → Dict.get s.api_keys k ≡ some x → x.key_hash ≢ hash
Found s hash (some x) = (k : Text) × (Dict.get s.api_keys k ≡ some x) × (x.key_hash ≡ hash)

first_key-Found :
    (s : Store) (hash : Text) (m : List (Text × ApiKey))
    → Dict.select s.api_keys (λ _ k. k.key_hash == hash) ≡ m
    → Found s hash (first_key m)
first_key-Found s hash [] e = λ k x h q.
    ground
      (arith, In-select s.api_keys (λ _ k. k.key_hash == hash) k x h, text_beq_iff x.key_hash hash)
first_key-Found s hash ((j, x) ∷ m) e =
    let (h, t) = select-In s.api_keys (λ _ k. k.key_hash == hash) j x (rw e (inl refl)) in
    (j, h, (text_beq_iff x.key_hash hash).0 t)

with_hash-Found : (s : Store) (hash : Text) → Found s hash (with_hash s hash)
unfolding with_hash
with_hash-Found s hash = first_key-Found s hash _ refl

pub with_hash-some :
    (s : Store) (hash : Text) (x : ApiKey)
    → with_hash s hash ≡ some x
    → (k : Text) × (Dict.get s.api_keys k ≡ some x) × (x.key_hash ≡ hash)
with_hash-some s hash x e = subst (Found s hash) e (with_hash-Found s hash)

pub with_hash-none :
    (s : Store) (hash : Text)
    → with_hash s hash ≡ none
    → (k : Text) (x : ApiKey) → Dict.get s.api_keys k ≡ some x
    → x.key_hash ≢ hash
with_hash-none s hash e = subst (Found s hash) e (with_hash-Found s hash)

-- A key that is answered is stored under the hash, was not revoked and has not expired.
pub active_key :
    (s : Store) (hash : Text) (now : ℕ) (x : ApiKey)
    → get_active_api_key_by_hash s hash now ≡ ok x
    → ((k : Text) × (Dict.get s.api_keys k ≡ some x))
      × (x.key_hash ≡ hash)
      × (x.revoked_at ≡ none)
      × ((x.expires_at ≡ none) ⊎ ((t : ℕ) × (x.expires_at ≡ some t) × (now < t)))
unfolding get_active_api_key_by_hash inactive
active_key s hash now x h = elim (Option-cases (with_hash s hash)) [
  | inl e ↦ ground arith
  | inr (y, e) ↦
      let same : y ≡ x = ground arith in
      let (k, at, q) = with_hash-some s hash x (rw (← same) e) in
      ((k, at), q, ground arith, ground arith)
]

-- Calls of the key store; a call of `create_api_key` that is refused changes nothing.
pub data KeyCall : Type 0 where
  create : ApiKey → KeyCall
  revoke touch : Text → ℕ → KeyCall

pub run : Store → List KeyCall → Store
run s [] = s
run s (create k ∷ cs) = run (create_api_key s k).1 cs
run s (revoke id now ∷ cs) = run (revoke_api_key s id now) cs
run s (touch id now ∷ cs) = run (touch_api_key_last_used s id now) cs

-- Some key has the hash, and each that has it is revoked.
