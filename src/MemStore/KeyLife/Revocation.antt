-- ===== src/MemStore/KeyLife/Revocation.antt =====
-- stores/memstore/apikey.go: the life of an API key, once it is revoked.
use go_idento.Prelude.{
  ℕ, ◌≡◌, refl, ◌≢◌, inl, inr, true, some, List, [], ◌∷◌, arith, ◌==◌, Text, text_eq, text_beq_iff,
  Option-cases, Bool-cases, is_some, sym, ◌∙◌,
}
use go_idento.Dict
use go_idento.Dict.{get-put, In-select, select-In}
use go_idento.Identity.Errors.{err, not_found}
use go_idento.Identity.Entities.{ApiKey}
use go_idento.MemStore.State.{Store}
use go_idento.MemStore.ApiKeys.{
  with_hash, create_api_key, get_active_api_key_by_hash, revoke_api_key, touch_api_key_last_used,
  inactive,
}
use go_idento.MemStore.KeyLife.{KeyCall, create, revoke, touch, run, with_hash-some, with_hash-none}
use go_idento.MemStore.KeyLife.Unique.{IsHashUnique}

record IsDead (hash id : Text) (s : Store) : Type 0 where
  key : ApiKey
  stored : Dict.get s.api_keys id ≡ some key
  hashed : key.key_hash ≡ hash
  all_revoked :
      (k : Text) (x : ApiKey)
      → Dict.get s.api_keys k ≡ some x
      → x.key_hash ≡ hash
      → is_some x.revoked_at ≡ true

get_active_dead :
    (s : Store) (hash id : Text) (now : ℕ)
    → IsDead hash id s
    → get_active_api_key_by_hash s hash now ≡ err not_found
unfolding get_active_api_key_by_hash inactive
get_active_dead s hash id now d = elim (Option-cases (with_hash s hash)) [
  | inl e ↦ ground arith
  | inr (y, e) ↦
      let (k, at, q) = with_hash-some s hash y e in ground (arith, d.all_revoked k y at q)
]

-- Writing a key that is revoked if it has the hash, and that has it if it replaces the first.
IsDead-put :
    (hash id : Text) (s : Store) (k : Text) (y : ApiKey) (d : IsDead hash id s)
    → (k ≡ id → y.key_hash ≡ hash)
    → (y.key_hash ≡ hash → is_some y.revoked_at ≡ true)
    → IsDead hash id (record s { api_keys = Dict.put s.api_keys k y })
IsDead-put hash id s k y d same dead = elim (Bool-cases (k == id)) [
  | inl h ↦ record {
    key = y;
    stored = rw (get-put s.api_keys k id y, h);
    hashed = same ((text_beq_iff k id).0 h);
    all_revoked = revoked;
  }
  | inr h ↦ record {
    key = d.key;
    stored = rw (get-put s.api_keys k id y, h) d.stored;
    hashed = d.hashed;
    all_revoked = revoked;
  }
]
  where
    revoked :
        (j : Text) (x : ApiKey)
        → Dict.get (Dict.put s.api_keys k y) j ≡ some x
        → x.key_hash ≡ hash
        → is_some x.revoked_at ≡ true
    revoked j x h q =
        ground (arith, get-put s.api_keys k j y, text_beq_iff k j, dead, d.all_revoked j x)

-- No call creates a key with the id.
abbrev pub KeepsId : Text → List KeyCall → Type 0
KeepsId id [] = Unit
KeepsId id (create k ∷ cs) = (k.id ≢ id) × KeepsId id cs
KeepsId id (_ ∷ cs) = KeepsId id cs

create-IsDead :
    (hash id : Text) (s : Store) (k : ApiKey)
    → k.id ≢ id
    → IsDead hash id s
    → IsDead hash id (create_api_key s k).1
unfolding create_api_key
create-IsDead hash id s k n d = elim (Option-cases (with_hash s k.key_hash)) [
  | inr (x, e) ↦ rw (e, create_api_key) d
  | inl e ↦
      rw (e, create_api_key)
        (IsDead-put hash id s k.id k d (λ q. absurd (n q))
          (λ q. absurd (with_hash-none s k.key_hash e id d.key d.stored (d.hashed ∙ sym q))))
]

revoke-IsDead :
    (hash id : Text) (s : Store) (k : Text) (now : ℕ)
    → IsDead hash id s
    → IsDead hash id (revoke_api_key s k now)
unfolding revoke_api_key
revoke-IsDead hash id s k now d = elim (Option-cases (Dict.get s.api_keys k)) [
  | inl e ↦ rw (e, revoke_api_key) d
  | inr (x, e) ↦ elim (Bool-cases (is_some x.revoked_at)) [
    | inl r ↦ rw (e, r, revoke_api_key) d
    | inr r ↦
        rw (e, r, revoke_api_key)
          (IsDead-put hash id s k (record x { revoked_at = some now }) d
            (λ q. ground (arith, d.stored, d.hashed)) (λ q. refl))
  ]
]

touch-IsDead :
    (hash id : Text) (s : Store) (k : Text) (now : ℕ)
    → IsDead hash id s
    → IsDead hash id (touch_api_key_last_used s k now)
unfolding touch_api_key_last_used
touch-IsDead hash id s k now d = elim (Option-cases (Dict.get s.api_keys k)) [
  | inl e ↦ rw (e, touch_api_key_last_used) d
  | inr (x, e) ↦
      rw (e, touch_api_key_last_used)
        (IsDead-put hash id s k (record x { last_used_at = some now }) d
          (λ q. ground (arith, d.stored, d.hashed)) (λ q. d.all_revoked k x e q))
]

run-IsDead :
    (hash id : Text) (s : Store) (cs : List KeyCall)
    → KeepsId id cs
    → IsDead hash id s
    → IsDead hash id (run s cs)
unfolding run
run-IsDead hash id s [] a d = d
run-IsDead hash id s (create k ∷ cs) a d =
    run-IsDead hash id (create_api_key s k).1 cs a.1 (create-IsDead hash id s k a.0 d)
run-IsDead hash id s (revoke k now ∷ cs) a d =
    run-IsDead hash id (revoke_api_key s k now) cs a (revoke-IsDead hash id s k now d)
run-IsDead hash id s (touch k now ∷ cs) a d =
    run-IsDead hash id (touch_api_key_last_used s k now) cs a (touch-IsDead hash id s k now d)

revoked-IsDead :
    (s : Store) (id : Text) (x : ApiKey) (now : ℕ)
    → IsHashUnique s
    → Dict.get s.api_keys id ≡ some x
    → IsDead x.key_hash id (revoke_api_key s id now)
unfolding revoke_api_key
revoked-IsDead s id x now u e = elim (Bool-cases (is_some x.revoked_at)) [
  | inl r ↦
      rw (e, r, revoke_api_key)
        (record {
          key = x;
          stored = e;
          hashed = refl;
          all_revoked = λ k y h q. ground (arith, u k id y x h e q);
        })
  | inr r ↦
      rw (e, r, revoke_api_key)
        (record {
          key = record x { revoked_at = some now };
          stored = ground (
            arith,
            get-put s.api_keys id id (record x { revoked_at = some now }),
            text_beq_iff id id,
          );
          hashed = refl;
          all_revoked = λ k y h q. ground (
            arith,
            get-put s.api_keys id k (record x { revoked_at = some now }),
            text_beq_iff id k,
            u k id y x,
          );
        })
]

-- Once a key is revoked its hash is not accepted again, whatever keys are created, touched and
-- revoked afterwards, if no new key takes its id.
pub revoked_forever :
    (s : Store) (id : Text) (x : ApiKey) (now later : ℕ) (cs : List KeyCall)
    → IsHashUnique s
    → Dict.get s.api_keys id ≡ some x
    → KeepsId id cs
    → get_active_api_key_by_hash (run (revoke_api_key s id now) cs) x.key_hash later ≡ err not_found
revoked_forever s id x now later cs u e a =
    get_active_dead _ x.key_hash id later
      (run-IsDead x.key_hash id _ cs a (revoked-IsDead s id x now u e))
