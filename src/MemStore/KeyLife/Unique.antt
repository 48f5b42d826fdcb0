-- ===== src/MemStore/KeyLife/Unique.antt =====
-- stores/memstore/apikey.go: no two keys share a hash.
use go_idento.Prelude.{
  ℕ, ◌≡◌, refl, inl, inr, some, List, [], ◌∷◌, arith, Text, text_eq, text_beq_iff, Option-cases,
  Bool-cases, is_some,
}
use go_idento.Dict
use go_idento.Dict.{get-put, In-select, select-In}
use go_idento.Identity.Entities.{ApiKey}
use go_idento.MemStore.State.{Store}
use go_idento.MemStore.ApiKeys.{with_hash, create_api_key, revoke_api_key, touch_api_key_last_used}
use go_idento.MemStore.KeyLife.{KeyCall, create, revoke, touch, run, with_hash-none}

-- Each hash belongs to one key.
abbrev pub IsHashUnique : Store → Type 0
IsHashUnique s =
    (j k : Text) (x y : ApiKey)
    → Dict.get s.api_keys j ≡ some x
    → Dict.get s.api_keys k ≡ some y
    → x.key_hash ≡ y.key_hash
    → j ≡ k

create-IsHashUnique :
    (s : Store) (k : ApiKey) → IsHashUnique s → IsHashUnique (create_api_key s k).1
unfolding create_api_key
create-IsHashUnique s k u = elim (Option-cases (with_hash s k.key_hash)) [
  | inr (x, e) ↦ rw (e, create_api_key) u
  | inl e ↦
      rw (e, create_api_key)
        (λ i j x y hi hj q. ground (
          arith,
          get-put s.api_keys k.id i k,
          get-put s.api_keys k.id j k,
          text_beq_iff k.id i,
          text_beq_iff k.id j,
          with_hash-none s k.key_hash e i x,
          with_hash-none s k.key_hash e j y,
          u i j x y,
        ))
]

-- Writing a key again with the same hash.
rewrite-IsHashUnique :
    (s : Store) (k : Text) (x z : ApiKey)
    → Dict.get s.api_keys k ≡ some x
    → z.key_hash ≡ x.key_hash
    → IsHashUnique s
    → IsHashUnique (record s { api_keys = Dict.put s.api_keys k z })
rewrite-IsHashUnique s k x z e same u i j y w hi hj q = ground (
  arith,
  get-put s.api_keys k i z,
  get-put s.api_keys k j z,
  text_beq_iff k i,
  text_beq_iff k j,
  u i j y w,
  u i j x w,
  u i j y x,
  u i j x x,
)

revoke-IsHashUnique :
    (s : Store) (id : Text) (now : ℕ) → IsHashUnique s → IsHashUnique (revoke_api_key s id now)
unfolding revoke_api_key
revoke-IsHashUnique s id now u = elim (Option-cases (Dict.get s.api_keys id)) [
  | inl e ↦ rw (e, revoke_api_key) u
  | inr (x, e) ↦ elim (Bool-cases (is_some x.revoked_at)) [
    | inl r ↦ rw (e, r, revoke_api_key) u
    | inr r ↦ rw (e, r, revoke_api_key) (rewrite-IsHashUnique s id x _ e refl u)
  ]
]

touch-IsHashUnique :
    (s : Store) (id : Text) (now : ℕ)
    → IsHashUnique s
    → IsHashUnique (touch_api_key_last_used s id now)
unfolding touch_api_key_last_used
touch-IsHashUnique s id now u = elim (Option-cases (Dict.get s.api_keys id)) [
  | inl e ↦ rw (e, touch_api_key_last_used) u
  | inr (x, e) ↦ rw (e, touch_api_key_last_used) (rewrite-IsHashUnique s id x _ e refl u)
]

-- Each call of the key store keeps the hashes apart.
pub run-IsHashUnique : (cs : List KeyCall) (s : Store) → IsHashUnique s → IsHashUnique (run s cs)
unfolding run
run-IsHashUnique [] s u = u
run-IsHashUnique (create k ∷ cs) s u =
    run-IsHashUnique cs (create_api_key s k).1 (create-IsHashUnique s k u)
run-IsHashUnique (revoke id now ∷ cs) s u =
    run-IsHashUnique cs (revoke_api_key s id now) (revoke-IsHashUnique s id now u)
run-IsHashUnique (touch id now ∷ cs) s u =
    run-IsHashUnique cs (touch_api_key_last_used s id now) (touch-IsHashUnique s id now u)
