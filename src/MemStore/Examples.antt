-- ===== src/MemStore/Examples.antt =====
-- Runs of the in-memory store of stores/memstore at concrete values.
use go_idento.Prelude.{
  ◌≤◌, ◌⊎◌, ◌≡◌, refl, ◌≢◌, true, none, some, List, [], ◌∷◌, arith, Text, text_eq, text_beq,
  text_beq_iff, codes,
}
use go_idento.Dict
use go_idento.Dict.{get-put, get-empty, unless}
use go_idento.Identity.Errors.{ok, err, not_found}
use go_idento.Identity.Entities.{User, UserLoginInfo, ApiKey, blank_user}
use go_idento.Oauth.Types.{Code, Grant}
use go_idento.MemStore.State.{Store, new, login_key}
use go_idento.MemStore.Users.{cascade_delete, purge_anonymous_users, stale_guest, find_by_id}
use go_idento.MemStore.Cascade.{IsGone, KeepsRows, cascade_delete-IsGone, cascade_delete-KeepsRows}
use go_idento.MemStore.Purge.{purged-IsGone}
use go_idento.MemStore.Updates.{Write, accepted, one_write_wins}
use go_idento.MemStore.Credentials.{add_login, remove_login, find_by_login}
use go_idento.MemStore.Bindings.{find_by_login-add_login, remove_login_of_another}
use go_idento.MemStore.ApiKeys.{get_active_api_key_by_hash, with_hash, inactive, revoke_api_key}
use go_idento.MemStore.KeyLife.{KeyCall, create, revoke, touch, run}
use go_idento.MemStore.KeyLife.Unique.{IsHashUnique, run-IsHashUnique}
use go_idento.MemStore.KeyLife.Revocation.{revoked_forever}
use go_idento.MemStore.Races.{
  mark_code_used, rotate_grant, use_client_assertion, delete_expired_client_assertions, wins,
}
use go_idento.MemStore.Races.Codes.{redeems, redeemed_once}
use go_idento.MemStore.Races.Rotations.{rotates, rotated_once}
use go_idento.MemStore.Races.Assertions.{presents, assertion_used_once}

abbrev ann : User
ann = record blank_user {
  id = codes "ann";
  normalized_user_name = codes "ANN";
  concurrency_stamp = codes "s";
}

abbrev bob : User
bob = record blank_user {
  id = codes "bob";
  normalized_user_name = codes "BOB";
  is_anonymous = true;
  created_at = 3;
}

abbrev code0 : Code
code0 = record {
  code_hash = codes "k";
  client_id = codes "c";
  user_id = codes "ann";
  redirect_uri = [];
  scopes = [];
  resource = [];
  code_challenge = [];
  expires_at = 50;
  used_at = none;
  grant_id = [];
}

abbrev grant0 : Grant
grant0 = record {
  id = codes "g";
  user_id = codes "ann";
  client_id = codes "c";
  scopes = [];
  resource = [];
  token_hash = codes "old";
  prev_token_hash = [];
  security_stamp = [];
  expires_at = 50;
  created_at = 1;
  last_used_at = none;
}

abbrev key0 : ApiKey
key0 = record {
  id = codes "key";
  user_id = codes "ann";
  name = [];
  prefix = [];
  key_hash = codes "hash";
  scopes = [];
  expires_at = some 40;
  last_used_at = none;
  revoked_at = none;
  created_at = 1;
}

abbrev login0 : UserLoginInfo
login0 = record { login_provider = codes "p"; provider_key = codes "1"; provider_display_name = [] }

-- Two users; the first has a code, a grant and an API key.
abbrev store0 : Store
store0 = record new {
  users = Dict.put (Dict.put Dict.empty (codes "ann") ann) (codes "bob") bob;
  oauth_codes = Dict.put Dict.empty (codes "k") code0;
  oauth_grants = Dict.put Dict.empty (codes "g") grant0;
  api_keys = Dict.put Dict.empty (codes "key") key0;
}

redeemed_once_example :
    wins
      (redeems (codes "k"))
      store0
      (mark_code_used (codes "k") (codes "g1") 5 ∷ mark_code_used (codes "k") (codes "g2") 6 ∷ [])
    ≤ 1
redeemed_once_example = redeemed_once (codes "k") store0 _ (tt, (tt, tt))

rotated_once_example :
    wins (rotates (codes "g") (codes "old")) store0 (
      rotate_grant (codes "g") (codes "old") (codes "new") 60 5
      ∷ rotate_grant (codes "g") (codes "old") (codes "newer") 60 6
      ∷ [])
    ≤ 1
rotated_once_example =
    rotated_once (codes "g") (codes "old") store0 _ (λ _ e. ground arith, (λ _ e. ground arith, tt))

assertion_used_once_example :
    wins (presents (codes "c", codes "j")) store0 (
      use_client_assertion (codes "c") (codes "j") 9
      ∷ delete_expired_client_assertions 4
      ∷ use_client_assertion (codes "c") (codes "j") 9
      ∷ [])
    ≤ 1
assertion_used_once_example =
    assertion_used_once (codes "c", codes "j") 7 store0 _
      (λ _. omega arith, (omega arith, (λ _. omega arith, tt)))

cascade_delete-IsGone_example : IsGone store0 (cascade_delete store0 (codes "ann")) (codes "ann")
cascade_delete-IsGone_example = cascade_delete-IsGone store0 (codes "ann")

plain_ids : (codes "ann" ≢ codes "bob")
plain_ids e = ground arith

cascade_delete-KeepsRows_example :
    KeepsRows store0 (cascade_delete store0 (codes "ann")) (codes "bob")
cascade_delete-KeepsRows_example =
    cascade_delete-KeepsRows store0 (codes "ann") (codes "bob")
      (λ e. omega arith, (λ e. omega arith, (λ e. omega arith, tt)))
      (λ e. omega arith, (λ e. omega arith, (λ e. omega arith, tt))) plain_ids

bob_stored : Dict.get store0.users (codes "bob") ≡ some bob
unfolding Dict.get Dict.put Dict.empty text_beq
bob_stored = refl

ann_stored : Dict.get store0.users (codes "ann") ≡ some ann
unfolding Dict.get Dict.put Dict.empty text_beq
ann_stored = refl

bob_stale : stale_guest 10 bob ≡ true
unfolding stale_guest
bob_stale = refl

purged-IsGone_example : IsGone store0 (purge_anonymous_users store0 10).1 (codes "bob")
purged-IsGone_example = purged-IsGone store0 10 (codes "bob") bob bob_stored bob_stale

abbrev writes : List Write
writes = record { copy = ann; fresh = codes "t" } ∷ record { copy = ann; fresh = codes "v" } ∷ []

one_write_wins_example : accepted store0 writes ≤ 1
one_write_wins_example =
    one_write_wins store0 (codes "ann") (codes "s") writes
      ((refl, refl, λ e. ground arith), ((refl, refl, λ e. ground arith), tt))

-- The login is bound to the first user.
abbrev bound : Store
bound = record store0 { login_user = Dict.put Dict.empty (codes "p|1") (codes "ann") }

binding : Dict.get bound.login_user (codes "p|1") ≡ some (codes "ann")
unfolding Dict.get Dict.put Dict.empty text_beq
binding = refl

login_added : (add_login store0 bob login0).0 ≡ ok tt
unfolding add_login Dict.get Dict.put Dict.empty text_beq login_key
login_added = refl

find_by_login-add_login_example :
    find_by_login (add_login store0 bob login0).1 (codes "p") (codes "1")
    ≡ find_by_id store0 (codes "bob")
find_by_login-add_login_example = find_by_login-add_login store0 bob login0 login_added

binding_key : Dict.get bound.login_user (login_key (codes "p") (codes "1")) ≡ some (codes "ann")
unfolding Dict.get Dict.put Dict.empty text_beq login_key
binding_key = refl

remove_login_of_another_example :
    find_by_login (remove_login bound bob (codes "p") (codes "1")) (codes "p") (codes "1")
    ≡ err not_found
remove_login_of_another_example =
    remove_login_of_another bound bob (codes "p") (codes "1") (codes "ann") plain_ids binding_key

-- The one key is the only one with its hash.
key_at : (k : Text) (x : ApiKey) → Dict.get store0.api_keys k ≡ some x → k ≡ codes "key"
key_at k x h = ground (
  arith,
  get-put Dict.empty (codes "key") k key0,
  get-empty {K = Text} {V = ApiKey} k,
  text_beq_iff (codes "key") k,
)

store0-IsHashUnique : IsHashUnique store0
store0-IsHashUnique j k x y hj hk q = ground (arith, key_at j x hj, key_at k y hk)

key_stored : Dict.get store0.api_keys (codes "key") ≡ some key0
unfolding Dict.get Dict.put Dict.empty text_beq
key_stored = refl

-- Calls after the revocation: the first takes the hash again, under another id.
abbrev later_calls : List KeyCall
later_calls =
    create (record key0 { id = codes "key2" }) ∷ touch (codes "key") 8 ∷ revoke (codes "key") 9 ∷ []

revoked_forever_example :
    get_active_api_key_by_hash
      (run (revoke_api_key store0 (codes "key") 5) later_calls)
      (codes "hash")
      20
    ≡ err not_found
revoked_forever_example =
    revoked_forever store0 (codes "key") key0 5 20 later_calls store0-IsHashUnique key_stored
      (λ e. ground arith, tt)

run-IsHashUnique_example : IsHashUnique (run store0 later_calls)
run-IsHashUnique_example = run-IsHashUnique later_calls store0 store0-IsHashUnique

key_active : get_active_api_key_by_hash store0 (codes "hash") 20 ≡ ok key0
unfolding get_active_api_key_by_hash with_hash inactive Dict.select Dict.put Dict.empty text_beq
key_active = refl

-- The rows of the two users.
row_at :
    (k : Text) (x : User)
    → Dict.get store0.users k ≡ some x
    → ((k ≡ codes "ann") × (x ≡ ann)) ⊎ ((k ≡ codes "bob") × (x ≡ bob))
row_at k x h = ground (
  arith,
  get-put (Dict.put Dict.empty (codes "ann") ann) (codes "bob") k bob,
  get-put Dict.empty (codes "ann") k ann,
  get-empty {K = Text} {V = User} k,
  text_beq_iff (codes "ann") k,
  text_beq_iff (codes "bob") k,
)
