-- ===== src/Identity/ApiKeys/Examples.antt =====
-- A run of identity/apikey.go: a key is created and accepted.
use go_idento.Prelude.{
  ◌+◌, ◌≡◌, refl, true, false, none, some, [], ◌∷◌, ◌==◌, Text, text_eq, text_beq, codes, take,
}
use go_idento.Dict
use go_idento.Identity.Errors.{ok}
use go_idento.Identity.Entities.{User, blank_user, ApiKey}
use go_idento.Identity.World.{Env, World, now, fresh}
use go_idento.Identity.Lockout.{is_locked_out}
use go_idento.MemStore.State.{new}
use go_idento.MemStore.Users.{find_by_id}
use go_idento.MemStore.ApiKeys as Keys
use go_idento.Identity.ApiKeys.{
  ApiKeyManager, ApiKeyOptions, display_prefix, store_key, create_api_key, admit_owner, recheck,
  verify_api_key,
}
use go_idento.Identity.ApiKeys.Verified.{Verified, verify_api_key_only}

abbrev env0 : Env
env0 = record {
  random = λ n. b'r' ∷ n ∷ [];
  clock = λ n. n + 1000;
  normalize = λ t. t;
  hash = λ _ t. t;
  verify = λ h t. (h == t, false);
  runes = λ t. t;
  trim_space = λ t. t;
  is_digit = λ _. false;
  is_upper = λ _. false;
  is_lower = λ _. false;
  is_letter = λ _. true;
}

abbrev manager0 : ApiKeyManager
manager0 = record { hasher = λ t. b'#' ∷ t; prefix = codes "p-"; prefix_len = 3 }

abbrev user0 : User
user0 = record blank_user { id = codes "u" }

abbrev world0 : World
world0 = record {
  store = record new { users = Dict.put Dict.empty (codes "u") user0 };
  draws = 0;
  reads = 0;
}

abbrev wanted0 : ApiKeyOptions
wanted0 = record { name = codes "n"; expires_at = some 2000; scopes = [] }

abbrev key0 : ApiKey
key0 = record {
  id = b'r' ∷ 1 ∷ [];
  user_id = codes "u";
  name = codes "n";
  prefix = codes "p-r";
  key_hash = b'#' ∷ b'p' ∷ b'-' ∷ b'r' ∷ 0 ∷ [];
  scopes = [];
  expires_at = some 2000;
  last_used_at = none;
  revoked_at = none;
  created_at = 1000;
}

abbrev secret0 : Text
secret0 = b'p' ∷ b'-' ∷ b'r' ∷ 0 ∷ []

abbrev world1 : World
world1 = (create_api_key manager0 env0 user0 wanted0 world0).1

verified0 :
    verify_api_key manager0 env0 secret0 world1
    ≡ (ok (user0, key0), (verify_api_key manager0 env0 secret0 world1).1)
unfolding create_api_key fresh now store_key Keys.create_api_key Keys.with_hash verify_api_key
    display_prefix take Keys.get_active_api_key_by_hash Keys.inactive Dict.select recheck find_by_id
    admit_owner is_locked_out Keys.touch_api_key_last_used Dict.get Dict.put Dict.empty text_beq
verified0 = refl

verify_api_key_only_example : Verified manager0 env0 secret0 world1 user0 key0
verify_api_key_only_example =
    verify_api_key_only manager0 env0 secret0 user0 key0 world1 _ verified0
