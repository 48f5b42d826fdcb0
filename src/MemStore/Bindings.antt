-- ===== src/MemStore/Bindings.antt =====
-- stores/memstore/memstore.go: external logins and tokens.
use go_idento.Prelude.{◌≡◌, ◌≢◌, some, arith, Text, text_eq, text_beq_iff}
use go_idento.Dict
use go_idento.Dict.{get-put, get-remove}
use go_idento.Identity.Errors.{ok, err, not_found}
use go_idento.Identity.Entities.{User, UserLoginInfo}
use go_idento.MemStore.State.{Store, token_key, login_key}
use go_idento.MemStore.Users.{find_by_id}
use go_idento.MemStore.Credentials.{get_token, set_token, add_login, remove_login, find_by_login}

-- A bound external login stays with its user whatever is added, also when the same login is added for
-- another user, which is refused.
pub add_login_keeps :
    (s : Store) (u : User) (login : UserLoginInfo) (k uid : Text)
    → Dict.get s.login_user k ≡ some uid
    → Dict.get (add_login s u login).1.login_user k ≡ some uid
unfolding add_login
add_login_keeps s u login k uid h = ground (
  arith,
  get-put s.login_user (login_key login.login_provider login.provider_key) k u.id,
  text_beq_iff (login_key login.login_provider login.provider_key) k,
)

-- After a login was added without an error, the search by it finds what the search by the id of the
-- user found before.
pub find_by_login-add_login :
    (s : Store) (u : User) (login : UserLoginInfo)
    → (add_login s u login).0 ≡ ok tt
    → find_by_login (add_login s u login).1 login.login_provider login.provider_key
      ≡ find_by_id s u.id
unfolding add_login find_by_login find_by_id
find_by_login-add_login s u login h = ground (
  arith,
  get-put s.login_user (login_key login.login_provider login.provider_key)
      (login_key login.login_provider login.provider_key) u.id,
  text_beq_iff (login_key login.login_provider login.provider_key)
      (login_key login.login_provider login.provider_key),
)

-- `RemoveLogin` of any user removes the login, also when it is bound to another user, who can then
-- no longer be found by it.
pub remove_login_of_another :
    (s : Store) (u : User) (provider key owner : Text)
    → owner ≢ u.id
    → Dict.get s.login_user (login_key provider key) ≡ some owner
    → find_by_login (remove_login s u provider key) provider key ≡ err not_found
unfolding remove_login find_by_login
remove_login_of_another s u provider key owner n h = ground (
  arith,
  get-remove s.login_user (login_key provider key) (login_key provider key),
  text_beq_iff (login_key provider key) (login_key provider key),
)

-- A token that is set is read back.
pub get_token-set_token :
    (s : Store) (u : User) (provider name v : Text)
    → get_token (set_token s u provider name v) u provider name ≡ v
unfolding get_token set_token
get_token-set_token s u provider name v =
    let k = token_key u.id provider name in ground (arith, get-put s.tokens k k v, text_beq_iff k k)
