-- ===== src/MemStore/Credentials.antt =====
-- stores/memstore/memstore.go: a user's tokens and external logins.
use go_idento.Prelude.{none, some, List, [], ◌∷◌, ◌==◌, Text, text_eq}
use go_idento.Dict
use go_idento.Dict.{Dict}
use go_idento.Identity.Errors.{Result, ok, err, not_found, login_already_used}
use go_idento.Identity.Entities.{User, UserLoginInfo}
use go_idento.MemStore.State.{Store, token_key, login_key}
use go_idento.MemStore.Users.{find_by_id}
use go_idento.MemStore.Memberships.{get_or}

unfoldable pub get_token : Store → User → Text → Text → Text
get_token s u provider name = get_or s.tokens (token_key u.id provider name) []

unfoldable pub set_token : Store → User → Text → Text → Text → Store
set_token s u provider name value = record s {
  tokens = Dict.put s.tokens (token_key u.id provider name) value;
}

unfoldable pub remove_token : Store → User → Text → Text → Store
remove_token s u provider name = record s {
  tokens = Dict.remove s.tokens (token_key u.id provider name);
}

unfoldable pub add_login : Store → User → UserLoginInfo → Result (Unit {0}) × Store
add_login s u login =
    let k = login_key login.login_provider login.provider_key in
    elim (Dict.get s.login_user k) [
      | some _ ↦ (err login_already_used, s)
      | none ↦ (
        ok tt,
        record s { logins = Dict.put s.logins k login; login_user = Dict.put s.login_user k u.id },
      )
    ]

-- The user is not looked at.
unfoldable pub remove_login : Store → User → Text → Text → Store
remove_login s u provider key = record s {
  logins = Dict.remove s.logins (login_key provider key);
  login_user = Dict.remove s.login_user (login_key provider key);
}

abbrev blank_login : UserLoginInfo
blank_login = record { login_provider = []; provider_key = []; provider_display_name = [] }

unfoldable pub infos : Dict Text UserLoginInfo → List (Text × Text) → List UserLoginInfo
infos logins [] = []
infos logins ((k, uid) ∷ m) = get_or logins k blank_login ∷ infos logins m

unfoldable pub get_logins : Store → User → List UserLoginInfo
unfolding infos
get_logins s u = infos s.logins (Dict.select s.login_user (λ _ uid. uid == u.id))

-- The lock is released between the two reads; no other call comes between them here.
unfoldable pub find_by_login : Store → Text → Text → Result User
find_by_login s provider key = elim (Dict.get s.login_user (login_key provider key)) [
  | none ↦ err not_found
  | some uid ↦ find_by_id s uid
]
