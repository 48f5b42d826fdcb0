-- ===== src/Oauth/Token/Inversion.antt =====
-- oauth/token.go: what is known of a user who gets tokens.
use go_idento.Prelude.{◌≡◌, false, some, arith, Text, text_eq}
use go_idento.Dict
use go_idento.Identity.Entities.{User}
use go_idento.Identity.World.{World}
use go_idento.Identity.Lockout.{is_locked_out}
use go_idento.MemStore.Users.{find_by_id}
use go_idento.Oauth.Server.{Server, ok}
use go_idento.Oauth.Token.{available_user}

module _ (s : Server) where
  pub available_user-ok :
      (id : Text) (w w' : World) (u : User)
      → available_user s id w ≡ (ok u, w')
      → (Dict.get w.store.users id ≡ some u)
        × ((is_locked_out s.env u w).0 ≡ false)
        × (w' ≡ (is_locked_out s.env u w).1)
  unfolding available_user find_by_id
  available_user-ok id w w' u h = ground arith
