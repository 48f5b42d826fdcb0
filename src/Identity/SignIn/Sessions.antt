-- ===== src/Identity/SignIn/Sessions.antt =====
-- identity/signin_manager.go, identity/external_login.go: sessions and external logins.
use go_idento.Prelude.{
  ◌≡◌, inl, inr, true, false, some, arith, Text, text_eq, text_beq_iff, Option-cases,
}
use go_idento.Dict
use go_idento.Identity.Entities.{User}
use go_idento.Identity.Options.{Options}
use go_idento.Identity.World.{Env, World}
use go_idento.Identity.Lockout.{is_locked_out}
use go_idento.Identity.SignIn.{can_sign_in, validate_security_stamp, refresh_sign_in}
use go_idento.MemStore.Users.{find_by_id}

module _ (env : Env) (o : Options) where
  -- A session is renewed only for a stored user with the stamp of the session, who is not locked out and
  -- may sign in.
  pub refresh_sign_in_only :
      (user_id stamp : Text) (w : World)
      → (refresh_sign_in env o user_id stamp w).0.0.succeeded ≡ true
      → (u : User) × (Dict.get w.store.users user_id ≡ some u)
        × (u.security_stamp ≡ stamp)
        × ((is_locked_out env u w).0 ≡ false)
        × (can_sign_in o.sign_in u ≡ true)
  unfolding refresh_sign_in validate_security_stamp find_by_id
  refresh_sign_in_only user_id stamp w h = elim (Option-cases (Dict.get w.store.users user_id)) [
    | inl e ↦ ground arith
    | inr (u, e) ↦
        (u, e, ground (arith, text_beq_iff u.security_stamp stamp), ground arith, ground arith)
  ]
