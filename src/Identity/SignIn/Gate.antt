-- ===== src/Identity/SignIn/Gate.antt =====
-- identity/signin_manager.go: what a successful sign-in requires.
use go_idento.Prelude.{
  ◌≡◌, refl, ◌≢◌, inl, inr, ◌⊎◌, Bool, true, false, [], arith, Text, text_eq, text_beq_iff,
  if◌then◌else◌, Bool-cases,
}
use go_idento.Identity.Entities.{User}
use go_idento.Identity.Options.{Options}
use go_idento.Identity.World.{Env, World, persist}
use go_idento.Identity.World.Persist.{after_persist}
use go_idento.Identity.Lockout.{is_locked_out, check_password, rehash, reset_access_failed_count}
use go_idento.Identity.SignIn.{
  succeeded, two_factor, can_sign_in, sign_in_checked, sign_in_failed, password_sign_in_user,
}

persist_two_factor :
    (env : Env) (u : User) (w : World)
    → (persist env u w).0.1.two_factor_enabled ≡ u.two_factor_enabled
persist_two_factor env u w = ground (arith, after_persist env u w)

reset_two_factor :
    (env : Env) (u : User) (w : World)
    → (reset_access_failed_count env u w).0.1.two_factor_enabled ≡ u.two_factor_enabled
unfolding reset_access_failed_count
reset_two_factor env u w =
    ground (arith, persist_two_factor env (record u { access_failed_count = 0 }) w)

rehash_two_factor :
    (env : Env) (u : User) (pw : Text) (w : World)
    → (rehash env u pw w).0.two_factor_enabled ≡ u.two_factor_enabled
unfolding rehash
rehash_two_factor env u pw w = persist_two_factor env _ _

check_two_factor :
    (env : Env) (u : User) (pw : Text) (w : World)
    → (check_password env u pw w).0.1.two_factor_enabled ≡ u.two_factor_enabled
unfolding check_password
check_two_factor env u pw w = ground (arith, rehash_two_factor env u pw w)

check_right :
    (env : Env) (u : User) (pw : Text) (w : World)
    → (check_password env u pw w).0.0 ≡ true
    → (u.password_hash ≢ []) × ((env.verify u.password_hash pw).0 ≡ true)
unfolding check_password
check_right env u pw w h = ground (arith, text_beq_iff u.password_hash [])

failed_not_succeeded :
    (env : Env) (o : Options) (u : User) (b : Bool) (w : World)
    → ((sign_in_failed env o u b w).0.0.succeeded ≡ false)
      × ((sign_in_failed env o u b w).0.0.requires_two_factor ≡ false)
unfolding sign_in_failed
failed_not_succeeded env o u false w = (refl, refl)
failed_not_succeeded env o u true w = ground arith

checked_result :
    (env : Env) (o : Options) (u : User) (w : World)
    → (sign_in_checked env o u w).0.0 ≡ (if u.two_factor_enabled then two_factor else succeeded)
unfolding sign_in_checked
checked_result env o u w = ground (arith, reset_two_factor env u w)

module _ (env : Env) (o : Options) (u : User) (pw : Text) (lockout : Bool) (w : World) where
  -- The conditions under which the password is accepted.
  abbrev pub Accepted : Type 0
  Accepted =
      ((is_locked_out env u w).0 ≡ false)
      × (can_sign_in o.sign_in u ≡ true)
      × (u.password_hash ≢ [])
      × ((env.verify u.password_hash pw).0 ≡ true)

  gate :
      ((password_sign_in_user env o u pw lockout w).0.0.succeeded ≡ true
        → Accepted × (u.two_factor_enabled ≡ false))
      × ((password_sign_in_user env o u pw lockout w).0.0.requires_two_factor ≡ true
          → Accepted × (u.two_factor_enabled ≡ true))
  unfolding password_sign_in_user
  gate =
      let w1 = (is_locked_out env u w).1 in
      let c = check_password env u pw w1 in
      (
        ground (
          arith,
          check_right env u pw w1,
          checked_result env o c.0.1 c.1,
          failed_not_succeeded env o c.0.1 lockout c.1,
          check_two_factor env u pw w1,
        ),
        ground (
          arith,
          check_right env u pw w1,
          checked_result env o c.0.1 c.1,
          failed_not_succeeded env o c.0.1 lockout c.1,
          check_two_factor env u pw w1,
        ),
      )

  -- A password sign-in succeeds, or asks for the second factor, only for a user who is not locked
  -- out, may sign in, has a password and gave the right one; it succeeds outright only if the account
  -- has no second factor, and asks for one only if it has.
  pub sign_in_gate :
      ((password_sign_in_user env o u pw lockout w).0.0.succeeded ≡ false
        ⊎ Accepted × (u.two_factor_enabled ≡ false))
      × ((password_sign_in_user env o u pw lockout w).0.0.requires_two_factor ≡ false
          ⊎ Accepted × (u.two_factor_enabled ≡ true))
  sign_in_gate =
      let r = (password_sign_in_user env o u pw lockout w).0.0 in
      (
        elim (Bool-cases r.succeeded) [ inl t ↦ inr (gate.0 t) | inr f ↦ inl f ],
        elim (Bool-cases r.requires_two_factor) [ inl t ↦ inr (gate.1 t) | inr f ↦ inl f ],
      )
