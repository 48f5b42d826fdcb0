-- ===== src/Identity/Accounts.antt =====
-- identity/user_manager.go: creating users, and changing names, emails and passwords. A method that
-- writes to the user it is given returns the user, also with an error.
pub mod Names
use go_idento.Prelude.{
  Bool, true, false, not, ◌&&◌, List, [], ◌==◌, if◌then◌else◌, Text, text_eq, none,
}
use go_idento.Identity.Errors.{
  Result, ok, err, duplicate_user_name, duplicate_email, password_mismatch, password_already_set,
}
use go_idento.Identity.Entities.{User}
use go_idento.Identity.Options.{Options}
use go_idento.Identity.World.{Env, World, fresh, persist}
use go_idento.Identity.Policy.{validate_user_name, validate_password}
use go_idento.Identity.Lockout.{Outcome, hash_password, check_password}
use go_idento.MemStore.State.{Store}
use go_idento.MemStore.Users as Users
use go_idento.MemStore.Users.{find_by_name, find_by_email}

-- The lookup found a user.
abbrev pub is_found : Result User → Bool
is_found (ok x) = true
is_found (err e) = false

-- The lookup found a user with another id.
abbrev pub is_other : Text → Result User → Bool
is_other id (ok x) = not (x.id == id)
is_other id (err e) = false

module _ (env : Env) (o : Options) where
  -- if b.ID == "" { b.ID = uuid.NewString() }
  unfoldable pub with_id : User → World → User × World
  with_id u w = if u.id == [] then (record u { id = (fresh env w).0 }, (fresh env w).1) else (u, w)

  -- What `prepareForCreate` writes to the user.
  unfoldable pub prepared : User → World → User × World
  prepared u w =
      let (v, w1) = with_id u w in
      let (security, w2) = fresh env w1 in
      let (concurrency, w3) = fresh env w2 in
      (
        record v {
          normalized_user_name = env.normalize u.user_name;
          normalized_email = env.normalize u.email;
          security_stamp = security;
          concurrency_stamp = concurrency;
          lockout_enabled = o.lockout.allowed_for_new_users;
        },
        w3,
      )

  -- The checks of a new user against the stored ones.
  unfoldable pub check_new : Store → User → Result (Unit {0})
  check_new s v =
      if is_found (find_by_name s v.normalized_user_name)
      then err duplicate_user_name
      else if o.user.require_unique_email
          && (not (v.email == []) && is_found (find_by_email s v.normalized_email))
      then err duplicate_email
      else ok tt

  unfoldable pub prepare_for_create : User → World → Outcome
  prepare_for_create u w = elim (validate_user_name env o.user u.user_name) [
    | err e ↦ ((err e, u), w)
    | ok _ ↦ let (v, w') = prepared u w in ((check_new w'.store v, v), w')
  ]

  -- m.Store.Create(ctx, u)
  unfoldable pub insert : User → World → Outcome
  insert u w = ((ok tt, u), record w { store = Users.create w.store u })

  unfoldable pub create : User → World → Outcome
  create u w =
      let ((r, v), w1) = prepare_for_create u w in
      elim r [ err e ↦ ((err e, v), w1) | ok _ ↦ insert v w1 ]

  -- The password is hashed once the user was accepted.
  unfoldable pub insert_with : Text → User → World → Outcome
  insert_with pw v w =
      let (h, w') = hash_password env pw w in insert (record v { password_hash = h }) w'

  unfoldable pub create_with_password : User → Text → World → Outcome
  create_with_password u pw w = elim (validate_password env o.password pw) [
    | err e ↦ ((err e, u), w)
    | ok _ ↦
        let ((r, v), w1) = prepare_for_create u w in
        elim r [ err e ↦ ((err e, v), w1) | ok _ ↦ insert_with pw v w1 ]
  ]

  -- The user with a new security stamp is written.
  unfoldable pub restamp : User → World → Outcome
  restamp u w =
      let (stamp, w') = fresh env w in persist env (record u { security_stamp = stamp }) w'

  unfoldable pub set_user_name : User → Text → World → Outcome
  set_user_name u name w = elim (validate_user_name env o.user name) [
    | err e ↦ ((err e, u), w)
    | ok _ ↦
        if is_other u.id (find_by_name w.store (env.normalize name))
        then ((err duplicate_user_name, u), w)
        else restamp (record u { user_name = name; normalized_user_name = env.normalize name }) w
  ]

  unfoldable pub set_email : User → Text → World → Outcome
  set_email u email w =
      let n = env.normalize email in
      if o.user.require_unique_email && (not (n == []) && is_other u.id (find_by_email w.store n))
      then ((err duplicate_email, u), w)
      else restamp (record u { email = email; normalized_email = n; email_confirmed = false }) w

  -- The new hash and a new security stamp are written.
  unfoldable pub set_password : User → Text → World → Outcome
  set_password u pw w =
      let (h, w') = hash_password env pw w in restamp (record u { password_hash = h }) w'

  unfoldable pub change_password : User → Text → Text → World → Outcome
  change_password u current new_password w =
      let ((right, v), w1) = check_password env u current w in
      if not right
      then ((err password_mismatch, v), w1)
      else (elim (validate_password env o.password new_password) [
        | err e ↦ ((err e, v), w1)
        | ok _ ↦ set_password v new_password w1
      ])

  unfoldable pub add_password : User → Text → World → Outcome
  add_password u pw w =
      if not (u.password_hash == [])
      then ((err password_already_set, u), w)
      else (elim (validate_password env o.password pw) [
        | err e ↦ ((err e, u), w)
        | ok _ ↦ set_password u pw w
      ])

  unfoldable pub remove_password : User → World → Outcome
  remove_password u w = restamp (record u { password_hash = [] }) w
