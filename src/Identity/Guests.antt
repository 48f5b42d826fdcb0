-- ===== src/Identity/Guests.antt =====
-- identity/guest.go: guest users and their promotion.
use go_idento.Prelude.{true, false, not, ◌&&◌, [], ◌++◌, ◌==◌, if◌then◌else◌, Text, text_eq, codes}
use go_idento.Identity.Errors.{ok, err, not_anonymous, duplicate_user_name, duplicate_email}
use go_idento.Identity.Entities.{User, blank_user}
use go_idento.Identity.Options.{Options}
use go_idento.Identity.World.{Env, World, now, fresh}
use go_idento.Identity.Policy.{validate_user_name, validate_password}
use go_idento.Identity.Lockout.{Outcome, hash_password}
use go_idento.Identity.Accounts.{is_other, restamp}
use go_idento.MemStore.Users as Users
use go_idento.MemStore.Users.{find_by_name, find_by_email}

module _ (env : Env) (o : Options) where
  unfoldable pub create_anonymous : World → User × World
  create_anonymous w =
      let (id, w1) = fresh env w in
      let (suffix, w2) = fresh env w1 in
      let (security, w3) = fresh env w2 in
      let (concurrency, w4) = fresh env w3 in
      let (t, w5) = now env w4 in
      let name = codes "guest_" ++ suffix in
      let u : User = record blank_user {
        id = id;
        user_name = name;
        normalized_user_name = env.normalize name;
        is_anonymous = true;
        security_stamp = security;
        concurrency_stamp = concurrency;
        lockout_enabled = o.lockout.allowed_for_new_users;
        created_at = t;
      } in
      (u, record w5 { store = Users.create w5.store u })

  -- The account with its name, email and password, under a new security stamp.
  unfoldable pub promote : User → Text → Text → Text → World → Outcome
  promote u name email password w =
      let (h, w') = hash_password env password w in
      restamp env o
        (record u {
          user_name = name;
          normalized_user_name = env.normalize name;
          email = email;
          normalized_email = env.normalize email;
          password_hash = h;
          is_anonymous = false;
        })
        w'

  unfoldable pub promote_unless_taken : User → Text → Text → Text → World → Outcome
  promote_unless_taken u name email password w =
      let n = env.normalize email in
      if is_other u.id (find_by_name w.store (env.normalize name))
      then ((err duplicate_user_name, u), w)
      else if o.user.require_unique_email
          && (not (n == []) && is_other u.id (find_by_email w.store n))
      then ((err duplicate_email, u), w)
      else promote u name email password w

  unfoldable pub convert_to_registered : User → Text → Text → Text → World → Outcome
  convert_to_registered u name email password w =
      if not u.is_anonymous
      then ((err not_anonymous, u), w)
      else (elim (validate_user_name env o.user name) [
        | err e ↦ ((err e, u), w)
        | ok _ ↦ elim (validate_password env o.password password) [
          | err e ↦ ((err e, u), w)
          | ok _ ↦ promote_unless_taken u name email password w
        ]
      ])
