-- ===== src/Identity/SignIn/BruteForce/Failure.antt =====
-- identity/user_manager.go: what one failed sign-in does.
use go_idento.Prelude.{
  ℕ, suc, ◌+◌, ◌≤◌, ◌<◌, ◌≡◌, refl, true, false, some, arith, ◌==◌, Text, text_eq, text_beq_iff,
}
use go_idento.Dict
use go_idento.Dict.{get-put}
use go_idento.Identity.Entities.{User}
use go_idento.Identity.Options.{Options}
use go_idento.Identity.World.{Env, World, now}
use go_idento.Identity.World.Persist.{stamped, saved, persist_current}
use go_idento.Identity.Lockout.{is_locked_out, locked_at, check_password, access_failed, fail_once}
use go_idento.Identity.SignIn.{can_sign_in, sign_in_failed, password_sign_in_user}
use go_idento.MemStore.State.{Store}
use go_idento.MemStore.Lookups.{OnlyAt}

-- Asking whether a user is locked out reads the clock at most once and writes nothing.
pub asked :
    (env : Env) (u : User) (w : World)
    → ((is_locked_out env u w).1.store ≡ w.store)
      × ((is_locked_out env u w).1.draws ≡ w.draws)
      × (w.reads ≤ (is_locked_out env u w).1.reads)
      × ((is_locked_out env u w).1.reads ≤ suc w.reads)
unfolding is_locked_out now
asked env u w = ground arith

pub asked_unlocked :
    (env : Env) (u : User) (w : World)
    → locked_at u (env.clock w.reads) ≡ false
    → (is_locked_out env u w).0 ≡ false
unfolding is_locked_out now
asked_unlocked env u w h = ground arith

pub asked_locked :
    (env : Env) (u : User) (w : World)
    → locked_at u (env.clock w.reads) ≡ true
    → (is_locked_out env u w).0 ≡ true
unfolding is_locked_out now locked_at
asked_locked env u w h = ground arith

module _ (env : Env) (o : Options) where
  -- What one failure does to the user in memory.
  pub failed_fields :
      (u : User) (w : World)
      → ((fail_once env o u w).0.id ≡ u.id)
        × ((fail_once env o u w).0.concurrency_stamp ≡ u.concurrency_stamp)
        × ((fail_once env o u w).0.normalized_user_name ≡ u.normalized_user_name)
        × ((fail_once env o u w).0.password_hash ≡ u.password_hash)
        × ((fail_once env o u w).0.lockout_enabled ≡ u.lockout_enabled)
        × ((fail_once env o u w).1.store ≡ w.store)
        × (w.reads ≤ (fail_once env o u w).1.reads)
  unfolding fail_once now
  failed_fields u w = ground arith

  pub failed_can_sign_in :
      (u : User) (w : World)
      → let f = fail_once env o u w in
        can_sign_in o.sign_in (stamped env f.0 f.1) ≡ can_sign_in o.sign_in u
  unfolding fail_once can_sign_in
  failed_can_sign_in u w = ground arith

  -- A wrong password of a user who may try is a failure.
  pub wrong_password :
      (u : User) (pw : Text) (w : World)
      → (is_locked_out env u w).0 ≡ false
      → can_sign_in o.sign_in u ≡ true
      → (env.verify u.password_hash pw).0 ≡ false
      → password_sign_in_user env o u pw true w
        ≡ sign_in_failed env o u true (is_locked_out env u w).1
  unfolding password_sign_in_user check_password
  wrong_password u pw w a b c = ground arith

  pub failed_world :
      (u : User) (w : World)
      → Dict.get w.store.users u.id ≡ some u
      → let f = fail_once env o u w in
        (sign_in_failed env o u true w).1
        ≡ (is_locked_out env (stamped env f.0 f.1) (saved env f.0 f.1)).1
  unfolding sign_in_failed access_failed
  failed_world u w e =
      let f = fail_once env o u w in rw (persist_current env f.0 f.1 u at same) refl
    where
      at : Dict.get (fail_once env o u w).1.store.users (fail_once env o u w).0.id ≡ some u
      at = ground (arith, failed_fields u w, e)

      same : (u.concurrency_stamp == (fail_once env o u w).0.concurrency_stamp) ≡ true
      same = ground (arith, failed_fields u w, text_beq_iff u.concurrency_stamp u.concurrency_stamp)

  -- A failure below the limit is counted and locks nothing.
  pub fail_counts :
      (u : User) (w : World)
      → suc u.access_failed_count < o.lockout.max_failed_access_attempts
      → ((fail_once env o u w).0.access_failed_count ≡ suc u.access_failed_count)
        × ((fail_once env o u w).0.lockout_end ≡ u.lockout_end)
  unfolding fail_once
  fail_counts u w h = ground arith

  -- The failure that reaches the limit sets the end of the lock.
  pub fail_locks :
      (u : User) (w : World)
      → o.lockout.max_failed_access_attempts ≤ suc u.access_failed_count
      → (fail_once env o u w).0.lockout_end
        ≡ some (env.clock w.reads + o.lockout.default_lockout_duration)
  unfolding fail_once now
  fail_locks u w h = ground arith

  pub same_lock :
      (u v : User) (t : ℕ)
      → v.lockout_enabled ≡ u.lockout_enabled
      → v.lockout_end ≡ u.lockout_end
      → locked_at v t ≡ locked_at u t
  unfolding locked_at
  same_lock u v t a b = ground arith

-- Replacing the row of a name by one of the same name keeps the name its own.
pub OnlyAt-put :
    (s : Store) (u v : User)
    → v.id ≡ u.id
    → v.normalized_user_name ≡ u.normalized_user_name
    → OnlyAt s u.id u.normalized_user_name
    → OnlyAt (record s { users = Dict.put s.users v.id v }) v.id v.normalized_user_name
OnlyAt-put s u v e n only k x h q =
    ground (arith, get-put s.users v.id k v, text_beq_iff v.id k, only k x)
