-- ===== src/Identity/SignIn/BruteForce/Guess.antt =====
-- identity/signin_manager.go: one wrong guess at the password of an account.
use go_idento.Prelude.{
  ℕ, suc, ◌+◌, ◌≤◌, ◌<◌, ◌≡◌, refl, ◌∙◌, ap, Bool, true, false, some, arith, Text, text_eq,
  text_beq_iff, subst,
}
use go_idento.Dict
use go_idento.Dict.{get-put}
use go_idento.Identity.Errors.{ok}
use go_idento.Identity.Entities.{User}
use go_idento.Identity.Options.{Options}
use go_idento.Identity.World.{Env, World}
use go_idento.Identity.World.Persist.{stamped, saved}
use go_idento.Identity.Lockout.{is_locked_out, locked_at, fail_once}
use go_idento.Identity.SignIn.{can_sign_in, password_sign_in_user, password_sign_in}
use go_idento.MemStore.Users.{find_by_name}
use go_idento.MemStore.Lookups.{OnlyAt, find_by_name_only}
use go_idento.Identity.SignIn.BruteForce.Failure.{
  asked, asked_unlocked, failed_fields, failed_can_sign_in, wrong_password, failed_world,
  OnlyAt-put, fail_counts, fail_locks, same_lock,
}

-- The row of an account that can be guessed at: the name is its own, no lock is on, and `n` failures
-- were counted.
pub record IsTarget (env : Env) (o : Options) (name hash : Text) (n : ℕ) (w : World) : Type 0 where
  pub row : User
  pub stored : Dict.get w.store.users row.id ≡ some row
  pub named : row.normalized_user_name ≡ env.normalize name
  pub only : OnlyAt w.store row.id row.normalized_user_name
  pub hashed : row.password_hash ≡ hash
  pub enabled : row.lockout_enabled ≡ true
  pub may : can_sign_in o.sign_in row ≡ true
  pub free : (t : ℕ) → locked_at row (env.clock t) ≡ false
  pub counted : row.access_failed_count ≡ n

-- The row is locked until `end`.
pub record IsLockedRow (env : Env) (name : Text) (end : ℕ) (w : World) : Type 0 where
  pub row : User
  pub stored : Dict.get w.store.users row.id ≡ some row
  pub named : row.normalized_user_name ≡ env.normalize name
  pub only : OnlyAt w.store row.id row.normalized_user_name
  pub enabled : row.lockout_enabled ≡ true
  pub ends : row.lockout_end ≡ some end

module _ (env : Env) (o : Options) (name : Text) where
  pub find_target :
      (w : World) (u : User)
      → Dict.get w.store.users u.id ≡ some u
      → u.normalized_user_name ≡ env.normalize name
      → OnlyAt w.store u.id u.normalized_user_name
      → find_by_name w.store (env.normalize name) ≡ ok u
  find_target w u e n only =
      subst (λ t. find_by_name w.store t ≡ ok u) n (find_by_name_only w.store u.id u e only)

  pub sign_in_found :
      (u : User) (pw : Text) (b : Bool) (w : World)
      → find_by_name w.store (env.normalize name) ≡ ok u
      → let r = password_sign_in_user env o u pw b w in
        password_sign_in env o name pw b w ≡ ((r.0.0, some r.0.1), r.1)
  unfolding password_sign_in
  sign_in_found u pw b w e = rw (e, password_sign_in) refl

  -- The world after a wrong guess.
  pub guessed :
      (w : World) (u : User) (pw : Text)
      → Dict.get w.store.users u.id ≡ some u
      → u.normalized_user_name ≡ env.normalize name
      → OnlyAt w.store u.id u.normalized_user_name
      → can_sign_in o.sign_in u ≡ true
      → locked_at u (env.clock w.reads) ≡ false
      → (env.verify u.password_hash pw).0 ≡ false
      → let w1 = (is_locked_out env u w).1 in
        let f = fail_once env o u w1 in
        (password_sign_in env o name pw true w).1
        ≡ (is_locked_out env (stamped env f.0 f.1) (saved env f.0 f.1)).1
  guessed w u pw e n only may free wrong =
      rw
        (
          sign_in_found u pw true w (find_target w u e n only),
          wrong_password env o u pw w (asked_unlocked env u w free) may wrong,
        )
        (failed_world env o u (is_locked_out env u w).1 (rw ((asked env u w).0) e))

  -- The world where the failed user was stored, and the clock read at most once since.
  record Stored (u v : User) (w w' : World) : Type 0 where
    row_at : Dict.get w'.store.users v.id ≡ some v
    only_at : OnlyAt w'.store v.id v.normalized_user_name

  Stored-after :
      (w : World) (u : User)
      → Dict.get w.store.users u.id ≡ some u
      → OnlyAt w.store u.id u.normalized_user_name
      → let w1 = (is_locked_out env u w).1 in
        let f = fail_once env o u w1 in
        let v = stamped env f.0 f.1 in Stored u v w (is_locked_out env v (saved env f.0 f.1)).1
  Stored-after w u e only =
      let w1 = (is_locked_out env u w).1 in
      let f = fail_once env o u w1 in
      let v = stamped env f.0 f.1 in
      record {
        row_at =
            rw ((asked env v (saved env f.0 f.1)).0)
              (ground (arith, get-put f.1.store.users v.id v.id v, text_beq_iff v.id v.id));
        only_at =
            rw
              ((asked env v (saved env f.0 f.1)).0, (failed_fields env o u w1).5, (asked env u w).0)
              (OnlyAt-put w.store u v (failed_fields env o u w1).0 (failed_fields env o u w1).2
                only);
      }

  pub guess_below :
      (hash pw : Text) (n : ℕ) (w : World)
      → suc n < o.lockout.max_failed_access_attempts
      → (env.verify hash pw).0 ≡ false
      → IsTarget env o name hash n w
      → IsTarget env o name hash (suc n) (password_sign_in env o name pw true w).1
  guess_below hash pw n w h wrong g =
      let u = g.row in
      let w1 = (is_locked_out env u w).1 in
      let f = fail_once env o u w1 in
      let v = stamped env f.0 f.1 in
      let kept = failed_fields env o u w1 in
      let s = Stored-after w u g.stored g.only in
      let c = fail_counts env o u w1 (ground (arith, g.counted)) in
      rw (guessed w u pw g.stored g.named g.only g.may (g.free w.reads) (rw (g.hashed) wrong))
        (record {
          row = v;
          stored = s.row_at;
          named = kept.2 ∙ g.named;
          only = s.only_at;
          hashed = kept.3 ∙ g.hashed;
          enabled = kept.4 ∙ g.enabled;
          may = failed_can_sign_in env o u w1 ∙ g.may;
          free = λ t. same_lock env o u v (env.clock t) kept.4 c.1 ∙ g.free t;
          counted = c.0 ∙ ap suc g.counted;
        })

  pub guess_reads :
      (hash pw : Text) (n : ℕ) (w : World)
      → (env.verify hash pw).0 ≡ false
      → IsTarget env o name hash n w
      → w.reads ≤ (password_sign_in env o name pw true w).1.reads
  guess_reads hash pw n w wrong g =
      let u = g.row in
      let w1 = (is_locked_out env u w).1 in
      let f = fail_once env o u w1 in
      let v = stamped env f.0 f.1 in
      rw (guessed w u pw g.stored g.named g.only g.may (g.free w.reads) (rw (g.hashed) wrong)) (
        omega (
          arith,
          (asked env u w).2,
          (failed_fields env o u w1).6,
          (asked env v (saved env f.0 f.1)).2,
        ))

  pub guess_last :
      (hash pw : Text) (n : ℕ) (w : World)
      → o.lockout.max_failed_access_attempts ≤ suc n
      → (env.verify hash pw).0 ≡ false
      → IsTarget env o name hash n w
      → (r : ℕ) × (w.reads ≤ r)
        × IsLockedRow env name
            (env.clock r + o.lockout.default_lockout_duration)
            (password_sign_in env o name pw true w).1
  guess_last hash pw n w h wrong g =
      let u = g.row in
      let w1 = (is_locked_out env u w).1 in
      let f = fail_once env o u w1 in
      let v = stamped env f.0 f.1 in
      let kept = failed_fields env o u w1 in
      let s = Stored-after w u g.stored g.only in
      (
        w1.reads,
        (asked env u w).2,
        rw (guessed w u pw g.stored g.named g.only g.may (g.free w.reads) (rw (g.hashed) wrong))
            (record {
              row = v;
              stored = s.row_at;
              named = kept.2 ∙ g.named;
              only = s.only_at;
              enabled = kept.4 ∙ g.enabled;
              ends = fail_locks env o u w1 (ground (arith, g.counted));
            }),
      )
