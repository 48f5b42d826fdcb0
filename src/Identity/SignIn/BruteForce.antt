-- ===== src/Identity/SignIn/BruteForce.antt =====
-- identity/signin_manager.go, identity/user_manager.go: guessing a password locks the account.
mod Failure
pub mod Guess
use go_idento.Prelude.{
  ℕ, zero, suc, ◌+◌, ◌≤◌, ◌<◌, ◌≡◌, refl, ◌≢◌, ◌∙◌, sym, ap, inl, inr, ◌⊎◌, Bool, true, false, not,
  ◌&&◌, Option, none, some, List, [], ◌∷◌, arith, ◌==◌, Text, text_eq, text_beq_iff, if◌then◌else◌,
  Bool-cases, length, ltb, leb, subst,
}
use go_idento.Dict
use go_idento.Dict.{get-put}
use go_idento.Identity.Errors.{Result, ok, err}
use go_idento.Identity.Entities.{User}
use go_idento.Identity.Options.{Options}
use go_idento.Identity.World.{Env, World, now, persist}
use go_idento.Identity.World.Persist.{stamped, saved, persist_current}
use go_idento.Identity.Lockout.{is_locked_out, locked_at, check_password, access_failed, fail_once}
use go_idento.Identity.SignIn.{
  SignInResult, locked_out, can_sign_in, sign_in_failed, password_sign_in_user, password_sign_in,
}
use go_idento.MemStore.State.{Store}
use go_idento.MemStore.Users.{find_by_name}
use go_idento.MemStore.Lookups.{OnlyAt, find_by_name_only}
use go_idento.Identity.SignIn.BruteForce.Failure.{
  asked, asked_unlocked, asked_locked, failed_fields, failed_can_sign_in, wrong_password,
  failed_world, OnlyAt-put, fail_counts, fail_locks, same_lock,
}
use go_idento.Identity.SignIn.BruteForce.Guess.{
  IsTarget, IsLockedRow, find_target, sign_in_found, guess_below, guess_reads, guess_last,
}

module _ (env : Env) (o : Options) (name : Text) where
  refused_locked :
      (u : User) (pw : Text) (b : Bool) (w : World)
      → (is_locked_out env u w).0 ≡ true
      → (password_sign_in_user env o u pw b w).0 ≡ (locked_out, u)
  unfolding password_sign_in_user
  refused_locked u pw b w h = ground arith

  on_lock :
      (end : ℕ) (w : World) (l : IsLockedRow env name end w)
      → env.clock w.reads < end
      → locked_at l.row (env.clock w.reads) ≡ true
  unfolding locked_at
  on_lock end w l before = ground (arith, l.enabled, l.ends)

  -- Wrong guesses, one after another.
  unfoldable pub guess : List Text → World → World
  guess [] w = w
  guess (pw ∷ pws) w = guess pws (password_sign_in env o name pw true w).1

  abbrev pub AllWrong : Text → List Text → Type 0
  AllWrong hash [] = Unit
  AllWrong hash (pw ∷ pws) = ((env.verify hash pw).0 ≡ false) × AllWrong hash pws

  guess_until_locked :
      (pws : List Text) (hash : Text) (n : ℕ) (w : World)
      → n < o.lockout.max_failed_access_attempts
      → n + length pws ≡ o.lockout.max_failed_access_attempts
      → AllWrong hash pws
      → IsTarget env o name hash n w
      → (r : ℕ) × (w.reads ≤ r)
        × IsLockedRow env name (env.clock r + o.lockout.default_lockout_duration) (guess pws w)
  unfolding guess
  guess_until_locked [] hash n w h e a g = absurd (omega arith)
  guess_until_locked (pw ∷ []) hash n w h e a g =
      guess_last env o name hash pw n w (omega arith) a.0 g
  guess_until_locked (pw ∷ q ∷ pws) hash n w h e a g =
      let g' = guess_below env o name hash pw n w (omega arith) a.0 g in
      let (r, later, locked) =
        guess_until_locked (q ∷ pws) hash (suc n) (password_sign_in env o name pw true w).1
          (omega arith) (omega arith) a.1 g' in
      (r, omega (arith, guess_reads env o name hash pw n w a.0 g, later), locked)

  -- While the row is locked every password is refused, and nothing is written.
  locked_refuses :
      (end : ℕ) (w : World) (pw : Text) (b : Bool) (l : IsLockedRow env name end w)
      → env.clock w.reads < end
      → (password_sign_in env o name pw b w).0 ≡ (locked_out, some l.row)
  locked_refuses end w pw b l before =
      rw
        (sign_in_found env o name l.row pw b w
          (find_target env o name w l.row l.stored l.named l.only))
        (ground
          (arith, refused_locked l.row pw b w (asked_locked env l.row w (on_lock end w l before))))

  -- Where sign-in is called with lockoutOnFailure, which makes failures count: whoever knows only the
  -- name of an account and gives as many wrong passwords as the policy allows has locked it; if that
  -- took less than the lock's duration, the next password, the right one included, is answered with
  -- locked out, whether or not that call counts failures. The account has the name for itself, may sign
  -- in, has lockout enabled, no lock on and no counted failures, and the clock does not go back behind
  -- its reading at the first guess.
  pub guessing_locks :
      (pws : List Text) (hash pw : Text) (b : Bool) (w : World)
      → 0 < o.lockout.max_failed_access_attempts
      → length pws ≡ o.lockout.max_failed_access_attempts
      → AllWrong hash pws
      → IsTarget env o name hash 0 w
      → ((r : ℕ) → w.reads ≤ r → env.clock w.reads ≤ env.clock r)
      → env.clock (guess pws w).reads < env.clock w.reads + o.lockout.default_lockout_duration
      → (password_sign_in env o name pw b (guess pws w)).0.0 ≡ locked_out
  guessing_locks pws hash pw b w h e a g forward before =
      let (r, later, l) = guess_until_locked pws hash 0 w h (omega (arith, e)) a g in
      ap (λ x. x.0) (locked_refuses _ (guess pws w) pw b l (omega (arith, forward r later, before)))
