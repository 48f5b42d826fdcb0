-- ===== src/Identity/Lockout.antt =====
-- identity/user_manager.go: the lockout, and `CheckPassword`. A method that writes to the user it is
-- given returns the user, also with an error. What is only logged is dropped.
use go_idento.Prelude.{
  ℕ, suc, ◌+◌, Bool, true, false, not, ◌&&◌, none, some, [], ◌==◌, if◌then◌else◌, Text, text_eq,
  ltb, leb, nat_beq,
}
use go_idento.Identity.Errors.{Result, ok}
use go_idento.Identity.Entities.{User}
use go_idento.Identity.Options.{Options}
use go_idento.Identity.World.{Env, World, now, persist}

abbrev pub Outcome : Type 0
Outcome = (Result (Unit {0}) × User) × World

-- Whether the user would be locked out at this time.
unfoldable pub locked_at : User → ℕ → Bool
locked_at u t = u.lockout_enabled && (elim u.lockout_end [ none ↦ false | some end ↦ ltb t end ])

-- The clock is read only where a lockout end is set.
unfoldable pub is_locked_out : Env → User → World → Bool × World
is_locked_out env u w = if not u.lockout_enabled then (false, w) else (elim u.lockout_end [
  | none ↦ (false, w)
  | some end ↦ (locked_at u (now env w).0, (now env w).1)
])

module _ (env : Env) (o : Options) where
  -- The user with one failure more.
  unfoldable pub fail_once : User → World → User × World
  fail_once u w =
      if leb o.lockout.max_failed_access_attempts (suc u.access_failed_count)
      then (
        record u {
          lockout_end = some ((now env w).0 + o.lockout.default_lockout_duration);
          access_failed_count = 0;
        },
        (now env w).1,
      )
      else (record u { access_failed_count = suc u.access_failed_count }, w)

  unfoldable pub access_failed : User → World → Outcome
  access_failed u w = let (u', w') = fail_once u w in persist env u' w'

unfoldable pub reset_access_failed_count : Env → User → World → Outcome
reset_access_failed_count env u w =
    if nat_beq u.access_failed_count 0
    then ((ok tt, u), w)
    else persist env (record u { access_failed_count = 0 }) w

-- m.Hasher.Hash: the salt is drawn.
unfoldable pub hash_password : Env → Text → World → Text × World
hash_password env pw w = (env.hash w.draws pw, record w { draws = suc w.draws })

-- The stored hash is renewed if it is outdated; the user keeps the new hash where the write fails.
unfoldable pub rehash : Env → User → Text → World → User × World
rehash env u pw w =
    let (h, w1) = hash_password env pw w in
    let ((r, u'), w2) = persist env (record u { password_hash = h }) w1 in (u', w2)

unfoldable pub check_password : Env → User → Text → World → (Bool × User) × World
check_password env u pw w =
    if u.password_hash == []
    then ((false, u), w)
    else if not (env.verify u.password_hash pw).0
    then ((false, u), w)
    else if (env.verify u.password_hash pw).1
    then ((true, (rehash env u pw w).0), (rehash env u pw w).1)
    else ((true, u), w)
