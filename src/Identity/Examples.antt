-- ===== src/Identity/Examples.antt =====
-- Runs of the sign-in of identity/signin_manager.go at concrete values.
use go_idento.Prelude.{
  ℕ, ◌+◌, ◌<◌, ◌≡◌, refl, ◌⊎◌, ◌↔◌, true, false, some, List, [], ◌∷◌, arith, ◌==◌, Text, text_eq,
  text_beq, text_beq_iff, codes,
}
use go_idento.Dict
use go_idento.Dict.{get-put, get-empty}
use go_idento.Identity.Entities.{User, blank_user}
use go_idento.Identity.Options.{Options, default_options, five_minutes}
use go_idento.Identity.World.{Env, World, now, persist}
use go_idento.Identity.Lockout.{is_locked_out, locked_at, check_password, access_failed, fail_once}
use go_idento.Identity.SignIn.{
  locked_out, can_sign_in, sign_in_failed, password_sign_in_user, password_sign_in,
}
use go_idento.Identity.SignIn.Gate.{Accepted, sign_in_gate}
use go_idento.Identity.Policy.{validate_password}
use go_idento.Identity.Accounts.Names.{
  IsSound, Account, register, register_with, rename, remove, run, run-IsSound,
}
use go_idento.Identity.Policy.Rules.{Meets, validate_password_iff}
use go_idento.Identity.Errors.{ok}
use go_idento.Identity.SignIn.Sessions.{refresh_sign_in_only}
use go_idento.Identity.SignIn.{validate_security_stamp, refresh_sign_in}
use go_idento.MemStore.Users.{find_by_id}
use go_idento.Identity.SignIn.BruteForce.{guess, guessing_locks}
use go_idento.Identity.SignIn.BruteForce.Guess.{IsTarget}
use go_idento.MemStore.State.{new}
use go_idento.MemStore.Users.{find_by_name, find_by, update}

abbrev env0 : Env
env0 = record {
  random = λ n. b'r' ∷ n ∷ [];
  clock = λ n. n + 1000;
  normalize = λ t. t;
  hash = λ _ t. t;
  verify = λ h t. (h == t, false);
  runes = λ t. t;
  trim_space = λ t. t;
  is_digit = λ _. false;
  is_upper = λ _. false;
  is_lower = λ _. false;
  is_letter = λ _. true;
}

-- Two failures lock for five minutes.
abbrev options0 : Options
options0 = record default_options {
  lockout = record {
    allowed_for_new_users = true;
    max_failed_access_attempts = 2;
    default_lockout_duration = five_minutes;
  };
}

abbrev ann : User
ann = record blank_user {
  id = codes "ann";
  normalized_user_name = codes "ANN";
  password_hash = codes "pw";
  concurrency_stamp = codes "s";
  lockout_enabled = true;
}

abbrev world0 : World
world0 = record {
  store = record new { users = Dict.put Dict.empty (codes "ann") ann };
  draws = 0;
  reads = 0;
}

sign_in_gate_example :
    ((password_sign_in_user env0 options0 ann (codes "pw") true world0).0.0.succeeded ≡ false
      ⊎ Accepted env0 options0 ann (codes "pw") true world0 × (ann.two_factor_enabled ≡ false))
    × ((password_sign_in_user env0 options0 ann (codes "pw") true world0).0.0.requires_two_factor
          ≡ false
        ⊎ Accepted env0 options0 ann (codes "pw") true world0 × (ann.two_factor_enabled ≡ true))
sign_in_gate_example = sign_in_gate env0 options0 ann (codes "pw") true world0

ann_stored : Dict.get world0.store.users (codes "ann") ≡ some ann
unfolding Dict.get Dict.put Dict.empty text_beq
ann_stored = refl

row_at : (k : Text) (x : User) → Dict.get world0.store.users k ≡ some x → k ≡ codes "ann"
row_at k x h = ground (
  arith,
  get-put Dict.empty (codes "ann") k ann,
  get-empty {K = Text} {V = User} k,
  text_beq_iff (codes "ann") k,
)

may : can_sign_in options0.sign_in ann ≡ true
unfolding can_sign_in
may = refl

free : (t : ℕ) → locked_at ann (env0.clock t) ≡ false
unfolding locked_at
free t = refl

target : IsTarget env0 options0 (codes "ANN") (codes "pw") 0 world0
target = record {
  row = ann;
  stored = ann_stored;
  named = refl;
  only = λ k x h q. row_at k x h;
  hashed = refl;
  enabled = refl;
  may = may;
  free = free;
  counted = refl;
}

abbrev guesses : List Text
guesses = codes "a" ∷ codes "b" ∷ []

wrong : (env0.verify (codes "pw") (codes "a")).0 ≡ false
unfolding text_beq
wrong = refl

wrong_too : (env0.verify (codes "pw") (codes "b")).0 ≡ false
unfolding text_beq
wrong_too = refl

in_time :
    env0.clock (guess env0 options0 (codes "ANN") guesses world0).reads
    < env0.clock world0.reads + options0.lockout.default_lockout_duration
unfolding guess password_sign_in find_by_name find_by Dict.select Dict.get Dict.put Dict.empty
    text_beq password_sign_in_user is_locked_out can_sign_in check_password sign_in_failed
    access_failed fail_once persist update locked_at now
in_time = omega arith

guessing_locks_example :
    (password_sign_in env0 options0
      (codes "ANN")
      (codes "pw")
      true
      (guess env0 options0 (codes "ANN") guesses world0)).0.0
    ≡ locked_out
guessing_locks_example =
    guessing_locks env0 options0 (codes "ANN") guesses (codes "pw") (codes "pw") true world0
      (omega arith) refl (wrong, (wrong_too, tt)) target (λ r _. omega arith) in_time

validate_password_iff_example :
    (validate_password env0 options0.password (codes "Secret-1") ≡ ok tt)
    ↔ Meets env0 options0.password (codes "Secret-1")
validate_password_iff_example = validate_password_iff env0 options0.password (codes "Secret-1")

renewed : (refresh_sign_in env0 options0 (codes "ann") [] world0).0.0.succeeded ≡ true
unfolding refresh_sign_in validate_security_stamp find_by_id Dict.get Dict.put Dict.empty text_beq
    is_locked_out can_sign_in
renewed = refl

refresh_sign_in_only_example :
    (u : User) × (Dict.get world0.store.users (codes "ann") ≡ some u)
    × (u.security_stamp ≡ [])
    × ((is_locked_out env0 u world0).0 ≡ false)
    × (can_sign_in options0.sign_in u ≡ true)
refresh_sign_in_only_example = refresh_sign_in_only env0 options0 (codes "ann") [] world0 renewed

world0-IsSound : IsSound world0.store
world0-IsSound = record {
  keyed = λ k x h. ground (
    arith,
    get-put Dict.empty (codes "ann") k ann,
    get-empty {K = Text} {V = User} k,
    text_beq_iff (codes "ann") k,
  );
  unique = λ j k x y hj hk q. ground (arith, row_at j x hj, row_at k y hk);
}

abbrev accounts : List (Account env0 options0)
accounts =
    register (record blank_user { user_name = codes "bob" })
    ∷ register_with (record blank_user { user_name = codes "bob" }) (codes "Secret-1")
    ∷ rename ann (codes "bob")
    ∷ remove ann
    ∷ []

run-IsSound_example : IsSound (run env0 options0 accounts world0).store
run-IsSound_example = run-IsSound env0 options0 accounts world0 world0-IsSound
