-- ===== src/Identity/TwoFactor/Examples.antt =====
-- A run of identity/twofactor.go: one of two recovery codes is redeemed.
use go_idento.Prelude.{◌+◌, ◌≢◌, true, false, [], ◌∷◌, arith, ◌==◌, Text, text_eq, codes}
use go_idento.Identity.Entities.{User, blank_user}
use go_idento.Identity.World.{Env, World}
use go_idento.MemStore.State.{new}
use go_idento.Identity.TwoFactor.{generate_recovery_codes, redeem_recovery_code}
use go_idento.Identity.TwoFactor.Redemption.{Counts, redeem_recovery_code-Counts}

abbrev env0 : Env
env0 = record {
  random = λ n. b'r' ∷ n ∷ [];
  clock = λ n. n + 1000;
  normalize = λ t. t;
  hash = λ _ t. t;
  verify = λ h t. (h == t, false);
  runes = λ t. t;
  trim_space = λ t. t;
  is_digit = λ _. false;
  is_upper = λ _. false;
  is_lower = λ _. false;
  is_letter = λ _. true;
}

abbrev hash0 : Text → Text
hash0 t = b'#' ∷ t

abbrev user0 : User
user0 = record blank_user { id = codes "u" }

-- Two codes were generated.
abbrev world0 : World
world0 =
    (generate_recovery_codes hash0 env0 user0 2 (record { store = new; draws = 0; reads = 0 })).1

abbrev code0 : Text
code0 = b'r' ∷ 1 ∷ []

filled0 : hash0 code0 ≢ []
filled0 e = ground (arith, e)

redeem_recovery_code-Counts_example :
    Counts hash0 env0 user0
      (hash0 code0)
      filled0
      (hash0 code0)
      world0
      (redeem_recovery_code hash0 env0 user0 code0 world0)
redeem_recovery_code-Counts_example =
    redeem_recovery_code-Counts hash0 env0 user0 (hash0 code0) filled0 code0 world0
