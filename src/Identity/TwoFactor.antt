-- ===== src/Identity/TwoFactor.antt =====
-- identity/twofactor.go: recovery codes, and the key and the switch of the second factor.
pub mod Redemption
mod Examples
use go_idento.Prelude.{
  ℕ, zero, suc, Bool, true, false, not, ◌&&◌, List, [], ◌∷◌, map, ◌==◌, if◌then◌else◌, Text,
  text_eq, codes, split, join, length,
}
use go_idento.Identity.Entities.{User}
use go_idento.Identity.World.{Env, World, fresh, persist}
use go_idento.Identity.Lockout.{Outcome}
use go_idento.MemStore.Credentials.{get_token, set_token}

abbrev pub internal_provider : Text
internal_provider = codes "[go-idento]"

abbrev pub authenticator_key_name : Text
authenticator_key_name = codes "AuthenticatorKey"

abbrev pub recovery_codes_name : Text
recovery_codes_name = codes "RecoveryCodes"

module _ (env : Env) where
  unfoldable pub reset_authenticator_key : User → World → Text × World
  reset_authenticator_key u w =
      let (key, w') = fresh env w in
      (key, record w' { store = set_token w'.store u internal_provider authenticator_key_name key })

  unfoldable pub get_authenticator_key : User → World → Text × World
  get_authenticator_key u w =
      let key = get_token w.store u internal_provider authenticator_key_name in
      if key == [] then reset_authenticator_key u w else (key, w)

  unfoldable pub set_two_factor_enabled : User → Bool → World → Outcome
  set_two_factor_enabled u enabled w =
      let (stamp, w') = fresh env w in
      persist env (record u { two_factor_enabled = enabled; security_stamp = stamp }) w'

  -- `n` random codes.
  unfoldable pub draw_codes : ℕ → World → List Text × World
  draw_codes zero w = ([], w)
  draw_codes (suc n) w =
      let (code, w1) = fresh env w in let (rest, w2) = draw_codes n w1 in (code ∷ rest, w2)

-- A pass over the stored hashes: the first that is the target is left out, and empty ones are.
unfoldable pub consume : Text → List Text → Bool → Bool × List Text
consume target [] found = (found, [])
consume target (p ∷ parts) found =
    let (hit, rest) = consume target parts true in
    let (later, others) = consume target parts found in
    if not found && p == target
    then (hit, rest)
    else (later, if p == [] then others else p ∷ others)

-- `hash` is hashRefresh, and the white space is trimmed as by strings.TrimSpace.
module _ (hash : Text → Text) (env : Env) where
  unfoldable pub generate_recovery_codes : User → ℕ → World → List Text × World
  generate_recovery_codes u n w =
      let (plain, w') = draw_codes env n w in
      (
        plain,
        record w' {
          store =
              set_token w'.store u internal_provider recovery_codes_name
                (join b';' (map hash plain));
        },
      )

  -- The stored hashes without the redeemed one.
  abbrev pub settle : User → World → Bool × List Text → Bool × World
  settle u w (false, remaining) = (false, w)
  settle u w (true, remaining) = (
    true,
    record w {
      store = set_token w.store u internal_provider recovery_codes_name (join b';' remaining);
    },
  )

  -- Two calls of the store, GetToken and, in `settle`, SetToken; no other call comes between them here.
  unfoldable pub redeem_recovery_code : User → Text → World → Bool × World
  redeem_recovery_code u code w =
      let stored = get_token w.store u internal_provider recovery_codes_name in
      if stored == []
      then (false, w)
      else settle u w (consume (hash (env.trim_space code)) (split b';' stored) false)

unfoldable pub count_recovery_codes : User → World → ℕ
count_recovery_codes u w =
    let stored = get_token w.store u internal_provider recovery_codes_name in
    if stored == [] then 0 else length (split b';' stored)
