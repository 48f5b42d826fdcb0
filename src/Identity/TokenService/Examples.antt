-- ===== src/Identity/TokenService/Examples.antt =====
-- Runs of identity/token_service.go at concrete values.
use go_idento.Prelude.{
  any, ◌⊎◌, ℕ, ◌+◌, ◌*◌, ◌/◌, ◌<◌, ◌^◌, ◌≤◌, ◌≡◌, refl, ◌||◌, not, true, false, none, some, [], ◌∷◌,
  arith, ◌==◌, if◌then◌else◌, Text, text_eq, text_beq, text_beq_iff, codes, ltb,
}
use go_idento.Dict
use go_idento.Dict.{get-put, get-empty}
use go_idento.Identity.Errors.{ok, err, invalid_token}
use go_idento.Identity.Entities.{User, blank_user, RefreshToken, Claim}
use go_idento.Identity.World.{Env, World, now, fresh}
use go_idento.MemStore.State.{Store, new}
use go_idento.MemStore.RefreshTokens.{get_refresh_token_by_session, update_refresh_token}
use go_idento.Identity.TokenService.{TokenOptions, TokenPair, refresh_ttl, second}
use go_idento.Identity.TokenService.Claims.{sign_access_token, token_claims, security_stamp_claim}
use go_idento.Identity.TokenService.Claims.Merge.{
  HasServiceClaims, first_claim, service_names, get-token_claims,
}
use go_idento.Identity.TokenService.Slot.{fill_slot, validate_slot}
use go_idento.Identity.TokenService.Slot.Validity.{HasNoColon, validate_slot-fill_slot}
use go_idento.Identity.TokenService.Sessions.{
  find_session, rotate_session, sign_and_rotate, refresh_session, enforce_max_sessions,
}
use go_idento.Identity.TokenService.Sessions.Rotation.{Rotated, refresh_session_only}
use go_idento.Identity.TokenService.Sessions.Limit.{IsKeyed, count, enforce_max_sessions_limits}

abbrev env0 : Env
env0 = record {
  random = λ n. b'r' ∷ n ∷ [];
  clock = λ n. n + 1000;
  normalize = λ t. t;
  hash = λ _ t. t;
  verify = λ h t. (h == t, false);
  runes = λ t. t;
  trim_space = λ t. t;
  is_digit = λ _. false;
  is_upper = λ _. false;
  is_lower = λ _. false;
  is_letter = λ _. true;
}

-- The hash of a token is the token with a mark.
abbrev options0 : TokenOptions
options0 = record {
  issuer = codes "i";
  audience = codes "a";
  access_token_ttl = 900 * second;
  refresh_token_ttl = 60 * second;
  max_sessions = 1;
  multi_session = true;
  hash_refresh = λ t. b'#' ∷ t;
  sign = λ _. some (codes "jwt");
  parse = λ _ _. none;
}

abbrev user0 : User
user0 = record blank_user { id = codes "u"; security_stamp = codes "s" }

abbrev session0 : RefreshToken
session0 = record {
  session_id = codes "d";
  user_id = codes "u";
  token_hash = codes "#k";
  name = [];
  expires_at = 5000;
  created_at = 0;
  last_used_at = none;
}

abbrev session1 : RefreshToken
session1 = record session0 { session_id = codes "e" }

abbrev store0 : Store
store0 = record new {
  refresh_tokens = Dict.put (Dict.put Dict.empty (codes "d") session0) (codes "e") session1;
}

abbrev world0 : World
world0 = record { store = store0; draws = 0; reads = 0 }

abbrev pair0 : TokenPair
pair0 = record {
  access_token = codes "jwt";
  refresh_token = b'd' ∷ b'.' ∷ b'r' ∷ 0 ∷ [];
  expires_at = 1001 + 900 * second;
}

refreshed :
    refresh_session options0 env0 user0 (codes "d") (codes "k") world0
    ≡ (ok (some pair0), (refresh_session options0 env0 user0 (codes "d") (codes "k") world0).1)
unfolding refresh_session find_session get_refresh_token_by_session sign_and_rotate
    sign_access_token rotate_session update_refresh_token now fresh Dict.get Dict.put Dict.empty
    text_beq refresh_ttl
refreshed = refl

refresh_session_only_example :
    Rotated options0 env0 user0
      (codes "d")
      (codes "k")
      pair0
      world0
      (refresh_session options0 env0 user0 (codes "d") (codes "k") world0).1
refresh_session_only_example =
    refresh_session_only options0 env0 user0 (codes "d") (codes "k") pair0 world0 _ refreshed

none0 : (k : Text) → Dict.get (Dict.empty {K = Text} {V = RefreshToken}) k ≡ none
none0 k = get-empty k

keyed0 : IsKeyed store0
keyed0 k rt at = ground (
  arith,
  at,
  get-put (Dict.put Dict.empty (codes "d") session0) (codes "e") k session1,
  get-put Dict.empty (codes "d") k session0,
  none0 k,
  text_beq_iff (codes "e") k,
  text_beq_iff (codes "d") k,
)

-- One of the two sessions is deleted.
enforce_max_sessions_limits_example :
    count (enforce_max_sessions options0 (codes "u") (codes "e") store0) (codes "u") ≤ 1
enforce_max_sessions_limits_example =
    enforce_max_sessions_limits options0 store0 (codes "u") (codes "e") keyed0 (omega arith)

abbrev stamp_claim : Claim
stamp_claim = record { type = security_stamp_claim; value = codes "forged" }

abbrev plan_claim : Claim
plan_claim = record { type = codes "plan"; value = codes "pro" }

get-token_claims_example :
    let m = token_claims options0 user0 [] (stamp_claim ∷ plan_claim ∷ []) 0 in
    HasServiceClaims options0 user0 0 m
    × (Dict.get m (codes "roles") ≡ first_claim (stamp_claim ∷ plan_claim ∷ []) (codes "roles"))
    × ((any (λ n. n == codes "plan") (codes "roles" ∷ service_names) ≡ true)
        ⊎ (Dict.get m (codes "plan") ≡ first_claim (stamp_claim ∷ plan_claim ∷ []) (codes "plan")))
get-token_claims_example =
    get-token_claims options0 user0 0 [] (stamp_claim ∷ plan_claim ∷ []) (codes "plan")

abbrev issued0 : Text
issued0 = b'r' ∷ 0 ∷ []

filled0 :
    fill_slot options0 env0 user0 world0 ≡ (ok issued0, (fill_slot options0 env0 user0 world0).1)
unfolding fill_slot fresh now
filled0 = refl

abbrev expiry0 : ℕ
expiry0 = (1000 + refresh_ttl options0) / second

small0 : expiry0 < 2 ^ 63
unfolding refresh_ttl
small0 = omega arith

plain0 : HasNoColon (options0.hash_refresh issued0)
plain0 = (λ e. omega (arith, e), (λ e. omega (arith, e), (λ e. omega (arith, e), tt)))

validate_slot-fill_slot_example :
    (validate_slot options0 env0 user0 issued0 (fill_slot options0 env0 user0 world0).1).0 ≡ (
      if ltb (expiry0 * second) (env0.clock (fill_slot options0 env0 user0 world0).1.reads)
        || not (options0.hash_refresh issued0 == options0.hash_refresh issued0)
      then err invalid_token
      else ok tt)
validate_slot-fill_slot_example =
    validate_slot-fill_slot options0 env0 user0 world0 _ issued0 issued0 plain0 small0 filled0
