-- ===== src/Oauth/Authorize/Csrf.antt =====
-- oauth/authorize.go: tokens against forged forms, an HMAC over the user and the parameters.
pub mod RoundTrip
use go_idento.Prelude.{
  ℕ, zero, suc, ◌+◌, ◌*◌, ◌/◌, ◌%◌, ◌^◌, Bool, true, false, not, ◌&&◌, ◌||◌, Option, none, some,
  List, [], ◌∷◌, ◌++◌, ◌==◌, if◌then◌else◌, Text, text_eq, ltb, nat_beq, length, take,
}
use go_idento.Oauth.Scopes.{join_scopes}
use go_idento.Oauth.Token.{second}
use go_idento.Oauth.Authorize.{AuthzRequest}

-- HMAC-SHA-256 under the key of the server, and base64url.
pub record Sealing : Type 0 where
  pub mac : Text → Text
  pub encode : Text → Text
  pub decode : Text → Option Text

-- The lowest `w` bytes of a number, the highest first.
unfoldable pub big_endian : ℕ → ℕ → Text
big_endian zero n = []
big_endian (suc w) n = big_endian w (n / 256) ++ ((n % 256) ∷ [])

unfoldable pub from_big_endian : ℕ → Text → ℕ
from_big_endian acc [] = acc
from_big_endian acc (c ∷ s) = from_big_endian (acc * 256 + c) s

unfoldable pub drop : ℕ → Text → Text
drop zero s = s
drop (suc n) [] = []
drop (suc n) (c ∷ s) = drop n s

-- Each part with a zero byte behind it.
unfoldable pub sealed_parts : List Text → Text
sealed_parts [] = []
sealed_parts (part ∷ parts) = part ++ (0 ∷ sealed_parts parts)

abbrev pub parts_of : Text → AuthzRequest → List Text
parts_of user_id req =
    user_id
    ∷ req.client.id
    ∷ req.redirect_uri
    ∷ join_scopes req.scopes
    ∷ req.resource
    ∷ req.state
    ∷ req.challenge
    ∷ []

abbrev minute : ℕ
minute = 60 * second

abbrev pub csrf_max_age : ℕ
csrf_max_age = 15 * minute

module _ (k : Sealing) where
  unfoldable pub csrf_mac : ℕ → Text → AuthzRequest → Text
  csrf_mac ts user_id req = k.mac (big_endian 8 ts ++ sealed_parts (parts_of user_id req))

  -- At a time.
  unfoldable pub csrf_token : ℕ → Text → AuthzRequest → Text
  csrf_token t user_id req =
      k.encode (big_endian 8 (t / second) ++ csrf_mac (t / second) user_id req)

  -- The age is in range; the seconds are signed, with 64 bits.
  unfoldable pub is_recent : ℕ → ℕ → Bool
  is_recent t ts =
      ltb ts (2 ^ 63)
      && (not (ltb (t + minute) (ts * second)) && not (ltb (ts * second + csrf_max_age) t))

  unfoldable pub check_csrf : ℕ → Text → Text → AuthzRequest → Bool
  check_csrf t token user_id req = elim (k.decode token) [
    | none ↦ false
    | some raw ↦
        let ts = from_big_endian 0 (take 8 raw) in
        nat_beq (length raw) 40 && (is_recent t ts && drop 8 raw == csrf_mac ts user_id req)
  ]
