-- ===== src/Identity/TokenService.antt =====
-- identity/token_service.go: session tokens. The claims of an access token are in Claims, the refresh
-- sessions in Sessions, and the slot of one refresh token for a user in Slot.
pub mod Claims
pub mod Slot
pub mod Sessions
pub mod Service
mod Examples
use go_idento.Prelude.{ℕ, Bool, Option, List, Text, text_eq, nat_beq, if◌then◌else◌, ◌*◌, codes}
use go_idento.Dict.{Dict}

-- One nanosecond is the unit of time; a token counts seconds.
abbrev pub second : ℕ
second = 1000000000

-- A value of jwt.MapClaims.
pub data ClaimValue : Type 0 where
  text : Text → ClaimValue
  number : ℕ → ClaimValue
  texts : List Text → ClaimValue

abbrev pub MapClaims : Type 0
MapClaims = Dict Text ClaimValue

-- TokenOptions, the service's store of sessions, and what it takes from other packages.
pub record TokenOptions : Type 0 where
  pub issuer : Text
  pub audience : Text
  pub access_token_ttl : ℕ
  -- Zero if it is not set.
  pub refresh_token_ttl : ℕ
  -- Zero if there is no limit.
  pub max_sessions : ℕ
  -- Whether WithSessionStore was called.
  pub multi_session : Bool
  -- hashRefresh
  pub hash_refresh : Text → Text
  -- The signature of claims under the configured key, and the `typ` and claims of a token that
  -- jwt.Parse accepts at a time, for the algorithm, the issuer and the audience.
  pub sign : MapClaims → Option Text
  pub parse : Text → ℕ → Option (Text × MapClaims)

-- The `TokenType` is always Bearer.
pub record TokenPair : Type 0 where
  pub access_token : Text
  pub refresh_token : Text
  pub expires_at : ℕ

-- 7 * 24 * time.Hour
abbrev seven_days : ℕ
seven_days = 604800 * second

unfoldable pub refresh_ttl : TokenOptions → ℕ
refresh_ttl o = if nat_beq o.refresh_token_ttl 0 then seven_days else o.refresh_token_ttl
