-- ===== src/Identity/TokenService/Slot.antt =====
-- identity/token_service.go: the slot of one refresh token for a user. It holds the hash of the token
-- and the second of its expiry, with a colon between.
pub mod Validity
use go_idento.Prelude.{
  ℕ, ◌+◌, ◌*◌, ◌/◌, Bool, true, false, not, ◌&&◌, Option, none, some, List, [], ◌∷◌, ◌++◌, ◌==◌,
  if◌then◌else◌, Text, text_eq, codes, cut, ltb, nat_beq, format_nat, parse_int,
}
use go_idento.Identity.Errors.{Result, ok, err, invalid_token}
use go_idento.Identity.Entities.{User}
use go_idento.Identity.World.{Env, World, now}
use go_idento.Identity.Action.{Action, ◌>>=◌, ◌>>◌, pure, writes, read_clock, draw}
use go_idento.MemStore.Credentials.{get_token, set_token, remove_token}
use go_idento.Identity.TokenService.{second, TokenOptions, refresh_ttl}

abbrev pub slot_provider : Text
slot_provider = codes "GoIdentity"

abbrev pub slot_name : Text
slot_name = codes "RefreshToken"

unfoldable pub slot_value : TokenOptions → Text → ℕ → Text
slot_value o token expiry = o.hash_refresh token ++ (b':' ∷ format_nat (expiry / second))

-- now.After(time.Unix(n, 0)), for a magnitude with its sign.
unfoldable pub is_past : Bool × ℕ → ℕ → Bool
is_past (negative, n) t = if negative && not (nat_beq n 0) then true else ltb (n * second) t

-- The clock is read only where the expiry is a number.
unfoldable pub validate_slot : TokenOptions → Env → User → Text → Action (Unit {0})
validate_slot o env u token w =
    let stored = get_token w.store u slot_provider slot_name in
    if stored == [] then (err invalid_token, w) else (elim (cut b':' stored) [
      | none ↦ (err invalid_token, w)
      | some (hash, expiry) ↦ elim (parse_int expiry) [
        | none ↦ (err invalid_token, w)
        | some n ↦
            let (t, w') = now env w in
            (
              if is_past n t
                  then err invalid_token
                  else if hash == o.hash_refresh token
                  then ok tt
                  else err invalid_token,
              w',
            )
      ]
    ])

-- The new token takes the place of the last one.
unfoldable pub fill_slot : TokenOptions → Env → User → Action Text
fill_slot o env u = do
  token ← draw env
  t ← read_clock env
  writes (λ s. set_token s u slot_provider slot_name (slot_value o token (t + refresh_ttl o)))
  pure token

unfoldable pub clear_slot : User → Action (Unit {0})
clear_slot u = writes (λ s. remove_token s u slot_provider slot_name)
