-- ===== src/Identity/Policy.antt =====
-- identity/user_manager.go: `ValidateUserName` and `ValidatePassword`.
pub mod Rules
use go_idento.Prelude.{
  ℕ, suc, ◌+◌, ◌≤◌, ◌<◌, ◌≡◌, refl, Bool, true, false, not, ◌&&◌, ◌||◌, List, [], ◌∷◌, arith, ◌==◌,
  nat_eq, if◌then◌else◌, Text, text_eq, text_beq, length, ltb, any, all, keep, nat_beq,
}
use go_idento.Identity.Errors.{
  Result, ok, err, ◌>>=◌, ◌>>◌, invalid_user_name, password_too_short, password_requires_digit,
  password_requires_upper, password_requires_lower, password_requires_non_alpha,
  password_requires_unique, IdentityError,
}
use go_idento.Identity.Options.{PasswordOptions, UserOptions}
use go_idento.Identity.World.{Env}

-- strings.ContainsRune
abbrev pub contains_rune : List ℕ → ℕ → Bool
contains_rune rs r = any (λ a. nat_beq a r) rs

unfoldable pub validate_user_name : Env → UserOptions → Text → Result (Unit {0})
unfolding any all
validate_user_name env o name =
    if env.trim_space name == []
    then err invalid_user_name
    else if o.allowed_user_name_characters == []
    then ok tt
    else if all (contains_rune (env.runes o.allowed_user_name_characters)) (env.runes name)
    then ok tt
    else err invalid_user_name

-- What the loop over the runes has seen.
pub record Seen : Type 0 where
  pub has_digit : Bool
  pub has_upper : Bool
  pub has_lower : Bool
  pub has_non_alpha : Bool

-- The switch: the first case that fits.
unfoldable pub see : Env → ℕ → Seen → Seen
see env r f =
    if env.is_digit r
    then record f { has_digit = true }
    else if env.is_upper r
    then record f { has_upper = true }
    else if env.is_lower r
    then record f { has_lower = true }
    else if not (env.is_letter r) && not (env.is_digit r)
    then record f { has_non_alpha = true }
    else f

unfoldable pub scan : Env → List ℕ → Seen → Seen
unfolding see
scan env [] f = f
scan env (r ∷ rs) f = scan env rs (see env r f)

-- The keys of the map `seen`.
unfoldable pub distinct : List ℕ → List ℕ
unfolding any
distinct [] = []
distinct (r ∷ rs) = let rest = distinct rs in if any (λ a. nat_beq a r) rest then rest else r ∷ rest

abbrev pub guard : Bool → IdentityError → Result (Unit {0})
guard true e = ok tt
guard false e = err e

abbrev pub nothing_seen : Seen
nothing_seen = record {
  has_digit = false;
  has_upper = false;
  has_lower = false;
  has_non_alpha = false;
}

unfoldable pub validate_password : Env → PasswordOptions → Text → Result (Unit {0})
unfolding scan distinct
validate_password env o pw = do
  guard (not (ltb (length (env.runes pw)) o.required_length)) password_too_short
  let f = scan env (env.runes pw) nothing_seen
  guard (not (o.require_digit && not f.has_digit)) password_requires_digit
  guard (not (o.require_uppercase && not f.has_upper)) password_requires_upper
  guard (not (o.require_lowercase && not f.has_lower)) password_requires_lower
  guard (not (o.require_non_alphanumeric && not f.has_non_alpha)) password_requires_non_alpha
  guard
      (not (
        ltb 1 o.required_unique_chars
        && ltb (length (distinct (env.runes pw))) o.required_unique_chars))
      password_requires_unique
