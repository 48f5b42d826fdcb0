-- ===== src/Identity/Errors.antt =====
-- identity/errors.go: the error values of the package, and results that carry them.
use go_idento.Prelude.{◌≡◌, refl, ◌⊎◌, inl, inr}

pub data IdentityError : Type 0 where
  not_found user_not_found role_not_found : IdentityError
  duplicate_user_name duplicate_email duplicate_role_name : IdentityError
  password_too_short password_requires_digit password_requires_upper : IdentityError
  password_requires_lower password_requires_non_alpha password_requires_unique : IdentityError
  invalid_user_name password_already_set login_already_used not_anonymous : IdentityError
  purge_not_supported invalid_api_key password_mismatch user_locked_out : IdentityError
  invalid_token concurrency_failure list_not_supported invalid_identifier : IdentityError

pub data Result {ℓ} (A : Type ℓ) : Type ℓ where
  ok : A → Result A
  err : IdentityError → Result A

infixl 5 ◌>>=◌
abbrev pub ◌>>=◌ {ℓ} : {A B : Type ℓ} → Result A → (A → Result B) → Result B
err failure >>= next = err failure
ok value >>= next = next value

infixl 5 ◌>>◌
abbrev pub ◌>>◌ {ℓ} : {B : Type ℓ} → Result (Unit {0}) → Result B → Result B
err failure >> after = err failure
ok done >> after = after

-- To split on a computed result and keep the equation.
pub Result-cases {ℓ} :
    {A : Type ℓ} (r : Result A) → ((e : IdentityError) × (r ≡ err e)) ⊎ ((a : A) × (r ≡ ok a))
Result-cases (err e) = inl (e, refl)
Result-cases (ok a) = inr (a, refl)
