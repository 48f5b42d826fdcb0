-- ===== src/Identity/Policy/Rules.antt =====
-- identity/user_manager.go: the password rules, as a predicate on the runes of the password.
use go_idento.Prelude.{
  inl, inr, In, sym, subst, nat_beq, Bool-cases, Within, AllDifferent, length-le-of-Within, any-In,
  In-any, ℕ, ◌≤◌, ◌≡◌, ◌↔◌, ◌⊎◌, Bool, false, not, ◌&&◌, ◌||◌, List, [], ◌∷◌, arith, Text, length,
  any,
}
use go_idento.Identity.Errors.{ok}
use go_idento.Identity.Options.{PasswordOptions}
use go_idento.Identity.World.{Env}
use go_idento.Identity.Policy.{Seen, see, scan, distinct, validate_password, nothing_seen}

-- The loop's map has each rune of the password once.
distinct-Within : (rs : List ℕ) → Within (distinct rs) rs
unfolding distinct
distinct-Within [] c i = absurd i
distinct-Within (r ∷ rs) c i =
    ground (arith, distinct-Within rs c, Bool-cases (any (λ a. nat_beq a r) (distinct rs)))

Within-distinct : (rs : List ℕ) → Within rs (distinct rs)
unfolding distinct
Within-distinct [] c i = absurd i
Within-distinct (r ∷ rs) c i = elim (Bool-cases (any (λ a. nat_beq a r) (distinct rs))) [
  | inl e ↦
      ground
        (arith, subst (λ x. In x (distinct rs)), any-In r (distinct rs) e, Within-distinct rs c)
  | inr e ↦ ground (arith, Within-distinct rs c)
]

distinct-AllDifferent : (rs : List ℕ) → AllDifferent (distinct rs)
unfolding distinct
distinct-AllDifferent [] = tt
distinct-AllDifferent (r ∷ rs) = elim (Bool-cases (any (λ a. nat_beq a r) (distinct rs))) [
  | inl e ↦ rw e (distinct-AllDifferent rs)
  | inr e ↦ rw e (
    λ c i s. ground (arith, e, In-any r (distinct rs) (subst (λ x. In x (distinct rs)) (sym s) i)),
    distinct-AllDifferent rs,
  )
]

-- There are this many different runes.
abbrev pub HasDifferent : ℕ → List ℕ → Type 0
HasDifferent n rs = (cs : List ℕ) × AllDifferent cs × Within cs rs × (n ≤ length cs)

distinct-counts : (n : ℕ) (rs : List ℕ) → (n ≤ length (distinct rs)) ↔ HasDifferent n rs
distinct-counts n rs = (
  (λ h. (distinct rs, distinct-AllDifferent rs, distinct-Within rs, h)),
  λ (cs, d, within, h).
      omega (
        arith,
        h,
        length-le-of-Within cs (distinct rs) d (λ c i. Within-distinct rs c (within c i)),
      ),
)

module _ (env : Env) where
  -- The classes of a rune, in the order of the switch.
  abbrev is_upper_rune : ℕ → Bool
  is_upper_rune r = not (env.is_digit r) && env.is_upper r

  abbrev is_lower_rune : ℕ → Bool
  is_lower_rune r = not (env.is_digit r) && (not (env.is_upper r) && env.is_lower r)

  abbrev is_other_rune : ℕ → Bool
  is_other_rune r =
      not (env.is_digit r)
      && (not (env.is_upper r) && (not (env.is_lower r) && not (env.is_letter r)))

  -- What the loop has seen at its end is what there is.
  scan-any :
      (rs : List ℕ) (f : Seen)
      → ((scan env rs f).has_digit ≡ (f.has_digit || any env.is_digit rs))
        × ((scan env rs f).has_upper ≡ (f.has_upper || any is_upper_rune rs))
        × ((scan env rs f).has_lower ≡ (f.has_lower || any is_lower_rune rs))
        × ((scan env rs f).has_non_alpha ≡ (f.has_non_alpha || any is_other_rune rs))
  unfolding scan see any
  scan-any [] f = ground arith
  scan-any (r ∷ rs) f = ground (arith, scan-any rs (see env r f))

  -- The password meets every rule: its length in runes, the classes of runes that are asked for, where
  -- a rune counts for the first class it is in, and the number of distinct runes.
  abbrev pub Meets : PasswordOptions → Text → Type 0
  Meets o pw =
      let rs = env.runes pw in
      (o.required_length ≤ length rs)
      × ((o.require_digit && not (any env.is_digit rs)) ≡ false)
      × ((o.require_uppercase && not (any is_upper_rune rs)) ≡ false)
      × ((o.require_lowercase && not (any is_lower_rune rs)) ≡ false)
      × ((o.require_non_alphanumeric && not (any is_other_rune rs)) ≡ false)
      × (o.required_unique_chars ≤ 1 ⊎ HasDifferent o.required_unique_chars rs)

  -- A password is accepted exactly if it is as long in runes as the options ask, has a digit, an
  -- upper-case, a lower-case and another rune where they ask for one, each rune counting for the first
  -- of these that it is, and has as many pairwise different runes as they ask for, if that is more than
  -- one.
  pub validate_password_iff :
      (o : PasswordOptions) (pw : Text) → (validate_password env o pw ≡ ok tt) ↔ Meets o pw
  unfolding validate_password
  validate_password_iff o pw = ground (
    arith,
    scan-any (env.runes pw) nothing_seen,
    (distinct-counts o.required_unique_chars (env.runes pw)).0,
    (distinct-counts o.required_unique_chars (env.runes pw)).1,
  )
