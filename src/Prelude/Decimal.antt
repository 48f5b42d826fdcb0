-- ===== src/Prelude/Decimal.antt =====
-- strconv.FormatInt and strconv.ParseInt in base 10, for 64 bits.
use Prim.Native.Nat.{ℕ, zero, suc, ◌+◌, ◌-◌, ◌*◌, ◌/◌, ◌%◌, ◌^◌, ◌<◌}
use mathlib.Core.Path.{◌≡◌, refl, ◌∙◌, subst, sym}
use mathlib.Core.Logic.{inl, inr}
use mathlib.Core.Bool.{Bool, true, false, ◌&&◌}
use mathlib.Core.List.{[], ◌∷◌}
use mathlib.Core.Option.{Option, none, some}
use native.Mathlib.Omega.{arith}
use go_idento.Prelude.Tests.{ltb, leb, nat_beq, if◌then◌else◌, Bool-cases}
use go_idento.Prelude.Bytes.{Text}

-- The digits of a number in front of a text; each round takes the last digit.
unfoldable pub digits : ℕ → ℕ → Text → Text
digits zero n rest = rest
digits (suc fuel) n rest =
    let more = digits fuel (n / 10) ((48 + n % 10) ∷ rest) in
    if ltb n 10 then (48 + n) ∷ rest else more

-- There are at most as many rounds as the number is large.
unfoldable pub format_nat : ℕ → Text
unfolding digits
format_nat n = digits (suc n) n []

abbrev pub is_digit : ℕ → Bool
is_digit c = leb 48 c && leb c 57

-- Any digits, after those whose value is `n`.
unfoldable pub parse_digits : ℕ → Text → Option ℕ
parse_digits n [] = some n
parse_digits n (c ∷ s) =
    let rest = parse_digits (n * 10 + (c - 48)) s in if is_digit c then rest else none

-- One digit at least.
unfoldable pub parse_nat : Text → Option ℕ
unfolding parse_digits
parse_nat [] = none
parse_nat (c ∷ s) = parse_digits 0 (c ∷ s)

abbrev up_to : ℕ → Option ℕ → Option ℕ
up_to bound none = none
up_to bound (some n) = if leb n bound then some n else none

-- A magnitude with its sign; what is out of the range of int64 is an error.
unfoldable pub parse_int : Text → Option (Bool × ℕ)
unfolding parse_nat
parse_int [] = none
parse_int (c ∷ s) =
    if nat_beq c b'-'
    then (elim (up_to (2 ^ 63) (parse_nat s)) [ none ↦ none | some n ↦ some (true, n) ])
    else (elim (up_to (2 ^ 63 - 1) (parse_nat (if nat_beq c b'+' then s else c ∷ s))) [
      | none ↦ none
      | some n ↦ some (false, n)
    ])

parse_digit :
    (m d k : ℕ) (rest : Text)
    → d < 10
    → m * 10 + d ≡ k
    → parse_digits m ((48 + d) ∷ rest) ≡ parse_digits k rest
unfolding parse_digits
parse_digit m d k rest h e =
    let is : is_digit (48 + d) ≡ true = ground arith in
    let value : m * 10 + (48 + d - 48) ≡ k = omega arith in rw (is, value) refl

-- Reading what was printed goes on with the number as its value.
parse-digits :
    (fuel n : ℕ) (rest : Text)
    → n < fuel
    → parse_digits 0 (digits fuel n rest) ≡ parse_digits n rest
unfolding digits
parse-digits zero n rest h = absurd (omega arith)
parse-digits (suc fuel) n rest h = elim (Bool-cases (ltb n 10)) [
  | inl small ↦ rw small (parse_digit 0 n n rest (ground arith) (omega arith))
  | inr large ↦ rw large (
      parse-digits fuel (n / 10) ((48 + n % 10) ∷ rest) (ground arith)
      ∙ parse_digit (n / 10) (n % 10) n rest (omega arith) (omega arith))
]

first_digit :
    (fuel n : ℕ) (rest : Text)
    → n < fuel
    → (c : ℕ) × (s : Text) × (digits fuel n rest ≡ c ∷ s) × (is_digit c ≡ true)
unfolding digits
first_digit zero n rest h = absurd (omega arith)
first_digit (suc fuel) n rest h = elim (Bool-cases (ltb n 10)) [
  | inl small ↦ rw small (48 + n, rest, refl, ground arith)
  | inr large ↦ rw large (first_digit fuel (n / 10) ((48 + n % 10) ∷ rest) (ground arith))
]

read_all : (n : ℕ) → parse_digits n [] ≡ some n
unfolding parse_digits
read_all n = refl

parse_int_unsigned :
    (c n : ℕ) (s : Text)
    → is_digit c ≡ true
    → parse_digits 0 (c ∷ s) ≡ some n
    → n < 2 ^ 63
    → parse_int (c ∷ s) ≡ some (false, n)
unfolding parse_int parse_nat
parse_int_unsigned c n s d e h =
    let minus : nat_beq c b'-' ≡ false = ground arith in
    let plus : nat_beq c b'+' ≡ false = ground arith in
    let fits : leb n (2 ^ 63 - 1) ≡ true = ground arith in rw (minus, plus, e, fits) refl

-- A number of 63 bits is read back from its digits.
pub parse_int-format_nat : (n : ℕ) → n < 2 ^ 63 → parse_int (format_nat n) ≡ some (false, n)
unfolding format_nat
parse_int-format_nat n h =
    let all : parse_digits 0 (digits (suc n) n []) ≡ some n =
      parse-digits (suc n) n [] (omega arith) ∙ read_all n in
    let (c, s, e, d) = first_digit (suc n) n [] (omega arith) in
    subst (λ t. parse_int t ≡ some (false, n)) (sym e) (parse_int_unsigned c n s d (rw (← e) all) h)
