-- ===== src/Oauth/Authorize/Csrf/RoundTrip.antt =====
-- oauth/authorize.go: the tokens against forged forms are accepted where they were issued for.
use go_idento.Prelude.{
  ℕ, zero, suc, ◌+◌, ◌*◌, ◌/◌, ◌%◌, ◌^◌, ◌<◌, ◌≡◌, ◌↔◌, refl, ap, subst, true, some, [], ◌∷◌, ◌++◌,
  arith, Text, text_eq, text_beq_iff, length, take,
}
use go_idento.Oauth.Token.{second}
use go_idento.Oauth.Authorize.{AuthzRequest}
use go_idento.Oauth.Authorize.Csrf.{
  Sealing, big_endian, from_big_endian, drop, csrf_mac, csrf_token, is_recent, check_csrf,
  sealed_parts, parts_of,
}

length-append : (s t : Text) → length (s ++ t) ≡ length s + length t
length-append [] t = omega arith
length-append (c ∷ s) t = omega (arith, length-append s t)

take-append : (s t : Text) → take (length s) (s ++ t) ≡ s
unfolding take
take-append [] t = refl
take-append (c ∷ s) t = ap (λ r. c ∷ r) (take-append s t)

drop-append : (s t : Text) → drop (length s) (s ++ t) ≡ t
unfolding drop
drop-append [] t = refl
drop-append (c ∷ s) t = drop-append s t

length-big_endian : (w n : ℕ) → length (big_endian w n) ≡ w
unfolding big_endian
length-big_endian zero n = refl
length-big_endian (suc w) n =
    omega (
      arith,
      length-append (big_endian w (n / 256)) ((n % 256) ∷ []),
      length-big_endian w (n / 256),
    )

from_big_endian-snoc :
    (acc : ℕ) (s : Text) (c : ℕ)
    → from_big_endian acc (s ++ (c ∷ [])) ≡ from_big_endian acc s * 256 + c
unfolding from_big_endian
from_big_endian-snoc acc [] c = refl
from_big_endian-snoc acc (d ∷ s) c = from_big_endian-snoc (acc * 256 + d) s c

-- How many numbers have so many bytes.
bound : ℕ → ℕ
bound zero = 1
bound (suc w) = 256 * bound w

from_big_endian-big_endian : (w n : ℕ) → n < bound w → from_big_endian 0 (big_endian w n) ≡ n
unfolding big_endian from_big_endian bound
from_big_endian-big_endian zero n h = omega arith
from_big_endian-big_endian (suc w) n h = omega (
  arith,
  from_big_endian-snoc 0 (big_endian w (n / 256)) (n % 256),
  from_big_endian-big_endian w (n / 256) (omega arith),
)

take-prefix : (n : ℕ) (s t : Text) → length s ≡ n → take n (s ++ t) ≡ s
take-prefix n s t e = subst (λ m. take m (s ++ t) ≡ s) e (take-append s t)

drop-prefix : (n : ℕ) (s t : Text) → length s ≡ n → drop n (s ++ t) ≡ t
drop-prefix n s t e = subst (λ m. drop m (s ++ t) ≡ t) e (drop-append s t)

eight_bytes : (n : ℕ) → n < 2 ^ 64 → from_big_endian 0 (big_endian 8 n) ≡ n
unfolding bound
eight_bytes n h = from_big_endian-big_endian 8 n (omega arith)

-- A token that was issued at a time, for a user and a request, is accepted later for a user and a
-- request exactly if it is recent then and the two have the same code under the key; the code has 32
-- bytes, base64url can be decoded, and the seconds fit into 64 bits.
pub check_csrf-csrf_token :
    (k : Sealing)
    → ((x : Text) → k.decode (k.encode x) ≡ some x)
    → ((x : Text) → length (k.mac x) ≡ 32)
    → (t later : ℕ) (user_id other : Text) (req shown : AuthzRequest) → t / second < 2 ^ 64
    → (check_csrf k later (csrf_token k t user_id req) other shown ≡ true) ↔ (
        (is_recent k later (t / second) ≡ true)
        × (csrf_mac k (t / second) user_id req ≡ csrf_mac k (t / second) other shown))
unfolding check_csrf csrf_token csrf_mac
check_csrf-csrf_token k decodes mac32 t later user_id other req shown fits =
    let ts : ℕ = t / second in
    let head : Text = big_endian 8 ts in
    let code : Text = csrf_mac k ts user_id req in
    let eight : length head ≡ 8 = length-big_endian 8 ts in
    let forty : length (head ++ code) ≡ 40 = omega (
      arith,
      length-append head code,
      eight,
      mac32 (head ++ sealed_parts (parts_of user_id req)),
    ) in
    rw
      (
        decodes (head ++ code),
        check_csrf,
        take-prefix 8 head code eight,
        drop-prefix 8 head code eight,
        forty,
        eight_bytes ts fits,
      )
      (ground (arith, text_beq_iff code (csrf_mac k ts other shown)))
