-- ===== src/Oauth/Scopes.antt =====
-- oauth/util.go: scopes and PKCE. SHA-256 with its base64 encoding is a parameter.
use go_idento.Prelude.{
  ℕ, zero, suc, ◌-◌, nat_eq, Bool, true, false, not, ◌&&◌, ◌||◌, List, [], ◌∷◌, ◌++◌, ◌==◌,
  if◌then◌else◌, Text, text_eq, length, any, all, ltb, leb, nat_beq,
}

-- ASCII white space.
abbrev pub is_space : ℕ → Bool
is_space c = nat_beq c 32 || (leb 9 c && leb c 13)

-- A byte goes in front of the first word, if the text before it ended in white space to the next.
abbrev pub glue : ℕ → Bool → List Text → List Text
glue c true words = (c ∷ []) ∷ words
glue c false [] = (c ∷ []) ∷ []
glue c false (word ∷ words) = (c ∷ word) ∷ words

abbrev pub starts_blank : Text → Bool
starts_blank [] = true
starts_blank (c ∷ s) = is_space c

-- The words between bytes that are spaces.
unfoldable pub words : Text → List Text
words [] = []
words (c ∷ s) = let rest = words s in if is_space c then rest else glue c (starts_blank s) rest

abbrev byte_at : ℕ → Text → ℕ
byte_at n [] = 0
byte_at zero (c ∷ s) = c
byte_at (suc n) (c ∷ s) = byte_at n s

-- unicode.IsSpace of a rune of three bytes in UTF-8, by these bytes.
abbrev is_wide_space : ℕ → ℕ → ℕ → Bool
is_wide_space a b c =
    (a == 225 && (b == 154 && c == 128))
    || ((a == 226
          && ((b == 128 && ((leb 128 c && leb c 138) || (c == 168 || (c == 169 || c == 175))))
              || (b == 129 && c == 159)))
        || (a == 227 && (b == 128 && c == 128)))

-- How many bytes the white space has that the text begins with: none if it begins with another rune.
unfoldable pub space_bytes : Text → ℕ
space_bytes s =
    if is_space (byte_at 0 s)
    then 1
    else if byte_at 0 s == 194 && (byte_at 1 s == 133 || byte_at 1 s == 160)
    then 2
    else if is_wide_space (byte_at 0 s) (byte_at 1 s) (byte_at 2 s)
    then 3
    else 0

-- White space in bytes that are spaces; the first number of bytes belongs to a white space.
unfoldable pub with_spaces : ℕ → Text → Text
with_spaces k [] = []
with_spaces zero (c ∷ s) =
    let n = space_bytes (c ∷ s) in (if n == 0 then c else 32) ∷ with_spaces (n - 1) s
with_spaces (suc k) (c ∷ s) = 32 ∷ with_spaces k s

-- strings.Fields
unfoldable pub fields : Text → List Text
fields s = words (with_spaces 0 s)

unfoldable pub has_scope : List Text → Text → Bool
has_scope list s = any (λ x. x == s) list

-- The words in their order, each at its first place; `seen` holds those that were met.
unfoldable pub dedup : List Text → List Text → List Text
dedup seen [] = []
dedup seen (sc ∷ words) =
    let skip = dedup seen words in
    let keep = sc ∷ dedup (sc ∷ seen) words in if has_scope seen sc then skip else keep

unfoldable pub parse_scopes : Text → List Text
parse_scopes s = dedup [] (fields s)

-- strings.Join(s, " ")
unfoldable pub join_scopes : List Text → Text
join_scopes [] = []
join_scopes (x ∷ []) = x
join_scopes (x ∷ y ∷ xs) = x ++ (32 ∷ join_scopes (y ∷ xs))

unfoldable pub contains_all : List Text → List Text → Bool
contains_all have want = all (λ s. has_scope have s) want

unfoldable pub union_scopes : List Text → List Text → List Text
union_scopes a b = parse_scopes (join_scopes a ++ (32 ∷ join_scopes b))

unfoldable pub is_unreserved : ℕ → Bool
is_unreserved r =
    (leb b'A' r && leb r b'Z')
    || ((leb b'a' r && leb r b'z')
        || ((leb b'0' r && leb r b'9')
            || (nat_beq r b'-' || (nat_beq r b'.' || (nat_beq r b'_' || nat_beq r b'~')))))

unfoldable pub valid_challenge : Text → Bool
valid_challenge c =
    nat_beq (length c) 43
    && all (λ r. not (not (is_unreserved r) || (nat_beq r b'.' || nat_beq r b'~'))) c

unfoldable pub valid_verifier : Text → Bool
valid_verifier v = not (ltb (length v) 43 || ltb 128 (length v)) && all is_unreserved v

-- base64url(sha256(v)) is the parameter.
unfoldable pub verify_s256 : (Text → Text) → Text → Text → Bool
verify_s256 s256 verifier challenge = valid_verifier verifier && s256 verifier == challenge
