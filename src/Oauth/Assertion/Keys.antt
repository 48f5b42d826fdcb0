-- ===== src/Oauth/Assertion/Keys.antt =====
-- oauth/client_assertion.go: which keys an assertion is verified with.
use go_idento.Prelude.{
  ◌≡◌, ◌⊎◌, sym, inl, inr, subst, Bool, true, false, Option, some, List, [], ◌∷◌, arith, ◌==◌, Text,
  text_eq, text_beq_iff, codes, In, keep-In, Option-cases, Bool-cases,
}
use go_idento.Oauth.Server.{ResolvedClient, ClientKey, rsa, ec}
use go_idento.Oauth.Assertion.{fits, pick, unless_empty, key_set}

-- The algorithm of the token is that of the key's type, and the one that the key names, if any.
abbrev pub IsFor : Text → ClientKey → Type 0
IsFor alg k =
    (k.alg ≡ [] ⊎ k.alg ≡ alg)
    × (((k.key_type ≡ rsa) × (alg ≡ codes "RS256")) ⊎ ((k.key_type ≡ ec) × (alg ≡ codes "ES256")))

fits-IsFor : (k : ClientKey) (alg : Text) → fits k alg ≡ true → IsFor alg k
unfolding fits
fits-IsFor k alg h = ground (
  arith,
  text_beq_iff k.alg [],
  text_beq_iff k.alg alg,
  text_beq_iff alg (codes "RS256"),
  text_beq_iff alg (codes "ES256"),
)

unless_empty-some : (ks set : List ClientKey) → unless_empty ks ≡ some set → ks ≡ set
unless_empty-some [] set h = ground arith
unless_empty-some (k ∷ ks) set h = ground arith

pick-ok :
    (keys : List ClientKey) (alg kid : Text) (k : ClientKey)
    → In k (pick keys alg kid)
    → In k keys × IsFor alg k × (kid ≡ [] ⊎ k.kid ≡ kid)
unfolding pick
pick-ok keys alg kid k i =
    let (there, passed) = keep-In _ k keys i in
    (
      there,
      fits-IsFor k alg (ground arith),
      ground (arith, text_beq_iff kid [], text_beq_iff k.kid kid),
    )

module _ (keys_at : Text → Bool → Option (List ClientKey)) (client : ResolvedClient)
    (alg kid : Text) where
  -- The client published the key: inline, or at its URI.
  abbrev pub Published : ClientKey → Type 0
  Published k =
      ((client.jwks_uri ≡ []) × In k client.keys)
      ⊎ ((again : Bool) × (keys : List ClientKey) × (keys_at client.jwks_uri again ≡ some keys)
          × In k keys)

  abbrev pub Suits : ClientKey → Type 0
  Suits k = IsFor alg k × (kid ≡ [] ⊎ k.kid ≡ kid) × Published k

  from_picked :
      (keys set : List ClientKey) (k : ClientKey)
      → unless_empty (pick keys alg kid) ≡ some set
      → In k set
      → (In k keys → Published k)
      → Suits k
  from_picked keys set k e i published =
      let (there, suits, named) =
        pick-ok keys alg kid k (subst (λ l. In k l) (sym (unless_empty-some _ set e)) i) in
      (suits, named, published there)

  -- An assertion is verified only with keys that its client published, inline or at its URI, whose type
  -- is that of the algorithm of the assertion, RS256 for RSA and ES256 for EC, whose own algorithm, if
  -- they name one, is that algorithm too, and whose `kid` is that of the assertion, if it names one.
  pub key_set-Suits :
      (set : List ClientKey) (k : ClientKey)
      → key_set keys_at client alg kid ≡ some set
      → In k set
      → Suits k
  unfolding key_set
  key_set-Suits set k h i = elim (Bool-cases (client.jwks_uri == [])) [
    | inl e ↦ elim (Option-cases (unless_empty (pick client.keys alg kid))) [
      | inl n ↦ absurd (ground (arith, rw (e, key_set, n) at h))
      | inr (found, n) ↦
          from_picked client.keys set k (ground (arith, rw (e, key_set, n) at h, n)) i
            (λ there. inl ((text_beq_iff client.jwks_uri []).0 e, there))
    ]
    | inr e ↦ elim (Option-cases (keys_at client.jwks_uri false)) [
      | inl f ↦ absurd (ground (arith, rw (e, key_set, f) at h))
      | inr (keys, f) ↦ elim (Option-cases (unless_empty (pick keys alg kid))) [
        | inr (found, n) ↦
            from_picked keys set k (ground (arith, rw (e, key_set, f, n) at h, n)) i
              (λ there. inr (false, keys, f, there))
        | inl n ↦ elim (Option-cases (keys_at client.jwks_uri true)) [
          | inl g ↦ absurd (ground (arith, rw (e, key_set, f, n, g) at h))
          | inr (later, g) ↦
              from_picked later set k (ground (arith, rw (e, key_set, f, n, g) at h)) i
                (λ there. inr (true, later, g, there))
        ]
      ]
    ]
  ]
