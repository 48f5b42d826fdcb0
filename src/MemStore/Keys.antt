-- ===== src/MemStore/Keys.antt =====
-- stores/memstore/memstore.go: when the composed keys tell their owners apart. A part that holds no
-- bar is recovered from the key.
use go_idento.Prelude.{
  ◌≡◌, refl, ◌≢◌, true, [], ◌∷◌, ◌++◌, arith, Text, has_prefix, has_prefix-append, subst,
}
use go_idento.MemStore.State.{token_key, login_key, consent_key, token_prefix, bar}
use mathlib.Core.List.{append_assoc}

-- No byte of the text is the bar.
abbrev pub IsPlain : Text → Type 0
IsPlain [] = Unit
IsPlain (c ∷ s) = (c ≢ b'|') × IsPlain s

before_bar :
    (a b r : Text)
    → IsPlain a
    → IsPlain b
    → has_prefix (b ++ (b'|' ∷ r)) (a ++ (b'|' ∷ [])) ≡ true
    → a ≡ b
unfolding has_prefix
before_bar [] [] r p q h = refl
before_bar [] (d ∷ b) r p q h = ground arith
before_bar (c ∷ a) [] r p q h = ground arith
before_bar (c ∷ a) (d ∷ b) r p q h = ground (arith, before_bar a b r p.1 q.1)

split_bar :
    (a b r t : Text) → IsPlain a → IsPlain b → a ++ (b'|' ∷ r) ≡ b ++ (b'|' ∷ t) → (a ≡ b) × (r ≡ t)
split_bar [] [] r t p q h = (refl, ground arith)
split_bar [] (d ∷ b) r t p q h = ground arith
split_bar (c ∷ a) [] r t p q h = ground arith
split_bar (c ∷ a) (d ∷ b) r t p q h = ground (arith, split_bar a b r t p.1 q.1)

-- A token key that begins like the keys of a user is a key of this user.
pub owner_of_token_key :
    (id j provider name : Text)
    → IsPlain id
    → IsPlain j
    → has_prefix (token_key j provider name) (token_prefix id) ≡ true
    → id ≡ j
unfolding token_key token_prefix
owner_of_token_key id j provider name p q h = before_bar id j _ p q h

pub has_prefix-token_key :
    (id provider name : Text) → has_prefix (token_key id provider name) (token_prefix id) ≡ true
unfolding token_key token_prefix
has_prefix-token_key id provider name =
    subst (λ t. has_prefix t (id ++ bar) ≡ true) (append_assoc id bar (provider ++ (bar ++ name)))
      (has_prefix-append (id ++ bar) _)

pub login_key-injective :
    (p q k l : Text) → IsPlain p → IsPlain q → login_key p k ≡ login_key q l → (p ≡ q) × (k ≡ l)
unfolding login_key
login_key-injective p q k l hp hq h = split_bar p q k l hp hq h

pub consent_key-injective :
    (u v c d : Text) → IsPlain u → IsPlain v → consent_key u c ≡ consent_key v d → (u ≡ v) × (c ≡ d)
unfolding consent_key
consent_key-injective u v c d hu hv h = split_bar u v c d hu hv h
