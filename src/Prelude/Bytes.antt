-- ===== src/Prelude/Bytes.antt =====
-- Go strings as sequences of bytes, and what the program asks of package strings.
use Prim.Native.Nat.{ℕ}
use Prim.Native.Char.{code}
use Prim.Native.String.{String}
use mathlib.Core.Path.{◌≡◌, refl, ◌∙◌, ap}
use mathlib.Core.Logic.{◌↔◌, inl, inr}
use mathlib.Core.Bool.{Bool, true, false, ◌&&◌}
use mathlib.Core.List.{List, [], ◌∷◌, ◌++◌}
use mathlib.Core.Option.{Option, none, some}
use native.Mathlib.Omega.{arith}
use go_idento.Prelude.Tests.{nat_beq, nat_beq_iff, if◌then◌else◌, Bool-cases}
use go_idento.Prelude.Equality.{Eq}

abbrev pub Text : Type 0
Text = List ℕ

-- The bytes of an ASCII literal.
abbrev pub codes : String → Text
codes String.[] = []
codes (String.◌∷◌ c s) = code c ∷ codes s

unfoldable pub text_beq : Text → Text → Bool
text_beq [] [] = true
text_beq [] (d ∷ t) = false
text_beq (c ∷ s) [] = false
text_beq (c ∷ s) (d ∷ t) = nat_beq c d && text_beq s t

pub text_beq_iff : (s t : Text) → (text_beq s t ≡ true) ↔ (s ≡ t)
unfolding text_beq
text_beq_iff [] [] = ground arith
text_beq_iff [] (d ∷ t) = ground arith
text_beq_iff (c ∷ s) [] = ground arith
text_beq_iff (c ∷ s) (d ∷ t) = ground (arith, nat_beq_iff c d, text_beq_iff s t)

instance abbrev pub text_eq : Eq Text
text_eq = record { beq = text_beq; beq_iff = text_beq_iff }

-- strings.HasPrefix
unfoldable pub has_prefix : Text → Text → Bool
has_prefix s [] = true
has_prefix [] (d ∷ t) = false
has_prefix (c ∷ s) (d ∷ t) = nat_beq c d && has_prefix s t

pub has_prefix-append : (t s : Text) → has_prefix (t ++ s) t ≡ true
unfolding has_prefix
has_prefix-append [] s = refl
has_prefix-append (c ∷ t) s = ground (arith, has_prefix-append t s)

abbrev onto : ℕ → List Text → List Text
onto c [] = (c ∷ []) ∷ []
onto c (word ∷ words) = (c ∷ word) ∷ words

-- strings.Split at one byte.
unfoldable pub split : ℕ → Text → List Text
split c [] = [] ∷ []
split c (d ∷ s) = if nat_beq d c then [] ∷ split c s else onto d (split c s)

-- strings.Join with one byte.
unfoldable pub join : ℕ → List Text → Text
join c [] = []
join c (word ∷ []) = word
join c (word ∷ next ∷ words) = word ++ (c ∷ join c (next ∷ words))

-- The byte does not occur.
abbrev pub Lacks : ℕ → Text → Type 0
Lacks c [] = Unit
Lacks c (d ∷ s) = (nat_beq d c ≡ false) × Lacks c s

abbrev pub EachLacks : ℕ → List Text → Type 0
EachLacks c [] = Unit
EachLacks c (word ∷ words) = Lacks c word × EachLacks c words

onto-EachLacks :
    (c d : ℕ) (words : List Text)
    → nat_beq d c ≡ false
    → EachLacks c words
    → EachLacks c (onto d words)
onto-EachLacks c d [] e h = ((e, tt), tt)
onto-EachLacks c d (word ∷ words) e (a, b) = ((e, a), b)

pub split-EachLacks : (c : ℕ) (s : Text) → EachLacks c (split c s)
unfolding split
split-EachLacks c [] = (tt, tt)
split-EachLacks c (d ∷ s) = elim (Bool-cases (nat_beq d c)) [
  | inl e ↦ rw e (tt, split-EachLacks c s)
  | inr e ↦ rw e (onto-EachLacks c d (split c s) e (split-EachLacks c s))
]

split-word : (c : ℕ) (word : Text) → Lacks c word → split c word ≡ word ∷ []
unfolding split
split-word c [] h = refl
split-word c (d ∷ word) (e, h) = rw (e, split-word c word h) refl

split-append : (c : ℕ) (word s : Text) → Lacks c word → split c (word ++ (c ∷ s)) ≡ word ∷ split c s
unfolding split
split-append c [] s h = rw ((nat_beq_iff c c).1 refl) refl
split-append c (d ∷ word) s (e, h) = rw (e, split-append c word s h) refl

-- Words without the byte are found again.
pub split-join :
    (c : ℕ) (word : Text) (words : List Text)
    → EachLacks c (word ∷ words)
    → split c (join c (word ∷ words)) ≡ word ∷ words
unfolding join
split-join c word [] (h, _) = split-word c word h
split-join c word (next ∷ words) (h, hs) =
    split-append c word (join c (next ∷ words)) h ∙ ap (λ r. word ∷ r) (split-join c next words hs)

-- strings.Cut at one byte.
unfoldable pub cut : ℕ → Text → Option (Text × Text)
cut c [] = none
cut c (d ∷ s) =
    if nat_beq d c
    then some ([], s)
    else (elim (cut c s) [ none ↦ none | some (a, b) ↦ some (d ∷ a, b) ])
