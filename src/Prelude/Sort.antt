-- ===== src/Prelude/Sort.antt =====
-- sort.Slice as an insertion sort, and the byte order of texts.
use Prim.Native.Nat.{suc}
use mathlib.Core.Path.{◌≡◌, refl}
use mathlib.Core.Logic.{◌⊎◌, inl, inr}
use mathlib.Core.Bool.{Bool, true, false, ◌&&◌, ◌||◌}
use mathlib.Core.List.{List, [], ◌∷◌}
use native.Mathlib.Omega.{arith}
use go_idento.Prelude.Tests.{ltb, nat_beq, if◌then◌else◌, Bool-cases}
use go_idento.Prelude.Lists.{In, Pairwise, length}
use go_idento.Prelude.Bytes.{Text}

unfoldable pub text_ltb : Text → Text → Bool
text_ltb s [] = false
text_ltb [] (d ∷ t) = true
text_ltb (c ∷ s) (d ∷ t) = ltb c d || (nat_beq c d && text_ltb s t)

module _ {A : Type 0} (less : A → A → Bool) where
  unfoldable pub insert_sorted : A → List A → List A
  insert_sorted x [] = x ∷ []
  insert_sorted x (y ∷ ys) = if less y x then y ∷ insert_sorted x ys else x ∷ (y ∷ ys)

  unfoldable pub sort_by : List A → List A
  unfolding insert_sorted
  sort_by [] = []
  sort_by (x ∷ xs) = insert_sorted x (sort_by xs)

  In-insert_sorted : (a x : A) (xs : List A) → In a (insert_sorted x xs) → (a ≡ x) ⊎ In a xs
  unfolding insert_sorted
  In-insert_sorted a x [] i = i
  In-insert_sorted a x (y ∷ ys) i = ground (arith, In-insert_sorted a x ys)

  insert_sorted-In : (a x : A) (xs : List A) → (a ≡ x) ⊎ In a xs → In a (insert_sorted x xs)
  unfolding insert_sorted
  insert_sorted-In a x [] i = i
  insert_sorted-In a x (y ∷ ys) i = ground (arith, insert_sorted-In a x ys)

  -- Sorting keeps the elements.
  pub In-sort_by : (a : A) (xs : List A) → In a (sort_by xs) → In a xs
  unfolding sort_by
  In-sort_by a [] i = i
  In-sort_by a (x ∷ xs) i = ground (arith, In-insert_sorted a x (sort_by xs) i, In-sort_by a xs)

  pub sort_by-In : (a : A) (xs : List A) → In a xs → In a (sort_by xs)
  unfolding sort_by
  sort_by-In a [] i = i
  sort_by-In a (x ∷ xs) i = ground (arith, insert_sorted-In a x (sort_by xs), sort_by-In a xs)

  length-insert_sorted : (x : A) (xs : List A) → length (insert_sorted x xs) ≡ suc (length xs)
  unfolding insert_sorted
  length-insert_sorted x [] = refl
  length-insert_sorted x (y ∷ ys) = ground (arith, length-insert_sorted x ys)

  pub length-sort_by : (xs : List A) → length (sort_by xs) ≡ length xs
  unfolding sort_by
  length-sort_by [] = refl
  length-sort_by (x ∷ xs) = ground (arith, length-insert_sorted x (sort_by xs), length-sort_by xs)

  insert_sorted-Pairwise :
      (R : A → A → Type 0)
      → ((a b : A) → R a b → R b a)
      → (x : A) (xs : List A) → ((y : A) → In y xs → R x y)
      → Pairwise R xs
      → Pairwise R (insert_sorted x xs)
  unfolding insert_sorted
  insert_sorted-Pairwise R flip x [] h p = (h, p)
  insert_sorted-Pairwise R flip x (y ∷ ys) h p = elim (Bool-cases (less y x)) [
    | inr first ↦ rw first (h, p)
    | inl later ↦ rw later (
      λ z i. elim (In-insert_sorted z x ys i) [
        | inl e ↦ rw e (flip x y (h y (inl refl)))
        | inr m ↦ p.0 z m
      ],
      insert_sorted-Pairwise R flip x ys (λ z i. h z (inr i)) p.1,
    )
  ]

  -- Sorting keeps a relation between any two elements.
  pub sort_by-Pairwise :
      (R : A → A → Type 0)
      → ((a b : A) → R a b → R b a)
      → (xs : List A) → Pairwise R xs
      → Pairwise R (sort_by xs)
  unfolding sort_by
  sort_by-Pairwise R flip [] p = tt
  sort_by-Pairwise R flip (x ∷ xs) p =
      insert_sorted-Pairwise R flip x (sort_by xs) (λ y i. p.0 y (In-sort_by y xs i))
        (sort_by-Pairwise R flip xs p.1)
