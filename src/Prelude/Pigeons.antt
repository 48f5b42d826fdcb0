-- ===== src/Prelude/Pigeons.antt =====
-- Lists without repetitions: one that lies within another is no longer.
use Prim.Native.Nat.{ℕ, suc, ◌≤◌}
use mathlib.Core.Path.{◌≡◌, refl, sym}
use mathlib.Core.Logic.{◌≢◌, inl, inr}
use mathlib.Core.Bool.{true}
use mathlib.Core.List.{List, [], ◌∷◌}
use native.Mathlib.Omega.{arith}
use go_idento.Prelude.Tests.{if◌then◌else◌, nat_beq}
use go_idento.Prelude.Lists.{length, any, In, Pairwise}

abbrev pub Within : List ℕ → List ℕ → Type 0
Within xs ys = (c : ℕ) → In c xs → In c ys

abbrev pub AllDifferent : List ℕ → Type 0
AllDifferent xs = Pairwise (λ a b. a ≢ b) xs

-- The list without the first occurrence.
drop_one : ℕ → List ℕ → List ℕ
drop_one x [] = []
drop_one x (y ∷ ys) = if nat_beq x y then ys else y ∷ drop_one x ys

length-drop_one : (x : ℕ) (ys : List ℕ) → In x ys → suc (length (drop_one x ys)) ≡ length ys
unfolding drop_one
length-drop_one x [] i = absurd i
length-drop_one x (y ∷ ys) (inl e) = ground arith
length-drop_one x (y ∷ ys) (inr i) = ground (arith, length-drop_one x ys i)

In-drop_one : (x c : ℕ) (ys : List ℕ) → In c ys → c ≢ x → In c (drop_one x ys)
unfolding drop_one
In-drop_one x c [] i n = absurd i
In-drop_one x c (y ∷ ys) (inl e) n = ground arith
In-drop_one x c (y ∷ ys) (inr i) n = ground (arith, In-drop_one x c ys i n)

pub length-le-of-Within : (xs ys : List ℕ) → AllDifferent xs → Within xs ys → length xs ≤ length ys
length-le-of-Within [] ys d within = omega arith
length-le-of-Within (x ∷ xs) ys (d, ds) within =
    let rest : Within xs (drop_one x ys) =
      λ c i. In-drop_one x c ys (within c (inr i)) (λ e. d c i (sym e)) in
    omega (
      arith,
      length-le-of-Within xs (drop_one x ys) ds rest,
      length-drop_one x ys (within x (inl refl)),
    )

pub any-In : (r : ℕ) (rs : List ℕ) → any (λ a. nat_beq a r) rs ≡ true → In r rs
unfolding any
any-In r [] h = ground arith
any-In r (a ∷ rs) h = ground (arith, any-In r rs)

pub In-any : (r : ℕ) (rs : List ℕ) → In r rs → any (λ a. nat_beq a r) rs ≡ true
unfolding any
In-any r [] i = absurd i
In-any r (a ∷ rs) i = ground (arith, In-any r rs)
